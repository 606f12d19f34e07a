-- ===== src/Catalog/Groups.antt =====
-- site/wchisp-protocol.js, `validatePairedUsbCReleaseCatalog`: the groups hold, for each version, the
-- releases of that version in the order of the catalog.
use frogalert.Prelude.{
  ◌≤◌, ◌≡◌, refl, sym, ap, ◌∙◌, subst, arith, List, [], ◌∷◌, ◌++◌, length, Bool-cases, inl, inr,
  false, true, if◌then◌else◌, append_assoc, append-nil, length-append,
}
use frogalert.Catalog.Release.{text_of}
use frogalert.Prelude.Json.{Json, get}
use frogalert.Catalog.Paired.{add_to_groups, Group}
use frogalert.Prelude.Text.{Text}
use frogalert.Prelude.Bytes.{All, same_bytes, same_bytes-eq, same_bytes_refl}

abbrev pub version_of : Json → Text
version_of release = text_of (get release "version")

-- The releases of one version.
unfoldable pub of_version : Text → List Json → List Json
of_version version [] = []
of_version version (release ∷ releases) =
    let rest = of_version version releases in
    if same_bytes version (version_of release) then release ∷ rest else rest

of_version-append :
    (v : Text) (xs ys : List Json) → of_version v (xs ++ ys) ≡ of_version v xs ++ of_version v ys
unfolding of_version
of_version-append v [] ys = refl
of_version-append v (x ∷ xs) ys = ground (arith, of_version-append v xs ys)

-- No group has the version.
abbrev pub NoGroup : Text → List Group → Type 0
NoGroup v groups = All (λ g. same_bytes g.version v ≡ false) groups

abbrev pub Distinct : List Group → Type 0
Distinct [] = Unit
Distinct (g ∷ groups) = NoGroup g.version groups × Distinct groups

-- Every group holds the releases of its version, and a version without a group has no release.
abbrev pub Exact : List Json → Group → Type 0
Exact done g = (g.members ≡ of_version g.version done) × (1 ≤ length g.members)

NoGroup-add :
    (groups : List Group) (v w : Text) (release : Json)
    → NoGroup w (add_to_groups groups v release)
    → NoGroup w groups × (same_bytes v w ≡ false)
unfolding add_to_groups
NoGroup-add [] v w release h = (tt, h.0)
NoGroup-add (g ∷ groups) v w release h = elim (Bool-cases (same_bytes g.version v)) [
  | inl e ↦
      let k = rw e at h in
      (k, subst (λ x. same_bytes x w ≡ false) (same_bytes-eq g.version v e) k.0)
  | inr n ↦ let k = rw n at h in let (r, s) = NoGroup-add groups v w release k.1 in ((k.0, r), s)
]

add-NoGroup :
    (groups : List Group) (v w : Text) (release : Json)
    → NoGroup w groups
    → same_bytes v w ≡ false
    → NoGroup w (add_to_groups groups v release)
unfolding add_to_groups
add-NoGroup [] v w release h n = (n, tt)
add-NoGroup (g ∷ groups) v w release h n = elim (Bool-cases (same_bytes g.version v)) [
  | inl e ↦ rw e h
  | inr m ↦ rw m (h.0, add-NoGroup groups v w release h.1 n)
]

same_bytes_swap : (v w : Text) → same_bytes v w ≡ false → same_bytes w v ≡ false
same_bytes_swap v w n = elim (Bool-cases (same_bytes w v)) [
  | inl e ↦ let f = same_bytes-eq w v e in cc (f, n, same_bytes_refl v)
  | inr m ↦ m
]

add-Distinct :
    (groups : List Group) (v : Text) (release : Json)
    → Distinct groups
    → Distinct (add_to_groups groups v release)
unfolding add_to_groups
add-Distinct [] v release d = (tt, tt)
add-Distinct (g ∷ groups) v release d = elim (Bool-cases (same_bytes g.version v)) [
  | inl e ↦ rw e d
  | inr n ↦ rw n (
    add-NoGroup groups v g.version release d.0 (same_bytes_swap g.version v n),
    add-Distinct groups v release d.1,
  )
]

of_version_one_more :
    (v : Text) (done : List Json) (release : Json)
    → of_version v (done ++ (release ∷ []))
      ≡ of_version v done ++ (if same_bytes v (version_of release) then release ∷ [] else [])
unfolding of_version
of_version_one_more v done release = of_version-append v done (release ∷ [])

unchanged :
    (done : List Json) (release : Json) (g : Group)
    → same_bytes g.version (version_of release) ≡ false
    → Exact done g
    → Exact (done ++ (release ∷ [])) g
unchanged done release g n (e, k) = (
  e
      ∙ sym (append-nil (of_version g.version done))
      ∙ ap (λ b. of_version g.version done ++ (if b then release ∷ [] else [])) (sym n)
      ∙ sym (of_version_one_more g.version done release),
  k,
)

unchanged-All :
    (done : List Json) (release : Json) (groups : List Group)
    → NoGroup (version_of release) groups
    → All (Exact done) groups
    → All (Exact (done ++ (release ∷ []))) groups
unchanged-All done release [] n h = tt
unchanged-All done release (g ∷ groups) n h =
    (unchanged done release g n.0 h.0, unchanged-All done release groups n.1 h.1)

one_more :
    (done : List Json) (release : Json) (g : Group)
    → same_bytes g.version (version_of release) ≡ true
    → g.members ≡ of_version g.version done
    → Exact (done ++ (release ∷ [])) (record g { members = g.members ++ (release ∷ []) })
one_more done release g y e = (
  ap (λ l. l ++ (release ∷ [])) e
      ∙ ap (λ b. of_version g.version done ++ (if b then release ∷ [] else [])) (sym y)
      ∙ sym (of_version_one_more g.version done release),
  omega (arith, length-append g.members (release ∷ [])),
)

pub add-Exact :
    (groups : List Group) (done : List Json) (release : Json)
    → Distinct groups
    → (NoGroup (version_of release) groups → of_version (version_of release) done ≡ [])
    → All (Exact done) groups
    → All (Exact (done ++ (release ∷ []))) (add_to_groups groups (version_of release) release)
unfolding add_to_groups
add-Exact [] done release d none_yet h =
    let v = version_of release in
    (
      one_more done release (record { version = v; members = [] }) (same_bytes_refl v)
          (sym (none_yet tt)),
      tt,
    )
add-Exact (g ∷ groups) done release d none_yet h =
    elim (Bool-cases (same_bytes g.version (version_of release))) [
      | inl y ↦
          let e = same_bytes-eq g.version (version_of release) y in
          rw y (
            one_more done release g y h.0.0,
            unchanged-All done release groups (subst (λ v. NoGroup v groups) e d.0) h.1,
          )
      | inr n ↦ rw n (
        unchanged done release g n h.0,
        add-Exact groups done release d.1 (λ k. none_yet (n, k)) h.1,
      )
    ]

-- What holds of the groups after some releases.
pub record GroupsOf (done : List Json) (groups : List Group) : Type 0 where
  pub distinct : Distinct groups
  pub exact : All (Exact done) groups
  pub missing : (w : Text) → NoGroup w groups → of_version w done ≡ []

pub GroupsOf-add :
    (groups : List Group) (done : List Json) (release : Json)
    → GroupsOf done groups
    → GroupsOf (done ++ (release ∷ [])) (add_to_groups groups (version_of release) release)
GroupsOf-add groups done release g = record {
  distinct = add-Distinct groups (version_of release) release g.distinct;
  exact = add-Exact groups done release g.distinct (g.missing (version_of release)) g.exact;
  missing = λ w n.
      let (k, other) = NoGroup-add groups (version_of release) w release n in
      of_version_one_more w done release
      ∙ ap (λ b. of_version w done ++ (if b then release ∷ [] else []))
          (same_bytes_swap (version_of release) w other)
      ∙ append-nil (of_version w done)
      ∙ g.missing w k;
}

-- The loop, without its validation.
unfoldable pub add_all : List Json → List Group → List Group
add_all [] groups = groups
add_all (release ∷ releases) groups =
    add_all releases (add_to_groups groups (version_of release) release)

pub GroupsOf-add_all :
    (releases done : List Json) (groups : List Group)
    → GroupsOf done groups
    → GroupsOf (done ++ releases) (add_all releases groups)
unfolding add_all
GroupsOf-add_all [] done groups g = subst (λ l. GroupsOf l groups) (sym (append-nil done)) g
GroupsOf-add_all (release ∷ releases) done groups g =
    subst (λ l. GroupsOf l (add_all releases (add_to_groups groups (version_of release) release)))
      (append_assoc done (release ∷ []) releases)
      (GroupsOf-add_all releases (done ++ (release ∷ []))
        (add_to_groups groups (version_of release) release) (GroupsOf-add groups done release g))
