-- ===== src/Release/Order.antt =====
-- scripts/frogalert-version.mjs: the comparison of versions is a total order, and versions only advance.
use frogalert.Prelude.{
  ℕ, ◌≡◌, arith, ◌∙◌, ◌↔◌, refl, ok, throw_if, ◌>>=◌, ◌>>◌, bound, subst, true, passed, ◌==◌,
  guarded, sym, ap, ltb, length, ◌<◌, ◌≢◌, ◌⊎◌,
}
use frogalert.Prelude.Comparison.{same, opposite, greater, Comparison}
use frogalert.Prelude.Bytes.{same_bytes}
use mathlib.Core.Bool.{not}
use frogalert.Release.Version.{
  channel_rank, compare_then, Channel, require_firmware_version_bump, compare_values, Version,
  validate_firmware_version, compare_firmware_versions, Metadata, parsed_firmware_version,
  is_greater, not_advanced, bad_schema, compact_firmware_version, bad_display, display_shape,
  display_too_long, alpha, stable, beta, rc,
}

compare_then-opposite :
    (a b : ℕ) (r s : Comparison)
    → r ≡ opposite s
    → compare_then a b r ≡ opposite (compare_then b a s)
unfolding compare_then opposite
compare_then-opposite a b r s e = ground arith

compare_then_transitive :
    (a b c : ℕ) (r s t : Comparison)
    → (r ≡ greater → s ≡ greater → t ≡ greater)
    → compare_then a b r ≡ greater
    → compare_then b c s ≡ greater
    → compare_then a c t ≡ greater
unfolding compare_then
compare_then_transitive a b c r s t k h g = ground arith

rank-injective : (c d : Channel) → channel_rank c ≡ channel_rank d → c ≡ d
unfolding channel_rank
rank-injective c d h = ground arith

compare_then-same : (a b : ℕ) (r : Comparison) → compare_then a b r ≡ same → (a ≡ b) × (r ≡ same)
unfolding compare_then
compare_then-same a b r h = ground arith

compare_then_equal : (a : ℕ) (r : Comparison) → compare_then a a r ≡ r
unfolding compare_then
compare_then_equal a r = ground arith

compare_values-opposite : (a b : Version) → compare_values a b ≡ opposite (compare_values b a)
unfolding compare_values opposite
compare_values-opposite a b = compare_then-opposite a.major b.major _ _ (
    compare_then-opposite a.minor b.minor _ _ (
      compare_then-opposite a.patch b.patch _ _ (
        compare_then-opposite (channel_rank a.channel) (channel_rank b.channel) _ _
          (compare_then-opposite a.iteration b.iteration same same refl))))

compare_values-same : (a b : Version) → compare_values a b ≡ same → a ≡ b
unfolding compare_values
compare_values-same a b h =
    let (e0, h0) = compare_then-same a.major b.major _ h in
    let (e1, h1) = compare_then-same a.minor b.minor _ h0 in
    let (e2, h2) = compare_then-same a.patch b.patch _ h1 in
    let (e3, h3) = compare_then-same (channel_rank a.channel) (channel_rank b.channel) _ h2 in
    let (e4, _) = compare_then-same a.iteration b.iteration same h3 in
    let c = rank-injective a.channel b.channel e3 in cc (e0, e1, e2, e4, c)

compare_values_self : (a : Version) → compare_values a a ≡ same
unfolding compare_values
compare_values_self a =
    compare_then_equal a.major _
    ∙ compare_then_equal a.minor _
    ∙ compare_then_equal a.patch _
    ∙ compare_then_equal (channel_rank a.channel) _
    ∙ compare_then_equal a.iteration same

compare_values_transitive :
    (a b c : Version)
    → compare_values a b ≡ greater
    → compare_values b c ≡ greater
    → compare_values a c ≡ greater
unfolding compare_values
compare_values_transitive a b c = compare_then_transitive a.major b.major c.major _ _ _ (
    compare_then_transitive a.minor b.minor c.minor _ _ _ (
      compare_then_transitive a.patch b.patch c.patch _ _ _ (
        compare_then_transitive (channel_rank a.channel) (channel_rank b.channel)
          (channel_rank c.channel) _ _ _
          (compare_then_transitive a.iteration b.iteration c.iteration same same same (λ p q. p)))))

-- The comparison of versions is a total order: swapping the sides swaps the verdict, it is "the same"
-- exactly for versions with the same numbers and the same channel, and what is above is transitive.
pub compare_values_ordered :
    (a b c : Version)
    → (compare_values a b ≡ opposite (compare_values b a))
      × ((compare_values a b ≡ same) ↔ (a ≡ b))
      × (compare_values a b ≡ greater → compare_values b c ≡ greater → compare_values a c ≡ greater)
compare_values_ordered a b c = (
  compare_values-opposite a b,
  (compare_values-same a b, λ e. subst (λ d. compare_values a d ≡ same) e (compare_values_self a)),
  compare_values_transitive a b c,
)

validate_firmware_version_lem : (m w : Metadata) → validate_firmware_version m ≡ ok w → m ≡ w
unfolding validate_firmware_version
validate_firmware_version_lem m w h =
    let (_, h1) = passed (throw_if (not (m.schema_version == 1)) bad_schema) _ h in
    let (compact, _, h2) = bound (compact_firmware_version m.version) _ h1 in
    let (_, h3) = passed (throw_if (not (same_bytes m.display_version compact)) bad_display) _ h2 in
    let (_, h4) = passed (display_shape m.display_version) _ h3 in
    let (_, h5) = passed (throw_if (ltb 10 (length m.display_version)) display_too_long) _ h4 in
    cc h5

greater_only : (c : Comparison) → is_greater c ≡ true → c ≡ greater
unfolding is_greater
greater_only c h = ground arith

-- The versions that an accepted bump compares.
compared_facts :
    (p c w : Metadata)
    → (do
      compared ← compare_firmware_versions c.version p.version
      throw_if (not (is_greater compared)) not_advanced
      ok c)
      ≡ ok w
    → (a : Version) × (b : Version) × (parsed_firmware_version c.version ≡ ok a)
      × (parsed_firmware_version p.version ≡ ok b)
      × (compare_values a b ≡ greater)
unfolding compare_firmware_versions
compared_facts p c w h =
    let (r, made, h1) = bound (compare_firmware_versions c.version p.version) _ h in
    let (a, left, h2) = bound (parsed_firmware_version c.version) _ made in
    let (b, right, h3) = bound (parsed_firmware_version p.version) _ h2 in
    let (above, _) = guarded (is_greater r) not_advanced h1 in
    let e : compare_values a b ≡ r = cc h3 in (a, b, left, right, e ∙ greater_only r above)

-- What an accepted bump says.
bump_facts :
    (previous current w : Metadata)
    → require_firmware_version_bump previous current ≡ ok w
    → (a : Version) × (b : Version) × (validate_firmware_version previous ≡ ok previous)
      × (validate_firmware_version current ≡ ok current)
      × (parsed_firmware_version current.version ≡ ok a)
      × (parsed_firmware_version previous.version ≡ ok b)
      × (compare_values a b ≡ greater)
unfolding require_firmware_version_bump
bump_facts previous current w h =
    let (p, first, h1) = bound (validate_firmware_version previous) _ h in
    let (c, second, h2) = bound (validate_firmware_version current) _ h1 in
    let (a, b, left, right, above) = compared_facts p c w h2 in
    let e = sym (validate_firmware_version_lem previous p first) in
    let f = sym (validate_firmware_version_lem current c second) in
    (
      a,
      b,
      first ∙ ap ok e,
      second ∙ ap ok f,
      subst (λ m. parsed_firmware_version m.version ≡ ok a) f left,
      subst (λ m. parsed_firmware_version m.version ≡ ok b) e right,
      above,
    )

-- An accepted bump gives back the current metadata.
bump_result :
    (previous current w : Metadata)
    → require_firmware_version_bump previous current ≡ ok w
    → w ≡ current
unfolding require_firmware_version_bump
bump_result previous current w h =
    let (p, _, h1) = bound (validate_firmware_version previous) _ h in
    let (c, second, h2) = bound (validate_firmware_version current) _ h1 in
    let (r, _, h3) = bound (compare_firmware_versions c.version p.version) _ h2 in
    let (_, h4) = guarded (is_greater r) not_advanced h3 in
    let e = validate_firmware_version_lem current c second in cc (e, h4)

-- The order of the channels: alpha, beta, rc, stable.
abbrev pub IsEarlier : Channel → Channel → Type 0
IsEarlier c d = (c ≢ d) × ((c ≡ alpha) ⊎ (d ≡ stable) ⊎ ((c ≡ beta) × (d ≡ rc)))

-- The first version comes after the second: it has the larger number, or the later channel, at the
-- first place where they differ.
abbrev pub IsAfter : Version → Version → Type 0
IsAfter a b =
    (b.major < a.major)
    ⊎ ((a.major ≡ b.major)
        × ((b.minor < a.minor)
            ⊎ ((a.minor ≡ b.minor)
                × ((b.patch < a.patch)
                    ⊎ ((a.patch ≡ b.patch)
                        × (IsEarlier b.channel a.channel
                            ⊎ ((a.channel ≡ b.channel) × (b.iteration < a.iteration))))))))

compare_then-greater :
    (a b : ℕ) (r : Comparison) (P : Type 0)
    → (r ≡ greater) ↔ P
    → (compare_then a b r ≡ greater) ↔ ((b < a) ⊎ ((a ≡ b) × P))
unfolding compare_then
compare_then-greater a b r P h = ground (arith, h)

compare_last : (a b : ℕ) → (compare_then a b same ≡ greater) ↔ (b < a)
unfolding compare_then
compare_last a b = ground arith

rank-IsEarlier : (c d : Channel) → (channel_rank c < channel_rank d) ↔ IsEarlier c d
unfolding channel_rank
rank-IsEarlier c d = ground arith

compare_channels :
    (c d : Channel) (r : Comparison) (P : Type 0)
    → (r ≡ greater) ↔ P
    → (compare_then (channel_rank c) (channel_rank d) r ≡ greater) ↔ (IsEarlier d c ⊎ ((c ≡ d) × P))
unfolding compare_then
compare_channels c d r P h = ground (arith, h, rank-IsEarlier d c, rank-injective c d)

compare_values-greater : (a b : Version) → (compare_values a b ≡ greater) ↔ IsAfter a b
unfolding compare_values
compare_values-greater a b = compare_then-greater a.major b.major _ _ (
    compare_then-greater a.minor b.minor _ _ (
      compare_then-greater a.patch b.patch _ _
        (compare_channels a.channel b.channel _ _ (compare_last a.iteration b.iteration))))

-- Versions only advance: a change of the version is accepted, with the current metadata as the
-- result, exactly if both metadata are valid as they are and the current version comes after the
-- previous one: it has the larger number, or the later channel of alpha, beta, rc and stable, at the
-- first place where the two differ.
pub require_firmware_version_bump_iff :
    (previous current w : Metadata)
    → (require_firmware_version_bump previous current ≡ ok w) ↔ (
        (w ≡ current)
        × (validate_firmware_version previous ≡ ok previous)
        × (validate_firmware_version current ≡ ok current)
        × ((a : Version) × (b : Version) × (parsed_firmware_version current.version ≡ ok a)
            × (parsed_firmware_version previous.version ≡ ok b)
            × IsAfter a b))
unfolding require_firmware_version_bump compare_firmware_versions is_greater
require_firmware_version_bump_iff previous current w = (
  λ h.
      let (a, b, valid_previous, valid_current, left, right, above) =
        bump_facts previous current w h in
      (
        bump_result previous current w h,
        valid_previous,
        valid_current,
        (a, b, left, right, (compare_values-greater a b).0 above),
      ),
  λ (e, valid_previous, valid_current, (a, b, left, right, above)).
      let whole : compare_values a b ≡ greater = (compare_values-greater a b).1 above in
      rw valid_previous (rw valid_current (rw left (rw right (rw whole (ap ok (sym e)))))),
)
