-- ===== src/Vectors/Audit.antt =====
-- scripts/audit-ch58x-vectors.mjs: which images the audit passes.
use frogalert.Prelude.{
  ℕ, ◌+◌, ◌%◌, ◌≡◌, ◌≢◌, refl, Bool, true, false, not, ◌||◌, List, [], ◌∷◌, ◌++◌, Option, none,
  some, ◌==◌, arith, ap, ◌↔◌,
}
use frogalert.Prelude.Bytes.{same_bytes, same_bytes-eq, same_bytes_refl}
use frogalert.Vectors.{
  Symbol, Byte, Issue, Vectors, highcode_section, read_little_endian_u32, issue_if, required,
  section_issues, core_issues, external_issues, exceptions_issues, vector_issues, tmr0_issues,
  all_section_issues, address_issues, audit_ch58x_vectors, missing_issues, vectors_of,
}

-- The vectors stand where the hardware and the linker script want them.
pub record IsLinked (v : Vectors) (bytes : List Byte) : Type 0 where
  pub start : Symbol
  pub core : Symbol
  pub external : Symbol
  pub exceptions : Symbol
  pub tmr0 : Symbol
  pub has_start : v.highcode_start ≡ some start
  pub has_core : v.core ≡ some core
  pub has_external : v.external ≡ some external
  pub has_exceptions : v.exceptions ≡ some exceptions
  pub has_tmr0 : v.tmr0 ≡ some tmr0
  pub core_section : core.section ≡ highcode_section
  pub external_section : external.section ≡ highcode_section
  pub exceptions_section : exceptions.section ≡ highcode_section
  pub tmr0_section : tmr0.section ≡ highcode_section
  pub core_next : core.value ≡ start.value + 4
  pub external_next : external.value ≡ core.value + core.size
  pub external_filled : external.size ≢ 0
  pub external_words : external.size % 4 ≡ 0
  pub exceptions_next : exceptions.value ≡ external.value + external.size
  pub tmr0_vector : read_little_endian_u32 bytes (start.value + 64) ≡ some tmr0.value

append-nothing : (xs ys : List Issue) → xs ++ ys ≡ [] → (xs ≡ []) × (ys ≡ [])
append-nothing [] ys h = (refl, h)
append-nothing (x ∷ xs) ys h = absurd (ground arith)

issue_if-nothing : (c : Bool) (issue : Issue) → issue_if c issue ≡ [] → c ≡ false
unfolding issue_if
issue_if-nothing true issue h = absurd (ground arith)
issue_if-nothing false issue h = refl

required-nothing :
    (name : List ℕ) (found : Option Symbol)
    → required name found ≡ []
    → (symbol : Symbol) × (found ≡ some symbol)
unfolding required
required-nothing name none h = absurd (ground arith)
required-nothing name (some symbol) h = (symbol, refl)

negated_eq : (a b : ℕ) → not (a == b) ≡ false → a ≡ b
negated_eq a b h = ground arith

negated_true : (c : Bool) → not c ≡ false → c ≡ true
negated_true c h = ground arith

section-nothing :
    (symbol : Symbol) → section_issues (some symbol) ≡ [] → symbol.section ≡ highcode_section
unfolding section_issues
section-nothing symbol h =
    same_bytes-eq symbol.section highcode_section
      (negated_true (same_bytes symbol.section highcode_section) (issue_if-nothing _ _ h))

words : (size : ℕ) → (size == 0 || not (size % 4 == 0)) ≡ false → (size ≢ 0) × (size % 4 ≡ 0)
words size h = (λ e. absurd (ground arith), ground arith)

vector-nothing :
    (found : Option ℕ) (tmr0 : Symbol) → vector_issues found tmr0 ≡ [] → found ≡ some tmr0.value
unfolding vector_issues
vector-nothing none tmr0 h = absurd (ground arith)
vector-nothing (some vector) tmr0 h =
    ap some (negated_eq vector tmr0.value (issue_if-nothing _ _ h))

-- The rest of the audit, when all symbols are there.
linked :
    (start core external exceptions tmr0 : Symbol) (bytes : List Byte)
    → let v : Vectors = record {
      highcode_start = some start;
      core = some core;
      external = some external;
      exceptions = some exceptions;
      tmr0 = some tmr0;
    } in
      all_section_issues v ++ address_issues v bytes ≡ [] → IsLinked v bytes
unfolding all_section_issues address_issues core_issues external_issues exceptions_issues
    tmr0_issues
linked start core external exceptions tmr0 bytes h =
    let (sections, addresses) = append-nothing _ _ h in
    let (s₁, sections₁) = append-nothing (section_issues (some core)) _ sections in
    let (s₂, sections₂) = append-nothing (section_issues (some external)) _ sections₁ in
    let (s₃, s₄) = append-nothing (section_issues (some exceptions)) _ sections₂ in
    let (a₁, addresses₁) = append-nothing (core_issues (some start) (some core)) _ addresses in
    let (a₂, addresses₂) =
      append-nothing (external_issues (some core) (some external)) _ addresses₁ in
    let (a₃, a₄) =
      append-nothing (exceptions_issues (some external) (some exceptions)) _ addresses₂ in
    let (e₁, e₂) = append-nothing (issue_if _ _) _ a₂ in
    let (filled, whole) = words external.size (issue_if-nothing _ _ e₂) in
    record {
      start = start;
      core = core;
      external = external;
      exceptions = exceptions;
      tmr0 = tmr0;
      has_start = refl;
      has_core = refl;
      has_external = refl;
      has_exceptions = refl;
      has_tmr0 = refl;
      core_section = section-nothing core s₁;
      external_section = section-nothing external s₂;
      exceptions_section = section-nothing exceptions s₃;
      tmr0_section = section-nothing tmr0 s₄;
      core_next = negated_eq core.value (start.value + 4) (issue_if-nothing _ _ a₁);
      external_next = negated_eq external.value (core.value + core.size) (issue_if-nothing _ _ e₁);
      external_filled = filled;
      external_words = whole;
      exceptions_next =
          negated_eq exceptions.value (external.value + external.size) (issue_if-nothing _ _ a₃);
      tmr0_vector = vector-nothing _ tmr0 a₄;
    }

-- Without a symbol there is an issue.
all-IsLinked :
    (start core external exceptions tmr0 : Option Symbol) (bytes : List Byte)
    → let v : Vectors = record {
      highcode_start = start;
      core = core;
      external = external;
      exceptions = exceptions;
      tmr0 = tmr0;
    } in
      missing_issues v ++ (all_section_issues v ++ address_issues v bytes) ≡ [] → IsLinked v bytes
unfolding missing_issues required
all-IsLinked none core external exceptions tmr0 bytes h = absurd (ground arith)
all-IsLinked (some s) none external exceptions tmr0 bytes h = absurd (ground arith)
all-IsLinked (some s) (some c) none exceptions tmr0 bytes h = absurd (ground arith)
all-IsLinked (some s) (some c) (some x) none tmr0 bytes h = absurd (ground arith)
all-IsLinked (some s) (some c) (some x) (some e) none bytes h = absurd (ground arith)
all-IsLinked (some s) (some c) (some x) (some e) (some t) bytes h = linked s c x e t bytes h

both_nothing : (xs ys : List Issue) → xs ≡ [] → ys ≡ [] → xs ++ ys ≡ []
both_nothing [] ys h k = k
both_nothing (x ∷ xs) ys h k = absurd (ground arith)

nothing_if : (c : Bool) (issue : Issue) → c ≡ false → issue_if c issue ≡ []
unfolding issue_if
nothing_if true issue h = absurd (ground arith)
nothing_if false issue h = refl

eq_negated : (a b : ℕ) → a ≡ b → not (a == b) ≡ false
eq_negated a b h = ground arith

required-some :
    (name : List ℕ) (found : Option Symbol) (symbol : Symbol)
    → found ≡ some symbol
    → required name found ≡ []
unfolding required
required-some name none symbol h = absurd (ground arith)
required-some name (some found) symbol h = refl

section_some :
    (found : Option Symbol) (symbol : Symbol)
    → found ≡ some symbol
    → symbol.section ≡ highcode_section
    → section_issues found ≡ []
unfolding section_issues
section_some none symbol h e = refl
section_some (some found) symbol h e =
    let same : found ≡ symbol = cc h in
    let at : same_bytes found.section highcode_section ≡ true =
      rw (same, e) (same_bytes_refl highcode_section) in
    nothing_if (not (same_bytes found.section highcode_section)) _ (rw at refl)

words_negated : (size : ℕ) → size ≢ 0 → size % 4 ≡ 0 → (size == 0 || not (size % 4 == 0)) ≡ false
words_negated size filled whole = ground arith

vector_some :
    (found : Option ℕ) (tmr0 : Symbol) → found ≡ some tmr0.value → vector_issues found tmr0 ≡ []
unfolding vector_issues
vector_some none tmr0 h = absurd (ground arith)
vector_some (some vector) tmr0 h =
    nothing_if (not (vector == tmr0.value)) _ (eq_negated vector tmr0.value (cc h))

linked_nothing :
    (v : Vectors) (bytes : List Byte)
    → IsLinked v bytes
    → missing_issues v ++ (all_section_issues v ++ address_issues v bytes) ≡ []
unfolding missing_issues all_section_issues address_issues core_issues external_issues
    exceptions_issues tmr0_issues
linked_nothing v bytes h =
    both_nothing (missing_issues v) _
      (both_nothing _ _ (required-some _ v.highcode_start h.start h.has_start) (
        both_nothing _ _ (required-some _ v.core h.core h.has_core) (
          both_nothing _ _ (required-some _ v.external h.external h.has_external) (
            both_nothing _ _ (required-some _ v.exceptions h.exceptions h.has_exceptions)
              (required-some _ v.tmr0 h.tmr0 h.has_tmr0)))))
      (both_nothing (all_section_issues v) _
        (both_nothing _ _ (section_some v.core h.core h.has_core h.core_section) (
          both_nothing _ _ (section_some v.external h.external h.has_external h.external_section) (
            both_nothing _ _
              (section_some v.exceptions h.exceptions h.has_exceptions h.exceptions_section)
              (section_some v.tmr0 h.tmr0 h.has_tmr0 h.tmr0_section))))
        (rw (h.has_start, h.has_core, h.has_external, h.has_exceptions, h.has_tmr0)
          (both_nothing _ _ (nothing_if _ _ (eq_negated _ _ h.core_next)) (
            both_nothing _ _
              (both_nothing _ _ (nothing_if _ _ (eq_negated _ _ h.external_next))
                (nothing_if _ _ (words_negated _ h.external_filled h.external_words)))
              (both_nothing _ _ (nothing_if _ _ (eq_negated _ _ h.exceptions_next))
                (vector_some _ h.tmr0 h.tmr0_vector))))))

-- The audit has no issue exactly if the five symbols are there, the tables and the handler are in the
-- section of the fast code, the core table comes one word after its start, the external table (of
-- whole words, and not empty) right after it and the exceptions after that, and the word of interrupt
-- 16 is the address of the TMR0 handler.
pub audit_ch58x_vectors_iff :
    (symbols : List Symbol) (bytes : List Byte)
    → (audit_ch58x_vectors symbols bytes ≡ []) ↔ IsLinked (vectors_of symbols) bytes
unfolding audit_ch58x_vectors
audit_ch58x_vectors_iff symbols bytes =
    let v : Vectors = vectors_of symbols in
    (
      λ h. all-IsLinked v.highcode_start v.core v.external v.exceptions v.tmr0 bytes h,
      linked_nothing v bytes,
    )
