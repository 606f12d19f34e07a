-- ===== src/Vectors.antt =====
-- scripts/audit-ch58x-vectors.mjs, `auditCh58xVectors`: the interrupt vectors of a linked image. The
-- map of symbols is the list of them, the map of bytes the list of its entries; what they are parsed
-- from is not modelled. A finding has no text.
pub mod Audit
use frogalert.Prelude.{
  ℕ, ◌+◌, ◌*◌, ◌%◌, ◌^◌, bit_or, Bool, true, false, not, ◌||◌, List, [], ◌∷◌, ◌++◌, Option, none,
  some, ◌==◌, if◌then◌else◌,
}
use frogalert.Prelude.Text.{Text, codes}
use frogalert.Prelude.Bytes.{same_bytes}

pub record Symbol : Type 0 where
  pub name : Text
  pub value : ℕ
  pub size : ℕ
  pub section : Text

pub record Byte : Type 0 where
  pub address : ℕ
  pub content : ℕ

pub data Issue : Type 0 where
  missing_symbol wrong_section : Text → Issue
  core_address external_address external_size exceptions_address : Issue
  tmr0_vector_missing tmr0_vector_target : Issue

abbrev pub highcode_section : Text
highcode_section = codes ".highcode"

abbrev pub ch58x_tmr0_irq : ℕ
ch58x_tmr0_irq = 16

abbrev pub vector_word_bytes : ℕ
vector_word_bytes = 4

unfoldable pub find_symbol : List Symbol → Text → Option Symbol
find_symbol [] name = none
find_symbol (symbol ∷ symbols) name =
    if same_bytes symbol.name name then some symbol else find_symbol symbols name

unfoldable pub find_byte : List Byte → ℕ → Option ℕ
find_byte [] address = none
find_byte (byte ∷ bytes) address =
    if byte.address == address then some byte.content else find_byte bytes address

-- One round of the loop over the four bytes.
unfoldable pub add_byte : Option ℕ → Option ℕ → ℕ → Option ℕ
add_byte none byte index = none
add_byte (some value) none index = none
add_byte (some value) (some byte) index = some (bit_or value (byte * 2 ^ (index * 8)))

unfoldable pub read_little_endian_u32 : List Byte → ℕ → Option ℕ
read_little_endian_u32 bytes address =
    let first = add_byte (some 0) (find_byte bytes address) 0 in
    let second = add_byte first (find_byte bytes (address + 1)) 1 in
    let third = add_byte second (find_byte bytes (address + 2)) 2 in
    add_byte third (find_byte bytes (address + 3)) 3

unfoldable pub issue_if : Bool → Issue → List Issue
issue_if true issue = issue ∷ []
issue_if false issue = []

unfoldable pub required : Text → Option Symbol → List Issue
required name none = missing_symbol name ∷ []
required name (some symbol) = []

unfoldable pub section_issues : Option Symbol → List Issue
section_issues none = []
section_issues (some symbol) =
    issue_if (not (same_bytes symbol.section highcode_section)) (wrong_section symbol.name)

unfoldable pub core_issues : Option Symbol → Option Symbol → List Issue
core_issues (some highcode_start) (some core) =
    issue_if (not (core.value == highcode_start.value + vector_word_bytes)) core_address
core_issues highcode_start core = []

unfoldable pub external_issues : Option Symbol → Option Symbol → List Issue
external_issues (some core) (some external) =
    issue_if (not (external.value == core.value + core.size)) external_address
    ++ issue_if (external.size == 0 || not (external.size % vector_word_bytes == 0)) external_size
external_issues core external = []

unfoldable pub exceptions_issues : Option Symbol → Option Symbol → List Issue
exceptions_issues (some external) (some exceptions) =
    issue_if (not (exceptions.value == external.value + external.size)) exceptions_address
exceptions_issues external exceptions = []

unfoldable pub vector_issues : Option ℕ → Symbol → List Issue
vector_issues none tmr0 = tmr0_vector_missing ∷ []
vector_issues (some tmr0_vector) tmr0 =
    issue_if (not (tmr0_vector == tmr0.value)) tmr0_vector_target

unfoldable pub tmr0_issues : Option Symbol → Option Symbol → List Byte → List Issue
tmr0_issues (some highcode_start) (some tmr0) bytes =
    vector_issues
      (read_little_endian_u32 bytes (highcode_start.value + ch58x_tmr0_irq * vector_word_bytes))
      tmr0
tmr0_issues highcode_start tmr0 bytes = []

pub record Vectors : Type 0 where
  pub highcode_start : Option Symbol
  pub core : Option Symbol
  pub external : Option Symbol
  pub exceptions : Option Symbol
  pub tmr0 : Option Symbol

unfoldable pub vectors_of : List Symbol → Vectors
vectors_of symbols = record {
  highcode_start = find_symbol symbols (codes "_highcode_vma_start");
  core = find_symbol symbols (codes "__CORE_INTERRUPTS");
  external = find_symbol symbols (codes "__EXTERNAL_INTERRUPTS");
  exceptions = find_symbol symbols (codes "__EXCEPTIONS");
  tmr0 = find_symbol symbols (codes "TMR0");
}

unfoldable pub missing_issues : Vectors → List Issue
missing_issues v =
    required (codes "_highcode_vma_start") v.highcode_start
    ++ (required (codes "__CORE_INTERRUPTS") v.core
        ++ (required (codes "__EXTERNAL_INTERRUPTS") v.external
            ++ (required (codes "__EXCEPTIONS") v.exceptions ++ required (codes "TMR0") v.tmr0)))

unfoldable pub all_section_issues : Vectors → List Issue
all_section_issues v =
    section_issues v.core
    ++ (section_issues v.external ++ (section_issues v.exceptions ++ section_issues v.tmr0))

unfoldable pub address_issues : Vectors → List Byte → List Issue
address_issues v bytes =
    core_issues v.highcode_start v.core
    ++ (external_issues v.core v.external
        ++ (exceptions_issues v.external v.exceptions ++ tmr0_issues v.highcode_start v.tmr0 bytes))

unfoldable pub audit_ch58x_vectors : List Symbol → List Byte → List Issue
audit_ch58x_vectors symbols highcode_bytes =
    let v = vectors_of symbols in
    missing_issues v ++ (all_section_issues v ++ address_issues v highcode_bytes)
