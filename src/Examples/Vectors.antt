-- ===== src/Examples/Vectors.antt =====
-- The audit of the interrupt vectors (scripts/audit-ch58x-vectors.mjs) at an image with a table of
-- 32 words.
use frogalert.Prelude.{ℕ, ◌≡◌, refl, ◌↔◌, List, [], ◌∷◌}
use frogalert.Prelude.Text.{Text, codes}
use frogalert.Prelude.Bytes.{same_bytes}
use frogalert.Vectors.{
  Symbol, Byte, audit_ch58x_vectors, vectors_of, find_symbol, find_byte, add_byte,
  read_little_endian_u32, issue_if, required, section_issues, core_issues, external_issues,
  exceptions_issues, vector_issues, tmr0_issues, missing_issues, all_section_issues, address_issues,
}
use frogalert.Vectors.Audit.{IsLinked, audit_ch58x_vectors_iff}

symbol : Text → ℕ → ℕ → Symbol
symbol name value size = record {
  name = name;
  value = value;
  size = size;
  section = codes ".highcode";
}

abbrev symbols : List Symbol
symbols =
    record {
      name = codes "_highcode_vma_start";
      value = 0x20000000;
      size = 0;
      section = codes "Absolute";
    }
    ∷ symbol (codes "__CORE_INTERRUPTS") 0x20000004 60
    ∷ symbol (codes "__EXTERNAL_INTERRUPTS") 0x20000040 64
    ∷ symbol (codes "__EXCEPTIONS") 0x20000080 4
    ∷ symbol (codes "TMR0") 0x20000100 8
    ∷ []

abbrev bytes : List Byte
bytes =
    record { address = 0x20000040; content = 0 }
    ∷ record { address = 0x20000041; content = 1 }
    ∷ record { address = 0x20000042; content = 0 }
    ∷ record { address = 0x20000043; content = 0x20 }
    ∷ []

audit_ch58x_vectors_iff_example :
    (audit_ch58x_vectors symbols bytes ≡ []) ↔ IsLinked (vectors_of symbols) bytes
audit_ch58x_vectors_iff_example = audit_ch58x_vectors_iff symbols bytes

passes : audit_ch58x_vectors symbols bytes ≡ []
unfolding audit_ch58x_vectors vectors_of find_symbol find_byte add_byte read_little_endian_u32
    issue_if required section_issues core_issues external_issues exceptions_issues vector_issues
    tmr0_issues missing_issues all_section_issues address_issues same_bytes symbol
passes = refl
