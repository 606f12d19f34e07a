-- ===== src/Flasher/State.antt =====
-- site/flasher-state.js. Texts are lists of code units. A table answers at its own keys and at the
-- names that every object inherits. Of `toUpperCase` only what can yield a character of a PCB marking matters to the test that follows
-- it, and that is the ASCII letters.
use frogalert.Prelude.Text.{Text, codes, includes, to_upper}
use frogalert.Prelude.Bytes.{same_bytes}
use frogalert.Prelude.{
  ℕ, ◌+◌, ◌-◌, ◌^◌, Bool, true, false, not, ◌&&◌, ◌||◌, List, [], ◌∷◌, map, Option, none, some, ltb,
  ◌==◌, if◌then◌else◌, Result, ok, err, throw_if, ◌>>=◌, ◌>>◌,
}

pub data StateError : Type 0 where
  generation_invalid generation_exhausted revisions_missing markings_missing : StateError

-- `Number.MAX_SAFE_INTEGER`
abbrev pub max_safe_integer : ℕ
max_safe_integer = 2 ^ 53 - 1

unfoldable pub next_artifact_generation : ℕ → Result StateError ℕ
next_artifact_generation current = do
  throw_if (ltb max_safe_integer current) generation_invalid
  throw_if (current == max_safe_integer) generation_exhausted
  ok (current + 1)

pub record Transition : Type 0 where
  pub artifact_generation : ℕ
  pub clear_firmware : Bool

unfoldable pub revision_input_transition : ℕ → Bool → Bool → Result StateError Transition
unfolding next_artifact_generation
revision_input_transition artifact_generation is_recovery_artifact artifact_matches_revision = do
  next ← next_artifact_generation artifact_generation
  ok (record {
    artifact_generation = next;
    clear_firmware = is_recovery_artifact && not artifact_matches_revision;
  })

-- A value that should be an array of texts.
pub data Listed : Type 0 where
  null not_array : Listed
  items : List Text → Listed

pub record Board : Type 0 where
  pub hardware_revisions : List Text
  pub pcb_markings : Option (List Text)

-- The array, unless it is no array or has no element.
require_items : Listed → StateError → Result StateError (List Text)
require_items (items (x ∷ xs)) e = ok (x ∷ xs)
require_items _ e = err e

optional_items : Listed → Result StateError (Option (List Text))
unfolding require_items
optional_items null = ok none
optional_items listed = require_items listed markings_missing >>= λ xs. ok (some xs)

unfoldable pub artifact_board_binding : Listed → Listed → Result StateError Board
unfolding require_items optional_items
artifact_board_binding hardware_revisions pcb_markings = do
  revisions ← require_items hardware_revisions revisions_missing
  markings ← optional_items pcb_markings
  ok (record { hardware_revisions = revisions; pcb_markings = markings })

abbrev pub bottom_profile : Text
bottom_profile = codes "B1144C_250901_USB_C"

abbrev pub top_profile : Text
top_profile = codes "B1144C_260404_USB_C"

abbrev pub bottom_marking : Text
bottom_marking = codes "B1144C_250901"

abbrev pub top_marking : Text
top_marking = codes "B1144C_260404"

-- The names that an object literal inherits; what stands under each of them is an object.
abbrev inherited_names : List Text
inherited_names =
    codes "constructor"
    ∷ codes "__defineGetter__"
    ∷ codes "__defineSetter__"
    ∷ codes "hasOwnProperty"
    ∷ codes "__lookupGetter__"
    ∷ codes "__lookupSetter__"
    ∷ codes "isPrototypeOf"
    ∷ codes "propertyIsEnumerable"
    ∷ codes "toString"
    ∷ codes "valueOf"
    ∷ codes "__proto__"
    ∷ codes "toLocaleString"
    ∷ []

unfoldable pub has : List Text → Text → Bool
unfolding same_bytes
has [] t = false
has (x ∷ xs) t = same_bytes x t || has xs t

unfoldable pub is_inherited : Text → Bool
unfolding has
is_inherited name = has inherited_names name

pub record Hint : Type 0 where
  pub position : Text
  pub profile : Text
  pub marking : Text
  pub image_label : Text

-- `null`, the copy of a hint, or, under an inherited name, the copy `{}`.
pub data HintCopy : Type 0 where
  missing blank : HintCopy
  copied : Hint → HintCopy

unfoldable pub profile_hint_for_isp_button : Text → HintCopy
unfolding same_bytes is_inherited
profile_hint_for_isp_button position =
    if same_bytes position (codes "top")
    then copied (record {
      position = codes "top";
      profile = top_profile;
      marking = top_marking;
      image_label = codes "top-button image";
    })
    else if same_bytes position (codes "bottom")
    then copied (record {
      position = codes "bottom";
      profile = bottom_profile;
      marking = bottom_marking;
      image_label = codes "bottom-button image";
    })
    else if is_inherited position
    then blank
    else missing

-- `null`, a marking, or what stands under an inherited name, which is no text.
pub data Expected : Type 0 where
  unmarked inherited : Expected
  marked : Text → Expected

unfoldable pub expected_pcb_marking : Text → Expected
unfolding same_bytes is_inherited
expected_pcb_marking profile =
    if same_bytes profile bottom_profile
    then marked bottom_marking
    else if same_bytes profile top_profile
    then marked top_marking
    else if is_inherited profile
    then inherited
    else unmarked

-- What `filter(Boolean)` leaves, as members of a set.
unfoldable pub expected_markings : List Text → List Expected
unfolding expected_pcb_marking
expected_markings [] = []
expected_markings (profile ∷ rest) = add (expected_pcb_marking profile) (expected_markings rest)
  where
    add : Expected → List Expected → List Expected
    add unmarked found = found
    add inherited found = inherited ∷ found
    add (marked marking) found = marked marking ∷ found

is_marked_as : Expected → Text → Bool
unfolding same_bytes
is_marked_as (marked marking) t = same_bytes marking t
is_marked_as other t = false

has_marking : List Expected → Text → Bool
unfolding is_marked_as
has_marking [] t = false
has_marking (x ∷ xs) t = is_marked_as x t || has_marking xs t

unfoldable pub observed_markings : Text → List Text
observed_markings physical_marking =
    let normalized = map to_upper physical_marking in
    let late = if includes normalized top_marking then top_marking ∷ [] else [] in
    if includes normalized bottom_marking then bottom_marking ∷ late else late

-- `observed.length === 1 && expected.has(observed[0])`
single_expected : List Expected → List Text → Bool
unfolding has_marking
single_expected expected (marking ∷ []) = has_marking expected marking
single_expected expected _ = false

is_empty : {A : Type 0} → List A → Bool
is_empty [] = true
is_empty (x ∷ xs) = false

unfoldable pub physical_marking_matches_profiles : List Text → Text → Bool
unfolding expected_markings observed_markings single_expected is_empty
physical_marking_matches_profiles hardware_revisions physical_marking =
    let expected = expected_markings hardware_revisions in
    if is_empty hardware_revisions
    then false
    else if is_empty expected
    then true
    else single_expected expected (observed_markings physical_marking)

pub data ArtifactKind : Type 0 where
  local_developer open_badgemagic_recovery frogalert_release frogalert_lab other : ArtifactKind

unfoldable pub can_program_artifact : ArtifactKind → Bool → Bool → Bool → Bool
can_program_artifact local_developer verified verified_by_frogalert approved = true
can_program_artifact open_badgemagic_recovery verified verified_by_frogalert approved =
    verified_by_frogalert
can_program_artifact frogalert_release verified verified_by_frogalert approved =
    verified || approved
can_program_artifact frogalert_lab verified verified_by_frogalert approved = verified
can_program_artifact other verified verified_by_frogalert approved = false

pub record FlashGate : Type 0 where
  pub flashing : Bool
  pub has_usb_device : Bool
  pub has_chip_identity : Bool
  pub has_config : Bool
  pub has_firmware : Bool
  pub has_board_record : Bool
  pub artifact_matches_revision : Bool
  pub confirmations_complete : Bool
  pub artifact_confirmation_complete : Bool
  pub artifact_programming_allowed : Bool
  pub typed_phrase_complete : Bool

unfoldable pub can_enable_flash : FlashGate → Bool
can_enable_flash g =
    not g.flashing
    && g.has_usb_device
    && g.has_chip_identity
    && g.has_config
    && g.has_firmware
    && g.has_board_record
    && g.artifact_matches_revision
    && g.confirmations_complete
    && g.artifact_confirmation_complete
    && g.artifact_programming_allowed
    && g.typed_phrase_complete
