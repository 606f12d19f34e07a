-- ===== src/Flasher/Entry.antt =====
-- site/isp-entry-guide.js: the guide into the bootloader as a state machine, and its countdown.
-- A phase is one of the nine known ones by its type.
use frogalert.Prelude.{
  ℕ, suc, ◌+◌, ◌-◌, ◌*◌, Bool, List, [], ◌∷◌, Option, none, some, ltb, ◌==◌, length, get_or,
  if◌then◌else◌, Result, ok, throw_if, ◌>>◌, not,
}
use frogalert.Protocol.Image.{ceil_div}

pub data Phase : Type 0 where
  closed confirm_compatible usb_connected hold_key2 wait_for_dot connect_window chooser : Phase
  identified retry : Phase

-- The place of a phase in `ISP_ENTRY_PHASE`, which tells phases apart as their texts do.
place : Phase → ℕ
place closed = 0
place confirm_compatible = 1
place usb_connected = 2
place hold_key2 = 3
place wait_for_dot = 4
place connect_window = 5
place chooser = 6
place identified = 7
place retry = 8

same_phase : Phase → Phase → Bool
unfolding place
same_phase p q = place p == place q

abbrev pub isp_entry_window_ms : ℕ
isp_entry_window_ms = 10000

abbrev pub isp_entry_sequence : List Phase
isp_entry_sequence =
    closed ∷ confirm_compatible ∷ usb_connected ∷ hold_key2 ∷ wait_for_dot ∷ connect_window ∷ []

shift : Option ℕ → Option ℕ
shift none = none
shift (some i) = some (suc i)

-- `sequence.indexOf(phase)`, with none for -1.
index_of : Phase → List Phase → Option ℕ
unfolding same_phase shift
index_of phase [] = none
index_of phase (p ∷ ps) = after (index_of phase ps)
  where
    after : Option ℕ → Option ℕ
    after rest = if same_phase p phase then some 0 else shift rest

step_to : Phase → Option ℕ → (ℕ → Bool) → (ℕ → ℕ) → Phase
step_to phase none at_end move = phase
step_to phase (some index) at_end move =
    if at_end index then phase else get_or isp_entry_sequence (move index) phase

unfoldable pub next_isp_entry_phase : Phase → Phase
unfolding index_of step_to
next_isp_entry_phase phase =
    step_to phase (index_of phase isp_entry_sequence)
      (λ index. index == length isp_entry_sequence - 1) (λ index. index + 1)

unfoldable pub previous_isp_entry_phase : Phase → Phase
unfolding index_of step_to
previous_isp_entry_phase phase =
    step_to phase (index_of phase isp_entry_sequence) (λ index. index == 0) (λ index. index - 1)

unfoldable pub can_request_isp_device : Phase → Bool
unfolding same_phase
can_request_isp_device phase = same_phase phase connect_window

pub data EntryError : Type 0 where
  sequence_incomplete clock_moved_backwards : EntryError

unfoldable pub begin_isp_device_request : Phase → Result EntryError Phase
unfolding can_request_isp_device
begin_isp_device_request phase = do
  throw_if (not (can_request_isp_device phase)) sequence_incomplete
  ok chooser

unfoldable pub finish_isp_device_request : Bool → Phase
finish_isp_device_request found = if found then identified else retry

pub record Countdown : Type 0 where
  pub elapsed : ℕ
  pub remaining : ℕ
  pub remaining_seconds : ℕ
  pub expired : Bool

-- Times are finite and not negative, given as multiples of 1 / ticks of a millisecond.
unfoldable pub isp_entry_countdown : ℕ → ℕ → ℕ → Result EntryError Countdown
isp_entry_countdown ticks started_at now = do
  throw_if (ltb now started_at) clock_moved_backwards
  let elapsed = now - started_at
  let remaining = isp_entry_window_ms * ticks - elapsed
  ok (record {
    elapsed = elapsed;
    remaining = remaining;
    remaining_seconds = ceil_div remaining (1000 * ticks);
    expired = remaining == 0;
  })
