-- ===== src/Flasher/EntryPaths.antt =====
-- site/isp-entry-guide.js: the paths through the guide.
use native.Mathlib.Nat.{div-add-mod', mod-lt, div-lt_iff_lt-mul}
use frogalert.Protocol.Image.{ceil_div}
use frogalert.Prelude.{
  ℕ, suc, ◌+◌, ◌-◌, ◌*◌, ◌≤◌, ◌<◌, ◌≡◌, ◌↔◌, Bool, true, List, [], ◌∷◌, ok, arith, Result, err,
  subst,
}
use frogalert.Flasher.Entry.{
  Phase, closed, chooser, connect_window, confirm_compatible, next_isp_entry_phase,
  isp_entry_countdown, Countdown, EntryError, previous_isp_entry_phase, usb_connected, hold_key2,
  begin_isp_device_request, wait_for_dot, finish_isp_device_request, identified, retry,
}

-- What the page may do in the guide: go on, go back, open the chooser, or end its request.
pub data Action : Type 0 where
  next previous request : Action
  finish : Bool → Action

-- A request that the guide refuses leaves the phase as it is.
abbrev after_request : Result EntryError Phase → Phase → Phase
after_request (ok phase) old = phase
after_request (err e) old = old

unfoldable pub act : Phase → Action → Phase
act phase next = next_isp_entry_phase phase
act phase previous = previous_isp_entry_phase phase
act phase request = after_request (begin_isp_device_request phase) phase
act phase (finish found) = elim phase [ chooser ↦ finish_isp_device_request found | other ↦ other ]

unfoldable pub run : Phase → List Action → Phase
run phase [] = phase
run phase (a ∷ actions) = run (act phase a) actions

abbrev pub nexts : List Action → ℕ
nexts [] = 0
nexts (next ∷ actions) = suc (nexts actions)
nexts (_ ∷ actions) = nexts actions

-- How far along the guide a phase stands.
abbrev progress : Phase → ℕ
progress closed = 0
progress confirm_compatible = 1
progress usb_connected = 2
progress hold_key2 = 3
progress wait_for_dot = 4
progress connect_window = 5
progress chooser = 5
progress identified = 5
progress retry = 5

act-progress :
    (phase : Phase) (a : Action) (actions : List Action)
    → progress (act phase a) + nexts actions ≤ progress phase + nexts (a ∷ actions)
unfolding act next_isp_entry_phase previous_isp_entry_phase begin_isp_device_request
    finish_isp_device_request
act-progress phase a actions = ground arith

run-progress :
    (phase : Phase) (actions : List Action)
    → progress (run phase actions) ≤ progress phase + nexts actions
unfolding run
run-progress phase [] = omega arith
run-progress phase (a ∷ actions) =
    omega (arith, act-progress phase a actions, run-progress (act phase a) actions)

-- From the closed guide the device chooser is reached only after at least five steps forward: the
-- guide cannot skip a phase of the key sequence, whatever the order of the actions.
pub chooser_needs_sequence :
    (actions : List Action) → run closed actions ≡ chooser → 5 ≤ nexts actions
chooser_needs_sequence actions e =
    let bound : progress chooser ≤ progress closed + nexts actions =
      subst (λ p. progress p ≤ progress closed + nexts actions) e (run-progress closed actions) in
    omega arith

-- A quotient rounded up.
ceil_div_bounds :
    (n d : ℕ)
    → 0 < d
    → (n ≤ ceil_div n d * d)
      × (ceil_div n d * d < n + d)
      × ((ceil_div n d ≡ 0) ↔ (n ≡ 0))
      × (n ≤ 10 * d → ceil_div n d ≤ 10)
ceil_div_bounds n d pos = (
  omega (arith, div-add-mod' (n + (d - 1)) d, mod-lt (n + (d - 1)) pos),
  omega (arith, div-add-mod' (n + (d - 1)) d, mod-lt (n + (d - 1)) pos),
  (
    (λ z. omega (arith, (div-lt_iff_lt-mul {x = n + (d - 1)} {y = 1} pos).0 (omega arith))),
    (λ z. omega (arith, (div-lt_iff_lt-mul {x = n + (d - 1)} {y = 1} pos).1 (omega arith))),
  ),
  λ small. omega (arith, (div-lt_iff_lt-mul {x = n + (d - 1)} {y = 11} pos).1 (omega arith)),
)

-- With a clock that ticks, the countdown is expired exactly from ten seconds after its start on; the
-- time left is what is missing to the ten seconds, and the seconds that it shows are that time
-- rounded up: not less than it, and by less than a second more. They are 0 exactly when the
-- countdown is expired, and never more than ten.
pub isp_entry_countdown_iff :
    (ticks started_at now : ℕ) (c : Countdown)
    → 0 < ticks
    → isp_entry_countdown ticks started_at now ≡ ok c
    → (started_at ≤ now)
      × (c.elapsed + started_at ≡ now)
      × ((c.expired ≡ true) ↔ (started_at + 10000 * ticks ≤ now))
      × ((c.expired ≡ true) ↔ (c.remaining_seconds ≡ 0))
      × (c.remaining_seconds ≤ 10)
      × (c.remaining ≡ started_at + 10000 * ticks - now)
      × (c.remaining ≤ c.remaining_seconds * (1000 * ticks))
      × (c.remaining_seconds * (1000 * ticks) < c.remaining + 1000 * ticks)
unfolding isp_entry_countdown
isp_entry_countdown_iff ticks started_at now c pos e =
    ground
      (arith, ceil_div_bounds (10000 * ticks - (now - started_at)) (1000 * ticks) (omega arith))
