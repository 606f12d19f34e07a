-- ===== src/Examples/Flasher.antt =====
-- The page's decisions (site/flasher-state.js, site/isp-entry-guide.js) at concrete inputs.
use frogalert.Prelude.{
  ℕ, ◌≡◌, ◌↔◌, List, [], ◌∷◌, ok, arith, ◌≤◌, false, ◌+◌, true, ◌*◌, map, refl, ◌-◌, ◌<◌,
}
use frogalert.Flasher.Binding.{physical_marking_iff}
use frogalert.Prelude.Text.{codes, includes, to_upper}
use frogalert.Flasher.EntryPaths.{
  Action, run, next, nexts, act, previous, chooser_needs_sequence, request, isp_entry_countdown_iff,
}
use frogalert.Flasher.State.{
  physical_marking_matches_profiles, bottom_profile, top_profile, bottom_marking, top_marking,
}
use frogalert.Flasher.Entry.{
  Countdown, isp_entry_countdown, next_isp_entry_phase, previous_isp_entry_phase,
  begin_isp_device_request, closed, chooser,
}

physical_marking_iff_example :
    ((physical_marking_matches_profiles (top_profile ∷ []) (codes "b1144c_260404") ≡ true) ↔ (
      (includes (map to_upper (codes "b1144c_260404")) top_marking ≡ true)
      × (includes (map to_upper (codes "b1144c_260404")) bottom_marking ≡ false)))
    × ((physical_marking_matches_profiles (bottom_profile ∷ []) (codes "b1144c_260404") ≡ true) ↔ (
        (includes (map to_upper (codes "b1144c_260404")) bottom_marking ≡ true)
        × (includes (map to_upper (codes "b1144c_260404")) top_marking ≡ false)))
physical_marking_iff_example = physical_marking_iff (codes "b1144c_260404")

abbrev through : List Action
through = next ∷ next ∷ previous ∷ next ∷ next ∷ next ∷ next ∷ request ∷ []

through_reaches : run closed through ≡ chooser
unfolding run act next_isp_entry_phase previous_isp_entry_phase begin_isp_device_request
through_reaches = refl

chooser_needs_sequence_example : 5 ≤ nexts through
chooser_needs_sequence_example = chooser_needs_sequence through through_reaches

abbrev halfway : Countdown
halfway = record { elapsed = 5500; remaining = 4500; remaining_seconds = 5; expired = false }

halfway_found : isp_entry_countdown 1 1000 6500 ≡ ok halfway
unfolding isp_entry_countdown
halfway_found = refl

isp_entry_countdown_iff_example :
    (1000 ≤ 6500)
    × (5500 + 1000 ≡ 6500)
    × ((false ≡ true) ↔ (1000 + 10000 * 1 ≤ 6500))
    × ((false ≡ true) ↔ (◌≡◌ {A = ℕ} 5 0))
    × (5 ≤ 10)
    × (4500 ≡ 1000 + 10000 * 1 - 6500)
    × (4500 ≤ 5 * (1000 * 1))
    × (5 * (1000 * 1) < 4500 + 1000 * 1)
isp_entry_countdown_iff_example =
    isp_entry_countdown_iff 1 1000 6500 halfway (omega arith) halfway_found
