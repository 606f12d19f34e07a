-- ===== src/Flasher/Binding.antt =====
-- site/flasher-state.js: what binds an artifact to a board.
use frogalert.Prelude.{ℕ, ◌+◌, ◌^◌, ◌-◌, ◌≤◌, ◌≡◌, ◌↔◌, true, false, [], ◌∷◌, map, ok, arith}
use frogalert.Prelude.Text.{Text, includes, to_upper}
use frogalert.Flasher.State.{
  next_artifact_generation, physical_marking_matches_profiles, top_profile, top_marking,
  bottom_marking, bottom_profile,
}

-- A new generation is larger than every generation before it and is again a safe integer, so
-- generations never repeat; it is refused exactly from the largest safe integer on.
pub next_artifact_generation_iff :
    (g n : ℕ) → (next_artifact_generation g ≡ ok n) ↔ ((n ≡ g + 1) × (n ≤ 2 ^ 53 - 1))
unfolding next_artifact_generation
next_artifact_generation_iff g n = ground arith

-- For a single known profile a physical marking matches exactly if its capitals contain the marking
-- of that profile and do not contain the marking of the other one.
pub physical_marking_iff :
    (text : Text)
    → ((physical_marking_matches_profiles (top_profile ∷ []) text ≡ true) ↔ (
        (includes (map to_upper text) top_marking ≡ true)
        × (includes (map to_upper text) bottom_marking ≡ false)))
      × ((physical_marking_matches_profiles (bottom_profile ∷ []) text ≡ true) ↔ (
          (includes (map to_upper text) bottom_marking ≡ true)
          × (includes (map to_upper text) top_marking ≡ false)))
unfolding physical_marking_matches_profiles
physical_marking_iff text = ground arith
