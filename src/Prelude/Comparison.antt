-- ===== src/Prelude/Comparison.antt =====
-- The results -1, 0 and 1 of a comparison.

pub data Comparison : Type 0 where
  less same greater : Comparison

unfoldable pub opposite : Comparison → Comparison
opposite less = greater
opposite same = same
opposite greater = less

-- `if (difference !== 0) return difference`, and then the rest.
unfoldable pub then_by : Comparison → Comparison → Comparison
then_by less rest = less
then_by same rest = rest
then_by greater rest = greater
