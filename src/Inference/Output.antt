-- ===== src/Inference/Output.antt =====
-- `parse_output`: the class with the greatest positive score.
use pico2w_tfm.Common.{ℕ, ◌+◌, Bool, List, [], ◌∷◌, take, if◌then◌else◌}
use pico2w_tfm.Common.Int.{ℤ, pos, negsuc}

module _ {F : Type 0} (gt : F → F → Bool) where
  -- The loop from class `i` on, over the scores from there, with `maxp` and `maxi`. Its tests are
  -- not nested, so one recursive call takes the new pair.
  unfoldable pub parse_from : List F → ℕ → F → ℤ → ℤ
  parse_from [] i maxp maxi = maxi
  parse_from (p ∷ ps) i maxp maxi =
      let better = gt p maxp in
      parse_from ps (i + 1) (if better then p else maxp) (if better then pos i else maxi)

  unfoldable pub parse_output : F → List F → ℤ
  unfolding parse_from
  parse_output zero_float scores = parse_from (take 10 scores) 0 zero_float (negsuc 0)
