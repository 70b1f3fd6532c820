-- ===== src/Inference/Argmax.antt =====
-- `parse_output` finds the first greatest positive score.
use pico2w_tfm.Common.{
  ℕ, suc, ◌+◌, ◌<◌, ◌≡◌, ◌⊎◌, inl, inr, Bool, true, false, List, [], ◌∷◌, some, take, get_elem?,
  All, arith, Bool-cases, length, length-take, refl,
}
use pico2w_tfm.Common.Int.{ℤ, pos, negsuc}
use pico2w_tfm.Inference.Output.{parse_from, parse_output}

pub get_elem?-some-lt {ℓ} :
    {A : Type ℓ} (xs : List A) (i : ℕ) {a : A} → get_elem? xs i ≡ some a → i < length xs
get_elem?-some-lt [] i h = cc
get_elem?-some-lt (x ∷ xs) ℕ.zero h = omega arith
get_elem?-some-lt (x ∷ xs) (suc i) h = omega (arith, get_elem?-some-lt xs i h)

-- The order of `float` values that are numbers: `gt` is asymmetric, and "not greater" is transitive.
pub record IsOrder {F : Type 0} (gt : F → F → Bool) : Type 0 where
  pub asym : (a b : F) → gt a b ≡ true → gt b a ≡ false
  pub not_gt_trans : (a b c : F) → gt a b ≡ false → gt b c ≡ false → gt a c ≡ false

module _ {F : Type 0} (gt : F → F → Bool) where
  -- What a class means: -1 if none of the ten scores is positive; else the index of a positive score
  -- that none of the ten exceeds and that exceeds all before it.
  abbrev pub IsPrediction : F → List F → ℤ → Type 0
  IsPrediction zero_float ten r =
      ((r ≡ negsuc 0) × All (λ p. gt p zero_float ≡ false) ten)
      ⊎ ((j : ℕ) × (best : F) × (r ≡ pos j)
          × (j < 10)
          × (get_elem? ten j ≡ some best)
          × (gt best zero_float ≡ true)
          × All (λ p. gt p best ≡ false) ten
          × All (λ p. gt best p ≡ true) (take j ten))

module _ {F : Type 0} (gt : F → F → Bool) (order : IsOrder gt) where
  -- Of the scores `ps`, whose first has index `i`: none is greater than `maxp`, and the result is
  -- `maxi`; or the result is the index of the first greatest, which is greater than `maxp`.
  pub data Chosen (ps : List F) (i : ℕ) (maxp : F) (maxi r : ℤ) : Type 0 where
    kept : r ≡ maxi → All (λ p. gt p maxp ≡ false) ps → Chosen ps i maxp maxi r
    found :
        (j : ℕ) (best : F)
        → r ≡ pos (i + j)
        → get_elem? ps j ≡ some best
        → gt best maxp ≡ true
        → All (λ p. gt p best ≡ false) ps
        → All (λ p. gt best p ≡ true) (take j ps)
        → Chosen ps i maxp maxi r

  gt_of_gt_not_gt : (a b c : F) → gt a b ≡ true → gt c b ≡ false → gt a c ≡ true
  gt_of_gt_not_gt a b c h k = elim (Bool-cases (gt a c)) [
    | inl yes' ↦ yes'
    | inr no' ↦ cc (order.not_gt_trans a c b no' k)
  ]

  gt_trans : (a b c : F) → gt a b ≡ true → gt b c ≡ true → gt a c ≡ true
  gt_trans a b c h k = gt_of_gt_not_gt a b c h (order.asym b c k)

  not_gt_self : (a : F) → gt a a ≡ false
  not_gt_self a = elim (Bool-cases (gt a a)) [ inl h ↦ order.asym a a h | inr h ↦ h ]

  -- A score that is not greater than `maxp` is passed over.
  pass_over :
      (p : F) (ps : List F) (i : ℕ) (maxp : F) (maxi r : ℤ)
      → gt p maxp ≡ false
      → Chosen ps (i + 1) maxp maxi r
      → Chosen (p ∷ ps) i maxp maxi r
  pass_over p ps i maxp maxi r h (kept e all) = kept e (h, all)
  pass_over p ps i maxp maxi r h (found j best e at better all before) =
      found (suc j) best (ground arith) at better
        (order.not_gt_trans p maxp best h (order.asym best maxp better), all)
        (gt_of_gt_not_gt best maxp p better h, before)

  -- A greater score becomes the new candidate.
  take_over :
      (p : F) (ps : List F) (i : ℕ) (maxp : F) (maxi r : ℤ)
      → gt p maxp ≡ true
      → Chosen ps (i + 1) p (pos i) r
      → Chosen (p ∷ ps) i maxp maxi r
  take_over p ps i maxp maxi r h (kept e all) =
      found 0 p (ground arith) refl h (not_gt_self p, all) tt
  take_over p ps i maxp maxi r h (found j best e at better all before) =
      found (suc j) best (ground arith) at (gt_trans best p maxp better h)
        (order.asym best p better, all) (better, before)

  parse_from-Chosen :
      (ps : List F) (i : ℕ) (maxp : F) (maxi : ℤ)
      → Chosen ps i maxp maxi (parse_from gt ps i maxp maxi)
  unfolding parse_from
  parse_from-Chosen [] i maxp maxi = kept refl tt
  parse_from-Chosen (p ∷ ps) i maxp maxi = elim (Bool-cases (gt p maxp)) [
    | inl h ↦ rw h (take_over p ps i maxp maxi _ h (parse_from-Chosen ps (i + 1) p (pos i)))
    | inr h ↦ rw h (pass_over p ps i maxp maxi _ h (parse_from-Chosen ps (i + 1) maxp maxi))
  ]

  Chosen-IsPrediction :
      (zero_float : F) (scores : List F) {r : ℤ}
      → Chosen (take 10 scores) 0 zero_float (negsuc 0) r
      → IsPrediction gt zero_float (take 10 scores) r
  Chosen-IsPrediction zero_float scores (kept e all) = inl (e, all)
  Chosen-IsPrediction zero_float scores (found j best e at better all before) = inr (
    j,
    best,
    ground arith,
    omega (arith, get_elem?-some-lt (take 10 scores) j at, length-take 10 scores),
    at,
    better,
    all,
    before,
  )

  -- Over floats that are numbers, `parse_output` gives the first greatest of the first ten scores if
  -- that is positive, and -1 otherwise.
  pub parse_output-IsPrediction :
      (zero_float : F) (scores : List F)
      → IsPrediction gt zero_float (take 10 scores) (parse_output gt zero_float scores)
  unfolding parse_output
  parse_output-IsPrediction zero_float scores =
      Chosen-IsPrediction zero_float scores
        (parse_from-Chosen (take 10 scores) 0 zero_float (negsuc 0))
