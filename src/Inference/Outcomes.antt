-- ===== src/Inference/Outcomes.antt =====
-- What holds when an action ends: by how it ended, with the value that it returned.
use pico2w_tfm.Psa.{Status}
use pico2w_tfm.Inference.State.{World, Result, ok, err, Action, after, ◌>>=◌}

module _ {A : Type 0} where
  abbrev pub Outcome : (A → World → Type 0) → (Status → World → Type 0) → Result A × World → Type 0
  Outcome P Q (ok a, w) = P a w
  Outcome P Q (err s, w) = Q s w

  pub Outcome-of_both :
      (P : World → Type 0) (m : Action A) (w : World) → P (m w).1 → Outcome (λ _. P) (λ _. P) (m w)
  Outcome-of_both P m w h = let (r, w') = m w in go r w' h
    where
      go : (r : Result A) (w' : World) → P w' → Outcome (λ _. P) (λ _. P) (r, w')
      go (ok a) w' h = h
      go (err s) w' h = h

  pub both_of-Outcome :
      (P : World → Type 0) (m : Action A) (w : World) → Outcome (λ _. P) (λ _. P) (m w) → P (m w).1
  both_of-Outcome P m w h = let (r, w') = m w in go r w' h
    where
      go : (r : Result A) (w' : World) → Outcome (λ _. P) (λ _. P) (r, w') → P w'
      go (ok a) w' h = h
      go (err s) w' h = h

  pub Outcome-weaken :
      (P P' : A → World → Type 0) (Q : Status → World → Type 0) (r : Result A × World)
      → ((a : A) (w : World) → P a w → P' a w)
      → Outcome P Q r
      → Outcome P' Q r
  Outcome-weaken P P' Q (ok a, w) k h = k a w h
  Outcome-weaken P P' Q (err s, w) k h = h

module _ {A B : Type 0} where
  -- The rule for two actions in a row.
  pub >>=-Outcome :
      (P : A → World → Type 0) (P' : B → World → Type 0) (Q : Status → World → Type 0)
      (m : Action A) (f : A → Action B) (w : World)
      → Outcome P Q (m w)
      → ((a : A) (w' : World) → P a w' → Outcome P' Q (f a w'))
      → Outcome P' Q ((m >>= f) w)
  unfolding ◌>>=◌
  >>=-Outcome P P' Q m f w h q = let (r, w') = m w in go r w' h
    where
      go : (r : Result A) (w' : World) → Outcome P Q (r, w') → Outcome P' Q (after r f w')
      go (ok a) w' h = q a w' h
      go (err s) w' h = h

  -- What the first action leaves on an error, and both leave together, is left by the two.
  pub >>=-leaves :
      (P : A → World → Type 0) (Q : World → Type 0) (m : Action A) (f : A → Action B) (w : World)
      → Outcome P (λ _. Q) (m w)
      → ((a : A) (w' : World) → P a w' → Q (f a w').1)
      → Q ((m >>= f) w).1
  unfolding ◌>>=◌
  >>=-leaves P Q m f w h q = let (r, w') = m w in go r w' h
    where
      go : (r : Result A) (w' : World) → Outcome P (λ _. Q) (r, w') → Q (after r f w').1
      go (ok a) w' h = q a w' h
      go (err s) w' h = h

  pub >>=-both_leave :
      (Q : World → Type 0) (m : Action A) (f : A → Action B) (w : World)
      → Q (m w).1
      → ((a : A) (w' : World) → Q w' → Q (f a w').1)
      → Q ((m >>= f) w).1
  >>=-both_leave Q m f w h = >>=-leaves (λ _. Q) Q m f w (Outcome-of_both Q m w h)
