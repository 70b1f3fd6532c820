-- ===== src/Inference/Unknowns.antt =====
-- Rules for actions of which little is known: what holds if they succeed.
use pico2w_tfm.Common.{◌≡◌, refl, ap, ◌∷◌, true, Bool-cases, inl, inr}
use pico2w_tfm.Psa.{Status, success, is_success, crypto, CryptoCall, Env}
use pico2w_tfm.Inference.State.{
  World, Result, ok, err, Action, pure, raise, gets, call, check_or, ◌>>=◌,
}
use pico2w_tfm.Inference.Outcomes.{Outcome, >>=-Outcome}

pub Outcome-any :
    {A : Type 0} (p : Result A × World) → Outcome (λ _ _. Unit {0}) (λ _ _. Unit {0}) p
Outcome-any (ok a, w) = tt
Outcome-any (err s, w) = tt

-- Behind an action of which nothing is known.
pub behind :
    {A B : Type 0} (P : B → World → Type 0) (m : Action A) (f : A → Action B) (w : World)
    → ((a : A) (w' : World) → Outcome P (λ _ _. Unit {0}) (f a w'))
    → Outcome P (λ _ _. Unit {0}) ((m >>= f) w)
behind P m f w k =
    >>=-Outcome (λ _ _. Unit {0}) P (λ _ _. Unit {0}) m f w (Outcome-any (m w)) (λ a w' _. k a w')

pub pure-Outcome :
    {A : Type 0} (P : A → World → Type 0) (a : A) (w : World)
    → P a w
    → Outcome P (λ _ _. Unit {0}) (pure a w)
unfolding ◌>>=◌
pure-Outcome P a w h = h

pub gets-Outcome :
    {A : Type 0} (P : A → World → Type 0) (f : World → A) (w : World)
    → P (f w) w
    → Outcome P (λ _ _. Unit {0}) (gets f w)
unfolding ◌>>=◌
gets-Outcome P f w h = h

pub raise-Outcome :
    {A : Type 0} (P : A → World → Type 0) (s : Status) (w : World)
    → Outcome P (λ _ _. Unit {0}) (raise s w)
unfolding ◌>>=◌
raise-Outcome P s w = tt

is_success-eq : (s : Status) → is_success s ≡ true → s ≡ success
is_success-eq success h = refl
is_success-eq _ h = cc

-- A checked call that succeeds is the last one.
pub check_or-last :
    (env : Env) (c : CryptoCall) (cleanup : Action (Unit {0})) (w : World)
    → Outcome
        (λ _ v. v.trace ≡ crypto c success ∷ w.trace)
        (λ _ _. Unit {0})
        (check_or env c cleanup w)
unfolding check_or call ◌>>=◌
check_or-last env c cleanup w = elim (Bool-cases (is_success (env.crypto_status c w.trace))) [
  | inl good ↦ rw good (ap (λ s. crypto c s ∷ w.trace) (is_success-eq _ good))
  | inr bad ↦ rw bad (
      behind (λ _ v. v.trace ≡ crypto c success ∷ w.trace) cleanup _ _
        λ _ v.
          raise-Outcome {A = Unit {0}} (λ _ v. v.trace ≡ crypto c success ∷ w.trace)
            (env.crypto_status c w.trace) v)
]
