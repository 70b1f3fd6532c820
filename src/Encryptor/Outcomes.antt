-- ===== src/Encryptor/Outcomes.antt =====
-- Rules for the encryptor's methods: which leave the files alone, and which raise no exception.
use pico2w_tfm.Common.{◌≡◌, refl, ◌∙◌, List}
use mathlib.Core.Path.{subst}
use pico2w_tfm.Encryptor.Header.{Error, Outcome, ok, raised}
use pico2w_tfm.Encryptor.Run.{Run, Effect, Action, ◌>>=◌, after}

-- The files are as they were.
abbrev pub Quiet : {A : Type 0} → Action A → Type 0
Quiet m = (r : Run) → (m r).1.effects ≡ r.effects

-- No exception.
abbrev pub Ends : {A : Type 0} → Outcome A → Type 0
Ends (ok _) = Unit {0}
Ends (raised _) = ⊥

abbrev pub Returns : {A : Type 0} → Action A → Type 0
Returns m = (r : Run) → Ends (m r).0

-- If there was an exception, the files are as they were.
abbrev pub Unharmed : {A : Type 0} → List Effect → Outcome A × Run → Type 0
Unharmed es (ok _, r) = Unit {0}
Unharmed es (raised _, r) = r.effects ≡ es

-- Behind an action that leaves the files alone.
pub >>=-Quiet :
    {A B : Type 0} {es : List Effect} (m : Action A) (f : A → Action B) (r : Run)
    → Quiet m
    → r.effects ≡ es
    → ((a : A) (r' : Run) → r'.effects ≡ es → Unharmed es (f a r'))
    → Unharmed es ((m >>= f) r)
>>=-Quiet m f r q e k = step f (m r) (q r ∙ e) k
  where
    step :
        {A B : Type 0} {es : List Effect} (f : A → Action B) (p : Outcome A × Run)
        → p.1.effects ≡ es
        → ((a : A) (r' : Run) → r'.effects ≡ es → Unharmed es (f a r'))
        → Unharmed es (after p.0 f p.1)
    step f (ok a, r') h k = k a r' h
    step f (raised e, r') h k = h

pub >>=-Returns :
    {A B : Type 0} (m : Action A) (f : A → Action B)
    → Returns m
    → ((a : A) → Returns (f a))
    → Returns (m >>= f)
>>=-Returns m f h k r = step f (m r) (h r) k
  where
    step :
        {A B : Type 0} (f : A → Action B) (p : Outcome A × Run)
        → Ends p.0
        → ((a : A) → Returns (f a))
        → Ends (after p.0 f p.1).0
    step f (ok a, r') h k = k a r'
    step f (raised e, r') h k = elim h [ ]

pub Returns-Unharmed :
    {A : Type 0} (es : List Effect) (p : Outcome A × Run) → Ends p.0 → Unharmed es p
Returns-Unharmed es (ok a, r) h = tt
Returns-Unharmed es (raised e, r) h = elim h [ ]

-- What holds of the value and of the state, if there was no exception.
abbrev pub After : {A : Type 0} → (A → Run → Type 0) → Outcome A × Run → Type 0
After P (ok a, r) = P a r
After P (raised _, r) = Unit {0}

pub >>=-After :
    {A B : Type 0} (P : A → Run → Type 0) (Q : B → Run → Type 0) (m : Action A) (f : A → Action B)
    (r : Run)
    → After P (m r)
    → ((a : A) (r' : Run) → P a r' → After Q (f a r'))
    → After Q ((m >>= f) r)
>>=-After P Q m f r p k = step P Q f (m r) p k
  where
    step :
        {A B : Type 0} (P : A → Run → Type 0) (Q : B → Run → Type 0) (f : A → Action B)
        (p : Outcome A × Run)
        → After P p
        → ((a : A) (r' : Run) → P a r' → After Q (f a r'))
        → After Q (after p.0 f p.1)
    step P Q f (ok a, r') h k = k a r' h
    step P Q f (raised e, r') h k = tt

pub After-any : {A : Type 0} (p : Outcome A × Run) → After (λ _ _. Unit {0}) p
After-any (ok a, r) = tt
After-any (raised e, r) = tt

-- The value and the state are those of the action.
pub After-self : {A : Type 0} (p : Outcome A × Run) → After (λ a r. p ≡ (ok a, r)) p
After-self (ok a, r) = refl
After-self (raised e, r) = tt

pub After-imp :
    {A : Type 0} (P Q : A → Run → Type 0) (p : Outcome A × Run)
    → ((a : A) (r : Run) → P a r → Q a r)
    → After P p
    → After Q p
After-imp P Q (ok a, r) f h = f a r h
After-imp P Q (raised e, r) f h = tt

pub After-value :
    {A : Type 0} (P : A → Run → Type 0) (p : Outcome A × Run) (a : A)
    → p.0 ≡ ok a
    → After P p
    → P a p.1
After-value P (ok b, r) a e h = let same : b ≡ a = cc e in subst (λ c. P c r) same h
After-value P (raised _, r) a e h = absurd (raised-ne-ok e)
  where
    raised-ne-ok : {A : Type 0} {a : A} {f : Error} → raised f ≡ ok a → ⊥
    raised-ne-ok e = cc e
