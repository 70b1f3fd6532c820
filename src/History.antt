-- ===== src/History.antt =====
-- What can be read off a history of calls: the measures in which the theorems about both
-- partitions are stated.
use pico2w_tfm.Common.{if◌then◌else◌, ℕ, suc, ◌≡◌, refl, ap, [], ◌∷◌, ◌++◌, Bytes}
use pico2w_tfm.Psa.{Status, is_success, Event, psa_wait, psa_get, psa_write, psa_reply, Trace}

-- messages received
abbrev pub received : Trace → ℕ
received [] = 0
received (psa_get s ∷ t) = if is_success s then suc (received t) else received t
received (_ ∷ t) = received t

-- messages answered
abbrev pub replies : Trace → ℕ
replies [] = 0
replies (psa_reply _ _ ∷ t) = suc (replies t)
replies (_ ∷ t) = replies t

-- An event inside the handling of a message: no message is taken, and none is answered.
abbrev pub IsQuiet : Event → Type 0
IsQuiet (psa_wait) = ⊥
IsQuiet (psa_get _) = ⊥
IsQuiet (psa_reply _ _) = ⊥
IsQuiet _ = Unit

-- `t'` is `t` and any number of quiet events after it.
pub data Extends (t : Trace) : Trace → Type 0 where
  here : Extends t t
  step : {t' : Trace} (e : Event) → IsQuiet e → Extends t t' → Extends t (e ∷ t')

pub Extends-trans : {t u v : Trace} → Extends t u → Extends u v → Extends t v
Extends-trans p here = p
Extends-trans p (step e q r) = step e q (Extends-trans p r)

-- The calls that were made for one message since the history `t`: quiet ones, and then exactly one
-- reply, to the message's handle and with the status `s`.
pub record Answers (handle : ℕ) (s : Status) (t t' : Trace) : Type 0 where
  pub before : Trace
  pub quiet : Extends t before
  pub answered : t' ≡ psa_reply handle s ∷ before

-- The bytes that the client of the latest message gets.
abbrev pub written : Trace → Bytes
written [] = []
written (psa_write _ _ bytes ∷ t) = written t ++ bytes
written (psa_get _ ∷ t) = []
written (_ ∷ t) = written t

module _ {t : Trace} where
  pub received-Extends : {t' : Trace} → Extends t t' → received t' ≡ received t
  received-Extends here = refl
  received-Extends (step psa_wait q r) = absurd q
  received-Extends (step (psa_get s) q r) = absurd q
  received-Extends (step (psa_reply i s) q r) = absurd q
  received-Extends (step _ q r) = received-Extends r

  pub replies-Extends : {t' : Trace} → Extends t t' → replies t' ≡ replies t
  replies-Extends here = refl
  replies-Extends (step psa_wait q r) = absurd q
  replies-Extends (step (psa_get s) q r) = absurd q
  replies-Extends (step (psa_reply i s) q r) = absurd q
  replies-Extends (step _ q r) = replies-Extends r

  pub received-Answers :
      {handle : ℕ} {s : Status} {t' : Trace} → Answers handle s t t' → received t' ≡ received t
  received-Answers a = rw a.answered (received-Extends a.quiet)

  pub replies-Answers :
      {handle : ℕ} {s : Status} {t' : Trace} → Answers handle s t t' → replies t' ≡ suc (replies t)
  replies-Answers a = rw a.answered (ap suc (replies-Extends a.quiet))
