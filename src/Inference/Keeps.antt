-- ===== src/Inference/Keeps.antt =====
-- Relations between the world before and after an action: a rule for each way to build an action,
-- so that what every action of the partition keeps is proved stage by stage.
use pico2w_tfm.Common.{Bool, true, false, if◌then◌else◌}
use pico2w_tfm.Psa.{Status}
use pico2w_tfm.Inference.State.{
  World, Result, ok, err, Action, after, pure, raise, ◌>>=◌, gets, raise_if, from_result,
}

-- A relation that holds between a world and itself, and along two actions in a row.
pub record IsPreorder (R : World → World → Type 0) : Type 0 where
  pub same : (w : World) → R w w
  pub trans : (u v w : World) → R u v → R v w → R u w

pub record Keeps {A : Type 0} (R : World → World → Type 0) (m : Action A) : Type 0 where
  pub from : (w : World) → R w (m w).1

module _ {R : World → World → Type 0} (o : IsPreorder R) where
  module _ {A : Type 0} where
    pub pure-Keeps : (a : A) → Keeps R (pure a)
    unfolding ◌>>=◌
    pure-Keeps a = record { from = o.same }

    pub raise-Keeps : (s : Status) → Keeps R (raise {A = A} s)
    unfolding ◌>>=◌
    raise-Keeps s = record { from = o.same }

    pub gets-Keeps : (f : World → A) → Keeps R (gets f)
    unfolding ◌>>=◌
    gets-Keeps f = record { from = o.same }

    pub from_result-Keeps : (r : Result A) → Keeps R (from_result r)
    unfolding ◌>>=◌
    from_result-Keeps r = record { from = o.same }

    pub if-Keeps :
        (c : Bool) (m k : Action A) → Keeps R m → Keeps R k → Keeps R (if c then m else k)
    if-Keeps true m k p q = p
    if-Keeps false m k p q = q

  pub raise_if-Keeps : (c : Bool) (s : Status) → Keeps R (raise_if c s)
  unfolding ◌>>=◌
  raise_if-Keeps c s = record { from = o.same }

  module _ {A B : Type 0} where
    after-related :
        (r : Result A) (f : A → Action B) {u w : World}
        → R u w
        → ((a : A) → Keeps R (f a))
        → R u (after r f w).1
    after-related (ok a) f {u} {w} h q = o.trans u w (f a w).1 h ((q a).from w)
    after-related (err s) f h q = h

    pub >>=-Keeps :
        (m : Action A) (f : A → Action B)
        → Keeps R m
        → ((a : A) → Keeps R (f a))
        → Keeps R (m >>= f)
    unfolding ◌>>=◌
    >>=-Keeps m f p q = record { from = λ w. let (r, w') = m w in after-related r f (p.from w) q }
