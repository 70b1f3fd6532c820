-- ===== src/Inference/State.antt =====
-- The globals of tinymaix_inference.c with the history of its calls, functions that may return a
-- status early, and the calls that they make.
use pico2w_tfm.Common.{ℕ, Bool, Bytes, ◌∷◌, if◌then◌else◌}
use pico2w_tfm.Psa.{Status, success, is_success, CryptoCall, Mat, Event, crypto, Trace, Env}

-- `g_model_loaded`, `g_decrypted_model`, `g_decrypted_size`, `encryption_key`, `mnist_pic` and
-- `g_in_uint8`, whose data pointer is always `mnist_pic`. What TinyMaix keeps in `g_mdl`, `g_in` and
-- its main buffer shows in its answers only.
pub record World : Type 0 where
  pub model_loaded : Bool
  pub decrypted_model : Bytes
  pub decrypted_size : ℕ
  pub encryption_key : Bytes
  pub mnist_pic : Bytes
  pub in_uint8 : Mat
  pub trace : Trace

-- A function that goes on with a value, or returns a status at once.
pub data Result (A : Type 0) : Type 0 where
  ok : A → Result A
  err : Status → Result A

abbrev pub Action : Type 0 → Type 0
Action A = World → Result A × World

-- These are shut, so that a rule about a way to build an action can be found by its shape.
module _ {A : Type 0} where
  pub pure : A → Action A
  pure a w = (ok a, w)

  pub raise : Status → Action A
  raise s w = (err s, w)

  pub gets : (World → A) → Action A
  gets f w = (ok (f w), w)

  pub from_result : Result A → Action A
  from_result r w = (r, w)

pub modify : (World → World) → Action (Unit {0})
modify f w = (ok tt, f w)

-- `return status` under a test
pub raise_if : Bool → Status → Action (Unit {0})
raise_if c s w = (if c then err s else ok tt, w)

-- a call whose own result is not read
pub log : Event → Action (Unit {0})
log e w = (ok tt, record w { trace = e ∷ w.trace })

abbrev pub after : {A B : Type 0} → Result A → (A → Action B) → Action B
after (ok a) f w = f a w
after (err s) f w = (err s, w)

infixl 5 ◌>>=◌ ◌>>◌
unfoldable pub ◌>>=◌ : {A B : Type 0} → Action A → (A → Action B) → Action B
unfolding pure raise gets from_result modify raise_if log
◌>>=◌ m f w = let (r, w') = m w in after r f w'

abbrev pub ◌>>◌ : {A B : Type 0} → Action A → Action B → Action B
m >> k = m >>= λ _. k

-- The value of the function as its caller sees it, where it returns a status only.
abbrev pub status_of : {A : Type 0} → Result A → Status
status_of (ok _) = success
status_of (err s) = s

module _ (env : Env) where
  -- A PSA Crypto call and its status.
  unfoldable pub call : CryptoCall → Action Status
  call c w =
      let s = env.crypto_status c w.trace in (ok s, record w { trace = crypto c s ∷ w.trace })

  -- `status = call; if (status != PSA_SUCCESS) { cleanup; return status; }`
  unfoldable pub check_or : CryptoCall → Action (Unit {0}) → Action (Unit {0})
  unfolding call ◌>>=◌
  check_or c cleanup = do s ← call c; if is_success s then pure tt else (cleanup >> raise s)

  unfoldable pub check : CryptoCall → Action (Unit {0})
  unfolding check_or
  check c = check_or c (pure tt)
