-- ===== src/Inference/Stages.antt =====
-- What every PSA Crypto call and every write of a global keeps, `derive_key_from_huk` and
-- `decrypt_model` keep.
use pico2w_tfm.Common.{ℕ, Option, Bytes, overwrite}
use pico2w_tfm.Psa.{
  generic_error, CryptoCall, import_key, cipher_update, cipher_finish, Event, imported,
  key_derivation_abort, cipher_abort, destroy_key, Env,
}
use pico2w_tfm.Inference.State.{
  World, Result, ok, err, Action, ◌>>=◌, log, call, modify, check, check_or,
}
use pico2w_tfm.Inference.KeyDerivation.{derive_key_from_huk}
use pico2w_tfm.Inference.Decrypt.{
  Header, derive_encryption_key, import_encryption_key, cipher_output, finish_bytes, decrypt_bytes,
  run_cipher, accept_plaintext, init_crypto, decrypt_model, huk_label, derived_key_len,
}
use pico2w_tfm.Inference.Keeps.{
  IsPreorder, Keeps, pure-Keeps, gets-Keeps, raise-Keeps, raise_if-Keeps, from_result-Keeps,
  >>=-Keeps, if-Keeps,
}

-- A crypto call that neither writes the model buffer nor imports a key.
abbrev pub IsSilent : CryptoCall → Type 0
IsSilent (cipher_update _ _) = ⊥
IsSilent (cipher_finish _) = ⊥
IsSilent (import_key _) = ⊥
IsSilent _ = Unit

-- A crypto call that writes the model buffer.
abbrev pub IsOutput : CryptoCall → Type 0
IsOutput (cipher_update _ _) = Unit
IsOutput (cipher_finish _) = Unit
IsOutput _ = ⊥

-- A call that releases something, or the note of an imported key.
abbrev pub IsCleanup : Event → Type 0
IsCleanup (imported _) = Unit
IsCleanup key_derivation_abort = Unit
IsCleanup cipher_abort = Unit
IsCleanup (destroy_key _) = Unit
IsCleanup _ = ⊥

pub record DerivationKeeps (env : Env) (R : World → World → Type 0) : Type 0 where
  pub order : IsPreorder R
  pub silent : (c : CryptoCall) → IsSilent c → Keeps R (call env c)
  pub cleanup : (e : Event) → IsCleanup e → Keeps R (log e)

pub record CipherKeeps (env : Env) (R : World → World → Type 0) : Type 0 where
  pub derivation : DerivationKeeps env R
  pub output : (c : CryptoCall) (at : ℕ) → IsOutput c → Keeps R (cipher_output env c at)
  pub key :
      (key : Bytes) (w : World)
      → R w (record w { encryption_key = overwrite w.encryption_key 0 key })
  pub size : (n : ℕ) (w : World) → R w (record w { decrypted_size = n })

pub record DecryptionKeeps (env : Env) (R : World → World → Type 0) : Type 0 where
  pub cipher : CipherKeeps env R
  pub importing : (key : Bytes) → Keeps R (call env (import_key key))

module _ {env : Env} {R : World → World → Type 0} (d : DerivationKeeps env R) where
  open d use {order, silent, cleanup}

  pub check_or-Keeps :
      (c : CryptoCall) (k : Action (Unit {0})) → IsSilent c → Keeps R k → Keeps R (check_or env c k)
  unfolding check_or
  check_or-Keeps c k s p =
      search (>>=-Keeps order, if-Keeps order, pure-Keeps order, raise-Keeps order, silent)

  pub check-Keeps : (c : CryptoCall) → IsSilent c → Keeps R (check env c)
  unfolding check
  check-Keeps c s = search (check_or-Keeps, pure-Keeps order)

ruleset action_rules = (
  check_or-Keeps, check-Keeps, pure-Keeps, raise-Keeps, gets-Keeps, raise_if-Keeps,
  from_result-Keeps, if-Keeps, >>=-Keeps,
)

module _ {env : Env} {R : World → World → Type 0} (d : DerivationKeeps env R) where
  pub derive_key_from_huk-Keeps :
      (label : Bytes) (n : ℕ) → Keeps R (derive_key_from_huk env label n)
  unfolding derive_key_from_huk
  derive_key_from_huk-Keeps label n = search (action_rules, d.order, d.cleanup) depth 12

module _ {env : Env} {R : World → World → Type 0} (k : CipherKeeps env R) where
  open k use {derivation, output, key, size}
  open derivation use {order, silent, cleanup}

  pub init_crypto-Keeps : Keeps R (init_crypto env)
  unfolding init_crypto
  init_crypto-Keeps = search (action_rules, order, silent)

  decrypt_bytes-Keeps : (ciphertext : Bytes) → Keeps R (decrypt_bytes env ciphertext)
  unfolding decrypt_bytes finish_bytes
  decrypt_bytes-Keeps ciphertext = search (action_rules, order, output)

  pub run_cipher-Keeps :
      (h : Header) (ciphertext : Bytes) (id : ℕ) → Keeps R (run_cipher env h ciphertext id)
  unfolding run_cipher
  run_cipher-Keeps h ciphertext id =
      search (action_rules, derivation, order, cleanup, decrypt_bytes-Keeps) depth 12

  pub derive_encryption_key-Keeps : Keeps R (derive_encryption_key env)
  unfolding derive_encryption_key
  derive_encryption_key-Keeps = record {
    from = λ w.
        let (r, w') = derive_key_from_huk env huk_label derived_key_len w in
        stored r w' ((derive_key_from_huk-Keeps derivation huk_label derived_key_len).from w);
  }
    where
      stored :
          (r : Result Bytes) {w : World} (w' : World)
          → R w w'
          → R w
              (elim r as (λ _. Result (Unit {0}) × World) [
                | ok key ↦ (ok tt, record w' { encryption_key = overwrite w'.encryption_key 0 key })
                | err s ↦ (err generic_error, w')
              ]).1
      stored (ok key') {w} w' h = order.trans w w' _ h (key key' w')
      stored (err s) w' h = h

  pub accept_plaintext-Keeps : (h : Header) (n : ℕ) → Keeps R (accept_plaintext env h n)
  unfolding accept_plaintext
  accept_plaintext-Keeps h n = search (action_rules, order, resized) depth 8
    where
      resized : (m : ℕ) → Keeps R (modify (λ w. record w { decrypted_size = m }))
      resized m = record { from = λ w. unfold ◌>>=◌ in size m w }

module _ {env : Env} {R : World → World → Type 0} (k : DecryptionKeeps env R) where
  open k use {cipher, importing}
  open cipher use {derivation}
  open derivation use {order, cleanup}

  import_encryption_key-Keeps : Keeps R (import_encryption_key env)
  unfolding import_encryption_key check check_or
  import_encryption_key-Keeps = search (action_rules, order, importing, cleanup) depth 12

  pub decrypt_model-Keeps :
      (encrypted : Option Bytes) (n : ℕ) → Keeps R (decrypt_model env encrypted n)
  unfolding decrypt_model
  decrypt_model-Keeps encrypted n =
      search
        (
          action_rules, order, cipher, init_crypto-Keeps, derive_encryption_key-Keeps,
          import_encryption_key-Keeps, run_cipher-Keeps, accept_plaintext-Keeps,
        )
        depth 14
