-- ===== src/Inference/Release.antt =====
-- `decrypt_model` gives back what it takes: the imported key is destroyed, and the cipher operation
-- and the key derivation are aborted, however it ends.
use pico2w_tfm.Common.{ℕ, Bool, true, false, List, [], ◌∷◌, ◌≡◌, ◌==◌, if◌then◌else◌}
use pico2w_tfm.Psa.{
  is_success, crypto, imported, destroy_key, cipher_abort, key_derivation_abort,
  key_derivation_setup, cipher_decrypt_setup, Trace,
}
use pico2w_tfm.Inference.State.{World}

-- `l` without its first `a`
abbrev pub erase : ℕ → List ℕ → List ℕ
erase a [] = []
erase a (b ∷ l) = if a == b then l else b ∷ erase a l

-- the keys that were imported and not destroyed
abbrev pub live_keys : Trace → List ℕ
live_keys [] = []
live_keys (imported id ∷ t) = id ∷ live_keys t
live_keys (destroy_key id ∷ t) = erase id (live_keys t)
live_keys (_ ∷ t) = live_keys t

-- whether a cipher operation was set up and not aborted
abbrev pub cipher_active : Trace → Bool
cipher_active [] = false
cipher_active (crypto (cipher_decrypt_setup _) s ∷ t) =
    if is_success s then true else cipher_active t
cipher_active (cipher_abort ∷ t) = false
cipher_active (_ ∷ t) = cipher_active t

-- whether a key derivation was set up and not aborted
abbrev pub derivation_active : Trace → Bool
derivation_active [] = false
derivation_active (crypto key_derivation_setup s ∷ t) =
    if is_success s then true else derivation_active t
derivation_active (key_derivation_abort ∷ t) = false
derivation_active (_ ∷ t) = derivation_active t

-- The keys are these, and no operation is active.
pub record IsIdle (keys : List ℕ) (w : World) : Type 0 where
  pub live : live_keys w.trace ≡ keys
  pub no_cipher : cipher_active w.trace ≡ false
  pub no_derivation : derivation_active w.trace ≡ false

-- The keys are these, no cipher operation is active, and a derivation may be.
record IsBusy (keys : List ℕ) (w : World) : Type 0 where
  live : live_keys w.trace ≡ keys
  no_cipher : cipher_active w.trace ≡ false
