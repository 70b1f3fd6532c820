-- ===== src/Encryptor/Run.antt =====
-- What the encryptor runs on: the files, Python's `secrets` and the `cryptography` package are
-- parameters. A run keeps the number of random draws and, newest first, what it did to files.
use pico2w_tfm.Common.{
  ℕ, ◌+◌, ◌≡◌, ◌%◌, Bool, List, [], ◌∷◌, Bytes, IsByte, All, Option, none, some, length,
  if◌then◌else◌,
}
use pico2w_tfm.Encryptor.Header.{Error, os_error, Outcome, ok, raised}
use pico2w_tfm.Encryptor.Text.{equal_text}

-- A file may be writable and yet not `restrictable`: `os.chmod` raises an exception for a file that
-- the user does not own. `token_bytes` gives the bytes of a draw of a size, `pbkdf2` those for a
-- password, a salt, a length and a number of iterations. `aes_cbc` is the encryptor of a key and an IV
-- on whole data: none where it raises an exception.
pub record Host : Type 0 where
  pub exists : Bytes → Bool
  pub read_text : Bytes → Option Bytes
  pub read_bytes : Bytes → Option Bytes
  pub writable : Bytes → Bool
  pub restrictable : Bytes → Bool
  pub token_bytes : ℕ → ℕ → Bytes
  pub pbkdf2 : Bytes → Bytes → ℕ → ℕ → Bytes
  pub aes_cbc : Bytes → Bytes → Bytes → Option Bytes

-- What the documentation of `secrets` and `cryptography` says: results of the size that is asked
-- for, made of bytes, and AES-CBC with a key and an IV of 16 bytes takes whole blocks to as many
-- bytes.
pub record IsDocumented (host : Host) : Type 0 where
  pub token_size : (draw size : ℕ) → length (host.token_bytes draw size) ≡ size
  pub token_IsByte : (draw size : ℕ) → All IsByte (host.token_bytes draw size)
  pub pbkdf2_size :
      (password salt : Bytes) (size rounds : ℕ)
      → length (host.pbkdf2 password salt size rounds) ≡ size
  pub aes_cbc_blocks :
      (key iv padded : Bytes)
      → length key ≡ 16
      → length iv ≡ 16
      → length padded % 16 ≡ 0
      → (c : Bytes) × (host.aes_cbc key iv padded ≡ some c)
        × (length c ≡ length padded)
        × All IsByte c

-- `f.write` of a file opened for writing, and `os.chmod(path, 0o600)`
pub data Effect : Type 0 where
  write_to : Bytes → Bytes → Effect
  restrict : Bytes → Effect

pub record Run : Type 0 where
  pub drawn : ℕ
  pub effects : List Effect

-- What stands in a file at the end: what was written to it last.
unfoldable pub contents : Bytes → List Effect → Option Bytes
contents path [] = none
contents path (write_to p written ∷ es) =
    if equal_text p path then some written else contents path es
contents path (restrict _ ∷ es) = contents path es

-- A method that may raise an exception.
abbrev pub Action : Type 0 → Type 0
Action A = Run → Outcome A × Run

infixl 5 ◌>>=◌ ◌>>◌
abbrev pub after : {A B : Type 0} → Outcome A → (A → Action B) → Action B
after (ok a) f r = f a r
after (raised e) f r = (raised e, r)

abbrev pub ◌>>=◌ : {A B : Type 0} → Action A → (A → Action B) → Action B
◌>>=◌ m f r = let (out, r') = m r in after out f r'

abbrev pub ◌>>◌ : {A B : Type 0} → Action A → Action B → Action B
m >> k = m >>= λ _. k

abbrev pub pure : {A : Type 0} → A → Action A
pure a r = (ok a, r)

abbrev pub raise : {A : Type 0} → Error → Action A
raise e r = (raised e, r)

abbrev pub from_outcome : {A : Type 0} → Outcome A → Action A
from_outcome out r = (out, r)

-- an exception where there is no value
abbrev pub value_or : {A : Type 0} → Error → Option A → Action A
value_or e none r = (raised e, r)
value_or e (some a) r = (ok a, r)

module _ (host : Host) where
  -- `secrets.token_bytes(size)`
  unfoldable pub draw : ℕ → Action Bytes
  draw size r = (ok (host.token_bytes r.drawn size), record r { drawn = r.drawn + 1 })

  -- `with open(path, ...) as f: f.write(written)`
  unfoldable pub write_file : Bytes → Bytes → Action (Unit {0})
  write_file path written r =
      if host.writable path
      then (ok tt, record r { effects = write_to path written ∷ r.effects })
      else (raised os_error, r)

  -- `os.chmod(path, 0o600)`
  unfoldable pub chmod : Bytes → Action (Unit {0})
  chmod path r =
      if host.restrictable path
      then (ok tt, record r { effects = restrict path ∷ r.effects })
      else (raised os_error, r)
