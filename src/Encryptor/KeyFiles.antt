-- ===== src/Encryptor/KeyFiles.antt =====
-- The key file: what is loaded is what was saved.
use pico2w_tfm.Common.{
  ◌≡◌, ◌↔◌, refl, arith, true, Bytes, [], ◌∷◌, ◌++◌, Option, none, some, length, length-append,
  length-take, length-drop, take-append, drop-append,
}
use pico2w_tfm.Encryptor.Text.{equal_text}
use pico2w_tfm.Encryptor.Header.{ok}
use pico2w_tfm.Encryptor.Run.{Run}
use pico2w_tfm.Encryptor.Keys.{key_data, parse_key_data}
use pico2w_tfm.Encryptor.Rows.{take-append-drop}

pub equal_text_self : (path : Bytes) → equal_text path path ≡ true
unfolding equal_text
equal_text_self [] = refl
equal_text_self (x ∷ xs) = ground (arith, equal_text_self xs)

-- no salt, or one of 16 bytes
abbrev pub IsSalt : Option Bytes → Type 0
IsSalt none = Unit
IsSalt (some salt) = length salt ≡ 16

parse_key_data-key_data :
    (key : Bytes) (salt : Option Bytes)
    → length key ≡ 16
    → IsSalt salt
    → parse_key_data (key_data key salt) ≡ ok (key, salt)
unfolding parse_key_data key_data
parse_key_data-key_data key none k s = ground arith
parse_key_data-key_data key (some salt) k s =
    let whole : length (salt ++ key) ≡ 32 = omega (arith, length-append salt key) in
    rw (whole, take-append 16 salt key s, drop-append 16 salt key s) refl

-- A key file is understood exactly when it holds a key of 16 bytes, behind nothing or behind a salt
-- of 16 bytes, and then as that key with that salt.
pub parse_key_data_iff :
    (read key : Bytes) (salt : Option Bytes)
    → (parse_key_data read ≡ ok (key, salt))
      ↔ ((length key ≡ 16) × IsSalt salt × (read ≡ key_data key salt))
unfolding parse_key_data key_data
parse_key_data_iff read key none = (λ h. (ground arith, tt, ground arith), λ h. ground arith)
parse_key_data_iff read key (some salt) = (
  λ h.
      let lengths = length-take 16 read in
      (
        ground (arith, length-drop 16 read),
        ground (arith, length-take 16 read),
        ground (arith, take-append-drop 16 read),
      ),
  λ h. rw h.2 (parse_key_data-key_data key (some salt) h.0 h.1),
)
