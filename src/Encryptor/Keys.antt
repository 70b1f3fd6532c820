-- ===== src/Encryptor/Keys.antt =====
-- The keys: `generate_key`, `get_psa_test_key`, `derive_key_from_password` and the key file.
use pico2w_tfm.Common.{
  ℕ, ◌+◌, ◌==◌, Bytes, [], ◌∷◌, ◌++◌, Option, none, some, length, take, drop, if◌then◌else◌,
}
use pico2w_tfm.Encryptor.Header.{invalid_key_file, os_error, Outcome, ok, raised}
use pico2w_tfm.Encryptor.Run.{
  Host, Action, ◌>>=◌, ◌>>◌, pure, from_outcome, value_or, draw, write_file, chmod,
}

abbrev pub aes_key_size : ℕ
aes_key_size = 16

abbrev pub salt_size : ℕ
salt_size = 16

abbrev pub psa_crypto_test_key : Bytes
psa_crypto_test_key =
    0x40 ∷ 0xc9 ∷ 0x62 ∷ 0xd6 ∷ 0x6a ∷ 0x1f ∷ 0xa4 ∷ 0x03 ∷ 0x46 ∷ 0xca ∷ 0xc8 ∷ 0xb7 ∷ 0xe6 ∷ 0x12
    ∷ 0x74 ∷ 0xe1 ∷ []

unfoldable pub get_psa_test_key : Bytes
get_psa_test_key = psa_crypto_test_key

-- `key_data`: the salt, where there is one, in front of the key.
unfoldable pub key_data : Bytes → Option Bytes → Bytes
key_data key none = key
key_data key (some salt) = salt ++ key

-- The key and the salt in what a key file holds.
unfoldable pub parse_key_data : Bytes → Outcome (Bytes × Option Bytes)
parse_key_data read =
    if length read == aes_key_size
    then ok (read, none)
    else if length read == salt_size + aes_key_size
    then ok (drop salt_size read, some (take salt_size read))
    else raised invalid_key_file

module _ (host : Host) where
  unfoldable pub generate_key : Action Bytes
  unfolding draw
  generate_key = draw host aes_key_size

  unfoldable pub derive_key_from_password : Bytes → Option Bytes → Action (Bytes × Bytes)
  unfolding draw
  derive_key_from_password password none = do
    salt ← draw host salt_size
    pure (host.pbkdf2 password salt aes_key_size 100000, salt)
  derive_key_from_password password (some salt) =
      pure (host.pbkdf2 password salt aes_key_size 100000, salt)

  unfoldable pub save_key_file : Bytes → Bytes → Option Bytes → Action (Unit {0})
  unfolding write_file chmod key_data
  save_key_file key key_file_path salt = do
    write_file host key_file_path (key_data key salt)
    chmod host key_file_path

  unfoldable pub load_key_file : Bytes → Action (Bytes × Option Bytes)
  unfolding parse_key_data
  load_key_file key_file_path = do
    read ← value_or os_error (host.read_bytes key_file_path)
    from_outcome (parse_key_data read)
