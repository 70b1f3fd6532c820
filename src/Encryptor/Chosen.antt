-- ===== src/Encryptor/Chosen.antt =====
-- Every key that the tool uses is one for AES-128.
use pico2w_tfm.Common.{
  ◌≡◌, refl, arith, Bytes, Option, none, some, Bool-cases, Option-cases, inl, inr, length,
  length-take, length-drop,
}
use pico2w_tfm.Encryptor.Run.{Host, IsDocumented, Run, from_outcome}
use pico2w_tfm.Encryptor.Outcomes.{After}
use pico2w_tfm.Encryptor.Keys.{parse_key_data}
use pico2w_tfm.Encryptor.KeyFiles.{IsSalt}
use pico2w_tfm.Encryptor.Workflow.{Options, given, new_key, key_from_file, choose_key}

module _ (host : Host) (laws : IsDocumented host) where
  parse_key_data-IsKey :
      (read : Bytes) (r : Run)
      → After (λ k _. (length k.0 ≡ 16) × IsSalt k.1) (from_outcome (parse_key_data read) r)
  unfolding parse_key_data
  parse_key_data-IsKey read r = ground (arith, length-take 16 read, length-drop 16 read)

  new_key-IsKey :
      (password : Option Bytes) (r : Run)
      → After (λ k _. (length k.0 ≡ 16) × IsSalt k.1) (new_key host password r)
  unfolding new_key
  new_key-IsKey none r = (laws.token_size r.drawn 16, tt)
  new_key-IsKey (some password) r =
      let salt = host.token_bytes r.drawn 16 in
      (laws.pbkdf2_size password salt 16 100000, laws.token_size r.drawn 16)

  key_from_file-IsKey :
      (path : Option Bytes) (r : Run)
      → After (λ k _. (length k.0 ≡ 16) × IsSalt k.1) (key_from_file host path r)
  unfolding key_from_file
  key_from_file-IsKey none r = tt
  key_from_file-IsKey (some path) r = elim (Option-cases (host.read_bytes path)) [
    | inl missing ↦ rw missing tt
    | inr (read, there) ↦ rw there (parse_key_data-IsKey read r)
  ]

  -- Every key that is used has 16 bytes, and its salt too.
  pub choose_key-IsKey :
      (o : Options) (r : Run) → After (λ k _. (length k.0 ≡ 16) × IsSalt k.1) (choose_key host o r)
  unfolding choose_key
  choose_key-IsKey o r = elim (Bool-cases o.use_psa_key) [
    | inl psa ↦ rw psa (refl, tt)
    | inr not' ↦ rw not' (elim (Bool-cases o.wants_key) [
      | inl new ↦ rw new (new_key-IsKey (given o.password) r)
      | inr old ↦ rw old (key_from_file-IsKey (given o.key_path) r)
    ])
  ]
