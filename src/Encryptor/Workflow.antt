-- ===== src/Encryptor/Workflow.antt =====
-- `encrypt_tinymaix_model` and `main`.
use pico2w_tfm.Common.{
  ℕ, ◌∷◌, ◌++◌, [], Bool, true, false, not, Bytes, Option, none, some, if◌then◌else◌, codes,
}
use pico2w_tfm.Encryptor.Header.{
  no_key_option, os_error, Outcome, ok, raised, Parsed, parse_tinymaix_header,
}
use pico2w_tfm.Encryptor.Text.{replace}
use pico2w_tfm.Encryptor.Run.{
  Host, Run, Action, ◌>>=◌, ◌>>◌, pure, raise, from_outcome, value_or, write_file,
}
use pico2w_tfm.Encryptor.Keys.{
  get_psa_test_key, generate_key, derive_key_from_password, save_key_file, load_key_file,
}
use pico2w_tfm.Encryptor.Package.{create_package}
use pico2w_tfm.Encryptor.Source.{generate_c_header}

-- the arguments of `encrypt_tinymaix_model`
pub record Options : Type 0 where
  pub input_path : Bytes
  pub output_path : Bytes
  pub key_path : Option Bytes
  pub password : Option Bytes
  pub wants_key : Bool
  pub wants_c_header : Bool
  pub use_psa_key : Bool

-- A text that counts as true: neither None nor empty.
abbrev pub given : Option Bytes → Option Bytes
given none = none
given (some []) = none
given (some (c ∷ cs)) = some (c ∷ cs)

module _ (host : Host) where
  -- `if password:` under `generate_key`
  unfoldable pub new_key : Option Bytes → Action (Bytes × Option Bytes)
  unfolding derive_key_from_password generate_key
  new_key none = do key ← generate_key host; pure (key, none)
  new_key (some password) = do
    (key, salt) ← derive_key_from_password host password none
    pure (key, some salt)

  -- `elif key_path:`
  unfoldable pub key_from_file : Option Bytes → Action (Bytes × Option Bytes)
  unfolding load_key_file
  key_from_file none = raise no_key_option
  key_from_file (some key_path) = load_key_file host key_path

  unfoldable pub choose_key : Options → Action (Bytes × Option Bytes)
  unfolding get_psa_test_key
  choose_key o =
      if o.use_psa_key
      then pure (get_psa_test_key, none)
      else if o.wants_key
      then new_key (given o.password)
      else key_from_file (given o.key_path)

  -- "Save key if generated (not for PSA key)", for a key path that was given.
  unfoldable pub save_key : Options → Bytes → Option Bytes → Option Bytes → Action (Unit {0})
  unfolding save_key_file
  save_key o key salt none = pure tt
  save_key o key salt (some key_path) =
      if o.wants_key
      then save_key_file host key key_path salt
      else if o.use_psa_key
      then save_key_file host key key_path none
      else pure tt

  unfoldable pub generate_sources : Options → Bytes → Bytes → Action (Unit {0})
  unfolding generate_c_header
  generate_sources o encrypted_package array_name =
      if o.wants_c_header
      then generate_c_header host encrypted_package
          (replace (codes ".bin") (codes ".h") o.output_path) (codes "encrypted_" ++ array_name)
      else pure tt

  -- What follows the choice of the key.
  unfoldable pub write_all : Options → Parsed → Bytes → Option Bytes → Action (Unit {0})
  write_all o parsed key salt = do
    encrypted_package ← create_package host parsed.model_data key
    write_file host o.output_path encrypted_package
    save_key o key salt (given o.key_path)
    generate_sources o encrypted_package parsed.array_name

  unfoldable pub encrypt_tinymaix_model : Options → Action (Unit {0})
  encrypt_tinymaix_model o = do
    content ← value_or os_error (host.read_text o.input_path)
    parsed ← from_outcome (parse_tinymaix_header content)
    (key, salt) ← choose_key o
    write_all o parsed key salt

-- The group of arguments of which `argparse` takes exactly one.
pub data KeyChoice : Type 0 where
  key_file : Bytes → KeyChoice
  generate use_psa : KeyChoice

pub record Args : Type 0 where
  pub input : Bytes
  pub output : Bytes
  pub choice : KeyChoice
  pub password : Option Bytes
  pub wants_c_header : Bool
  pub output_key : Option Bytes

-- "Default key output path"
abbrev pub output_key_or_default : Bytes → Option Bytes → Bytes
output_key_or_default output none = replace (codes ".bin") (codes ".key") output
output_key_or_default output (some path) = path

unfoldable pub options_of : Args → KeyChoice → Options
options_of args (key_file path) = record {
  input_path = args.input;
  output_path = args.output;
  key_path = some path;
  password = args.password;
  wants_key = false;
  wants_c_header = args.wants_c_header;
  use_psa_key = false;
}
options_of args generate = record {
  input_path = args.input;
  output_path = args.output;
  key_path = some (output_key_or_default args.output (given args.output_key));
  password = args.password;
  wants_key = true;
  wants_c_header = args.wants_c_header;
  use_psa_key = false;
}
options_of args use_psa = record {
  input_path = args.input;
  output_path = args.output;
  key_path = some (output_key_or_default args.output (given args.output_key));
  password = args.password;
  wants_key = false;
  wants_c_header = args.wants_c_header;
  use_psa_key = true;
}

abbrev pub exit_status : Outcome (Unit {0}) → ℕ
exit_status (ok _) = 0
exit_status (raised _) = 1

-- The exit status and what the run did.
unfoldable pub main : Host → Args → Run → ℕ × Run
main host args r =
    if not (host.exists args.input)
    then (1, r)
    else (let (out, r') = encrypt_tinymaix_model host (options_of args args.choice) r in
        (exit_status out, r'))
