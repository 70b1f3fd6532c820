-- ===== src/Encryptor/Failing.antt =====
-- A run that fails has written nothing, if no write and no change of permissions is refused.
use pico2w_tfm.Common.{
  ◌≡◌, refl, arith, true, Bytes, List, Option, none, some, Bool-cases, inl, inr,
}
use pico2w_tfm.Encryptor.Header.{os_error, Parsed, parse_tinymaix_header}
use pico2w_tfm.Encryptor.Run.{Host, Run, Effect, value_or, from_outcome, write_file}
use pico2w_tfm.Encryptor.Outcomes.{
  Quiet, Returns, Unharmed, >>=-Quiet, >>=-Returns, Returns-Unharmed,
}
use pico2w_tfm.Encryptor.Keys.{save_key_file}
use pico2w_tfm.Encryptor.Package.{create_package}
use pico2w_tfm.Encryptor.Workflow.{
  Options, given, new_key, key_from_file, choose_key, save_key, generate_sources, write_all,
  encrypt_tinymaix_model, Args, options_of, main,
}

value_or-Quiet : {A : Type 0} (o : Option A) → Quiet (value_or os_error o)
value_or-Quiet none r = refl
value_or-Quiet (some a) r = refl

module _ (host : Host) where
  choose_key-Quiet : (o : Options) → Quiet (choose_key host o)
  unfolding choose_key new_key key_from_file
  choose_key-Quiet o r = ground arith

  create_package-Quiet : (model key : Bytes) → Quiet (create_package host model key)
  unfolding create_package
  create_package-Quiet model key r = ground arith

  module _ (writable : (path : Bytes) → host.writable path ≡ true)
      (restrictable : (path : Bytes) → host.restrictable path ≡ true) where
    write_file-Returns : (path written : Bytes) → Returns (write_file host path written)
    unfolding write_file
    write_file-Returns path written r = rw (writable path) tt

    save_key_file-Returns :
        (key path : Bytes) (salt : Option Bytes) → Returns (save_key_file host key path salt)
    unfolding save_key_file
    save_key_file-Returns key path salt r = rw (writable path) (rw (restrictable path) tt)

    save_key-Returns :
        (o : Options) (key : Bytes) (salt path : Option Bytes)
        → Returns (save_key host o key salt path)
    unfolding save_key
    save_key-Returns o key salt none r = tt
    save_key-Returns o key salt (some path) r = ground (arith, writable path, restrictable path)

    generate_sources-Returns :
        (o : Options) (bytes name : Bytes) → Returns (generate_sources host o bytes name)
    unfolding generate_sources
    generate_sources-Returns o bytes name r = elim (Bool-cases o.wants_c_header) [
      | inl wanted ↦ rw wanted (rw (writable _, writable _) tt)
      | inr not' ↦ rw not' tt
    ]

    write_all-Unharmed :
        (o : Options) (parsed : Parsed) (key : Bytes) (salt : Option Bytes) (r : Run)
        {es : List Effect}
        → r.effects ≡ es
        → Unharmed es (write_all host o parsed key salt r)
    unfolding write_all
    write_all-Unharmed o parsed key salt r {es} e =
        >>=-Quiet (create_package host parsed.model_data key) _ r
          (create_package-Quiet parsed.model_data key) e
          λ bytes r' h. Returns-Unharmed es _ (
            >>=-Returns (write_file host o.output_path bytes) _
              (write_file-Returns o.output_path bytes)
              (λ _.
                >>=-Returns (save_key host o key salt (given o.key_path)) _
                  (save_key-Returns o key salt (given o.key_path))
                  (λ _. generate_sources-Returns o bytes parsed.array_name))
              r')

    encrypt_tinymaix_model-Unharmed :
        (o : Options) (r : Run) → Unharmed r.effects (encrypt_tinymaix_model host o r)
    unfolding encrypt_tinymaix_model
    encrypt_tinymaix_model-Unharmed o r =
        >>=-Quiet (value_or os_error (host.read_text o.input_path)) _ r
          (value_or-Quiet (host.read_text o.input_path)) refl
          λ content r₁ h₁.
            >>=-Quiet (from_outcome (parse_tinymaix_header content)) _ r₁ (λ r'. refl) h₁
              λ parsed r₂ h₂.
                >>=-Quiet (choose_key host o) _ r₂ (choose_key-Quiet o) h₂
                  λ chosen r₃ h₃. write_all-Unharmed o parsed chosen.0 chosen.1 r₃ h₃

    -- If every file can be written and its permissions can be changed, a run of the tool that exits
    -- with status 1 has written nothing and changed no permission: whatever is wrong with its
    -- arguments, its input, its key file or the encryption shows before the first write.
    pub main_failed :
        (args : Args) (r : Run)
        → (main host args r).0 ≡ 1
        → (main host args r).1.effects ≡ r.effects
    unfolding main
    main_failed args r h = elim (Bool-cases (host.exists args.input)) [
      | inl there ↦ ground (arith, encrypt_tinymaix_model-Unharmed (options_of args args.choice) r)
      | inr missing ↦ rw missing refl
    ]
