-- ===== src/Encryptor/Overwriting.antt =====
-- Where an output path without ".bin" leads.
use pico2w_tfm.Common.{
  ◌≡◌, ◌<◌, refl, ◌∙◌, arith, true, false, ◌||◌, Bytes, List, [], ◌∷◌, Option, none, some,
  Bool-cases, inl, inr, codes, length,
}
use pico2w_tfm.Encryptor.Text.{literal, search_text, replace_from}
use pico2w_tfm.Encryptor.Header.{os_error, Parsed, parse_tinymaix_header}
use pico2w_tfm.Encryptor.Run.{
  Host, IsDocumented, Run, contents, Effect, value_or, from_outcome, write_file,
}
use pico2w_tfm.Encryptor.Outcomes.{After, After-any, >>=-After}
use pico2w_tfm.Encryptor.Exits.{main-After}
use pico2w_tfm.Encryptor.Keys.{save_key_file, key_data}
use pico2w_tfm.Encryptor.KeyFiles.{IsSalt, equal_text_self}
use pico2w_tfm.Encryptor.Chosen.{choose_key-IsKey}
use pico2w_tfm.Encryptor.Package.{create_package}
use pico2w_tfm.Encryptor.Workflow.{
  Options, given, choose_key, save_key, generate_sources, write_all, encrypt_tinymaix_model,
  KeyChoice, key_file, generate, use_psa, Args, options_of, main,
}

-- A text is not changed where the old text does not occur.
replace_from-none :
    (old new text : Bytes)
    → search_text (literal old) text ≡ none
    → replace_from 0 old new text ≡ text
unfolding search_text replace_from
replace_from-none old new [] h = refl
replace_from-none old new (x ∷ xs) h = ground (arith, replace_from-none old new xs)

given-nonempty : (path : Bytes) → 0 < length path → given (some path) ≡ some path
given-nonempty [] h = absurd (omega arith)
given-nonempty (c ∷ cs) h = refl

-- A choice for which the tool makes the key, or takes the test key, and saves it.
abbrev pub SavesKey : KeyChoice → Type 0
SavesKey (key_file _) = ⊥
SavesKey generate = Unit
SavesKey use_psa = Unit

-- The file holds a key of 16 bytes, alone or behind a salt of 16 bytes.
pub record HoldsKey (path : Bytes) (es : List Effect) : Type 0 where
  pub key : Bytes
  pub salt : Option Bytes
  pub key_size : length key ≡ 16
  pub salt_size : IsSalt salt
  pub held : contents path es ≡ some (key_data key salt)

module _ (host : Host) (laws : IsDocumented host) where
  save_key_file-HoldsKey :
      (key path : Bytes) (salt : Option Bytes) (r : Run)
      → length key ≡ 16
      → IsSalt salt
      → After (λ _ r'. HoldsKey path r'.effects) (save_key_file host key path salt r)
  unfolding save_key_file contents
  save_key_file-HoldsKey key path salt r k s = elim (Bool-cases (host.writable path)) [
    | inl can ↦ rw can (elim (Bool-cases (host.restrictable path)) [
      | inl own ↦ rw own (record {
        key = key;
        salt = salt;
        key_size = k;
        salt_size = s;
        held = rw (equal_text_self path) refl;
      })
      | inr foreign ↦ rw foreign tt
    ])
    | inr cannot ↦ rw cannot tt
  ]

  save_key-HoldsKey :
      (o : Options) (key path : Bytes) (salt : Option Bytes) (r : Run)
      → length key ≡ 16
      → IsSalt salt
      → (o.wants_key || o.use_psa_key) ≡ true
      → After (λ _ r'. HoldsKey path r'.effects) (save_key host o key salt (some path) r)
  unfolding save_key
  save_key-HoldsKey o key path salt r k s saves = elim (Bool-cases o.wants_key) [
    | inl new ↦ rw new (save_key_file-HoldsKey key path salt r k s)
    | inr old ↦
        let psa : o.use_psa_key ≡ true = rw old at saves in
        rw old (rw psa (save_key_file-HoldsKey key path none r k tt))
  ]

  -- Without a C header the key is the last thing that is written.
  write_all-HoldsKey :
      (o : Options) (parsed : Parsed) (key path : Bytes) (salt : Option Bytes) (r : Run)
      → length key ≡ 16
      → IsSalt salt
      → (o.wants_key || o.use_psa_key) ≡ true
      → o.wants_c_header ≡ false
      → given o.key_path ≡ some path
      → After (λ _ r'. HoldsKey path r'.effects) (write_all host o parsed key salt r)
  unfolding write_all generate_sources
  write_all-HoldsKey o parsed key path salt r k s saves bare e =
      let goal = λ (_ : Unit {0}) (r' : Run). HoldsKey path r'.effects in
      >>=-After (λ _ _. Unit {0}) goal (create_package host parsed.model_data key) _ r (After-any _)
        λ bytes r₁ _.
          >>=-After (λ _ _. Unit {0}) goal (write_file host o.output_path bytes) _ r₁ (After-any _)
            λ _ r₂ _. rw e (
              >>=-After goal goal (save_key host o key salt (some path)) _ r₂
                (save_key-HoldsKey o key path salt r₂ k s saves) λ _ r₃ h. rw bare h)

  encrypt_tinymaix_model-HoldsKey :
      (o : Options) (path : Bytes) (r : Run)
      → (o.wants_key || o.use_psa_key) ≡ true
      → o.wants_c_header ≡ false
      → given o.key_path ≡ some path
      → After (λ _ r'. HoldsKey path r'.effects) (encrypt_tinymaix_model host o r)
  unfolding encrypt_tinymaix_model
  encrypt_tinymaix_model-HoldsKey o path r saves bare e =
      let goal = λ (_ : Unit {0}) (r' : Run). HoldsKey path r'.effects in
      >>=-After (λ _ _. Unit {0}) goal (value_or os_error (host.read_text o.input_path)) _ r
        (After-any _)
        λ content r₁ _.
          >>=-After (λ _ _. Unit {0}) goal (from_outcome (parse_tinymaix_header content)) _ r₁
            (After-any _)
            λ parsed r₂ _.
              >>=-After (λ k _. (length k.0 ≡ 16) × IsSalt k.1) goal (choose_key host o) _ r₂
                (choose_key-IsKey host laws o r₂)
                λ chosen r₃ k.
                  write_all-HoldsKey o parsed chosen.0 path chosen.1 r₃ k.0 k.1 saves bare e

  options_of-saves :
      (args : Args) (choice : KeyChoice)
      → SavesKey choice
      → given args.output_key ≡ none
      → search_text (literal (codes ".bin")) args.output ≡ none
      → 0 < length args.output
      → let o = options_of args choice in
        ((o.wants_key || o.use_psa_key) ≡ true)
        × (given o.key_path ≡ some args.output)
        × (o.wants_c_header ≡ args.wants_c_header)
  unfolding options_of
  options_of-saves args (key_file _) s e bin pos' = elim s [ ]
  options_of-saves args generate s e bin pos' = (
    refl,
    rw (e, replace_from-none (codes ".bin") (codes ".key") args.output bin)
        (given-nonempty args.output pos'),
    refl,
  )
  options_of-saves args use_psa s e bin pos' = (
    refl,
    rw (e, replace_from-none (codes ".bin") (codes ".key") args.output bin)
        (given-nonempty args.output pos'),
    refl,
  )

  -- The output file ends as a key file if its path has no ".bin" in it: for an output path that is
  -- not empty and does not contain ".bin", a generated key or the test key, no path for the key, and no C
  -- header, a run that exits with status 0 leaves in the output file a key of 16 bytes, alone or
  -- behind a salt of 16 bytes.
  pub main_overwrites :
      (args : Args) (r : Run)
      → SavesKey args.choice
      → given args.output_key ≡ none
      → search_text (literal (codes ".bin")) args.output ≡ none
      → 0 < length args.output
      → args.wants_c_header ≡ false
      → (main host args r).0 ≡ 0
      → HoldsKey args.output (main host args r).1.effects
  main_overwrites args r s e bin pos' bare ended =
      let (saves, path, same) = options_of-saves args args.choice s e bin pos' in
      main-After host (λ _ r'. HoldsKey args.output r'.effects) args r
        (encrypt_tinymaix_model-HoldsKey (options_of args args.choice) args.output r saves
          (same ∙ bare) path)
        ended
