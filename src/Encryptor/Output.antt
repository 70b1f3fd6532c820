-- ===== src/Encryptor/Output.antt =====
-- What a run of the tool leaves in its output file.
use pico2w_tfm.Common.{◌≡◌, refl, true, false, Bytes, ◌++◌, Option, some, codes}
use pico2w_tfm.Encryptor.Text.{equal_text, basename}
use pico2w_tfm.Encryptor.Header.{ok, Parsed, parse_tinymaix_header}
use pico2w_tfm.Encryptor.Run.{Host, IsDocumented, Run, write_file}
use pico2w_tfm.Encryptor.Outcomes.{After, After-any, After-imp, >>=-After}
use pico2w_tfm.Encryptor.Exits.{main-After}
use pico2w_tfm.Encryptor.Package.{create_package}
use pico2w_tfm.Encryptor.Source.{source_content}
use pico2w_tfm.Encryptor.Workflow.{
  Options, given, choose_key, save_key, write_all, encrypt_tinymaix_model, Args, options_of, main,
}
use pico2w_tfm.Encryptor.Written.{
  IsBuilt, header_path, source_path, create_package-IsBuilt, generate_sources-source, Holds,
  IsApart, write_file-Holds, save_key-apart, generate_sources-apart,
}

module _ (host : Host) (laws : IsDocumented host) where
  -- The package, and that the file at a path holds what is made of it.
  abbrev pub Leaves : Parsed → Bytes → Bytes → (Bytes → Bytes) → Run → Type 0
  Leaves parsed key path made r =
      (bytes : Bytes) × IsBuilt host parsed.model_data key bytes × Holds path (made bytes) r

  write_all-output :
      (o : Options) (parsed : Parsed) (key : Bytes) (salt : Option Bytes) (r : Run)
      → IsApart (given o.key_path) o.output_path
      → equal_text (header_path o) o.output_path ≡ false
      → equal_text (source_path o) o.output_path ≡ false
      → After (λ _. Leaves parsed key o.output_path (λ b. b)) (write_all host o parsed key salt r)
  unfolding write_all
  write_all-output o parsed key salt r k h s =
      let goal = λ (_ : Unit {0}). Leaves parsed key o.output_path (λ b. b) in
      >>=-After (λ bytes _. IsBuilt host parsed.model_data key bytes) goal
        (create_package host parsed.model_data key) _ r
        (create_package-IsBuilt host laws parsed.model_data key r)
        λ bytes r₁ built.
          let stays = λ (_ : Unit {0}). Holds o.output_path bytes in
          >>=-After stays goal (write_file host o.output_path bytes) _ r₁
            (write_file-Holds host o.output_path bytes r₁)
            λ _ r₂ h₂.
              >>=-After stays goal (save_key host o key salt (given o.key_path)) _ r₂
                (save_key-apart host o.output_path bytes o key salt (given o.key_path) r₂ k h₂)
                λ _ r₃ h₃.
                  After-imp stays goal _ (λ _ r' e. (bytes, built, e))
                    (generate_sources-apart host o.output_path bytes o bytes parsed.array_name r₃ h
                      s h₃)

  -- the text of the C source
  abbrev pub source_of : Options → Parsed → Bytes → Bytes
  source_of o parsed bytes =
      source_content bytes (basename (header_path o)) (codes "encrypted_" ++ parsed.array_name)

  pub write_all-source :
      (o : Options) (parsed : Parsed) (key : Bytes) (salt : Option Bytes) (r : Run)
      → o.wants_c_header ≡ true
      → After
          (λ _. Leaves parsed key (source_path o) (source_of o parsed))
          (write_all host o parsed key salt r)
  unfolding write_all
  write_all-source o parsed key salt r wanted =
      let goal = λ (_ : Unit {0}). Leaves parsed key (source_path o) (source_of o parsed) in
      let any = λ (_ : Unit {0}) (_ : Run). Unit {0} in
      >>=-After (λ bytes _. IsBuilt host parsed.model_data key bytes) goal
        (create_package host parsed.model_data key) _ r
        (create_package-IsBuilt host laws parsed.model_data key r)
        λ bytes r₁ built.
          >>=-After any goal (write_file host o.output_path bytes) _ r₁ (After-any _) λ _ r₂ _.
            >>=-After any goal (save_key host o key salt (given o.key_path)) _ r₂ (After-any _)
              λ _ r₃ _.
                After-imp (λ _. Holds (source_path o) (source_of o parsed bytes)) goal _
                  (λ _ r' e. (bytes, built, e))
                  (generate_sources-source host laws o bytes parsed.array_name r₃ wanted)

  -- After the key is chosen, the rest of the run is `write_all`.
  pub encrypt-write_all :
      (o : Options) (r : Run) {content key : Bytes} {salt : Option Bytes} {parsed : Parsed}
      → host.read_text o.input_path ≡ some content
      → parse_tinymaix_header content ≡ ok parsed
      → (choose_key host o r).0 ≡ ok (key, salt)
      → encrypt_tinymaix_model host o r ≡ write_all host o parsed key salt (choose_key host o r).1
  unfolding encrypt_tinymaix_model
  encrypt-write_all o r e p k = rw (e, p, k) refl

  -- The tool leaves the package in its output file: for a header that the parser takes, and the key
  -- that is chosen, if the key file, the C header and the C source are other files than the output,
  -- a run that exits with status 0 leaves there a package of the model under that key, with an IV of
  -- 16 bytes and the ciphertext that AES-CBC gives for the padded model.
  pub main_written :
      (args : Args) (r : Run) {content key : Bytes} {salt : Option Bytes} {parsed : Parsed}
      → let o = options_of args args.choice in
        host.read_text o.input_path ≡ some content
        → parse_tinymaix_header content ≡ ok parsed
        → (choose_key host o r).0 ≡ ok (key, salt)
        → IsApart (given o.key_path) o.output_path
        → equal_text (header_path o) o.output_path ≡ false
        → equal_text (source_path o) o.output_path ≡ false
        → (main host args r).0 ≡ 0
        → Leaves parsed key o.output_path (λ b. b) (main host args r).1
  main_written args r {key} {salt} {parsed} e p k apart h s ended =
      let o = options_of args args.choice in
      main-After host (λ _. Leaves parsed key o.output_path (λ b. b)) args r
        (rw (encrypt-write_all o r e p k)
          (write_all-output o parsed key salt (choose_key host o r).1 apart h s))
        ended
