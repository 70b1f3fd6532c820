-- ===== src/Encryptor/Deployed.antt =====
-- From the model's header to the device: the run of the tool, the C source, and `decrypt_model`.
use pico2w_tfm.Common.{
  ◌-◌, ◌%◌, ◌<◌, ◌≤◌, ◌≡◌, ◌⊎◌, refl, arith, true, Bytes, IsByte, ◌++◌, Option, some, codes, length,
  All, read_u32, u32_bytes, All-append, replicate, length-append, length-replicate,
}
use mathlib.Core.Path.{subst}
use pico2w_tfm.Psa.{Env}
use pico2w_tfm.Inference.State
use pico2w_tfm.Inference.State.{World}
use pico2w_tfm.Inference.Decrypt.{decrypt_model, max_model_size, model_magic}
use pico2w_tfm.Inference.Padding.{pkcs7_pad}
use pico2w_tfm.Inference.RoundTrip.{IsDecrypted, decrypt_model-create_encrypted_package}
use pico2w_tfm.Inference.RoundTrip.Package.{create_encrypted_package}
use pico2w_tfm.Inference.RoundTrip.Stages.{Decrypts}
use pico2w_tfm.Encryptor.Text.{basename}
use pico2w_tfm.Encryptor.Header.{ok, Parsed, parse_tinymaix_header}
use pico2w_tfm.Encryptor.Run.{Host, IsDocumented, Run, contents}
use pico2w_tfm.Encryptor.Outcomes.{After-value}
use pico2w_tfm.Encryptor.Exits.{main-After}
use pico2w_tfm.Encryptor.Searching.{IsNoSpace}
use pico2w_tfm.Encryptor.Parsing.{IsModel, parse_tinymaix_header-IsModel}
use pico2w_tfm.Encryptor.RoundTrip.{parse_tinymaix_header-source_content}
use pico2w_tfm.Encryptor.Matching.{IsWord}
use pico2w_tfm.Encryptor.KeyFiles.{IsSalt}
use pico2w_tfm.Encryptor.Chosen.{choose_key-IsKey}
use pico2w_tfm.Encryptor.Workflow.{Options, choose_key, Args, options_of, main}
use pico2w_tfm.Encryptor.Written.{IsBuilt, header_path, source_path, Holds}
use pico2w_tfm.Encryptor.Output.{Leaves, source_of, write_all-source, encrypt-write_all}

module _ (host : Host) (laws : IsDocumented host) where
  package-IsByte :
      (model iv ciphertext : Bytes)
      → All IsByte iv
      → All IsByte ciphertext
      → All IsByte (create_encrypted_package model iv ciphertext)
  unfolding create_encrypted_package u32_bytes
  package-IsByte model iv ciphertext h k =
      let size = u32_bytes (length model) in
      let sized : All IsByte size = omega arith in
      (
        omega arith,
        (
          omega arith,
          (
            omega arith,
            (
              omega arith,
              (
                omega arith,
                (
                  omega arith,
                  (
                    omega arith,
                    (
                      omega arith,
                      All-append IsByte size (iv ++ ciphertext) sized
                          (All-append IsByte iv ciphertext h k),
                    ),
                  ),
                ),
              ),
            ),
          ),
        ),
      )

  package-nonempty :
      (model iv ciphertext : Bytes) → 0 < length (create_encrypted_package model iv ciphertext)
  unfolding create_encrypted_package
  package-nonempty model iv ciphertext = omega arith

  padded-IsBlocks :
      (model : Bytes) → (length (pkcs7_pad model 16) % 16 ≡ 0) × (0 < length (pkcs7_pad model 16))
  unfolding pkcs7_pad
  padded-IsBlocks model =
      let p = 16 - length model % 16 in
      (
        omega (arith, length-append model (replicate p p), length-replicate p p),
        omega (arith, length-append model (replicate p p), length-replicate p p),
      )

  -- A ciphertext under a key of 16 bytes is made of bytes, at least one.
  ciphertext-IsBytes :
      (model key bytes : Bytes) (b : IsBuilt host model key bytes)
      → length key ≡ 16
      → All IsByte b.ciphertext × (0 < length b.ciphertext)
  ciphertext-IsBytes model key bytes b k =
      let (blocks, some') = padded-IsBlocks model in
      let (c, e, size, all') =
        laws.aes_cbc_blocks key b.iv (pkcs7_pad model 16) k b.iv_size blocks in
      let same : c ≡ b.ciphertext = cc (e, b.encrypted) in
      (subst (All IsByte) same all', subst (λ t. 0 < length t) same (omega (arith, size, some')))

  chosen-size :
      (o : Options) (r : Run) {key : Bytes} {salt : Option Bytes}
      → (choose_key host o r).0 ≡ ok (key, salt)
      → length key ≡ 16
  chosen-size o r {key} {salt} k =
      let fits =
        After-value (λ c _. (length c.0 ≡ 16) × IsSalt c.1) (choose_key host o r) (key, salt) k
          (choose_key-IsKey host laws o r) in
      fits.0

  -- The array of the C source, as the parser reads it back.
  source_of-parsed :
      (o : Options) (parsed : Parsed) (bytes : Bytes)
      → IsModel parsed
      → All IsByte bytes
      → 0 < length bytes
      → All IsNoSpace (basename (header_path o))
      → parse_tinymaix_header (source_of host laws o parsed bytes)
        ≡ ok (record {
          model_data = bytes;
          array_name = (codes "encrypted_" ++ parsed.array_name) ++ codes "_data";
          mdl_buf_len = 0;
          lbuf_len = 0;
        })
  source_of-parsed o parsed bytes m h pos' no_space =
      parse_tinymaix_header-source_content bytes (basename (header_path o))
        (codes "encrypted_" ++ parsed.array_name) h pos' no_space
        (All-append IsWord (codes "encrypted_") parsed.array_name
          (refl, (refl, (refl, (refl, (refl, (refl, (refl, (refl, (refl, (refl, tt)))))))))) m.word)

  -- The pipeline from the model's header file to the device. For a header that the parser takes, the
  -- key that is chosen, and a C header that is asked for at a path whose file name has no white space:
  -- if the padded model fits the 4096 bytes of `g_decrypted_model`, the buffers on the device have
  -- their declared sizes, a model of four bytes or more begins with "MAIX", and PSA Crypto on the
  -- device derives that same key under the model's label, and under it and any IV of 16 bytes gives
  -- the padded model for the ciphertext that the tool's AES-CBC gives for it with that key and IV,
  -- then a run that exits with status 0 leaves a C source that the parser takes, whose array is a
  -- package that `decrypt_model` accepts, and after which `g_decrypted_model` begins with the model
  -- and `g_decrypted_size` is its length.
  pub main_deploys :
      (env : Env) (args : Args) (r : Run) (w : World) {content key : Bytes} {salt : Option Bytes}
      {parsed : Parsed}
      → let o = options_of args args.choice in
        let padded = pkcs7_pad parsed.model_data 16 in
        o.wants_c_header ≡ true
        → host.read_text o.input_path ≡ some content
        → parse_tinymaix_header content ≡ ok parsed
        → (choose_key host o r).0 ≡ ok (key, salt)
        → All IsNoSpace (basename (header_path o))
        → length padded ≤ max_model_size
        → (length parsed.model_data < 4) ⊎ (read_u32 parsed.model_data 0 ≡ model_magic)
        → ((iv c : Bytes)
            → length iv ≡ 16
            → host.aes_cbc key iv padded ≡ some c
            → Decrypts env key iv c padded)
        → length w.decrypted_model ≡ max_model_size
        → length w.encryption_key ≡ 16
        → (main host args r).0 ≡ 0
        → (source : Bytes) × (bytes : Bytes) × (contents
              (source_path o)
              (main host args r).1.effects
            ≡ some source)
          × (parse_tinymaix_header source
              ≡ ok (record {
                model_data = bytes;
                array_name = (codes "encrypted_" ++ parsed.array_name) ++ codes "_data";
                mdl_buf_len = 0;
                lbuf_len = 0;
              }))
          × ((decrypt_model env (some bytes) (length bytes) w).0 ≡ State.ok tt)
          × IsDecrypted parsed.model_data (decrypt_model env (some bytes) (length bytes) w).1
  main_deploys env args r w {content} {key} {salt} {parsed} wanted e p k no_space fits magic good
        room kept ended =
      let o = options_of args args.choice in
      let (bytes, built, there) =
        main-After host
          (λ _. Leaves host laws parsed key (source_path o) (source_of host laws o parsed)) args r
          (rw (encrypt-write_all host laws o r e p k)
            (write_all-source host laws o parsed key salt (choose_key host o r).1 wanted))
          ended in
      let model : IsModel parsed = rw p at (parse_tinymaix_header-IsModel content) in
      let (made, some') =
        ciphertext-IsBytes parsed.model_data key bytes built (chosen-size o r k) in
      let pkg = create_encrypted_package parsed.model_data built.iv built.ciphertext in
      let all' = package-IsByte parsed.model_data built.iv built.ciphertext built.iv_bytes made in
      let held =
        subst (λ b. Holds (source_path o) (source_of host laws o parsed b) (main host args r).1)
          built.layout there in
      let (status, decrypted) =
        decrypt_model-create_encrypted_package env parsed.model_data key built.iv built.ciphertext w
          built.iv_size some' room kept fits magic
          (good built.iv built.ciphertext built.iv_size built.encrypted) in
      (
        source_of host laws o parsed pkg,
        pkg,
        held,
        source_of-parsed o parsed pkg model all'
            (package-nonempty parsed.model_data built.iv built.ciphertext) no_space,
        status,
        decrypted,
      )
