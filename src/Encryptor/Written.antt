-- ===== src/Encryptor/Written.antt =====
-- What a run that succeeds leaves in the output file and in the C source.
use pico2w_tfm.Common.{
  ◌^◌, ◌≡◌, refl, arith, true, false, Bytes, IsByte, IsU32, ◌++◌, Option, none, some, Bool-cases,
  Option-cases, inl, inr, codes, leb, length, All,
}
use pico2w_tfm.Inference.Padding.{pkcs7_pad}
use pico2w_tfm.Inference.RoundTrip.Package.{create_encrypted_package}
use pico2w_tfm.Encryptor.Text.{equal_text, replace, basename}
use pico2w_tfm.Encryptor.Run.{Host, IsDocumented, Run, contents, write_file}
use pico2w_tfm.Encryptor.Outcomes.{After, >>=-After}
use pico2w_tfm.Encryptor.Keys.{save_key_file}
use pico2w_tfm.Encryptor.KeyFiles.{equal_text_self}
use pico2w_tfm.Encryptor.Package.{create_package}
use pico2w_tfm.Encryptor.Source.{header_content, source_content, generate_c_header}
use pico2w_tfm.Encryptor.Workflow.{Options, save_key, generate_sources}

-- The bytes are the package of a model under a key, with an IV of 16 bytes and the ciphertext that
-- AES-CBC gives for the padded model, and the model's size is a 32-bit number.
pub record IsBuilt (host : Host) (model key bytes : Bytes) : Type 0 where
  pub iv : Bytes
  pub ciphertext : Bytes
  pub iv_size : length iv ≡ 16
  pub iv_bytes : All IsByte iv
  pub encrypted : host.aes_cbc key iv (pkcs7_pad model 16) ≡ some ciphertext
  pub model_size : IsU32 (length model)
  pub layout : bytes ≡ create_encrypted_package model iv ciphertext

-- the paths of `generate_c_header`
abbrev pub header_path : Options → Bytes
header_path o = replace (codes ".bin") (codes ".h") o.output_path

abbrev pub source_path : Options → Bytes
source_path o = replace (codes ".h") (codes ".c") (header_path o)

module _ (host : Host) (laws : IsDocumented host) where
  pub create_package-IsBuilt :
      (model key : Bytes) (r : Run)
      → After (λ bytes _. IsBuilt host model key bytes) (create_package host model key r)
  unfolding create_package
  create_package-IsBuilt model key r =
      let iv = host.token_bytes r.drawn 16 in
      elim (Option-cases (host.aes_cbc key iv (pkcs7_pad model 16))) [
        | inl none' ↦ rw none' tt
        | inr (c, some') ↦ rw some' (elim (Bool-cases (leb (2 ^ 32) (length model))) [
          | inl big ↦ rw big tt
          | inr small ↦ rw small (record {
            iv = iv;
            ciphertext = c;
            iv_size = laws.token_size r.drawn 16;
            iv_bytes = laws.token_IsByte r.drawn 16;
            encrypted = some';
            model_size = ground arith;
            layout = refl;
          })
        ])
      ]

  pub generate_sources-source :
      (o : Options) (bytes name : Bytes) (r : Run)
      → o.wants_c_header ≡ true
      → After
          (λ _ r'.
            contents (source_path o) r'.effects
            ≡ some (source_content bytes (basename (header_path o)) (codes "encrypted_" ++ name)))
          (generate_sources host o bytes name r)
  unfolding generate_sources generate_c_header write_file contents
  generate_sources-source o bytes name r wanted =
      rw wanted (elim (Bool-cases (host.writable (header_path o))) [
        | inl can ↦ rw can (elim (Bool-cases (host.writable (source_path o))) [
          | inl can' ↦ rw can' (rw (equal_text_self (source_path o)) refl)
          | inr cannot ↦ rw cannot tt
        ])
        | inr cannot ↦ rw cannot tt
      ])

-- What was to be written is in the file at the path.
abbrev pub Holds : Bytes → Bytes → Run → Type 0
Holds path written r = contents path r.effects ≡ some written

abbrev pub IsApart : Option Bytes → Bytes → Type 0
IsApart none path = Unit
IsApart (some p) path = equal_text p path ≡ false

module _ (host : Host) (path written : Bytes) where
  pub write_file-Holds :
      (r : Run) → After (λ _. Holds path written) (write_file host path written r)
  unfolding write_file contents
  write_file-Holds r = elim (Bool-cases (host.writable path)) [
    | inl can ↦ rw can (rw (equal_text_self path) refl)
    | inr cannot ↦ rw cannot tt
  ]

  write_file-apart :
      (other content : Bytes) (r : Run)
      → equal_text other path ≡ false
      → Holds path written r
      → After (λ _. Holds path written) (write_file host other content r)
  unfolding write_file contents
  write_file-apart other content r apart h = elim (Bool-cases (host.writable other)) [
    | inl can ↦ rw can (rw apart h)
    | inr cannot ↦ rw cannot tt
  ]

  save_key_file-apart :
      (key other : Bytes) (salt : Option Bytes) (r : Run)
      → equal_text other path ≡ false
      → Holds path written r
      → After (λ _. Holds path written) (save_key_file host key other salt r)
  unfolding save_key_file contents
  save_key_file-apart key other salt r apart h = elim (Bool-cases (host.writable other)) [
    | inl can ↦ rw can (elim (Bool-cases (host.restrictable other)) [
      | inl own ↦ rw own (rw apart h)
      | inr foreign ↦ rw foreign tt
    ])
    | inr cannot ↦ rw cannot tt
  ]

  pub save_key-apart :
      (o : Options) (key : Bytes) (salt other : Option Bytes) (r : Run)
      → IsApart other path
      → Holds path written r
      → After (λ _. Holds path written) (save_key host o key salt other r)
  unfolding save_key
  save_key-apart o key salt none r apart h = h
  save_key-apart o key salt (some other) r apart h = elim (Bool-cases o.wants_key) [
    | inl new ↦ rw new (save_key_file-apart key other salt r apart h)
    | inr old ↦ rw old (elim (Bool-cases o.use_psa_key) [
      | inl psa ↦ rw psa (save_key_file-apart key other none r apart h)
      | inr not' ↦ rw not' h
    ])
  ]

  pub generate_sources-apart :
      (o : Options) (bytes name : Bytes) (r : Run)
      → equal_text (header_path o) path ≡ false
      → equal_text (source_path o) path ≡ false
      → Holds path written r
      → After (λ _. Holds path written) (generate_sources host o bytes name r)
  unfolding generate_sources generate_c_header
  generate_sources-apart o bytes name r apart apart' h = elim (Bool-cases o.wants_c_header) [
    | inl wanted ↦
        let array_name = codes "encrypted_" ++ name in
        rw wanted (
          >>=-After (λ _. Holds path written) (λ _. Holds path written)
            (write_file host (header_path o) (header_content array_name)) _ r
            (write_file-apart (header_path o) (header_content array_name) r apart h)
            λ _ r' h'.
              write_file-apart (source_path o)
                (source_content bytes (basename (header_path o)) array_name) r' apart' h')
    | inr not' ↦ rw not' h
  ]
