-- ===== src/Encryptor/Tests.antt =====
-- Tests of tools/tinymaix_model_encryptor.py's model, and concrete runs.
use pico2w_tfm.Common.{
  ℕ, inr, read_u32, append-nil, ◌∙◌, Bool, false, zero, suc, ◌%◌, ap, true, none, some, ◌==◌, ◌&&◌,
  if◌then◌else◌, length, All, IsByte, replicate, length-replicate, arith, ◌≡◌, refl, Bytes, [], ◌∷◌,
  ◌++◌, codes,
}
use pico2w_tfm.Encryptor.Header.{ok, Parsed, parse_tinymaix_header}
use pico2w_tfm.Encryptor.Run.{Host, IsDocumented, Run, contents, write_file}
use pico2w_tfm.Encryptor.Text.{
  basename_from, equal_text, replace_from, search_text, literal, one_or_more,
}
use pico2w_tfm.Encryptor.Header.{
  parsed_values, define_value, define_match, array_match, array_head, array_tail, same_name,
  data_match, data_tail, hex_values, hex_byte, two_digits,
}
use pico2w_tfm.Psa.{CryptoCall, cipher_update, key_derivation_output_bytes, Trace, Env}
use pico2w_tfm.Inference.State
use pico2w_tfm.Inference.State.{World}
use pico2w_tfm.Inference.Decrypt.{decrypt_model}
use pico2w_tfm.Inference.Padding.{pkcs7_pad}
use pico2w_tfm.Inference.RoundTrip.{IsDecrypted}
use pico2w_tfm.Inference.RoundTrip.Stages.{Decrypts}
use pico2w_tfm.Inference.Samples.{board, started}
use pico2w_tfm.Encryptor.Failing.{main_failed}
use pico2w_tfm.Encryptor.Overwriting.{HoldsKey, main_overwrites}
use pico2w_tfm.Encryptor.Output.{Leaves, main_written}
use pico2w_tfm.Encryptor.Deployed.{main_deploys}
use pico2w_tfm.Encryptor.RoundTrip.{parse_tinymaix_header-source_content}
use pico2w_tfm.Encryptor.Workflow.{
  encrypt_tinymaix_model, key_from_file, write_all, save_key, generate_sources, KeyChoice, key_file,
  use_psa, Args, options_of, main, choose_key,
}
use pico2w_tfm.Encryptor.Package.{create_package}
use pico2w_tfm.Encryptor.Source.{source_content}

abbrev mnist_header : Bytes
mnist_header =
    codes "#ifndef __MODEL_FILE__H\n#define __MODEL_FILE__H\n#include <stdint.h>\n"
    ++ (codes "#define MDL_BUF_LEN (1464)\n#define LBUF_LEN (1424)\n"
        ++ codes
            "const uint8_t mdl_data[2408]={\\\n\t0x4d, 0x41, 0x49, 0x58, \n\t0xfF, };\n\n#endif\n")

parse_mnist_header :
    parse_tinymaix_header mnist_header
    ≡ ok (record {
      model_data = 0x4d ∷ 0x41 ∷ 0x49 ∷ 0x58 ∷ 0xff ∷ [];
      array_name = codes "mdl_data";
      mdl_buf_len = 1464;
      lbuf_len = 1424;
    })
unfolding parse_tinymaix_header search_text parsed_values define_value define_match array_match
    array_head array_tail same_name data_match data_tail one_or_more literal hex_values hex_byte
    two_digits
parse_mnist_header = refl

eighteen : Bytes
eighteen = 0 ∷ 1 ∷ 2 ∷ 3 ∷ 4 ∷ 5 ∷ 6 ∷ 7 ∷ 8 ∷ 9 ∷ 10 ∷ 11 ∷ 12 ∷ 13 ∷ 14 ∷ 255 ∷ 171 ∷ 16 ∷ []

text : Bytes
text = source_content eighteen (codes "enc.h") (codes "encrypted_m")

source_text :
    text
    ≡ codes
        "/* Auto-generated encrypted TinyMAIX model */\n/* Generated by tinymaix_model_encryptor.py */\n\n#include \"enc.h\"\n\n/* Encrypted model data (18 bytes) */\nconst uint8_t encrypted_m_data[] = {\n    0x00, 0x01, 0x02, 0x03, 0x04, 0x05, 0x06, 0x07, 0x08, 0x09, 0x0a, 0x0b, 0x0c, 0x0d, 0x0e, 0xff,\n    0xab, 0x10,\n};\n\nconst size_t encrypted_m_size = sizeof(encrypted_m_data);\n\n"
unfolding text eighteen source_content
source_text = refl

reparsed :
    parse_tinymaix_header text
    ≡ ok (record {
      model_data = eighteen;
      array_name = codes "encrypted_m_data";
      mdl_buf_len = 0;
      lbuf_len = 0;
    })
unfolding parse_tinymaix_header search_text parsed_values define_value define_match array_match
    array_head array_tail same_name data_match data_tail one_or_more literal hex_values hex_byte
    two_digits text eighteen source_content
reparsed = refl

-- A host for concrete runs: AES-CBC changes nothing but takes whole blocks only, random bytes are
-- sevens, and derived keys are nines.
clean : Bytes → Bytes
clean [] = []
clean (b ∷ bs) = (b % 256) ∷ clean bs

length-clean : (bs : Bytes) → length (clean bs) ≡ length bs
unfolding clean
length-clean [] = refl
length-clean (b ∷ bs) = ap suc (length-clean bs)

clean-IsByte : (bs : Bytes) → All IsByte (clean bs)
unfolding clean
clean-IsByte [] = tt
clean-IsByte (b ∷ bs) = (omega arith, clean-IsByte bs)

replicate-IsByte : (n b : ℕ) → IsByte b → All IsByte (replicate n b)
replicate-IsByte zero b h = tt
replicate-IsByte (suc n) b h = (h, replicate-IsByte n b h)

abbrev tiny_header : Bytes
tiny_header = codes "const uint8_t m[4]={0x4d, 0x41, 0x49, 0x58, };"

abbrev tiny_parsed : Parsed
tiny_parsed = record {
  model_data = 0x4d ∷ 0x41 ∷ 0x49 ∷ 0x58 ∷ [];
  array_name = codes "m";
  mdl_buf_len = 0;
  lbuf_len = 0;
}

abbrev device_key : Bytes
device_key = replicate 16 7

host : Host
unfolding clean
host = record {
  exists = λ path. true;
  read_text = λ path. some tiny_header;
  read_bytes = λ path. some device_key;
  writable = λ path. true;
  restrictable = λ path. true;
  token_bytes = λ draw size. replicate size 7;
  pbkdf2 = λ password salt size rounds. replicate size 9;
  aes_cbc = λ key iv padded.
      if length key == 16 && length padded % 16 == 0 then some (clean padded) else none;
}

host-IsDocumented : IsDocumented host
unfolding host
host-IsDocumented = record {
  token_size = λ draw size. length-replicate size 7;
  token_IsByte = λ draw size. replicate-IsByte size 7 (omega arith);
  pbkdf2_size = λ password salt size rounds. length-replicate size 9;
  aes_cbc_blocks =
      λ key iv padded k i b. (clean padded, ground arith, length-clean padded, clean-IsByte padded);
}

abbrev fresh : Run
fresh = record { drawn = 0; effects = [] }

abbrev args_of : KeyChoice → Bytes → Bool → Args
args_of choice output wants_c_header = record {
  input = codes "m.h";
  output = output;
  choice = choice;
  password = none;
  wants_c_header = wants_c_header;
  output_key = none;
}

parse_tinymaix_header-source_content_example :
    parse_tinymaix_header (source_content eighteen (codes "enc.h") (codes "encrypted_m"))
    ≡ ok (record {
      model_data = eighteen;
      array_name = codes "encrypted_m_data";
      mdl_buf_len = 0;
      lbuf_len = 0;
    })
unfolding eighteen
parse_tinymaix_header-source_content_example =
    parse_tinymaix_header-source_content eighteen (codes "enc.h") (codes "encrypted_m")
      (omega arith) (omega arith) (refl, (refl, (refl, (refl, (refl, tt)))))
      (refl, (refl, (refl, (refl, (refl, (refl, (refl, (refl, (refl, (refl, (refl, tt)))))))))))

-- a host that reads what was saved with a salt
abbrev later : Host
later = record host { read_bytes = λ path. some (replicate 16 9 ++ device_key) }

-- a header without an array
abbrev without_array : Host
without_array = record host { read_text = λ path. some (codes "int x;") }

abbrev header_run : Args
header_run = args_of (key_file (codes "k")) (codes "m.bin") true

fails : (main without_array header_run fresh).0 ≡ 1
unfolding host main options_of encrypt_tinymaix_model parse_tinymaix_header search_text array_match
    array_head literal
fails = refl

main_failed_example : (main without_array header_run fresh).1.effects ≡ []
unfolding host
main_failed_example = main_failed without_array (λ path. refl) (λ path. refl) header_run fresh fails

abbrev overwriting_run : Args
overwriting_run = args_of use_psa (codes "m.enc") false

tiny_parses : parse_tinymaix_header tiny_header ≡ ok tiny_parsed
unfolding parse_tinymaix_header search_text parsed_values define_value define_match array_match
    array_head array_tail same_name data_match data_tail one_or_more literal hex_values hex_byte
    two_digits
tiny_parses = refl

overwriting_ends : (main host overwriting_run fresh).0 ≡ 0
unfolding host main options_of encrypt_tinymaix_model parse_tinymaix_header search_text
    parsed_values define_value define_match array_match array_head array_tail same_name data_match
    data_tail one_or_more literal hex_values hex_byte two_digits choose_key write_all create_package
    write_file save_key generate_sources clean replace_from
overwriting_ends = refl

main_overwrites_example : HoldsKey (codes "m.enc") (main host overwriting_run fresh).1.effects
unfolding search_text literal
main_overwrites_example =
    main_overwrites host host-IsDocumented overwriting_run fresh tt refl refl (omega arith) refl
      overwriting_ends

written_ends : (main host header_run fresh).0 ≡ 0
unfolding host main options_of encrypt_tinymaix_model parse_tinymaix_header search_text
    parsed_values define_value define_match array_match array_head array_tail same_name data_match
    data_tail one_or_more literal hex_values hex_byte two_digits choose_key key_from_file write_all
    create_package write_file save_key generate_sources clean
written_ends = refl

main_written_example :
    Leaves host host-IsDocumented tiny_parsed device_key
      (codes "m.bin")
      (λ b. b)
      (main host header_run fresh).1
unfolding host options_of choose_key key_from_file equal_text replace_from literal
main_written_example =
    main_written host host-IsDocumented header_run fresh {parsed = tiny_parsed} refl tiny_parses
      refl refl refl refl written_ends

-- a device whose cipher changes nothing either
abbrev device : Env
device = record board { filled = outputs }
  where
    outputs : CryptoCall → Trace → Bytes
    outputs (key_derivation_output_bytes n) t = replicate n 7
    outputs (cipher_update input n) t = input
    outputs _ t = []

abbrev device_started : World
device_started = record started { decrypted_model = replicate 4096 0 }

device-Decrypts :
    (iv c : Bytes)
    → length iv ≡ 16
    → host.aes_cbc device_key iv (pkcs7_pad tiny_parsed.model_data 16) ≡ some c
    → Decrypts device device_key iv c (pkcs7_pad tiny_parsed.model_data 16)
unfolding host pkcs7_pad clean
device-Decrypts iv c h e = record {
  succeeds = λ call t. refl;
  derives = λ t. refl;
  key_size = refl;
  outputs = λ n id t. append-nil c ∙ cc e;
}

main_deploys_example :
    (source : Bytes) × (bytes : Bytes) × (contents
        (codes "m.c")
        (main host header_run fresh).1.effects
      ≡ some source)
    × (parse_tinymaix_header source
        ≡ ok (record {
          model_data = bytes;
          array_name = codes "encrypted_m_data";
          mdl_buf_len = 0;
          lbuf_len = 0;
        }))
    × ((decrypt_model device (some bytes) (length bytes) device_started).0 ≡ State.ok tt)
    × IsDecrypted tiny_parsed.model_data
        (decrypt_model device (some bytes) (length bytes) device_started).1
unfolding host options_of choose_key key_from_file replace_from literal basename_from pkcs7_pad
    read_u32
main_deploys_example =
    main_deploys host host-IsDocumented device header_run fresh device_started
      {parsed = tiny_parsed} refl refl tiny_parses refl (refl, (refl, (refl, tt))) (omega arith)
      (inr refl) device-Decrypts (length-replicate {A = ℕ} 4096 0) refl written_ends
