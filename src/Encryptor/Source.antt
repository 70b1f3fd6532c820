-- ===== src/Encryptor/Source.antt =====
-- `generate_c_header`: the texts of the C header and of the C source with the encrypted_package.
use pico2w_tfm.Common.{
  ℕ, zero, suc, ◌+◌, ◌/◌, ◌%◌, Bytes, ltb, List, [], ◌∷◌, ◌++◌, length, take, drop, if◌then◌else◌,
  codes,
}
use mathlib.Core.List.{reverse}
use pico2w_tfm.Encryptor.Text.{decimal, upper, basename, replace}
use pico2w_tfm.Encryptor.Run.{Host, Action, ◌>>◌, write_file}

-- the pieces of an f-string
abbrev pub concat : List Bytes → Bytes
concat [] = []
concat (piece ∷ pieces) = piece ++ concat pieces

abbrev pub magic_header : Bytes
magic_header = codes "TMAX"

abbrev pub version : ℕ
version = 3

abbrev pub hex_digit : ℕ → ℕ
hex_digit d = if ltb d 10 then 48 + d else 87 + d

-- `f"{b:02x}"` for a byte
abbrev pub two_hex : ℕ → Bytes
two_hex b = hex_digit (b / 16) ∷ hex_digit (b % 16) ∷ []

-- `data.hex()`
unfoldable pub hex_text : Bytes → Bytes
hex_text [] = []
hex_text (b ∷ bs) = two_hex b ++ hex_text bs

-- `', '.join(f'0x{b:02x}' for b in chunk)`
unfoldable pub join_hex : Bytes → Bytes
join_hex [] = []
join_hex (b ∷ []) = codes "0x" ++ two_hex b
join_hex (b ∷ b' ∷ bs) = codes "0x" ++ (two_hex b ++ (codes ", " ++ join_hex (b' ∷ bs)))

-- The rows of the array in front of `rest`, 16 bytes to a row: `encrypted_package` is what is left behind
-- `encrypted_package[:i]`.
unfoldable pub rows : ℕ → Bytes → Bytes → Bytes
unfolding join_hex
rows zero encrypted_package rest = rest
rows (suc count) encrypted_package rest =
    codes "    "
    ++ (join_hex (take 16 encrypted_package)
        ++ (codes ",\n" ++ rows count (drop 16 encrypted_package) rest))

-- the number of steps of `range(0, len(encrypted_package), 16)`
abbrev pub row_count : Bytes → ℕ
row_count encrypted_package = (length encrypted_package + 15) / 16

unfoldable pub header_content : Bytes → Bytes
unfolding upper hex_text decimal
header_content array_name = concat (
    codes "/* Auto-generated encrypted TinyMAIX model */\n"
    ∷ codes "/* Generated by tinymaix_model_encryptor.py */\n\n"
    ∷ codes "#ifndef ENCRYPTED_TINYMAIX_MODEL_H\n#define ENCRYPTED_TINYMAIX_MODEL_H\n\n"
    ∷ codes "#include <stdint.h>\n#include <stddef.h>\n\n"
    ∷ codes "/* Encrypted model data */\nextern const uint8_t "
    ∷ array_name
    ∷ codes "_data[];\nextern const size_t "
    ∷ array_name
    ∷ codes "_size;\n\n"
    ∷ codes "/* Model metadata */\n#define "
    ∷ upper array_name
    ∷ codes "_MAGIC_HEADER 0x"
    ∷ upper (hex_text (reverse magic_header))
    ∷ codes "\n#define "
    ∷ upper array_name
    ∷ codes "_VERSION "
    ∷ decimal version
    ∷ codes "\n\n#endif /* ENCRYPTED_TINYMAIX_MODEL_H */\n"
    ∷ [])

-- what stands in front of the rows, and behind them
unfoldable pub source_start : ℕ → Bytes → Bytes → Bytes → Bytes
unfolding decimal
source_start size header_name array_name rest =
    codes "/* Auto-generated encrypted TinyMAIX model */\n"
    ++ (codes "/* Generated by tinymaix_model_encryptor.py */\n\n#include \""
        ++ (header_name
            ++ (codes "\"\n\n/* Encrypted model data ("
                ++ (decimal size
                    ++ (codes " bytes) */\nconst uint8_t "
                        ++ (array_name ++ (codes "_data[] = {\n" ++ rest)))))))

unfoldable pub source_end : Bytes → Bytes
source_end array_name = concat (
    codes "};\n\nconst size_t "
    ∷ array_name
    ∷ codes "_size = sizeof("
    ∷ array_name
    ∷ codes "_data);\n\n"
    ∷ [])

unfoldable pub source_content : Bytes → Bytes → Bytes → Bytes
unfolding source_start rows source_end
source_content encrypted_package header_name array_name =
    source_start (length encrypted_package) header_name array_name
      (rows (row_count encrypted_package) encrypted_package (source_end array_name))

module _ (host : Host) where
  unfoldable pub generate_c_header : Bytes → Bytes → Bytes → Action (Unit {0})
  unfolding header_content source_content write_file
  generate_c_header encrypted_package header_file_path array_name = do
    write_file host header_file_path (header_content array_name)
    let source_file_path = replace (codes ".h") (codes ".c") header_file_path
    write_file host source_file_path
        (source_content encrypted_package (basename header_file_path) array_name)
