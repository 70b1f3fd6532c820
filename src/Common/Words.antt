-- ===== src/Common/Words.antt =====
-- Little-endian 32-bit words in byte buffers, and the range predicates of C's unsigned types.
use Prim.Native.Nat.{ℕ, ◌+◌, ◌*◌, ◌/◌, ◌%◌, ◌^◌, ◌<◌}
use mathlib.Core.Path.{◌≡◌}
use mathlib.Core.List.{List, [], ◌∷◌}
use native.Mathlib.Omega.{arith}
use pico2w_tfm.Common.Lists.{get_or}

abbrev pub Bytes : Type 0
Bytes = List ℕ

abbrev pub IsByte : ℕ → Type 0
IsByte b = b < 256

abbrev pub IsU32 : ℕ → Type 0
IsU32 n = n < 2 ^ 32

-- `*(uint32_t *)(buf + i)` on a little-endian machine
unfoldable pub read_u32 : Bytes → ℕ → ℕ
read_u32 buf i =
    get_or buf i 0
    + 256 * get_or buf (i + 1) 0
    + 65536 * get_or buf (i + 2) 0
    + 16777216 * get_or buf (i + 3) 0

-- the bytes of a `uint32_t` in memory
unfoldable pub u32_bytes : ℕ → Bytes
u32_bytes n = (n % 256) ∷ (n / 256 % 256) ∷ (n / 65536 % 256) ∷ (n / 16777216 % 256) ∷ []

pub read_u32-u32_bytes : (n : ℕ) → IsU32 n → read_u32 (u32_bytes n) 0 ≡ n
unfolding read_u32 u32_bytes
read_u32-u32_bytes n h = omega arith
