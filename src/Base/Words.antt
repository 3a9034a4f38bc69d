-- ===== src/Base/Words.antt =====
-- Words on the wire: `binary.BigEndian` of the standard library.
use gdcc.Base.Lists.{Bytes, length, get_or}
use Prim.Native.Nat.{ℕ, ◌+◌, ◌*◌, ◌/◌, ◌%◌, ◌^◌, ◌<◌}
use mathlib.Core.Path.{◌≡◌, refl}
use mathlib.Core.List.{[], ◌∷◌, ◌++◌}
use native.Mathlib.Omega.{arith}

abbrev pub IsByte : ℕ → Type 0
IsByte b = b < 256

abbrev pub IsU32 : ℕ → Type 0
IsU32 n = n < 2 ^ 32

-- `binary.BigEndian.PutUint32`
unfoldable pub put_u32 : ℕ → Bytes
put_u32 n = (n / 2 ^ 24 % 256) ∷ (n / 2 ^ 16 % 256) ∷ (n / 2 ^ 8 % 256) ∷ (n % 256) ∷ []

-- `binary.BigEndian.PutUint16` of `uint16(n)`
unfoldable pub put_u16 : ℕ → Bytes
put_u16 n = (n / 2 ^ 8 % 256) ∷ (n % 256) ∷ []

-- `binary.BigEndian.Uint32` and `Uint16`, on the bytes from an offset on
unfoldable pub get_u32 : Bytes → ℕ
get_u32 b = get_or b 0 0 * 2 ^ 24 + get_or b 1 0 * 2 ^ 16 + get_or b 2 0 * 2 ^ 8 + get_or b 3 0

unfoldable pub get_u16 : Bytes → ℕ
get_u16 b = get_or b 0 0 * 2 ^ 8 + get_or b 1 0

pub get_u32-put_u32 : (n : ℕ) (rest : Bytes) → IsU32 n → get_u32 (put_u32 n ++ rest) ≡ n
unfolding get_u32 put_u32
get_u32-put_u32 n rest h = omega arith

pub get_u16-put_u16 : (n : ℕ) (rest : Bytes) → n < 65536 → get_u16 (put_u16 n ++ rest) ≡ n
unfolding get_u16 put_u16
get_u16-put_u16 n rest h = omega arith

pub length-put_u32 : (n : ℕ) → length (put_u32 n) ≡ 4
unfolding put_u32
length-put_u32 n = refl
