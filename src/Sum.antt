-- ===== src/Sum.antt =====
-- dcc/sum.go: checksum types, the value of a checksum and its printed form.
pub mod Text
use gdcc.Base.{
  ℕ, ◌+◌, ◌-◌, ◌*◌, ◌/◌, ◌%◌, ◌^◌, Bool, Bytes, ◌==◌, ltb, ◌++◌, [], ◌∷◌, get_or, codes, drop, take,
  if◌then◌else◌,
}
use gdcc.CkType.{CkType}

-- `be32`; the four shifted bytes share no bit, so `|` is a sum.
unfoldable pub be32 : Bytes → ℕ
be32 b = get_or b 0 0 * 2 ^ 24 + get_or b 1 0 * 2 ^ 16 + get_or b 2 0 * 2 ^ 8 + get_or b 3 0

-- A digit of `%x`.
abbrev pub hex_digit : ℕ → ℕ
hex_digit d = if ltb d 10 then b'0' + d else b'a' + (d - 10)

abbrev pub hex_byte : ℕ → Bytes
hex_byte b = hex_digit (b / 16 % 16) ∷ hex_digit (b % 16) ∷ []

-- `%08x` of a `uint32`: always eight digits.
unfoldable pub hex_word : ℕ → Bytes
hex_word w =
    hex_byte (w / 2 ^ 24) ++ (hex_byte (w / 2 ^ 16) ++ (hex_byte (w / 2 ^ 8) ++ hex_byte w))

-- `Sum.String`
unfoldable pub sum_string : Bytes → Bytes
sum_string s =
    hex_word (be32 (take 4 s))
    ++ (b' '
        ∷ (hex_word (be32 (take 4 (drop 4 s)))
            ++ (b' '
                ∷ (hex_word (be32 (take 4 (drop 8 s)))
                    ++ (b' ' ∷ hex_word (be32 (take 4 (drop 12 s))))))))

-- `Checksum`. `Label` is `Type.label()` wherever one is built, so it is computed from `type`.
pub record Checksum : Type 0 where
  pub type : CkType
  pub sum : Bytes
  pub report : Bool
