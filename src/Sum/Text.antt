-- ===== src/Sum/Text.antt =====
-- The printed form of a checksum determines it.
use gdcc.Base.{
  ℕ, ◌+◌, ◌-◌, ◌*◌, ◌/◌, ◌%◌, ◌^◌, ◌≡◌, refl, ap, ap₂, ◌<◌, ◌∙◌, Bytes, [], ◌∷◌, ◌++◌, ◌==◌, ltb,
  if◌then◌else◌, length, take, drop, All, arith, take-append-drop, length-take, length-drop,
  drop-drop, take-of_le, append-nil, All-take, All-drop,
}
use gdcc.Base.Words.{IsByte}
use gdcc.Sum.{be32, hex_byte, hex_digit, hex_word, sum_string}

-- The value of a hexadecimal digit.
abbrev digit_value : ℕ → ℕ
digit_value c = if ltb c b'a' then c - b'0' else c - b'a' + 10

-- Reads pairs of digits, past single spaces.
unfoldable pub read_hex : Bytes → Bytes
read_hex [] = []
read_hex (c ∷ []) = []
read_hex (c ∷ d ∷ cs) =
    let skipped = read_hex (d ∷ cs) in
    let paired = (digit_value c * 16 + digit_value d) ∷ read_hex cs in
    if c == b' ' then skipped else paired

read_hex-hex_byte :
    (b : ℕ) (rest : Bytes) → b < 256 → read_hex (hex_byte b ++ rest) ≡ b ∷ read_hex rest
unfolding read_hex
read_hex-hex_byte b rest h = ground arith

read_hex_space : (d : ℕ) (cs : Bytes) → read_hex (b' ' ∷ d ∷ cs) ≡ read_hex (d ∷ cs)
unfolding read_hex
read_hex_space d cs = refl

hex_byte_mod : (x b : ℕ) → x % 256 ≡ b → hex_byte x ≡ hex_byte b
hex_byte_mod x b h =
    let hi : x / 16 % 16 ≡ b / 16 % 16 = omega arith in
    let lo : x % 16 ≡ b % 16 = omega arith in
    ap₂ (λ (p q : ℕ). hex_digit p ∷ hex_digit q ∷ []) hi lo

-- The printed word is the four printed bytes.
hex_word-be32 :
    (a b c d : ℕ)
    → All IsByte (a ∷ b ∷ c ∷ d ∷ [])
    → hex_word (be32 (a ∷ b ∷ c ∷ d ∷ []))
      ≡ hex_byte a ++ (hex_byte b ++ (hex_byte c ++ hex_byte d))
unfolding hex_word
hex_word-be32 a b c d h =
    let w = be32 (a ∷ b ∷ c ∷ d ∷ []) in
    let e : w ≡ a * 2 ^ 24 + b * 2 ^ 16 + c * 2 ^ 8 + d = unfold be32 in refl in
    ap₂ (λ (p q : Bytes). p ++ q) (hex_byte_mod (w / 2 ^ 24) a (omega arith))
      (ap₂ (λ (p q : Bytes). p ++ q) (hex_byte_mod (w / 2 ^ 16) b (omega arith))
        (ap₂ (λ (p q : Bytes). p ++ q) (hex_byte_mod (w / 2 ^ 8) c (omega arith))
          (hex_byte_mod w d (omega arith))))

-- One word in front of the rest of the text.
read_hex_word :
    (w rest : Bytes)
    → length w ≡ 4
    → All IsByte w
    → read_hex (hex_word (be32 w) ++ rest) ≡ w ++ read_hex rest
read_hex_word (a ∷ b ∷ c ∷ d ∷ []) rest h v = rw (hex_word-be32 a b c d v) (
    read_hex-hex_byte a _ v.0
    ∙ ap (◌∷◌ a) (
        read_hex-hex_byte b _ v.1.0
        ∙ ap (◌∷◌ b)
            (read_hex-hex_byte c _ v.1.1.0 ∙ ap (◌∷◌ c) (read_hex-hex_byte d rest v.1.1.1.0))))
read_hex_word (a ∷ b ∷ c ∷ d ∷ e ∷ w) rest h v = absurd (omega arith)
read_hex_word (a ∷ b ∷ c ∷ []) rest h v = absurd (omega arith)
read_hex_word (a ∷ b ∷ []) rest h v = absurd (omega arith)
read_hex_word (a ∷ []) rest h v = absurd (omega arith)
read_hex_word [] rest h v = absurd (omega arith)

read_hex_spaced :
    (w rest : Bytes)
    → length w ≡ 4
    → All IsByte w
    → read_hex (b' ' ∷ (hex_word (be32 w) ++ rest)) ≡ w ++ read_hex rest
unfolding hex_word
read_hex_spaced w rest h v = read_hex_space _ _ ∙ read_hex_word w rest h v

words_of :
    (s : Bytes)
    → length s ≡ 16
    → take 4 s ++ (take 4 (drop 4 s) ++ (take 4 (drop 8 s) ++ (take 4 (drop 12 s) ++ []))) ≡ s
words_of s h =
    let last : take 4 (drop 12 s) ≡ drop 12 s =
      take-of_le 4 (drop 12 s) (omega (arith, length-drop 12 s)) in
    let third : take 4 (drop 8 s) ++ drop 12 s ≡ drop 8 s =
      rw (← drop-drop 8 4 s) (take-append-drop 4 (drop 8 s)) in
    let second : take 4 (drop 4 s) ++ drop 8 s ≡ drop 4 s =
      rw (← drop-drop 4 4 s) (take-append-drop 4 (drop 4 s)) in
    rw (append-nil (take 4 (drop 12 s)), last, third, second) (take-append-drop 4 s)

-- A checksum of 16 bytes, printed in hexadecimal in four groups, reads back as those 16 bytes.
pub read_hex-sum_string : (s : Bytes) → length s ≡ 16 → All IsByte s → read_hex (sum_string s) ≡ s
unfolding sum_string hex_word read_hex
read_hex-sum_string s h v =
    let v4 = All-drop IsByte 4 s v in
    let v8 = All-drop IsByte 8 s v in
    let v12 = All-drop IsByte 12 s v in
    let after : ℕ → Bytes → Bytes = λ n r. b' ' ∷ (hex_word (be32 (take 4 (drop n s))) ++ r) in
    let text12 = after 12 [] in
    let text8 = after 8 text12 in
    read_hex_word (take 4 s) (after 4 text8) (omega (arith, length-take 4 s))
      (All-take IsByte 4 s v)
    ∙ ap (λ (r : Bytes). take 4 s ++ r)
        (read_hex_spaced (take 4 (drop 4 s)) text8
            (omega (arith, length-take 4 (drop 4 s), length-drop 4 s)) (All-take IsByte 4 _ v4)
          ∙ ap (λ (r : Bytes). take 4 (drop 4 s) ++ r)
              (read_hex_spaced (take 4 (drop 8 s)) text12
                  (omega (arith, length-take 4 (drop 8 s), length-drop 8 s))
                  (All-take IsByte 4 _ v8)
                ∙ ap (λ (r : Bytes). take 4 (drop 8 s) ++ r)
                    (read_hex_spaced (take 4 (drop 12 s)) []
                      (omega (arith, length-take 4 (drop 12 s), length-drop 12 s))
                      (All-take IsByte 4 _ v12))))
    ∙ words_of s h
