-- ===== src/Mime/Base64/RoundTrip.antt =====
-- Base64 text decodes to what it encodes.
use gdcc.Base.{
  ℕ, zero, suc, ◌+◌, ◌-◌, ◌*◌, ◌/◌, ◌%◌, ◌≤◌, ◌<◌, ◌≡◌, refl, sym, ap, ap₂, subst, ◌∙◌, ◌^◌, Bool,
  true, false, not, List, [], ◌∷◌, Bytes, ◌==◌, ltb, if◌then◌else◌, length, All, arith, concat,
  keep, codes, ==_iff, Bool-cases, inl, inr,
}
use gdcc.Base.Words.{IsByte}
use gdcc.Mime.Base64.{B64State, b64_bad, b64_eq, b64_pad, b64_value, b64_chunks}
use gdcc.Mime.Base64.Stream.{
  symbols, decoded, IsText, padding, digit, decoded_digit, decoded_last, decoded_pad,
}
use gdcc.Mime.Base64.Loop.{b64_chunks-decoded}

-- The alphabet.
abbrev pub b64_char : ℕ → ℕ
b64_char d =
    if ltb d 26
    then b'A' + d
    else if ltb d 52
    then b'a' + (d - 26)
    else if ltb d 62
    then b'0' + (d - 52)
    else if d == 62
    then b'+'
    else b'/'

-- The four digits of three bytes.
abbrev digit0 : ℕ → ℕ
digit0 a = a / 4 % 64

abbrev digit1 : ℕ → ℕ → ℕ
digit1 a b = a % 4 * 16 + b / 16 % 16

abbrev digit2 : ℕ → ℕ → ℕ
digit2 b c = b % 16 * 4 + c / 64 % 4

abbrev digit3 : ℕ → ℕ
digit3 c = c % 64

-- The values of the encoding of a text, and the encoding.
abbrev encode_values : Bytes → List ℕ
encode_values [] = []
encode_values (a ∷ []) = digit0 a ∷ digit1 a 0 ∷ b64_eq ∷ b64_eq ∷ []
encode_values (a ∷ b ∷ []) = digit0 a ∷ digit1 a b ∷ digit2 b 0 ∷ b64_eq ∷ []
encode_values (a ∷ b ∷ c ∷ r) = digit0 a ∷ digit1 a b ∷ digit2 b c ∷ digit3 c ∷ encode_values r

abbrev pub encode : Bytes → Bytes
encode [] = []
encode (a ∷ []) = b64_char (digit0 a) ∷ b64_char (digit1 a 0) ∷ codes "=="
encode (a ∷ b ∷ []) =
    b64_char (digit0 a) ∷ b64_char (digit1 a b) ∷ b64_char (digit2 b 0) ∷ codes "="
encode (a ∷ b ∷ c ∷ r) =
    b64_char (digit0 a)
    ∷ b64_char (digit1 a b)
    ∷ b64_char (digit2 b c)
    ∷ b64_char (digit3 c)
    ∷ encode r

-- The test of every number under a limit, from above.
every_under : (ℕ → Bool) → ℕ → Bool
every_under test zero = true
every_under test (suc k) = if test k then every_under test k else false

every_under_at : (test : ℕ → Bool) (k d : ℕ) → d < k → every_under test k ≡ true → test d ≡ true
unfolding every_under
every_under_at test zero d below h = absurd (omega arith)
every_under_at test (suc k) d below h = elim (Bool-cases (d == k)) [
  | inl e ↦ rw ((==_iff d k).0 e) (ground arith)
  | inr e ↦ ground (arith, every_under_at test k d)
]

-- The table inverts the alphabet.
value_table : every_under (λ d. b64_value (b64_char d) == d) 64 ≡ true
unfolding every_under b64_value
value_table = refl

b64_value-b64_char : (d : ℕ) → d < 64 → b64_value (b64_char d) ≡ d
b64_value-b64_char d h =
    (==_iff _ d).0 (every_under_at (λ v. b64_value (b64_char v) == v) 64 d h value_table)

-- The digits of a text and the padding behind them.
encode_values-IsText : (x : Bytes) → IsText (encode_values x)
encode_values-IsText [] = padding tt
encode_values-IsText (a ∷ []) =
    digit (omega arith) (digit (omega arith) (padding (refl, (refl, tt))))
encode_values-IsText (a ∷ b ∷ []) =
    digit (omega arith) (digit (omega arith) (digit (omega arith) (padding (refl, tt))))
encode_values-IsText (a ∷ b ∷ c ∷ r) =
    digit (omega arith)
      (digit (omega arith) (digit (omega arith) (digit (omega arith) (encode_values-IsText r))))

-- The value of the first digits.
abbrev two : ℕ → ℕ → ℕ
two a b = (0 * 64 + digit0 a) * 64 + digit1 a b

abbrev three : ℕ → ℕ → ℕ → ℕ
three a b c = two a b * 64 + digit2 b c

decoded-two :
    (a b : ℕ) (vs : List ℕ) → decoded 0 0 (digit0 a ∷ digit1 a b ∷ vs) ≡ decoded 2 (two a b) vs
decoded-two a b vs =
    decoded_digit 0 0 (digit0 a) (digit1 a b ∷ vs) (omega arith) refl
    ∙ decoded_digit 1 (0 * 64 + digit0 a) (digit1 a b) vs (omega arith) refl

decoded-three :
    (a b c : ℕ) (vs : List ℕ)
    → decoded 0 0 (digit0 a ∷ digit1 a b ∷ digit2 b c ∷ vs) ≡ decoded 3 (three a b c) vs
decoded-three a b c vs =
    decoded-two a b (digit2 b c ∷ vs) ∙ decoded_digit 2 (two a b) (digit2 b c) vs (omega arith) refl

bytes_of_three :
    (a b c : ℕ)
    → IsByte a
    → IsByte b
    → IsByte c
    → let full = three a b c * 64 + digit3 c in
      (full / 2 ^ 16 % 256 ≡ a) × (full / 2 ^ 8 % 256 ≡ b) × (full % 256 ≡ c)
bytes_of_three a b c ha hb hc = omega arith

decoded-encode_values : (x : Bytes) → All IsByte x → decoded 0 0 (encode_values x) ≡ x
decoded-encode_values [] h = unfold decoded in refl
decoded-encode_values (a ∷ []) (ha, _) =
    let e : two a 0 / 2 ^ 4 % 256 ≡ a = omega arith in
    decoded-two a 0 (b64_eq ∷ b64_eq ∷ [])
    ∙ decoded_pad 2 (two a 0) (b64_eq ∷ []) (refl, tt)
    ∙ unfold b64_pad in ap (λ (c : ℕ). c ∷ []) e
decoded-encode_values (a ∷ b ∷ []) (ha, (hb, _)) =
    let e : three a b 0 / 2 ^ 10 % 256 ≡ a = omega arith in
    let f : three a b 0 / 2 ^ 2 % 256 ≡ b = omega arith in
    decoded-three a b 0 (b64_eq ∷ [])
    ∙ decoded_pad 3 (three a b 0) [] tt
    ∙ unfold b64_pad in ap₂ (λ (c d : ℕ). c ∷ d ∷ []) e f
decoded-encode_values (a ∷ b ∷ c ∷ r) (ha, (hb, (hc, hr))) =
    let (e, f, g) = bytes_of_three a b c ha hb hc in
    decoded-three a b c (digit3 c ∷ encode_values r)
    ∙ decoded_last (three a b c) (digit3 c) (encode_values r) (omega arith)
    ∙ λ i. e i ∷ f i ∷ g i ∷ decoded-encode_values r hr i

-- A byte that is skipped.
abbrev pub is_digit : ℕ → Bool
is_digit c = not (b64_value c == b64_bad)

symbols-keep : (input : Bytes) → symbols (keep is_digit input) ≡ symbols input
unfolding symbols
symbols-keep [] = refl
symbols-keep (c ∷ cs) = ground (arith, symbols-keep cs)

symbols-char :
    (d : ℕ) (cs : Bytes) (vs : List ℕ)
    → d < 64
    → symbols cs ≡ vs
    → symbols (b64_char d ∷ cs) ≡ d ∷ vs
unfolding symbols
symbols-char d cs vs h e =
    let digit : (d == b64_bad) ≡ false = ground arith in
    rw (b64_value-b64_char d h) (rw digit (ap (◌∷◌ d) e))

symbols_ends :
    (symbols [] ≡ [])
    × (symbols (codes "=") ≡ b64_eq ∷ [])
    × (symbols (codes "==") ≡ b64_eq ∷ b64_eq ∷ [])
unfolding symbols b64_value
symbols_ends = (refl, refl, refl)

symbols-encode : (x : Bytes) → symbols (encode x) ≡ encode_values x
symbols-encode [] = symbols_ends.0
symbols-encode (a ∷ []) =
    symbols-char (digit0 a) _ _ (omega arith)
      (symbols-char (digit1 a 0) _ _ (omega arith) symbols_ends.2)
symbols-encode (a ∷ b ∷ []) = symbols-char (digit0 a) _ _ (omega arith) (
    symbols-char (digit1 a b) _ _ (omega arith)
      (symbols-char (digit2 b 0) _ _ (omega arith) symbols_ends.1))
symbols-encode (a ∷ b ∷ c ∷ r) = symbols-char (digit0 a) _ _ (omega arith) (
    symbols-char (digit1 a b) _ _ (omega arith) (
      symbols-char (digit2 b c) _ _ (omega arith)
        (symbols-char (digit3 c) _ _ (omega arith) (symbols-encode r))))

-- With a buffer of at least 3 bytes, fuel above the length of the input and no quantum begun, an
-- input whose digits and padding are the base64 text of the bytes `x`, however it is cut into lines
-- and mixed with other bytes, is decoded to `x`.
pub b64_chunks-encode :
    (fuel cap : ℕ) (s : B64State) (input x : Bytes)
    → 3 ≤ cap
    → length input < fuel
    → s.quantum_cnt ≡ 0
    → All IsByte x
    → keep is_digit input ≡ encode x
    → concat (b64_chunks fuel cap s input).0 ≡ x
b64_chunks-encode fuel cap s input x hc hf z hx e =
    let values : symbols input ≡ encode_values x =
      sym (symbols-keep input) ∙ ap symbols e ∙ symbols-encode x in
    b64_chunks-decoded fuel cap s input hc hf z (subst IsText (sym values) (encode_values-IsText x))
    ∙ ap (decoded 0 0) values
    ∙ decoded-encode_values x hx
