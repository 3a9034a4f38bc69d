-- ===== src/Identity/Decimal.antt =====
-- Numbers in decimal digits: the `%d` of `fmt` and its reading.
use gdcc.Base.{
  ℕ, zero, suc, ◌+◌, ◌-◌, ◌*◌, ◌/◌, ◌%◌, ◌^◌, ◌≤◌, ◌<◌, ◌≡◌, refl, ap, ◌∙◌, true, some, none, inl,
  inr, Bool-cases, [], ◌∷◌, ◌++◌, Bytes, ltb, if◌then◌else◌, length, length-append, All, All-append,
  arith, ltb→lt,
}
use gdcc.Identity.{is_digit, digits_value, in_32_bits, parse_uint}

-- The digits of a number, with more fuel than the number has digits.
unfoldable pub digits : ℕ → ℕ → Bytes
digits zero n = (b'0' + n % 10) ∷ []
digits (suc k) n =
    let front = digits k (n / 10) in
    if ltb n 10 then (b'0' + n) ∷ [] else front ++ ((b'0' + n % 10) ∷ [])

unfoldable pub decimal : ℕ → Bytes
unfolding digits
decimal n = digits n n

digits-All : (k n : ℕ) → All (λ c. is_digit c ≡ true) (digits k n)
unfolding digits
digits-All zero n = (ground arith, tt)
digits-All (suc k) n = elim (Bool-cases (ltb n 10)) [
  | inl small ↦ rw small (ground (arith, ltb→lt n 10 small), tt)
  | inr large ↦ rw large (
      All-append (λ c. is_digit c ≡ true) (digits k (n / 10)) ((b'0' + n % 10) ∷ [])
        (digits-All k (n / 10)) (ground arith, tt))
]

pub decimal-All : (n : ℕ) → All (λ c. is_digit c ≡ true) (decimal n)
unfolding decimal
decimal-All n = digits-All n n

one_digit : (m d : ℕ) → d < 10 → digits_value m ((b'0' + d) ∷ []) ≡ some (m * 10 + d)
unfolding digits_value
one_digit m d lt =
    let is_one : is_digit (b'0' + d) ≡ true = ground arith in rw is_one (ap some (omega arith))

-- The value of digits that stand behind others.
digits_value-append :
    (m n : ℕ) (xs : Bytes) (d : ℕ)
    → digits_value m xs ≡ some n
    → d < 10
    → digits_value m (xs ++ ((b'0' + d) ∷ [])) ≡ some (n * 10 + d)
unfolding digits_value
digits_value-append m n [] d h lt =
    (let e : m ≡ n = cc in one_digit m d lt ∙ ap (λ (k : ℕ). some (k * 10 + d)) e)
digits_value-append m n (x ∷ xs) d h lt = elim (Bool-cases (is_digit x)) [
  | inl is_one ↦ rw is_one (digits_value-append (m * 10 + (x - b'0')) n xs d (rw is_one at h) lt)
  | inr other ↦ (let e : none ≡ some n = rw other at h in absurd (cc))
]

digits_value-digits : (k n : ℕ) → n ≤ k → digits_value 0 (digits k n) ≡ some n
unfolding digits
digits_value-digits zero n h = one_digit 0 (n % 10) (omega arith) ∙ ap some (omega arith)
digits_value-digits (suc k) n h = elim (Bool-cases (ltb n 10)) [
  | inl small ↦ rw small (one_digit 0 n (ltb→lt n 10 small) ∙ ap some (omega arith))
  | inr large ↦ rw large (
      digits_value-append 0 (n / 10) (digits k (n / 10)) (n % 10)
        (digits_value-digits k (n / 10) (omega arith)) (omega arith)
      ∙ ap some (omega arith))
]

digits_ne : (k n : ℕ) → 0 < length (digits k n)
unfolding digits
digits_ne zero n = omega arith
digits_ne (suc k) n = ground (arith, length-append (digits k (n / 10)) ((b'0' + n % 10) ∷ []))

pub decimal_ne : (n : ℕ) → 0 < length (decimal n)
unfolding decimal
decimal_ne n = digits_ne n n

parse_uint_lem : (b : Bytes) → 0 < length b → parse_uint b ≡ in_32_bits (digits_value 0 b)
unfolding parse_uint
parse_uint_lem [] h = absurd (omega arith)
parse_uint_lem (c ∷ cs) h = refl

-- A number below 2^32 is read back from its digits.
pub parse_uint-decimal : (n : ℕ) → n < 2 ^ 32 → parse_uint (decimal n) ≡ some n
unfolding decimal
parse_uint-decimal n h =
    let fits : ltb n (2 ^ 32) ≡ true = ground arith in
    parse_uint_lem (decimal n) (digits_ne n n)
    ∙ ap in_32_bits (digits_value-digits n n (omega arith))
    ∙ rw fits refl
