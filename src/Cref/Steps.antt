-- ===== src/Cref/Steps.antt =====
-- The decoder of character references as a step machine.
use gdcc.Base.{
  ℕ, zero, suc, ◌+◌, ◌-◌, ◌*◌, ◌^◌, ◌≤◌, ◌<◌, ◌≡◌, refl, sym, ap, ◌∙◌, true, false, ◌||◌, Option,
  some, none, inl, inr, Bool-cases, [], ◌∷◌, ◌++◌, Bytes, codes, ◌==◌, ltb, length, All, arith,
  ltb→lt,
}
use gdcc.Cref.Lookup.{lookup_cref_byte}
use gdcc.Cref.{
  Cref, CrefSt, idle, start, num, dec, hex, name, Step, more, taken, short, step, step_in, is_digit,
  cap_255, set_at, hex_digit_value, hex_step, is_idle,
}

-- What follows a step on the byte `c`, where reading on gives `later`.
abbrev after : Cref × Step → Cref × Step × Bytes → ℕ → Bytes → Cref × Step × Bytes
after (next, more) later c cs = later
after (next, taken) later c cs = (next, taken, cs)
after (next, short) later c cs = (next, short, c ∷ cs)

-- A reference is read over the bytes: the state behind it, its last step and the bytes that are left.
unfoldable pub run : Cref → Bytes → Cref × Step × Bytes
run cref [] = (cref, more, [])
run cref (c ∷ cs) = let later = run (step cref c).0 cs in after (step cref c) later c cs

run-step :
    (cref : Cref) (c : ℕ) (cs : Bytes) (r : Cref × Step)
    → step cref c ≡ r
    → run cref (c ∷ cs) ≡ after r (run r.0 cs) c cs
unfolding run
run-step cref c cs r e = ap (λ (p : Cref × Step). after p (run p.0 cs) c cs) e

step_dec :
    (cref : Cref) (d : ℕ)
    → is_digit d ≡ true
    → step (record cref { st = dec }) d
      ≡ (record cref { st = dec; result = cap_255 (cref.result * 10 + (d - b'0')) }, more)
unfolding step
step_dec cref d h = rw h refl

step_num :
    (cref : Cref) (d : ℕ)
    → is_digit d ≡ true
    → step (record cref { st = num }) d ≡ (record cref { st = dec; result = d - b'0' }, more)
unfolding step
step_num cref d h =
    let not_x : (d == b'x' || d == b'X') ≡ false = ground arith in rw (not_x, h) refl

-- The number that digits name, behind those that are read.
pub decimal : ℕ → Bytes → ℕ
decimal n [] = n
decimal n (d ∷ ds) = decimal (n * 10 + (d - b'0')) ds

decimal_large : (n : ℕ) (ds : Bytes) → 255 ≤ n → 255 ≤ decimal n ds
unfolding decimal
decimal_large n [] h = h
decimal_large n (d ∷ ds) h = decimal_large (n * 10 + (d - b'0')) ds (omega arith)

decimal_capped : (n : ℕ) (ds : Bytes) → cap_255 (decimal (cap_255 n) ds) ≡ cap_255 (decimal n ds)
decimal_capped n ds = elim (Bool-cases (ltb 255 n)) [
  | inr small ↦ rw small refl
  | inl large ↦ rw large (
      ground (
        arith,
        decimal_large 255 ds (omega arith),
        decimal_large n ds (omega (arith, ltb→lt 255 n large)),
      ))
]

-- The end of a reference with a number.
abbrev pub numbered : Cref → ℕ → Bytes → Cref × Step × Bytes
numbered cref n rest = (record cref { st = idle; result = cap_255 n }, taken, rest)

run_dec :
    (cref : Cref) (ds rest : Bytes)
    → cref.result ≤ 255
    → All (λ d. is_digit d ≡ true) ds
    → run (record cref { st = dec }) (ds ++ (b';' ∷ rest))
      ≡ numbered cref (decimal cref.result ds) rest
unfolding run step decimal
run_dec cref [] rest h v =
    let out : ℕ → Cref × Step × Bytes = λ r. (record cref { st = idle; result = r }, taken, rest) in
    let small : cap_255 cref.result ≡ cref.result = ground arith in ap out (sym small)
run_dec cref (d ∷ ds) rest h v =
    let n = cref.result * 10 + (d - b'0') in
    let out : ℕ → Cref × Step × Bytes = λ r. (record cref { st = idle; result = r }, taken, rest) in
    let capped : Cref = record cref { result = cap_255 n } in
    let small : cap_255 n ≤ 255 = ground arith in
    run-step (record cref { st = dec }) d (ds ++ (b';' ∷ rest)) _ (step_dec cref d v.0)
    ∙ run_dec capped ds rest small v.1
    ∙ ap out (decimal_capped n ds)

-- "&#N;" with decimal digits is read as the character N, or 255 where N is larger, with its
-- semicolon; the reference behind it begins afresh.
pub run-decimal :
    (cref : Cref) (d : ℕ) (ds rest : Bytes)
    → All (λ c. is_digit c ≡ true) (d ∷ ds)
    → run (record cref { st = idle }) (codes "&#" ++ ((d ∷ ds) ++ (b';' ∷ rest)))
      ≡ numbered cref (decimal 0 (d ∷ ds)) rest
unfolding run step decimal
run-decimal cref d ds rest v =
    let first : Cref = record cref { result = d - b'0' } in
    let small : d - b'0' ≤ 255 = ground arith in
    let zero_add : d - b'0' ≡ 0 * 10 + (d - b'0') = omega arith in
    run-step (record cref { st = num }) d (ds ++ (b';' ∷ rest)) _ (step_num cref d v.0)
    ∙ run_dec first ds rest small v.1
    ∙ ap (λ (n : ℕ). numbered cref (decimal n ds) rest) zero_add

-- The word has its 16 bytes, the name ends inside it, and the result is a byte.
pub record Fits (c : Cref) : Type 0 where
  pub word : length c.w ≡ 16
  pub inside : c.length ≤ 16
  pub byte : c.result < 256

pub length-set_at : (b : Bytes) (i c : ℕ) → length (set_at b i c) ≡ length b
unfolding set_at
length-set_at [] i c = refl
length-set_at (b ∷ bs) zero c = refl
length-set_at (b ∷ bs) (suc i) c = omega (arith, length-set_at bs i c)

cap_255_byte : (n : ℕ) → cap_255 n < 256
cap_255_byte n = ground arith

hex_step-Fits : (d : Option ℕ) (c : Cref) (uc : ℕ) → Fits c → Fits (hex_step d c uc).0
unfolding hex_step
hex_step-Fits none c uc f = record { word = f.word; inside = f.inside; byte = f.byte }
hex_step-Fits (some d) c uc f = record {
  word = f.word;
  inside = f.inside;
  byte = cap_255_byte (c.result * 2 ^ 4 + d);
}

step_in-Fits : (s : CrefSt) (c : Cref) (uc : ℕ) → uc < 256 → Fits c → Fits (step_in s c uc).0
unfolding step_in
step_in-Fits idle c uc b f = ground arith
step_in-Fits start c uc b f = ground arith
step_in-Fits num c uc b f = ground arith
step_in-Fits dec c uc b f = ground (arith, cap_255_byte (c.result * 10 + (uc - b'0')))
step_in-Fits hex c uc b f = hex_step-Fits (hex_digit_value uc) c uc f
step_in-Fits name c uc b f =
    ground (arith, length-set_at c.w c.length uc, lookup_cref_byte c.w c.length)

-- A byte keeps the word at 16 bytes, the name inside it and the result a byte.
pub step-Fits : (c : Cref) (uc : ℕ) → uc < 256 → Fits c → Fits (step c uc).0
unfolding step
step-Fits c uc b f = step_in-Fits c.st c uc b f

hex_step-short :
    (d : Option ℕ) (c : Cref) (uc : ℕ)
    → (hex_step d c uc).1 ≡ short
    → is_idle (hex_step d c uc).0.st ≡ true
unfolding hex_step
hex_step-short none c uc h = refl
hex_step-short (some d) c uc h = absurd (cc)

-- Where a step stops before its byte, a reference ends: the next begins with that byte.
step_in-short :
    (s : CrefSt) (c : Cref) (uc : ℕ)
    → (step_in s c uc).1 ≡ short
    → (is_idle (step_in s c uc).0.st ≡ true) × (is_idle s ≡ false)
unfolding step_in
step_in-short idle c uc h = absurd (cc)
step_in-short start c uc h = (ground (arith, h), refl)
step_in-short num c uc h = (ground (arith, h), refl)
step_in-short dec c uc h = (ground (arith, h), refl)
step_in-short hex c uc h = (hex_step-short (hex_digit_value uc) c uc h, refl)
step_in-short name c uc h = (ground (arith, h), refl)

pub step-short :
    (c : Cref) (uc : ℕ)
    → (step c uc).1 ≡ short
    → (is_idle (step c uc).0.st ≡ true) × (is_idle c.st ≡ false)
unfolding step
step-short c uc h = step_in-short c.st c uc h
