-- ===== src/Mime/Base64/Stream.antt =====
-- The decoder on digits and a padding at the end, with no buffer.
use gdcc.Base.{
  ℕ, zero, suc, ◌+◌, ◌*◌, ◌/◌, ◌%◌, ◌^◌, ◌≤◌, ◌<◌, ◌≡◌, refl, sym, ap, subst, ◌∙◌, inl, inr, true,
  false, List, [], ◌∷◌, ◌++◌, Bytes, ◌==◌, leb, if◌then◌else◌, All, arith, append_assoc, append-nil,
  Bool-cases,
}
use gdcc.Mime.Base64.{
  B64State, b64_bad, b64_eq, shift_in, b64_pad, Round, b64_shift, b64_value_round, b64_value,
}

-- The values of an input, without those that are skipped.
unfoldable pub symbols : Bytes → List ℕ
symbols [] = []
symbols (c ∷ cs) = if b64_value c == b64_bad then symbols cs else b64_value c ∷ symbols cs

-- What `k` digits of the value `p` and then the values `vs` decode to; padding starts afresh.
abbrev pub pad_bytes : ℕ → ℕ → Bytes
pad_bytes k p = b64_pad (record { quantum = p; quantum_cnt = k })

unfoldable pub decoded : ℕ → ℕ → List ℕ → Bytes
unfolding b64_pad
decoded k p [] = []
decoded k p (v ∷ vs) =
    let padded = pad_bytes k p ++ decoded 0 0 vs in
    let full = p * 64 + v in
    let written = (full / 2 ^ 16 % 256) ∷ (full / 2 ^ 8 % 256) ∷ (full % 256) ∷ decoded 0 0 vs in
    let longer = decoded (k + 1) full vs in
    if v == b64_eq then padded else if k == 3 then written else longer

-- All values are padding.
abbrev pub IsPadding : List ℕ → Type 0
IsPadding = All (λ v. v ≡ b64_eq)

-- Digits, then padding.
pub data IsText : List ℕ → Type 0 where
  padding : {vs : List ℕ} → IsPadding vs → IsText vs
  digit : {v : ℕ} {vs : List ℕ} → v < 64 → IsText vs → IsText (v ∷ vs)

-- The state `s` stands for `k` digits of the value `p`.
pub record Stands (k p : ℕ) (s : B64State) : Type 0 where
  pub count : s.quantum_cnt ≡ k
  pub few : k ≤ 3
  pub small : p < 64 ^ k
  pub low : s.quantum % 64 ^ k ≡ p

-- Behind padding: `decoded` has started afresh, and the decoder may hold one value.
abbrev pub Rests : B64State → Type 0
Rests s = s.quantum_cnt ≤ 1

-- The decoder in state `s`, with the values `vs` to read, is to write `y`.
pub data Ready (s : B64State) (vs : List ℕ) (y : Bytes) : Type 0 where
  text : (k p : ℕ) → Stands k p s → IsText vs → decoded k p vs ≡ y → Ready s vs y
  rest : Rests s → IsPadding vs → y ≡ [] → Ready s vs y

decoded-IsPadding : (vs : List ℕ) → IsPadding vs → decoded 0 0 vs ≡ []
unfolding decoded
decoded-IsPadding [] h = refl
decoded-IsPadding (v ∷ vs) (e, h) = rw e (decoded-IsPadding vs h)

-- A round from `out` leaves `vs`, and what is still to be written for it.
abbrev pub Keeps : Round → List ℕ → Bytes → Bytes → Type 0
Keeps r vs out y = (y' : Bytes) × (r.out ++ y' ≡ out ++ y) × Ready r.state vs y'

pub decoded_digit :
    (k p v : ℕ) (vs : List ℕ)
    → v < 64
    → (k == 3) ≡ false
    → decoded k p (v ∷ vs) ≡ decoded (k + 1) (p * 64 + v) vs
unfolding decoded
decoded_digit k p v vs h n = let e : (v == b64_eq) ≡ false = ground arith in rw (e, n)

pub decoded_last :
    (p v : ℕ) (vs : List ℕ)
    → v < 64
    → decoded 3 p (v ∷ vs)
      ≡ ((p * 64 + v) / 2 ^ 16 % 256)
        ∷ ((p * 64 + v) / 2 ^ 8 % 256)
        ∷ ((p * 64 + v) % 256)
        ∷ decoded 0 0 vs
unfolding decoded
decoded_last p v vs h = let e : (v == b64_eq) ≡ false = ground arith in rw e

pub decoded_pad : (k p : ℕ) (vs : List ℕ) → IsPadding vs → decoded k p (b64_eq ∷ vs) ≡ pad_bytes k p
unfolding decoded
decoded_pad k p vs h = rw (decoded-IsPadding vs h) (append-nil (pad_bytes k p))

shift_digit :
    (cap : ℕ) (s : B64State) (v : ℕ) (out : Bytes)
    → v < 64
    → b64_value_round cap s v out ≡ b64_shift cap s v out
unfolding b64_value_round
shift_digit cap s v out h =
    let e : (v == b64_eq) ≡ false = ground arith in
    let b : (v == b64_bad) ≡ false = ground arith in rw (b, e)

shift_in_digit : (q v : ℕ) → v < 64 → shift_in q v ≡ q % 2 ^ 26 * 64 + v
unfolding shift_in
shift_in_digit q v h = ground arith

-- One more digit of an incomplete quantum.
shift-Stands :
    (k p : ℕ) (s : B64State) (v : ℕ)
    → Stands k p s
    → v < 64
    → k < 3
    → Stands
        (k + 1)
        (p * 64 + v)
        (record { quantum = shift_in s.quantum v; quantum_cnt = s.quantum_cnt + 1 })
shift-Stands zero p s v h hv hk = omega (arith, shift_in_digit s.quantum v hv)
shift-Stands (suc zero) p s v h hv hk = omega (arith, shift_in_digit s.quantum v hv)
shift-Stands (suc (suc zero)) p s v h hv hk = omega (arith, shift_in_digit s.quantum v hv)
shift-Stands (suc (suc (suc k))) p s v h hv hk = absurd (omega arith)

-- The digit that fills the quantum: the three bytes are those of the value.
shift_full :
    (p : ℕ) (s : B64State) (v : ℕ)
    → Stands 3 p s
    → v < 64
    → let q = shift_in s.quantum v in
      let full = p * 64 + v in
      (q / 2 ^ 16 % 256 ≡ full / 2 ^ 16 % 256)
      × (q / 2 ^ 8 % 256 ≡ full / 2 ^ 8 % 256)
      × (q % 256 ≡ full % 256)
shift_full p s v h hv = omega (arith, shift_in_digit s.quantum v hv)

-- The bytes written at '=' are those of the digits that the state stands for.
b64_pad-Stands : (k p : ℕ) (s : B64State) → Stands k p s → b64_pad s ≡ pad_bytes k p
unfolding b64_pad
b64_pad-Stands zero p s h = rw h.count refl
b64_pad-Stands (suc zero) p s h = rw h.count refl
b64_pad-Stands (suc (suc zero)) p s h =
    let e : s.quantum / 2 ^ 4 % 256 ≡ p / 2 ^ 4 % 256 = omega arith in rw h.count (rw e)
b64_pad-Stands (suc (suc (suc zero))) p s h =
    let e : s.quantum / 2 ^ 10 % 256 ≡ p / 2 ^ 10 % 256 = omega arith in
    let f : s.quantum / 2 ^ 2 % 256 ≡ p / 2 ^ 2 % 256 = omega arith in rw h.count (rw (e, f))
b64_pad-Stands (suc (suc (suc (suc k)))) p s h = absurd (omega arith)

-- A round on padding.
pad_round :
    (cap : ℕ) (s : B64State) (out : Bytes)
    → let r = b64_value_round cap s b64_eq out in (r.out ≡ out ++ b64_pad s) × Rests r.state
unfolding b64_value_round b64_shift
pad_round cap s out = ground arith

-- A digit that does not fill the quantum, and one that does.
shift_more :
    (cap : ℕ) (s : B64State) (v : ℕ) (out : Bytes)
    → s.quantum_cnt < 3
    → b64_shift cap s v out ≡ record {
      state = record { quantum = shift_in s.quantum v; quantum_cnt = s.quantum_cnt + 1 };
      out = out;
      stop = false;
    }
unfolding b64_shift
shift_more cap s v out h = let e : leb 4 (s.quantum_cnt + 1) ≡ false = ground arith in rw e

abbrev pub three_bytes : ℕ → Bytes
three_bytes q = (q / 2 ^ 16 % 256) ∷ (q / 2 ^ 8 % 256) ∷ (q % 256) ∷ []

shift_fills :
    (cap : ℕ) (s : B64State) (v : ℕ) (out : Bytes)
    → s.quantum_cnt ≡ 3
    → ((b64_shift cap s v out).out ≡ out ++ three_bytes (shift_in s.quantum v))
      × ((b64_shift cap s v out).state.quantum_cnt ≡ 0)
unfolding b64_shift
shift_fills cap s v out h =
    let e : leb 4 (s.quantum_cnt + 1) ≡ true = ground arith in rw e (refl, refl)

three_bytes-Stands :
    (p : ℕ) (s : B64State) (v : ℕ)
    → Stands 3 p s
    → v < 64
    → three_bytes (shift_in s.quantum v) ≡ three_bytes (p * 64 + v)
three_bytes-Stands p s v h hv = let (a, b, c) = shift_full p s v h hv in cc

pub afresh : (s : B64State) → s.quantum_cnt ≡ 0 → Stands 0 0 s
afresh s h = omega arith

-- A round on a digit.
digit-Keeps :
    (cap k p : ℕ) (s : B64State) (v : ℕ) (vs : List ℕ) (out y : Bytes)
    → Stands k p s
    → v < 64
    → IsText vs
    → decoded k p (v ∷ vs) ≡ y
    → Keeps (b64_shift cap s v out) vs out y
digit-Keeps cap k p s v vs out y h hv t e = elim (Bool-cases (k == 3)) [
  | inr n ↦
      let few : k < 3 = ground (arith, h.few) in
      rw (shift_more cap s v out (omega arith)) (
        y,
        refl,
        text (k + 1) (p * 64 + v) (shift-Stands k p s v h hv few) t
            (sym (decoded_digit k p v vs hv n) ∙ e),
      )
  | inl full ↦
      let three : k ≡ 3 = ground arith in
      let h' : Stands 3 p s = subst (λ (n : ℕ). Stands n p s) three h in
      let e' : decoded 3 p (v ∷ vs) ≡ y = subst (λ (n : ℕ). decoded n p (v ∷ vs) ≡ y) three e in
      let (o, c) = shift_fills cap s v out h'.count in
      (
        decoded 0 0 vs,
        ap (λ (b : Bytes). b ++ decoded 0 0 vs)
              (o ∙ ap (λ (b : Bytes). out ++ b) (three_bytes-Stands p s v h' hv))
            ∙ append_assoc out (three_bytes (p * 64 + v)) (decoded 0 0 vs)
            ∙ ap (λ (b : Bytes). out ++ b) (sym (decoded_last p v vs hv) ∙ e'),
        text 0 0 (afresh _ c) t refl,
      )
]

-- A round on the next value.
pub round-Keeps :
    (cap : ℕ) (s : B64State) (v : ℕ) (vs : List ℕ) (out y : Bytes)
    → Ready s (v ∷ vs) y
    → Keeps (b64_value_round cap s v out) vs out y
round-Keeps cap s v vs out y (rest h (hv, hs) e) = rw hv (
    let (o, r) = pad_round cap s out in
    (
      [],
      ap (λ (b : Bytes). b ++ []) (o ∙ ap (λ (b : Bytes). out ++ b) (nothing s h))
          ∙ ap (λ (b : Bytes). b ++ []) (append-nil out)
          ∙ ap (λ (b : Bytes). out ++ b) (sym e),
      rest r hs refl,
    ))
  where
    nothing : (s : B64State) → Rests s → b64_pad s ≡ []
    nothing s h = unfold b64_pad in ground arith
round-Keeps cap s v vs out y (text k p h (padding (hv, hs)) e) = rw hv (
    let (o, r) = pad_round cap s out in
    (
      [],
      append-nil _
          ∙ o
          ∙ ap (λ (b : Bytes). out ++ b)
              (b64_pad-Stands k p s h
                ∙ sym (decoded_pad k p vs hs)
                ∙ subst (λ (n : ℕ). decoded k p (n ∷ vs) ≡ y) hv e),
      rest r hs refl,
    ))
round-Keeps cap s v vs out y (text k p h (digit hv t) e) =
    rw (shift_digit cap s v out hv) (digit-Keeps cap k p s v vs out y h hv t e)
