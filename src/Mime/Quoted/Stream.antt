-- ===== src/Mime/Quoted/Stream.antt =====
-- The decoder reads a stream: the size of its buffer does not show in what it decodes.
use gdcc.Base.{
  ℕ, zero, suc, ◌+◌, ◌*◌, ◌≤◌, ◌<◌, ◌≡◌, refl, sym, ap, ◌∙◌, ◌⊎◌, inl, inr, true, false, [], ◌∷◌,
  ◌++◌, Bytes, ◌==◌, length, Option, none, some, arith, append_assoc, Bool-cases, concat,
}
use gdcc.Mime.Quoted.{
  QpPhase, idle, fail1, fail2, fail3, QpState, qp_read, qp_round, Decoded, append_byte, is_full,
  qp_loop, qp_fuel, qp_decode, qp_chunks,
}

-- The bytes that a failed escape still has to write.
abbrev pub pending : QpPhase → QpState → Bytes
pending fail1 q = q.x ∷ []
pending fail2 q = q.x ∷ q.y ∷ []
pending fail3 q = q.y ∷ []
pending _ q = []

abbrev pub settled : QpPhase → QpPhase
settled fail1 = idle
settled fail2 = idle
settled fail3 = idle
settled phase = phase

-- The state and the output for one byte read.
abbrev pub feed : QpState → ℕ → QpState × Bytes
feed q ch =
    let q1 = record q { phase = settled q.phase } in
    let r = qp_read q1.phase q1 ch in (r.0, append_byte (pending q.phase q) r.1)

-- The text decoded from a whole input, with no buffer, and the state behind it.
unfoldable pub qp_text : QpState → Bytes → Bytes
qp_text q [] = []
qp_text q (ch ∷ cs) = (feed q ch).1 ++ qp_text (feed q ch).0 cs

unfoldable pub qp_last : QpState → Bytes → QpState
qp_last q [] = q
qp_last q (ch ∷ cs) = qp_last (feed q ch).0 cs

abbrev with_phase : QpState → QpPhase → QpState
with_phase q phase = record q { phase = phase }

-- What one round does to the decoded text.
round_text :
    (phase : QpPhase) (q : QpState) (ch : ℕ) (cs : Bytes)
    → let r = qp_round phase (with_phase q phase) ch cs in
      (qp_text (with_phase q phase) (ch ∷ cs) ≡ append_byte [] r.1 ++ qp_text r.0 r.2)
      × (qp_last (with_phase q phase) (ch ∷ cs) ≡ qp_last r.0 r.2)
unfolding qp_text qp_last qp_round
round_text fail1 q ch cs = ground arith
round_text fail2 q ch cs = ground arith
round_text fail3 q ch cs = ground arith
round_text _ q ch cs = (refl, refl)

-- The rounds that are left at most.
abbrev weight : QpPhase → ℕ
weight fail1 = 1
weight fail2 = 2
weight fail3 = 1
weight _ = 0

weight-le : (phase : QpPhase) → weight phase ≤ 2
weight-le fail1 = omega arith
weight-le fail2 = omega arith
weight-le fail3 = omega arith
weight-le _ = omega arith

abbrev pub measure : QpState → Bytes → ℕ
measure q input = 4 * length input + weight q.phase

round_measure :
    (phase : QpPhase) (q : QpState) (ch : ℕ) (cs : Bytes)
    → let r = qp_round phase (with_phase q phase) ch cs in
      measure r.0 r.2 < measure (with_phase q phase) (ch ∷ cs)
unfolding qp_round
round_measure fail1 q ch cs = omega arith
round_measure fail2 q ch cs = omega arith
round_measure fail3 q ch cs = omega arith
round_measure _ q ch cs = omega (arith, weight-le)

append_byte-append :
    (out : Bytes) (w : Option ℕ) (rest : Bytes)
    → append_byte out w ++ rest ≡ out ++ (append_byte [] w ++ rest)
append_byte-append out none rest = refl
append_byte-append out (some ch) rest = append_assoc out (ch ∷ []) rest

-- What a run of the loop has decoded, and what is left for the next.
pub record Progress (cap : ℕ) (q : QpState) (input out : Bytes) (d : Decoded) : Type 0 where
  pub text : d.out ++ qp_text d.state d.rest ≡ out ++ qp_text q input
  pub last : qp_last d.state d.rest ≡ qp_last q input
  pub shrinks : measure d.state d.rest ≤ measure q input
  pub strict : (c : ℕ) (cs : Bytes) → input ≡ c ∷ cs → measure d.state d.rest < measure q input
  pub ends : (d.rest ≡ []) ⊎ (cap ≤ length d.out)

qp_loop-Progress :
    (fuel cap : ℕ) (q : QpState) (input out : Bytes)
    → measure q input < fuel
    → Progress cap q input out (qp_loop fuel cap q input out)
unfolding qp_loop
qp_loop-Progress zero cap q input out h = absurd (omega arith)
qp_loop-Progress (suc fuel) cap q [] out h = record {
  text = refl;
  last = refl;
  shrinks = omega arith;
  strict = λ c cs e. cc;
  ends = inl refl;
}
qp_loop-Progress (suc fuel) cap q (ch ∷ cs) out h =
    let r = qp_round q.phase q ch cs in
    let out' = append_byte out r.1 in
    let (t, l) = round_text q.phase q ch cs in
    let less = round_measure q.phase q ch cs in
    let text' : out' ++ qp_text r.0 r.2 ≡ out ++ qp_text q (ch ∷ cs) =
      append_byte-append out r.1 (qp_text r.0 r.2) ∙ ap (λ (x : Bytes). out ++ x) (sym t) in
    elim (Bool-cases (is_full cap out' r.1)) [
      | inl full ↦ rw full (record {
        text = text';
        last = sym l;
        shrinks = omega arith;
        strict = λ _ _ _. omega arith;
        ends = inr (full_le r.1 out' full);
      })
      | inr more ↦ rw more (
          let p = qp_loop-Progress fuel cap r.0 r.2 out' (omega arith) in
          record {
            text = p.text ∙ text';
            last = p.last ∙ sym l;
            shrinks = omega (arith, p.shrinks);
            strict = λ _ _ _. omega (arith, p.shrinks);
            ends = p.ends;
          })
    ]
  where
    full_le : (w : Option ℕ) (out : Bytes) → is_full cap out w ≡ true → cap ≤ length out
    full_le none out e = cc
    full_le (some c) out e = ground arith

-- One call of `qpDecode` on input that is not empty.
qp_decode-Progress :
    (cap : ℕ) (q : QpState) (ch : ℕ) (cs : Bytes)
    → 0 < cap
    → Progress cap q (ch ∷ cs) [] (qp_decode cap q (ch ∷ cs))
unfolding qp_decode
qp_decode-Progress cap q ch cs h =
    let nonzero : (cap == 0) ≡ false = ground arith in
    rw nonzero
      (qp_loop-Progress (qp_fuel (ch ∷ cs)) cap q (ch ∷ cs) [] (omega (arith, weight-le q.phase)))

-- With a buffer of at least one byte and fuel above the measure of the input, the chunks that the
-- loop of `decodeSum` sums make up the decoded text that the byte by byte reading gives, and the
-- last state is that behind the whole input: neither depends on the size of the buffer.
pub qp_chunks-qp_text :
    (fuel cap : ℕ) (q : QpState) (input : Bytes)
    → 0 < cap
    → measure q input < fuel
    → (concat (qp_chunks fuel cap q input).0 ≡ qp_text q input)
      × ((qp_chunks fuel cap q input).1 ≡ qp_last q input)
unfolding qp_chunks
qp_chunks-qp_text zero cap q input hc h = absurd (omega arith)
qp_chunks-qp_text (suc fuel) cap q [] hc h = unfold qp_text qp_last in (refl, refl)
qp_chunks-qp_text (suc fuel) cap q (ch ∷ cs) hc h =
    let d = qp_decode cap q (ch ∷ cs) in
    let p = qp_decode-Progress cap q ch cs hc in
    let (text, last) =
      qp_chunks-qp_text fuel cap d.state d.rest hc (omega (arith, p.strict ch cs refl)) in
    (ap (λ (x : Bytes). d.out ++ x) text ∙ p.text, last ∙ p.last)
