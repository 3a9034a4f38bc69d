-- ===== src/Mime/Base64/Loop.antt =====
-- The loops of `b64Decode` and `decodeSum` on digits and a padding at the end.
use gdcc.Base.{
  ℕ, zero, suc, ◌+◌, ◌≤◌, ◌<◌, ◌≡◌, refl, sym, ap, ◌∙◌, inl, inr, true, false, [], ◌∷◌, ◌++◌, Bytes,
  ◌==◌, ltb, length, arith, length-append, Bool-cases, concat,
}
use gdcc.Mime.Base64.{
  B64State, b64_bad, b64_pad, shift_in, b64_shift, b64_value_round, b64_value, Decoded, b64_loop,
  b64_decode, b64_chunks,
}
use gdcc.Mime.Base64.Stream.{
  symbols, decoded, IsText, afresh, Ready, text, rest, Keeps, round-Keeps, three_bytes,
}

-- A round on any byte, skipped or not.
byte-Keeps :
    (cap : ℕ) (s : B64State) (ci : ℕ) (cs out y : Bytes)
    → Ready s (symbols (ci ∷ cs)) y
    → Keeps (b64_value_round cap s (b64_value ci) out) (symbols cs) out y
byte-Keeps cap s ci cs out y h = elim (Bool-cases (b64_value ci == b64_bad)) [
  | inl bad ↦ skipped bad
  | inr n ↦ round-Keeps cap s (b64_value ci) (symbols cs) out y (read n)
]
  where
    skipped :
        (b64_value ci == b64_bad) ≡ true
        → Keeps (b64_value_round cap s (b64_value ci) out) (symbols cs) out y
    skipped bad =
        unfold b64_value_round symbols in
        (let h' : Ready s (symbols cs) y = rw (bad, symbols) at h in rw bad (y, refl, h'))

    read : (b64_value ci == b64_bad) ≡ false → Ready s (b64_value ci ∷ symbols cs) y
    read n = unfold symbols in (rw (n, symbols) at h)

-- What the loop leaves of the input and of what is to be written.
abbrev Leaves : Bytes → Bytes → Bytes → Decoded → Type 0
Leaves cs out y d = (y' : Bytes) × (d.out ++ y' ≡ out ++ y) × Ready d.state (symbols d.rest) y'

b64_loop-Leaves :
    (cap : ℕ) (s : B64State) (cs out y : Bytes)
    → Ready s (symbols cs) y
    → Leaves cs out y (b64_loop cap s cs out)
unfolding b64_loop
b64_loop-Leaves cap s [] out y h = (y, refl, h)
b64_loop-Leaves cap s (ci ∷ cs) out y h =
    let r = b64_value_round cap s (b64_value ci) out in
    let (y', e, h') = byte-Keeps cap s ci cs out y h in
    elim (Bool-cases r.stop) [
      | inl stop ↦ rw stop (y', e, h')
      | inr more ↦
          rw more
            (let (y'', e', h'') = b64_loop-Leaves cap r.state cs r.out y' h' in (y'', e' ∙ e, h''))
    ]

-- Each round reads a byte.
b64_loop_reads :
    (cap : ℕ) (s : B64State) (cs out : Bytes) → length (b64_loop cap s cs out).rest ≤ length cs
unfolding b64_loop
b64_loop_reads cap s [] out = omega arith
b64_loop_reads cap s (ci ∷ cs) out =
    let r = b64_value_round cap s (b64_value ci) out in
    elim (Bool-cases r.stop) [
      | inl stop ↦ rw stop (omega arith)
      | inr more ↦ rw more (omega (arith, b64_loop_reads cap r.state cs r.out))
    ]

b64_loop_progress :
    (cap : ℕ) (s : B64State) (ci : ℕ) (cs out : Bytes)
    → length (b64_loop cap s (ci ∷ cs) out).rest ≤ length cs
unfolding b64_loop
b64_loop_progress cap s ci cs out =
    let r = b64_value_round cap s (b64_value ci) out in
    elim (Bool-cases r.stop) [
      | inl stop ↦ rw stop (omega arith)
      | inr more ↦ rw more (b64_loop_reads cap r.state cs r.out)
    ]

length-b64_pad : (s : B64State) → length (b64_pad s) ≤ 2
unfolding b64_pad
length-b64_pad s = ground arith

-- A round leaves room for three more bytes, or it is the last.
round_room :
    (cap : ℕ) (s : B64State) (v : ℕ) (out : Bytes)
    → length out + 3 ≤ cap
    → let r = b64_value_round cap s v out in
      (length r.out ≤ cap) × (r.stop ≡ false → length r.out + 3 ≤ cap)
unfolding b64_value_round b64_shift
round_room cap s v out h = ground (
  arith,
  length-append out (b64_pad s),
  length-b64_pad s,
  length-append out (three_bytes (shift_in s.quantum v)),
)

b64_loop_room :
    (cap : ℕ) (s : B64State) (cs out : Bytes)
    → length out + 3 ≤ cap
    → length (b64_loop cap s cs out).out ≤ cap
unfolding b64_loop
b64_loop_room cap s [] out h = omega arith
b64_loop_room cap s (ci ∷ cs) out h =
    let r = b64_value_round cap s (b64_value ci) out in
    let (last, room) = round_room cap s (b64_value ci) out h in
    elim (Bool-cases r.stop) [
      | inl stop ↦ rw stop last
      | inr more ↦ rw more (b64_loop_room cap r.state cs r.out (room more))
    ]

-- Whatever the input, `b64Decode` writes no more bytes than its buffer holds.
pub b64_decode_bounds :
    (cap : ℕ) (s : B64State) (input : Bytes) → length (b64_decode cap s input).out ≤ cap
unfolding b64_decode
b64_decode_bounds cap s input = elim (Bool-cases (ltb cap 3)) [
  | inl small ↦ rw small (omega arith)
  | inr large ↦ rw large (b64_loop_room cap s input [] (ground arith))
]

nothing_left : (s : B64State) (y : Bytes) → Ready s [] y → [] ≡ y
nothing_left s y (text k p h t e) = unfold decoded in e
nothing_left s y (rest h p e) = sym e

chunks-Ready :
    (fuel cap : ℕ) (s : B64State) (input y : Bytes)
    → 3 ≤ cap
    → length input < fuel
    → Ready s (symbols input) y
    → concat (b64_chunks fuel cap s input).0 ≡ y
unfolding b64_chunks
chunks-Ready zero cap s input y hc hf h = absurd (omega arith)
chunks-Ready (suc fuel) cap s [] y hc hf h = nothing_left s y (unfold symbols in h)
chunks-Ready (suc fuel) cap s (ci ∷ cs) y hc hf h =
    let large : ltb cap 3 ≡ false = ground arith in
    let d = b64_loop cap s (ci ∷ cs) [] in
    let (y', e, h') = b64_loop-Leaves cap s (ci ∷ cs) [] y h in
    let less = b64_loop_progress cap s ci cs [] in
    rw large (
      ap (λ (b : Bytes). d.out ++ b) (chunks-Ready fuel cap d.state d.rest y' hc (omega arith) h')
      ∙ e)

-- With a buffer of at least 3 bytes, fuel above the length of the input and no quantum begun, an
-- input whose base64 digits are followed by at most a padding at the end is decoded to the same
-- text with every buffer.
pub b64_chunks-decoded :
    (fuel cap : ℕ) (s : B64State) (input : Bytes)
    → 3 ≤ cap
    → length input < fuel
    → s.quantum_cnt ≡ 0
    → IsText (symbols input)
    → concat (b64_chunks fuel cap s input).0 ≡ decoded 0 0 (symbols input)
b64_chunks-decoded fuel cap s input hc hf z t =
    chunks-Ready fuel cap s input (decoded 0 0 (symbols input)) hc hf (text 0 0 (afresh s z) t refl)
