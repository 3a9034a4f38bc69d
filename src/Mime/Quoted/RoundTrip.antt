-- ===== src/Mime/Quoted/RoundTrip.antt =====
-- Quoted-printable text decodes to what it encodes.
use gdcc.Base.{
  ℕ, ◌+◌, ◌*◌, ◌%◌, ◌<◌, ◌≡◌, refl, ap, ◌∙◌, false, [], ◌∷◌, ◌++◌, Bytes, ◌==◌, some, arith, concat,
}
use gdcc.Mime.Quoted.{idle, eq, first, QpState, hex_value, qp_read, qp_fuel, qp_chunks}
use gdcc.Mime.Quoted.Stream.{feed, qp_text, qp_last, qp_chunks-qp_text}

-- The encodings of a text: other bytes stand for themselves, "=XY" for the byte with these
-- hexadecimal digits in either case, and '=' at the end of a line joins it to the next.
pub data Encodes : Bytes → Bytes → Type 0 where
  done : Encodes [] []
  plain : {c : ℕ} {e t : Bytes} → (c == b'=') ≡ false → Encodes e t → Encodes (c ∷ e) (c ∷ t)
  escape :
      {a b hi lo : ℕ} {e t : Bytes}
      → hex_value a ≡ some hi
      → hex_value b ≡ some lo
      → Encodes e t
      → Encodes (b'=' ∷ a ∷ b ∷ e) ((hi * 16 + lo) ∷ t)
  soft_lf : {e t : Bytes} → Encodes e t → Encodes (b'=' ∷ b'\n' ∷ e) t
  soft_crlf : {e t : Bytes} → Encodes e t → Encodes (b'=' ∷ b'\r' ∷ b'\n' ∷ e) t

-- A hexadecimal digit is no line end, and its value is below 16.
hex_value_lem :
    (a hi : ℕ) → hex_value a ≡ some hi → (hi < 16) × ((a == b'\r') ≡ false) × ((a == b'\n') ≡ false)
unfolding hex_value
hex_value_lem a hi h = ground arith

abbrev at_idle : QpState → QpState
at_idle q = record q { phase = idle }

-- Decoded text and last state, for the input `e`.
abbrev Yields : QpState → Bytes → Bytes → Type 0
Yields q e t = (qp_text q e ≡ t) × ((qp_last q e).phase ≡ idle)

-- One byte in front of the input.
Yields-cons :
    (q q' : QpState) (c : ℕ) (o e t : Bytes)
    → feed q c ≡ (q', o)
    → Yields q' e t
    → Yields q (c ∷ e) (o ++ t)
unfolding qp_text qp_last
Yields-cons q q' c o e t h (text, last) = (
  ap (λ (r : QpState × Bytes). r.1 ++ qp_text r.0 e) h ∙ ap (λ (x : Bytes). o ++ x) text,
  ap (λ (r : QpState × Bytes). (qp_last r.0 e).phase) h ∙ last,
)

text-Encodes : {e t : Bytes} (q : QpState) → Encodes e t → Yields (at_idle q) e t
unfolding qp_read
text-Encodes q done = (unfold qp_text in refl, unfold qp_last in refl)
text-Encodes q (plain {c} n r) =
    Yields-cons (at_idle q) (at_idle q) c (c ∷ []) _ _ (rw n) (text-Encodes q r)
text-Encodes q (escape {a} {b} {hi} {lo} ha hb r) =
    let (low, not_cr, not_lf) = hex_value_lem a hi ha in
    let byte : hi * 16 % 256 + lo ≡ hi * 16 + lo = omega arith in
    let q1 = record q { phase = eq } in
    let q2 = record q { x = a; n = hi; phase = first } in
    let q3 = record q { x = a; y = b; n = hi; phase = idle } in
    Yields-cons (at_idle q) q1 b'=' [] _ _ refl (
      Yields-cons q1 q2 a [] _ _ (rw (not_cr, not_lf) (rw ha)) (
        Yields-cons q2 q3 b ((hi * 16 + lo) ∷ []) _ _ (rw not_cr (rw hb (rw byte)))
          (text-Encodes q3 r)))
text-Encodes q (soft_lf r) =
    let q1 = record q { phase = eq } in
    let q2 = record q { x = b'\n'; phase = idle } in
    Yields-cons (at_idle q) q1 b'=' [] _ _ refl
      (Yields-cons q1 q2 b'\n' [] _ _ refl (text-Encodes q2 r))
text-Encodes q (soft_crlf r) =
    let q1 = record q { phase = eq } in
    let q2 = record q { x = b'\r'; phase = first } in
    let q3 = record q { x = b'\r'; y = b'\n'; phase = idle } in
    Yields-cons (at_idle q) q1 b'=' [] _ _ refl (
      Yields-cons q1 q2 b'\r' [] _ _ refl (Yields-cons q2 q3 b'\n' [] _ _ refl (text-Encodes q3 r)))

pub qp_chunks-Encodes :
    (cap : ℕ) (q : QpState) {e t : Bytes}
    → 0 < cap
    → Encodes e t
    → let r = qp_chunks (qp_fuel e) cap (record q { phase = idle }) e in
      (concat r.0 ≡ t) × (r.1.phase ≡ idle)
qp_chunks-Encodes cap q {e} h r =
    let (text, last) = text-Encodes q r in
    let (whole, state) = qp_chunks-qp_text (qp_fuel e) cap (at_idle q) e h (omega arith) in
    (whole ∙ text, ap (λ (s : QpState). s.phase) state ∙ last)
