-- ===== src/Mime/Headers/Fields.antt =====
-- What the headers of a message and of an entity set.
use gdcc.Base.{
  ℕ, ◌<◌, ◌≡◌, refl, sym, ap, ◌∙◌, Bool, true, false, [], ◌∷◌, ◌++◌, Bytes, codes, ◌==◌, length,
  arith, All, append_assoc,
}
use gdcc.Header.{to_lower, is_white}
use gdcc.Mime.Context.{
  Mime, MhdrSt, mhdr_idle, mhdr_ce_ct, mhdr_ce, mhdr_ce_ws, mhdr_ct, mhdr_ct_ws, mhdr_qp, mhdr_b64,
  TransferEncoding, ce_qp, ce_b64,
}
use gdcc.Mime.Headers.{
  Parsed, mh_match, span_ws, to_st, match_case, same, ce_ct_case, ce_ws_case, hdr_round, hdr_run,
  begin_line, parse_mime_hdr, parse_line_start,
}
use gdcc.Mime.Headers.Run.{
  lower, length-lower, mh_match-lower, hdr_run-nil, hdr_run-round, hdr_run-last,
}

-- White space.
abbrev pub IsBlank : Bytes → Type 0
IsBlank ws = All (λ c. is_white c ≡ true) ws

-- Two parts of a text that reads like `a ++ b` in lower case.
pub lower-split :
    (s a b : Bytes)
    → lower s ≡ a ++ b
    → (x : Bytes) × (y : Bytes) × (s ≡ x ++ y) × (lower x ≡ a) × (lower y ≡ b)
lower-split s [] b h = ([], s, refl, refl, h)
lower-split [] (c ∷ a) b h = absurd (cc)
lower-split (x ∷ s) (c ∷ a) b h =
    let (u, v, e, hu, hv) = lower-split s a b (cc) in (x ∷ u, v, ap (◌∷◌ x) e, cc, hv)

-- The first byte of a text, by its lower case.
pub lower-head :
    (s : Bytes) (c : ℕ) (r : Bytes)
    → lower s ≡ c ∷ r
    → (x : ℕ) × (t : Bytes) × (s ≡ x ∷ t) × (to_lower x ≡ c)
lower-head [] c r h = absurd (cc)
lower-head (x ∷ s) c r h = (x, s, refl, cc)

-- White space is passed over.
pub span_ws-blank :
    (ws : Bytes) (c : ℕ) (rest : Bytes)
    → IsBlank ws
    → is_white c ≡ false
    → span_ws (ws ++ c ∷ rest) ≡ (c ∷ rest, true)
unfolding span_ws
span_ws-blank [] c rest h w = rw w refl
span_ws-blank (d ∷ ws) c rest h w = rw h.0 (span_ws-blank ws c rest h.1 w)

pub hdr_run-idle :
    (i : Bool) (c : Mime) (bp : Bytes) → hdr_run i (to_st mhdr_idle c) bp ≡ to_st mhdr_idle c
hdr_run-idle i c [] = hdr_run-nil i (to_st mhdr_idle c)
hdr_run-idle i c (ch ∷ bp) =
    hdr_run-last i (to_st mhdr_idle c) (to_st mhdr_idle c) ch bp (ch ∷ bp)
      (unfold hdr_round in refl)

-- The loop reads a target that stands at the front of its input.
pub hdr_run-match :
    (i : Bool) (c : Mime) (note : Mime → Mime) (ok fail : MhdrSt) (tgt name rest : Bytes)
    → c.mhdr_pos ≡ 0
    → lower tgt ≡ lower name
    → 0 < length tgt
    → ((bp : Bytes) → hdr_round i c.mhdr_st c bp ≡ match_case note (mh_match ok fail tgt c bp))
    → hdr_run i c (name ++ rest) ≡ hdr_run i (note (record c { mhdr_st = ok; mhdr_pos = 0 })) rest
hdr_run-match i c note ok fail tgt [] rest z e h r = absurd (omega (arith, length-lower tgt [] e))
hdr_run-match i c note ok fail tgt (x ∷ name) rest z e h r =
    hdr_run-round i c (note (record c { mhdr_st = ok; mhdr_pos = 0 })) x (name ++ rest) rest (
      r (x ∷ name ++ rest)
      ∙ ap (match_case note) (mh_match-lower ok fail tgt c (x ∷ name) rest z e)
      ∙ unfold match_case in refl)

-- "Content-T", and the letter that tells the two headers apart.
pub hdr_run-content :
    (i : Bool) (c : Mime) (st : MhdrSt) (name : Bytes) (ch : ℕ) (rest : Bytes)
    → lower (codes "Content-T") ≡ lower name
    → ce_ct_case (record c { mhdr_st = mhdr_ct_ws; mhdr_pos = 0 }, ch ∷ rest, true)
      ≡ (record c { mhdr_st = st; mhdr_pos = 0 }, ch ∷ rest, false)
    → hdr_run i (record c { mhdr_st = mhdr_ce_ct; mhdr_pos = 0 }) (name ++ ch ∷ rest)
      ≡ hdr_run i (record c { mhdr_st = st; mhdr_pos = 0 }) (ch ∷ rest)
hdr_run-content i c st [] ch rest e h =
    absurd (omega (arith, length-lower (codes "Content-T") [] e))
hdr_run-content i c st (x ∷ name) ch rest e h =
    let c0 = record c { mhdr_st = mhdr_ce_ct; mhdr_pos = 0 } in
    hdr_run-round i c0 (record c { mhdr_st = st; mhdr_pos = 0 }) x (name ++ ch ∷ rest) (ch ∷ rest)
      (unfold hdr_round in
        ap ce_ct_case
          (mh_match-lower mhdr_ct_ws mhdr_idle (codes "Content-T") c0 (x ∷ name) (ch ∷ rest) refl e)
        ∙ h)

ce_letter :
    (c : Mime) (ch : ℕ) (rest : Bytes)
    → to_lower ch ≡ b'r'
    → ce_ct_case (c, ch ∷ rest, true) ≡ (to_st mhdr_ce c, ch ∷ rest, false)
unfolding ce_ct_case to_lower
ce_letter c ch rest h = ground arith

pub ct_letter :
    (c : Mime) (ch : ℕ) (rest : Bytes)
    → to_lower ch ≡ b'y'
    → ce_ct_case (c, ch ∷ rest, true) ≡ (to_st mhdr_ct c, ch ∷ rest, false)
unfolding ce_ct_case to_lower
ct_letter c ch rest h = ground arith

-- The encodings by name.
pub data IsEncoding : Bytes → TransferEncoding → Type 0 where
  base64 : {v : Bytes} → lower v ≡ lower (codes "base64") → IsEncoding v ce_b64
  quoted_printable : {v : Bytes} → lower v ≡ lower (codes "quoted-printable") → IsEncoding v ce_qp

-- A state that passes white space over and then looks at a byte.
pub hdr_run-blank :
    (i : Bool) (c d : Mime) (look : Bytes × Bool → Parsed) (ws : Bytes) (ch : ℕ) (rest : Bytes)
    → ((bp : Bytes) → hdr_round i c.mhdr_st c bp ≡ look (span_ws bp))
    → IsBlank ws
    → is_white ch ≡ false
    → look (ch ∷ rest, true) ≡ (d, ch ∷ rest, false)
    → hdr_run i c (ws ++ ch ∷ rest) ≡ hdr_run i d (ch ∷ rest)
hdr_run-blank i c d look [] ch rest r h w k =
    hdr_run-round i c d ch rest (ch ∷ rest)
      (r (ch ∷ rest) ∙ ap look (span_ws-blank [] ch rest h w) ∙ k)
hdr_run-blank i c d look (x ∷ ws) ch rest r h w k =
    hdr_run-round i c d x (ws ++ ch ∷ rest) (ch ∷ rest)
      (r (x ∷ ws ++ ch ∷ rest) ∙ ap look (span_ws-blank (x ∷ ws) ch rest h w) ∙ k)

b64_letter :
    (c : Mime) (ch : ℕ) (rest : Bytes)
    → to_lower ch ≡ b'b'
    → (is_white ch ≡ false) × (ce_ws_case c (ch ∷ rest) ≡ (to_st mhdr_b64 c, ch ∷ rest, false))
unfolding ce_ws_case to_lower is_white
b64_letter c ch rest h = ground arith

qp_letter :
    (c : Mime) (ch : ℕ) (rest : Bytes)
    → to_lower ch ≡ b'q'
    → (is_white ch ≡ false) × (ce_ws_case c (ch ∷ rest) ≡ (to_st mhdr_qp c, ch ∷ rest, false))
unfolding ce_ws_case to_lower is_white
qp_letter c ch rest h = ground arith

-- A letter that is not white space tells the state `mhdr_ce_ws` which encoding to read.
abbrev Letter : MhdrSt → ℕ → Type 0
Letter st x =
    (c : Mime) (ch : ℕ) (rest : Bytes)
    → to_lower ch ≡ x
    → (is_white ch ≡ false) × (ce_ws_case c (ch ∷ rest) ≡ (to_st st c, ch ∷ rest, false))

-- What the state `mhdr_ce_ws` reads: white space and the text of an encoding.
encoding_text :
    (i : Bool) (c : Mime) (st : MhdrSt) (enc : TransferEncoding) (x : ℕ) (r ws value rest : Bytes)
    → IsBlank ws
    → Letter st x
    → lower value ≡ lower (x ∷ r)
    → to_lower x ≡ x
    → ((c : Mime) (bp : Bytes)
        → hdr_round i st c bp
          ≡ match_case
              (λ c. record c { mime_ce = enc })
              (mh_match mhdr_idle mhdr_idle (x ∷ r) c bp))
    → hdr_run i (record c { mhdr_st = mhdr_ce_ws; mhdr_pos = 0 }) (ws ++ (value ++ rest))
      ≡ record c { mhdr_st = mhdr_idle; mhdr_pos = 0; mime_ce = enc }
encoding_text i c st enc x r ws [] rest h letter v small round = absurd (cc)
encoding_text i c st enc x r ws (ch ∷ value) rest h letter v small round =
    let c0 = record c { mhdr_st = mhdr_ce_ws; mhdr_pos = 0 } in
    let (w, k) = letter c0 ch (value ++ rest) (cc) in
    hdr_run-blank i c0 (to_st st c0) (λ r. ce_ws_case c0 r.0) ws ch (value ++ rest)
      (λ bp. unfold hdr_round in refl) h w k
    ∙ hdr_run-match i (to_st st c0) (λ c. record c { mime_ce = enc }) mhdr_idle mhdr_idle (x ∷ r)
        (ch ∷ value) rest refl (sym v) (omega arith) (round (to_st st c0))
    ∙ hdr_run-idle i (record c { mhdr_pos = 0; mime_ce = enc }) rest

-- The state `mhdr_ce_ws`: the encoding behind the white space.
encoding_run :
    (i : Bool) (c : Mime) (ws value rest : Bytes) {enc : TransferEncoding}
    → IsBlank ws
    → IsEncoding value enc
    → hdr_run i (record c { mhdr_st = mhdr_ce_ws; mhdr_pos = 0 }) (ws ++ (value ++ rest))
      ≡ record c { mhdr_st = mhdr_idle; mhdr_pos = 0; mime_ce = enc }
unfolding to_lower hdr_round
encoding_run i c ws value rest h (base64 v) =
    encoding_text i c mhdr_b64 ce_b64 b'b' (codes "ase64") ws value rest h b64_letter v refl
      (λ c bp. refl)
encoding_run i c ws value rest h (quoted_printable v) =
    encoding_text i c mhdr_qp ce_qp b'q' (codes "uoted-printable") ws value rest h qp_letter v refl
      (λ c bp. refl)

-- The loop on a whole field "Content-Transfer-Encoding: ".
pub hdr_run-encoding :
    (i : Bool) (c : Mime) (name ws value rest : Bytes) {enc : TransferEncoding}
    → lower name ≡ lower (codes "Content-Transfer-Encoding:")
    → IsBlank ws
    → IsEncoding value enc
    → hdr_run i (record c { mhdr_st = mhdr_ce_ct; mhdr_pos = 0 }) (name ++ (ws ++ (value ++ rest)))
      ≡ record c { mhdr_st = mhdr_idle; mhdr_pos = 0; mime_ce = enc }
unfolding hdr_round to_lower
hdr_run-encoding i c name ws value rest e h v =
    let (n1, n2, split, e1, e2) =
      lower-split name (lower (codes "Content-T")) (lower (codes "ransfer-Encoding:")) e in
    let tail = ws ++ (value ++ rest) in
    let (ch, t, cons, letter) = lower-head n2 b'r' (lower (codes "ansfer-Encoding:")) e2 in
    let c1 = record c { mhdr_st = mhdr_ce; mhdr_pos = 0 } in
    let first : hdr_run i (record c { mhdr_st = mhdr_ce_ct; mhdr_pos = 0 }) (n1 ++ (n2 ++ tail))
        ≡ hdr_run i c1 (n2 ++ tail) =
      rw cons (
        hdr_run-content i c mhdr_ce n1 ch (t ++ tail) (sym e1)
          (ce_letter (record c { mhdr_st = mhdr_ct_ws; mhdr_pos = 0 }) ch (t ++ tail) letter)) in
    ap (λ (b : Bytes). hdr_run i (record c { mhdr_st = mhdr_ce_ct; mhdr_pos = 0 }) b)
      (ap (λ (b : Bytes). b ++ tail) split ∙ append_assoc n1 n2 tail)
    ∙ first
    ∙ hdr_run-match i c1 same mhdr_ce_ws mhdr_idle (codes "ransfer-Encoding:") n2 tail refl (sym e2)
        (omega arith) (λ bp. refl)
    ∙ encoding_run i c ws value rest h v

-- The first letter of a field's name begins no continued, ended or blank line.
c_letter :
    (x : ℕ)
    → to_lower x ≡ to_lower b'C'
    → ((x == b'\r') ≡ false)
      × ((x == b'\n') ≡ false)
      × ((x == b' ') ≡ false)
      × ((x == b'\t') ≡ false)
unfolding to_lower
c_letter x h = ground arith

-- A field of an entity at the start of a line, "Content-Transfer-Encoding:" in any case, white space
-- and "base64" or "quoted-printable" in any case, with any bytes behind, sets the encoding of the
-- entity, and leaves the parser idle and the line not blank.
pub parse_mime_hdr-encoding :
    (c : Mime) (name ws value rest : Bytes) {enc : TransferEncoding}
    → c.bol ≡ true
    → lower name ≡ lower (codes "Content-Transfer-Encoding:")
    → IsBlank ws
    → IsEncoding value enc
    → parse_mime_hdr false c (name ++ (ws ++ (value ++ rest)))
      ≡ (record c { mhdr_st = mhdr_idle; mhdr_pos = 0; bol = false; mime_ce = enc }, false)
unfolding parse_mime_hdr parse_line_start begin_line
parse_mime_hdr-encoding c [] ws value rest start e h v = absurd (cc)
parse_mime_hdr-encoding c (x ∷ name) ws value rest start e h v =
    let small : to_lower x ≡ to_lower b'C' = cc in
    let (a, b, d, f) = c_letter x small in
    rw (start, a, b, d, f)
      (ap (λ (m : Mime). (m, false))
        (hdr_run-encoding false (record c { bol = false }) (x ∷ name) ws value rest e h v))
