-- ===== src/Mime/Headers/Loop.antt =====
-- The loop of `parseMimeHdr` ends.
use gdcc.Base.{
  ℕ, zero, suc, ◌+◌, ◌<◌, ◌≡◌, refl, ap, inl, inr, Bool, true, false, ◌&&◌, some, [], ◌∷◌, Bytes,
  codes, ◌==◌, length, arith, Bool-cases,
}
use native.Mathlib.Nat.{suc-add}
use gdcc.Header.{is_white}
use gdcc.Fuz2.{text, html}
use gdcc.Mime.Context.{
  Mime, MhdrSt, mhdr_idle, mhdr_ce_ct, mhdr_ce, mhdr_ce_ws, mhdr_ct, mhdr_ct_ws, mhdr_qp, mhdr_b64,
  mhdr_text, mhdr_html, mhdr_cset_skip_param, mhdr_cset_span_ws, mhdr_cset, mhdr_cset_iso8859,
  mhdr_cset_isox, mhdr_multipart, mhdr_bnd_skip_param, mhdr_bnd_span_ws, mhdr_bnd, mhdr_bnd_value,
  ce_qp, ce_b64,
}
use gdcc.Mime.Headers.{
  mh_match, span_ws, skip_param, to_st, same, open_quote, begin_bnd, hdr_round, hdr_loop,
}
use gdcc.Mime.Headers.Cases.{
  rank, measure, measure_read, mh_match-Moves, match_case-measure, span_ws_moves, skip_param_moves,
  skip_case-measure, ce_ct_case-measure, span_ws_le, ce_ws_case-measure, ct_ws_case-measure,
  bnd_value_loop_le, mh_match_le, match_case_le, at_white, begin_bnd-mhdr_st,
}

-- A round that does not return lowers the measure.
pub hdr_round-measure :
    (in_hdrs : Bool) (st : MhdrSt) (c : Mime) (ch : ℕ) (bp : Bytes)
    → let r = hdr_round in_hdrs st c (ch ∷ bp) in
      r.2 ≡ false → measure r.0.mhdr_st r.1 < measure st (ch ∷ bp)
unfolding hdr_round
hdr_round-measure i mhdr_idle c ch bp h = absurd (cc)
hdr_round-measure i mhdr_ce_ct c ch bp h =
    ce_ct_case-measure mhdr_ct_ws (ch ∷ bp) _
      (mh_match-Moves mhdr_ct_ws mhdr_idle (codes "Content-T") c (ch ∷ bp) (omega arith)) h
hdr_round-measure i mhdr_ce c ch bp h =
    match_case-measure same mhdr_ce_ws mhdr_idle mhdr_ce (ch ∷ bp) _ (λ c. refl)
      (mh_match-Moves mhdr_ce_ws mhdr_idle (codes "ransfer-Encoding:") c (ch ∷ bp) (omega arith))
      (omega arith) (omega arith)
hdr_round-measure i mhdr_ce_ws c ch bp h =
    ce_ws_case-measure c (ch ∷ bp) (span_ws (ch ∷ bp)).0 (span_ws_le (ch ∷ bp)) h
hdr_round-measure i mhdr_ct c ch bp h =
    match_case-measure same mhdr_ct_ws mhdr_idle mhdr_ct (ch ∷ bp) _ (λ c. refl)
      (mh_match-Moves mhdr_ct_ws mhdr_idle (codes "ype:") c (ch ∷ bp) (omega arith)) (omega arith)
      (omega arith)
hdr_round-measure i mhdr_ct_ws c ch bp h =
    ct_ws_case-measure i c (ch ∷ bp) (span_ws (ch ∷ bp)).0 (span_ws_le (ch ∷ bp)) h
hdr_round-measure i mhdr_qp c ch bp h =
    match_case-measure (λ c. record c { mime_ce = ce_qp }) mhdr_idle mhdr_idle mhdr_qp (ch ∷ bp) _
      (λ c. refl)
      (mh_match-Moves mhdr_idle mhdr_idle (codes "quoted-printable") c (ch ∷ bp) (omega arith))
      (omega arith) (omega arith)
hdr_round-measure i mhdr_b64 c ch bp h =
    match_case-measure (λ c. record c { mime_ce = ce_b64 }) mhdr_idle mhdr_idle mhdr_b64 (ch ∷ bp) _
      (λ c. refl) (mh_match-Moves mhdr_idle mhdr_idle (codes "base64") c (ch ∷ bp) (omega arith))
      (omega arith) (omega arith)
hdr_round-measure i mhdr_text c ch bp h =
    match_case-measure (λ c. record c { mime_ct = text }) mhdr_html mhdr_idle mhdr_text (ch ∷ bp) _
      (λ c. refl) (mh_match-Moves mhdr_html mhdr_idle (codes "text") c (ch ∷ bp) (omega arith))
      (omega arith) (omega arith)
hdr_round-measure i mhdr_html c ch bp h =
    match_case-measure (λ c. record c { mime_ct = html }) mhdr_cset_skip_param mhdr_cset_skip_param
      mhdr_html (ch ∷ bp) _ (λ c. refl)
      (mh_match-Moves mhdr_cset_skip_param mhdr_cset_skip_param (codes "/html") c (ch ∷ bp)
        (omega arith))
      (rank_skip (is_white ch)) (rank_skip (is_white ch))
  where
    rank_skip : (w : Bool) → rank mhdr_cset_skip_param w < 5
    rank_skip true = omega arith
    rank_skip false = omega arith
hdr_round-measure i mhdr_cset_skip_param c ch bp h =
    skip_case-measure mhdr_cset_span_ws mhdr_cset_skip_param c ch bp (skip_param (ch ∷ bp)) (
      at_white (λ w. rank mhdr_cset_span_ws w < rank mhdr_cset_skip_param w) (omega arith)
        (skip_param_moves ch bp))
hdr_round-measure i mhdr_cset_span_ws c ch bp h =
    skip_case-measure mhdr_cset mhdr_cset_span_ws c ch bp (span_ws (ch ∷ bp)) (
      at_white (λ w. rank mhdr_cset w < rank mhdr_cset_span_ws w) (omega arith)
        (span_ws_moves ch bp))
hdr_round-measure i mhdr_cset c ch bp h =
    match_case-measure same mhdr_cset_iso8859 mhdr_cset_skip_param mhdr_cset (ch ∷ bp) _ (λ c. refl)
      (mh_match-Moves mhdr_cset_iso8859 mhdr_cset_skip_param (codes "charset=") c (ch ∷ bp)
        (omega arith))
      (ground arith) (ground arith)
hdr_round-measure i mhdr_cset_iso8859 c ch bp h =
    unfold open_quote in
    elim (Bool-cases (c.mhdr_pos == 0 && ch == b'"')) [
      | inl quote ↦ rw quote (
          let r = mh_match mhdr_cset_isox mhdr_idle (codes "iso-8859-") c bp in
          let le = mh_match_le mhdr_cset_isox mhdr_idle (codes "iso-8859-") c bp in
          measure_read _ mhdr_cset_iso8859 _ (ch ∷ bp)
            (omega (arith, le, ap (λ (x : Bytes). length x) (match_case_le same r))))
      | inr plain ↦ rw plain (
          match_case-measure same mhdr_cset_isox mhdr_idle mhdr_cset_iso8859 (ch ∷ bp) _ (λ c. refl)
            (mh_match-Moves mhdr_cset_isox mhdr_idle (codes "iso-8859-") c (ch ∷ bp) (omega arith))
            (omega arith) (omega arith))
    ]
hdr_round-measure i mhdr_cset_isox c ch bp h = absurd (cc)
hdr_round-measure i mhdr_multipart c ch bp h =
    match_case-measure same mhdr_bnd_skip_param mhdr_idle mhdr_multipart (ch ∷ bp) _ (λ c. refl)
      (mh_match-Moves mhdr_bnd_skip_param mhdr_idle (codes "multipart") (to_st mhdr_text c)
        (ch ∷ bp) (omega arith))
      (ground arith) (ground arith)
hdr_round-measure i mhdr_bnd_skip_param c ch bp h =
    skip_case-measure mhdr_bnd_span_ws mhdr_bnd_skip_param c ch bp (skip_param (ch ∷ bp)) (
      at_white (λ w. rank mhdr_bnd_span_ws w < rank mhdr_bnd_skip_param w) (omega arith)
        (skip_param_moves ch bp))
hdr_round-measure i mhdr_bnd_span_ws c ch bp h =
    skip_case-measure mhdr_bnd mhdr_bnd_span_ws c ch bp (span_ws (ch ∷ bp)) (
      at_white (λ w. rank mhdr_bnd w < rank mhdr_bnd_span_ws w) (omega arith) (span_ws_moves ch bp))
hdr_round-measure i mhdr_bnd c ch bp h =
    match_case-measure (begin_bnd i) mhdr_bnd_value mhdr_bnd_skip_param mhdr_bnd (ch ∷ bp) _
      (begin_bnd-mhdr_st i)
      (mh_match-Moves mhdr_bnd_value mhdr_bnd_skip_param (codes "boundary=") c (ch ∷ bp)
        (omega arith))
      (ground arith) (ground arith)
hdr_round-measure i mhdr_bnd_value c ch bp h =
    measure_read _ mhdr_bnd_value _ (ch ∷ bp) (omega (arith, bnd_value_loop_le c (ch ∷ bp)))

-- With more rounds than the measure of its state and input, the loop ends, and more rounds do not
-- change where.
pub hdr_loop-ends :
    (fuel more : ℕ) (in_hdrs : Bool) (c : Mime) (bp : Bytes)
    → measure c.mhdr_st bp < fuel
    → (d : Mime) × (hdr_loop fuel in_hdrs c bp ≡ some d)
      × (hdr_loop (fuel + more) in_hdrs c bp ≡ some d)
unfolding hdr_loop
hdr_loop-ends zero more i c bp h = absurd (omega arith)
hdr_loop-ends (suc fuel) more i c [] h = rw (suc-add fuel more) (c, refl, refl)
hdr_loop-ends (suc fuel) more i c (ch ∷ bp) h =
    let r = hdr_round i c.mhdr_st c (ch ∷ bp) in
    rw (suc-add fuel more) (elim (Bool-cases r.2) [
      | inl stop ↦ rw stop (r.0, refl, refl)
      | inr go ↦
          let less = hdr_round-measure i c.mhdr_st c ch bp go in
          rw go (hdr_loop-ends fuel more i r.0 r.1 (omega (arith, less)))
    ])
