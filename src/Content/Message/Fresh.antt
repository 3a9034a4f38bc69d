-- ===== src/Content/Message/Fresh.antt =====
-- dcc/mime.go: the cases of parseMimeHdr before the body, and the boundaries that wait there.
use gdcc.Base.{
  ℕ, zero, suc, ◌+◌, ◌-◌, ◌*◌, ◌≤◌, ◌≡◌, refl, sym, subst, Bool, true, false, not, List, [], ◌∷◌,
  Bytes, codes, All, arith,
}
use gdcc.Fuz2.{text, html}
use gdcc.Mime.Context.{
  Mime, Bnd, MhdrSt, mhdr_idle, mhdr_ce_ct, mhdr_ce, mhdr_ce_ws, mhdr_ct, mhdr_ct_ws, mhdr_qp,
  mhdr_b64, mhdr_text, mhdr_html, mhdr_cset_skip_param, mhdr_cset_span_ws, mhdr_cset,
  mhdr_cset_iso8859, mhdr_cset_isox, mhdr_multipart, mhdr_bnd_skip_param, mhdr_bnd_span_ws,
  mhdr_bnd, mhdr_bnd_value, bnd_at, set_bnd, ce_qp, ce_b64,
}
use gdcc.Mime.Headers.{
  open_quote, Parsed, mh_advance, mh_match, span_ws, skip_param, to_st, ce_ct_case, match_case,
  same, ce_ws_case, ct_ws_case, skip_case, isox_loop, begin_bnd, put_bnd, end_bnd, bnd_value_loop,
  hdr_round,
}

abbrev pub Uncompared : List Bnd → Type 0
Uncompared bs = All (λ b. b.cmp_len ≡ 0) bs

-- Before the body no boundary has been compared, and at most one counts as compared.
pub record Fresh (c : Mime) : Type 0 where
  pub matches_1 : c.mime_bnd_matches ≤ 1
  pub uncompared : Uncompared c.mime_bnd

set_bnd-Uncompared :
    (bs : List Bnd) (i : ℕ) (x : Bnd) → Uncompared bs → x.cmp_len ≡ 0 → Uncompared (set_bnd bs i x)
set_bnd-Uncompared [] i x h hx = tt
set_bnd-Uncompared (b ∷ bs) zero x h hx = (hx, h.1)
set_bnd-Uncompared (b ∷ bs) (suc i) x h hx = (h.0, set_bnd-Uncompared bs i x h.1 hx)

pub bnd_at-Uncompared : (bs : List Bnd) (i : ℕ) → Uncompared bs → (bnd_at bs i).cmp_len ≡ 0
bnd_at-Uncompared [] i h = refl
bnd_at-Uncompared (b ∷ bs) zero h = h.0
bnd_at-Uncompared (b ∷ bs) (suc i) h = bnd_at-Uncompared bs i h.1

put_bnd-Fresh : (i ch : ℕ) (c : Mime) → Fresh c → Fresh (put_bnd i ch c)
unfolding put_bnd
put_bnd-Fresh i ch c f = record {
  matches_1 = f.matches_1;
  uncompared =
      set_bnd-Uncompared c.mime_bnd c.mime_nest _ f.uncompared
        (bnd_at-Uncompared c.mime_bnd c.mime_nest f.uncompared);
}

end_bnd-Fresh : (c : Mime) → Fresh c → Fresh (end_bnd c)
unfolding end_bnd
end_bnd-Fresh c f = record {
  matches_1 = f.matches_1;
  uncompared = set_bnd-Uncompared c.mime_bnd c.mime_nest _ f.uncompared refl;
}

bnd_value_loop-Fresh : (c : Mime) (bp : Bytes) → Fresh c → Fresh (bnd_value_loop c bp).0
unfolding bnd_value_loop
bnd_value_loop-Fresh c [] f = f
bnd_value_loop-Fresh c (ch ∷ bp) f =
    let put = record (put_bnd c.mhdr_pos ch c) { mhdr_pos = c.mhdr_pos + 1 } in
    let p = put_bnd-Fresh c.mhdr_pos ch c f in
    ground (
      arith,
      end_bnd-Fresh c f,
      bnd_value_loop-Fresh c bp f,
      bnd_value_loop-Fresh (record c { quoted = not c.quoted }) bp
          (record { matches_1 = f.matches_1; uncompared = f.uncompared }),
      p,
      bnd_value_loop-Fresh put bp (record { matches_1 = p.matches_1; uncompared = p.uncompared }),
    )

isox_loop-Fresh : (c : Mime) (bp : Bytes) → Fresh c → Fresh (isox_loop c bp).0
unfolding isox_loop
isox_loop-Fresh c [] f = f
isox_loop-Fresh c (ch ∷ bp) f =
    let next = record c { mhdr_pos = c.mhdr_pos * 10 + (ch - b'0') } in
    ground (
      arith,
      f,
      isox_loop-Fresh next bp (record { matches_1 = f.matches_1; uncompared = f.uncompared }),
    )

mh_match-Fresh :
    (ok fail : MhdrSt) (tgt : Bytes) (c : Mime) (b : Bytes)
    → Fresh c
    → Fresh (mh_match ok fail tgt c b).0
unfolding mh_match mh_advance
mh_match-Fresh ok fail tgt c b f = ground (arith, f)

match_case-Fresh :
    (note : Mime → Mime) (r : Parsed)
    → ((c : Mime) → Fresh c → Fresh (note c))
    → Fresh r.0
    → Fresh (match_case note r).0
unfolding match_case
match_case-Fresh note (c, b, true) keeps f = keeps c f
match_case-Fresh note (c, b, false) keeps f = f

skip_case-Fresh : (st : MhdrSt) (c : Mime) (r : Bytes × Bool) → Fresh c → Fresh (skip_case st c r).0
unfolding skip_case
skip_case-Fresh st c (b, true) f = ground (arith, f)
skip_case-Fresh st c (b, false) f = f

ce_ct_case-Fresh : (r : Parsed) → Fresh r.0 → Fresh (ce_ct_case r).0
unfolding ce_ct_case
ce_ct_case-Fresh (c, b, false) f = f
ce_ct_case-Fresh (c, [], true) f = f
ce_ct_case-Fresh (c, ch ∷ b, true) f = ground (arith, f)

ce_ws_case-Fresh : (c : Mime) (b : Bytes) → Fresh c → Fresh (ce_ws_case c b).0
unfolding ce_ws_case
ce_ws_case-Fresh c [] f = f
ce_ws_case-Fresh c (ch ∷ b) f = ground (arith, f)

ct_ws_case-Fresh : (i : Bool) (c : Mime) (b : Bytes) → Fresh c → Fresh (ct_ws_case i c b).0
unfolding ct_ws_case
ct_ws_case-Fresh i c [] f = f
ct_ws_case-Fresh i c (ch ∷ b) f = ground (arith, f)

begin_bnd-Fresh : (c : Mime) → Fresh c → Fresh (begin_bnd true c)
unfolding begin_bnd
begin_bnd-Fresh c f =
    let d = record c { mime_nest = 0; mime_bnd_matches = 1; quoted = false } in
    let start : Fresh d = record { matches_1 = omega arith; uncompared = f.uncompared } in
    let p = put_bnd-Fresh 0 b'-' d start in
    let q = put_bnd-Fresh 1 b'-' (put_bnd 0 b'-' d) p in
    record { matches_1 = q.matches_1; uncompared = q.uncompared }

note-Fresh :
    (note : Mime → Mime) (c : Mime)
    → Fresh c
    → (note c).mime_bnd ≡ c.mime_bnd
    → (note c).mime_bnd_matches ≡ c.mime_bnd_matches
    → Fresh (note c)
note-Fresh note c f b m = record {
  matches_1 = omega (arith, m, f.matches_1);
  uncompared = subst Uncompared (sym b) f.uncompared;
}

to_text : (c : Mime) → Fresh c → Fresh (to_st mhdr_text c)
to_text c f = record { matches_1 = f.matches_1; uncompared = f.uncompared }

pub hdr_round-Fresh :
    (st : MhdrSt) (c : Mime) (bp : Bytes) → Fresh c → Fresh (hdr_round true st c bp).0
unfolding hdr_round
hdr_round-Fresh mhdr_idle c bp f = f
hdr_round-Fresh mhdr_ce_ct c bp f =
    ce_ct_case-Fresh (mh_match mhdr_ct_ws mhdr_idle (codes "Content-T") c bp)
      (mh_match-Fresh mhdr_ct_ws mhdr_idle (codes "Content-T") c bp f)
hdr_round-Fresh mhdr_ce c bp f =
    match_case-Fresh same (mh_match mhdr_ce_ws mhdr_idle (codes "ransfer-Encoding:") c bp)
      (λ c f. f) (mh_match-Fresh mhdr_ce_ws mhdr_idle (codes "ransfer-Encoding:") c bp f)
hdr_round-Fresh mhdr_ce_ws c bp f = ce_ws_case-Fresh c (span_ws bp).0 f
hdr_round-Fresh mhdr_ct c bp f =
    match_case-Fresh same (mh_match mhdr_ct_ws mhdr_idle (codes "ype:") c bp) (λ c f. f)
      (mh_match-Fresh mhdr_ct_ws mhdr_idle (codes "ype:") c bp f)
hdr_round-Fresh mhdr_ct_ws c bp f = ct_ws_case-Fresh true c (span_ws bp).0 f
hdr_round-Fresh mhdr_qp c bp f =
    match_case-Fresh (λ c. record c { mime_ce = ce_qp })
      (mh_match mhdr_idle mhdr_idle (codes "quoted-printable") c bp)
      (λ c f. note-Fresh (λ c. record c { mime_ce = ce_qp }) c f refl refl)
      (mh_match-Fresh mhdr_idle mhdr_idle (codes "quoted-printable") c bp f)
hdr_round-Fresh mhdr_b64 c bp f =
    match_case-Fresh (λ c. record c { mime_ce = ce_b64 })
      (mh_match mhdr_idle mhdr_idle (codes "base64") c bp)
      (λ c f. note-Fresh (λ c. record c { mime_ce = ce_b64 }) c f refl refl)
      (mh_match-Fresh mhdr_idle mhdr_idle (codes "base64") c bp f)
hdr_round-Fresh mhdr_text c bp f =
    match_case-Fresh (λ c. record c { mime_ct = text })
      (mh_match mhdr_html mhdr_idle (codes "text") c bp)
      (λ c f. note-Fresh (λ c. record c { mime_ct = text }) c f refl refl)
      (mh_match-Fresh mhdr_html mhdr_idle (codes "text") c bp f)
hdr_round-Fresh mhdr_html c bp f =
    match_case-Fresh (λ c. record c { mime_ct = html })
      (mh_match mhdr_cset_skip_param mhdr_cset_skip_param (codes "/html") c bp)
      (λ c f. note-Fresh (λ c. record c { mime_ct = html }) c f refl refl)
      (mh_match-Fresh mhdr_cset_skip_param mhdr_cset_skip_param (codes "/html") c bp f)
hdr_round-Fresh mhdr_cset_skip_param c bp f = skip_case-Fresh mhdr_cset_span_ws c (skip_param bp) f
hdr_round-Fresh mhdr_cset_span_ws c bp f = skip_case-Fresh mhdr_cset c (span_ws bp) f
hdr_round-Fresh mhdr_cset c bp f =
    match_case-Fresh same (mh_match mhdr_cset_iso8859 mhdr_cset_skip_param (codes "charset=") c bp)
      (λ c f. f) (mh_match-Fresh mhdr_cset_iso8859 mhdr_cset_skip_param (codes "charset=") c bp f)
hdr_round-Fresh mhdr_cset_iso8859 c bp f =
    match_case-Fresh same
      (mh_match mhdr_cset_isox mhdr_idle (codes "iso-8859-") c (open_quote c bp)) (λ c f. f)
      (mh_match-Fresh mhdr_cset_isox mhdr_idle (codes "iso-8859-") c (open_quote c bp) f)
hdr_round-Fresh mhdr_cset_isox c bp f = isox_loop-Fresh c bp f
hdr_round-Fresh mhdr_multipart c bp f =
    match_case-Fresh same
      (mh_match mhdr_bnd_skip_param mhdr_idle (codes "multipart") (to_st mhdr_text c) bp) (λ c f. f)
      (mh_match-Fresh mhdr_bnd_skip_param mhdr_idle (codes "multipart") (to_st mhdr_text c) bp
        (to_text c f))
hdr_round-Fresh mhdr_bnd_skip_param c bp f = skip_case-Fresh mhdr_bnd_span_ws c (skip_param bp) f
hdr_round-Fresh mhdr_bnd_span_ws c bp f = skip_case-Fresh mhdr_bnd c (span_ws bp) f
hdr_round-Fresh mhdr_bnd c bp f =
    match_case-Fresh (begin_bnd true)
      (mh_match mhdr_bnd_value mhdr_bnd_skip_param (codes "boundary=") c bp) begin_bnd-Fresh
      (mh_match-Fresh mhdr_bnd_value mhdr_bnd_skip_param (codes "boundary=") c bp f)
hdr_round-Fresh mhdr_bnd_value c bp f = bnd_value_loop-Fresh c bp f
