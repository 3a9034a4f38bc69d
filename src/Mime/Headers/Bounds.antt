-- ===== src/Mime/Headers/Bounds.antt =====
-- The boundaries that are read stay inside their arrays.
use gdcc.Base.{
  and_false, ℕ, zero, suc, ◌≤◌, ◌<◌, ◌≡◌, refl, subst, inl, inr, Bool, true, false, not, Option,
  some, none, [], ◌∷◌, Bytes, codes, length, arith, Bool-cases, All,
}
use mathlib.Core.Option.{some-injective}
use gdcc.Mime.Context.{
  Mime, MhdrSt, mhdr_idle, mhdr_ce_ct, mhdr_ce, mhdr_ce_ws, mhdr_ct, mhdr_ct_ws, mhdr_qp, mhdr_b64,
  mhdr_text, mhdr_html, mhdr_cset_skip_param, mhdr_cset_span_ws, mhdr_cset, mhdr_cset_iso8859,
  mhdr_cset_isox, mhdr_multipart, mhdr_bnd_skip_param, mhdr_bnd_span_ws, mhdr_bnd, mhdr_bnd_value,
}
use gdcc.Mime.Headers.{
  Parsed, mh_advance, mh_match, span_ws, skip_param, ce_ct_case, match_case, ce_ws_case, ct_ws_case,
  begin_bnd, put_bnd, hdr_round, hdr_loop, hdr_fuel, hdr_run, parse_mime_hdr, parse_line_start,
  begin_line, skip_cr, ck_mime_hdr, is_mhdr_idle, end_of, enter_body,
}
use gdcc.Mime.Headers.Room.{
  limit, NestRoom, IsBnd, Sound, put_bnd-Sound, bnd_value_loop-Sound, skip_case-Sound,
  isox_loop-Sound,
}

-- What begins a boundary: there is room for it.
record Begun (i : Bool) (c : Mime) : Type 0 where
  nest_3 : c.mime_nest < 3
  nest_le : c.mime_nest ≤ limit i
  value : c.mhdr_st ≡ mhdr_bnd_value
  three : length c.mime_bnd ≡ 3
  bnds : All IsBnd c.mime_bnd

begin_bnd-Sound : (i : Bool) (c : Mime) → Begun i c → Sound i (begin_bnd i c)
unfolding begin_bnd put_bnd
begin_bnd-Sound true c s =
    dashes (record c { mime_nest = 0; mime_bnd_matches = 1; quoted = false; mhdr_pos = 2 })
      (ground (arith, s))
  where
    dashes : (d : Mime) → Sound true d → Sound true (put_bnd 1 b'-' (put_bnd 0 b'-' d))
    dashes d s = put_bnd-Sound true 1 b'-' (put_bnd 0 b'-' d) (put_bnd-Sound true 0 b'-' d s)
begin_bnd-Sound false c s = dashes (record c { quoted = false; mhdr_pos = 2 }) (ground (arith, s))
  where
    dashes : (d : Mime) → Sound false d → Sound false (put_bnd 1 b'-' (put_bnd 0 b'-' d))
    dashes d s = put_bnd-Sound false 1 b'-' (put_bnd 0 b'-' d) (put_bnd-Sound false 0 b'-' d s)

-- What the state behind a match of "boundary=" has to be.
abbrev Before : Bool → Parsed → Type 0
Before i (c, rest, true) = Begun i c
Before i (c, rest, false) = Sound i c

bnd-Before :
    (i : Bool) (c : Mime) (bp : Bytes)
    → c.mhdr_st ≡ mhdr_bnd
    → Sound i c
    → Before i (mh_match mhdr_bnd_value mhdr_bnd_skip_param (codes "boundary=") c bp)
unfolding mh_match mh_advance
bnd-Before i c bp e s = ground (arith, s, e)

Before-match_case : (i : Bool) (r : Parsed) → Before i r → Sound i (match_case (begin_bnd i) r).0
unfolding match_case
Before-match_case i (c, rest, true) b = begin_bnd-Sound i c b
Before-match_case i (c, rest, false) b = b

-- What each case of the loop keeps.
hdr_round-Sound :
    (i : Bool) (st : MhdrSt) (c : Mime) (bp : Bytes)
    → c.mhdr_st ≡ st
    → Sound i c
    → Sound i (hdr_round i st c bp).0
unfolding hdr_round match_case mh_match mh_advance
hdr_round-Sound i mhdr_idle c bp e s = s
hdr_round-Sound i mhdr_ce_ct c bp e s =
    ce_ct_case-Sound (mh_match mhdr_ct_ws mhdr_idle (codes "Content-T") c bp) (ground (arith, s, e))
  where
    ce_ct_case-Sound : (r : Parsed) → Sound i r.0 → Sound i (ce_ct_case r).0
    ce_ct_case-Sound (c, bp, false) s = unfold ce_ct_case in s
    ce_ct_case-Sound (c, [], true) s = unfold ce_ct_case in s
    ce_ct_case-Sound (c, ch ∷ bp, true) s = unfold ce_ct_case in ground (arith, s)
hdr_round-Sound i mhdr_ce c bp e s = ground (arith, s, e)
hdr_round-Sound i mhdr_ce_ws c bp e s = ce_ws_case-Sound (span_ws bp).0
  where
    ce_ws_case-Sound : (r : Bytes) → Sound i (ce_ws_case c r).0
    ce_ws_case-Sound [] = unfold ce_ws_case in s
    ce_ws_case-Sound (ch ∷ r) = unfold ce_ws_case in ground (arith, s, e)
hdr_round-Sound i mhdr_qp c bp e s = ground (arith, s, e)
hdr_round-Sound i mhdr_b64 c bp e s = ground (arith, s, e)
hdr_round-Sound i mhdr_ct c bp e s = ground (arith, s, e)
hdr_round-Sound i mhdr_ct_ws c bp e s = ct_ws_case-Sound (span_ws bp).0
  where
    ct_ws_case-Sound : (r : Bytes) → Sound i (ct_ws_case i c r).0
    ct_ws_case-Sound [] = unfold ct_ws_case in s
    ct_ws_case-Sound (ch ∷ r) = unfold ct_ws_case in ground (arith, s, e)
hdr_round-Sound i mhdr_text c bp e s = ground (arith, s, e)
hdr_round-Sound i mhdr_html c bp e s = ground (arith, s, e)
hdr_round-Sound i mhdr_cset_skip_param c bp e s =
    skip_case-Sound i mhdr_cset_span_ws c (skip_param bp) s tt tt
hdr_round-Sound i mhdr_cset_span_ws c bp e s = skip_case-Sound i mhdr_cset c (span_ws bp) s tt tt
hdr_round-Sound i mhdr_cset c bp e s = ground (arith, s, e)
hdr_round-Sound i mhdr_cset_iso8859 c bp e s = ground (arith, s, e)
hdr_round-Sound i mhdr_cset_isox c bp e s = isox_loop-Sound i c bp e s
hdr_round-Sound i mhdr_multipart c bp e s = ground (arith, s, e)
hdr_round-Sound i mhdr_bnd_skip_param c bp e s =
    skip_case-Sound i mhdr_bnd_span_ws c (skip_param bp) s (ground (arith, s, e)) tt
hdr_round-Sound i mhdr_bnd_span_ws c bp e s =
    skip_case-Sound i mhdr_bnd c (span_ws bp) s (ground (arith, s, e)) tt
hdr_round-Sound i mhdr_bnd c bp e s =
    Before-match_case i (mh_match mhdr_bnd_value mhdr_bnd_skip_param (codes "boundary=") c bp)
      (bnd-Before i c bp e s)
hdr_round-Sound i mhdr_bnd_value c bp e s = bnd_value_loop-Sound i c bp e s

hdr_loop-Sound :
    (fuel : ℕ) (i : Bool) (c : Mime) (bp : Bytes)
    → Sound i c
    → (d : Mime) → hdr_loop fuel i c bp ≡ some d
    → Sound i d
unfolding hdr_loop
hdr_loop-Sound zero i c bp s d h = absurd (cc)
hdr_loop-Sound (suc fuel) i c [] s d h = subst (Sound i) (some-injective _ _ h) s
hdr_loop-Sound (suc fuel) i c (ch ∷ bp) s d h =
    let r = hdr_round i c.mhdr_st c (ch ∷ bp) in
    let next = hdr_round-Sound i c.mhdr_st c (ch ∷ bp) refl s in
    elim (Bool-cases r.2) [
      | inl stop ↦ subst (Sound i) (some-injective _ _ (rw stop at h)) next
      | inr go ↦ hdr_loop-Sound fuel i r.0 r.1 next d (rw go at h)
    ]

hdr_run-Sound : (i : Bool) (c : Mime) (bp : Bytes) → Sound i c → Sound i (hdr_run i c bp)
unfolding hdr_run
hdr_run-Sound i c bp s =
    ended (hdr_loop (hdr_fuel bp) i c bp) (hdr_loop-Sound (hdr_fuel bp) i c bp s)
  where
    ended : (o : Option Mime) → ((d : Mime) → o ≡ some d → Sound i d) → Sound i (end_of c o)
    ended none h = s
    ended (some d) h = h d refl

-- The headers of a message keep the limit for them, and their limit is that of the entities too.
pub Sound-weaken : (c : Mime) → Sound true c → Sound false c
Sound-weaken c s = record {
  nest_le = omega (arith, s.nest_le);
  nest_room = wider c.mhdr_st s.nest_room;
  pos_room = s.pos_room;
  three = s.three;
  bnds = s.bnds;
}
  where
    wider : (st : MhdrSt) → NestRoom st 1 c.mime_nest → NestRoom st 3 c.mime_nest
    wider st h = ground (arith, h)

-- `parseMimeHdr` keeps the state in order on every input: at most 3 containers are nested, and 1
-- behind the headers of a message, an entry of `mimeBnd` is free wherever a boundary is about to be
-- read, the position is below 94 where a byte of it is written, and each of the 3 entries has its 96
-- bytes and a length of at most 94.
pub parse_mime_hdr-Sound :
    (i : Bool) (c : Mime) (bp : Bytes) → Sound i c → Sound i (parse_mime_hdr i c bp).0
unfolding parse_mime_hdr
parse_mime_hdr-Sound true c bp s = rw (and_false c.bol) (hdr_run-Sound true c bp s)
parse_mime_hdr-Sound false c bp s = ground (arith, hdr_run-Sound false c bp s, line (skip_cr bp))
  where
    line : (bp : Bytes) → Sound false (parse_line_start c bp).0
    line [] = unfold parse_line_start in s
    line (ch ∷ bp) =
        unfold parse_line_start begin_line in
        ground (arith, s, hdr_run-Sound false (begin_line c ch) (ch ∷ bp) (ground (arith, s)))

-- `ckMimeHdr` keeps the state of a message's headers in order.
pub ck_mime_hdr-Sound : (c : Mime) (hdr : Bytes) → Sound true c → Sound true (ck_mime_hdr c hdr)
unfolding ck_mime_hdr
ck_mime_hdr-Sound c hdr s =
    let c0 = record c { mhdr_st = mhdr_ce_ct; mhdr_pos = 0 } in
    let read = (parse_mime_hdr true c0 hdr).0 in
    let s1 = parse_mime_hdr-Sound true c0 hdr (ground (arith, s)) in
    let s2 = parse_mime_hdr-Sound true read (b'\n' ∷ []) s1 in
    let e1 = enter_body-Sound read s1 in
    let e2 = enter_body-Sound (parse_mime_hdr true read (b'\n' ∷ [])).0 s2 in
    elim (Bool-cases (not (is_mhdr_idle read.mhdr_st))) [ inl e ↦ rw e e2 | inr e ↦ rw e e1 ]
  where
    enter_body-Sound : (c : Mime) → Sound true c → Sound true (enter_body c)
    enter_body-Sound c s = unfold enter_body in ground (arith, s)
