-- ===== src/Mime/Headers.antt =====
-- dcc/mime.go: the parser of "Content-Type" and "Content-Transfer-Encoding" headers.
pub mod Loop
pub mod Cases
pub mod Boundary
pub mod Value
pub mod Fields
pub mod Run
pub mod Bounds
pub mod Room
use gdcc.Base.{
  ℕ, zero, suc, ◌+◌, ◌-◌, ◌*◌, Bool, true, false, not, ◌&&◌, ◌||◌, Option, some, none, List, [],
  ◌∷◌, Bytes, codes, ◌==◌, ltb, leb, if◌then◌else◌, length, take, drop,
}
use Prim.Native.Nat.{min}
use gdcc.Header.{to_lower, is_white}
use gdcc.Cref.{set_at, is_digit}
use gdcc.Fuz2.{text, html, binary}
use gdcc.Fuz2.Charset.{latin1, latin2}
use gdcc.Mime.Context.{
  Mime, Bnd, MhdrSt, mhdr_idle, mhdr_ce_ct, mhdr_ce, mhdr_ce_ws, mhdr_ct, mhdr_ct_ws, mhdr_qp,
  mhdr_b64, mhdr_text, mhdr_html, mhdr_cset_skip_param, mhdr_cset_span_ws, mhdr_cset,
  mhdr_cset_iso8859, mhdr_cset_isox, mhdr_multipart, mhdr_bnd_skip_param, mhdr_bnd_span_ws,
  mhdr_bnd, mhdr_bnd_value, mp_preamble, ce_qp, ce_b64, ck_bnd_max, mime_bnd_num, bnd_at, set_bnd,
}

-- `eqFold`; `mhMatch` calls it with a target that is not longer than the bytes.
abbrev pub eq_fold : Bytes → Bytes → Bool
eq_fold [] b = true
eq_fold (x ∷ s) [] = false
eq_fold (x ∷ s) (y ∷ b) = if not (to_lower x == to_lower y) then false else eq_fold s b

-- A state, the bytes that are left, and a Boolean result.
abbrev pub Parsed : Type 0
Parsed = Mime × Bytes × Bool

-- The comparison of `mhMatch` that has succeeded on `n` bytes.
unfoldable pub mh_advance : MhdrSt → ℕ → ℕ → Mime → Bytes → Parsed
mh_advance ok size n c b =
    if leb size (c.mhdr_pos + n)
    then (record c { mhdr_st = ok; mhdr_pos = 0 }, drop n b, true)
    else (record c { mhdr_pos = c.mhdr_pos + n }, drop n b, false)

-- `mhMatch`
unfoldable pub mh_match : MhdrSt → MhdrSt → Bytes → Mime → Bytes → Parsed
unfolding mh_advance
mh_match ok fail tgt c b =
    let n = min (length tgt - c.mhdr_pos) (length b) in
    if ltb 0 n && not (eq_fold (take n (drop c.mhdr_pos tgt)) (take n b))
    then (record c { mhdr_st = fail }, b, false)
    else mh_advance ok (length tgt) n c b

-- `spanWS`: the bytes that are left, and whether there are any.
unfoldable pub span_ws : Bytes → Bytes × Bool
span_ws [] = ([], false)
span_ws (c ∷ b) = let rest = span_ws b in if not (is_white c) then (c ∷ b, true) else rest

-- `skipParam`
unfoldable pub skip_param : Bytes → Bytes × Bool
skip_param [] = ([], false)
skip_param (c ∷ b) =
    let rest = skip_param b in
    if is_white c then (c ∷ b, true) else if c == b';' then (b, true) else rest

abbrev pub to_st : MhdrSt → Mime → Mime
to_st st c = record c { mhdr_st = st }

-- Case `mhdrCeCt`, behind the match.
unfoldable pub ce_ct_case : Parsed → Parsed
ce_ct_case (c, bp, false) = (c, bp, false)
ce_ct_case (c, [], true) = (c, [], true)
ce_ct_case (c, ch ∷ bp, true) =
    if ch == b'r' || ch == b'R'
    then (to_st mhdr_ce c, ch ∷ bp, false)
    else if ch == b'y' || ch == b'Y'
    then (to_st mhdr_ct c, ch ∷ bp, false)
    else (to_st mhdr_idle c, ch ∷ bp, true)

-- A match behind which the loop goes on, with what it notes where it succeeds.
unfoldable pub match_case : (Mime → Mime) → Parsed → Parsed
match_case note (c, bp, false) = (c, bp, false)
match_case note (c, bp, true) = (note c, bp, false)

abbrev pub same : Mime → Mime
same c = c

-- Case `mhdrCeWS`, behind the white space.
unfoldable pub ce_ws_case : Mime → Bytes → Parsed
ce_ws_case c [] = (c, [], true)
ce_ws_case c (ch ∷ bp) =
    if ch == b'b' || ch == b'B'
    then (to_st mhdr_b64 c, ch ∷ bp, false)
    else if ch == b'q' || ch == b'Q'
    then (to_st mhdr_qp c, ch ∷ bp, false)
    else (to_st mhdr_idle c, ch ∷ bp, true)

-- Case `mhdrCtWS`, behind the white space.
unfoldable pub ct_ws_case : Bool → Mime → Bytes → Parsed
ct_ws_case in_hdrs c [] = (c, [], true)
ct_ws_case in_hdrs c (ch ∷ bp) =
    if ch == b't' || ch == b'T'
    then (to_st mhdr_text c, ch ∷ bp, false)
    else if ch == b'm' || ch == b'M'
    then (if in_hdrs || ltb c.mime_nest mime_bnd_num
        then (to_st mhdr_multipart c, ch ∷ bp, false)
        else (to_st mhdr_idle c, ch ∷ bp, false))
    else (record c { mime_ct = binary; mhdr_st = mhdr_idle }, ch ∷ bp, true)

-- The cases that skip bytes and go to the state `st` where some are left.
unfoldable pub skip_case : MhdrSt → Mime → Bytes × Bool → Parsed
skip_case st c (bp, true) = (to_st st c, bp, false)
skip_case st c (bp, false) = (c, bp, false)

-- Case `mhdrCsetISO8859`: an opening quote is passed over.
unfoldable pub open_quote : Mime → Bytes → Bytes
open_quote c [] = []
open_quote c (ch ∷ bp) = if c.mhdr_pos == 0 && ch == b'"' then bp else ch ∷ bp

-- Case `mhdrCsetISOX`, which always returns.
unfoldable pub isox_loop : Mime → Bytes → Mime × Bytes
isox_loop c [] = (c, [])
isox_loop c (ch ∷ bp) =
    let next = record c { mhdr_pos = c.mhdr_pos * 10 + (ch - b'0') } in
    let more = isox_loop next bp in
    if not (is_digit ch)
    then (if (ch == b'"' || is_white ch || ch == b';') && c.mhdr_pos == 2
        then (record c { mime_cset = latin2; mhdr_st = mhdr_idle }, bp)
        else (record c { mime_cset = latin1; mhdr_st = mhdr_idle }, bp))
    else if ltb 99 next.mhdr_pos
    then (to_st mhdr_idle next, bp)
    else more

abbrev pub set_text : Bytes → Bnd → Bnd
set_text s b = record b { bnd = s }

-- `c.mimeBnd[c.mimeNest].bnd[i] = ch`
unfoldable pub put_bnd : ℕ → ℕ → Mime → Mime
put_bnd i ch c =
    let b = bnd_at c.mime_bnd c.mime_nest in
    record c { mime_bnd = set_bnd c.mime_bnd c.mime_nest (set_text (set_at b.bnd i ch) b) }

-- Case `mhdrBnd`, where "boundary=" has been read.
unfoldable pub begin_bnd : Bool → Mime → Mime
unfolding put_bnd
begin_bnd in_hdrs c =
    let b = if in_hdrs then record c { mime_nest = 0; mime_bnd_matches = 1 } else c in
    record (put_bnd 1 b'-' (put_bnd 0 b'-' (record b { quoted = false }))) { mhdr_pos = 2 }

-- Case `mhdrBndValue`, behind its loop.
unfoldable pub end_bnd : Mime → Mime
end_bnd c =
    let b = bnd_at c.mime_bnd c.mime_nest in
    let ended = record b { bnd_len = c.mhdr_pos; cmp_len = 0 } in
    record c {
      mime_bnd = set_bnd c.mime_bnd c.mime_nest ended;
      mime_nest = c.mime_nest + 1;
      mhdr_st = mhdr_idle;
    }

abbrev pub ends_value : Mime → ℕ → Bool
ends_value c ch = ch == b'\n' || (ch == b' ' || ch == b'\t' || ch == b';') && not c.quoted

-- Case `mhdrBndValue`.
unfoldable pub bnd_value_loop : Mime → Bytes → Parsed
unfolding put_bnd end_bnd
bnd_value_loop c [] = (c, [], true)
bnd_value_loop c (ch ∷ bp) =
    let put = record (put_bnd c.mhdr_pos ch c) { mhdr_pos = c.mhdr_pos + 1 } in
    let ignore = bnd_value_loop c bp in
    let quote = bnd_value_loop (record c { quoted = not c.quoted }) bp in
    let more = bnd_value_loop put bp in
    if ends_value c ch
    then (end_bnd c, bp, false)
    else if ch == b'\r'
    then ignore
    else if ch == b'"'
    then quote
    else if leb ck_bnd_max put.mhdr_pos
    then (to_st mhdr_idle put, bp, true)
    else more

-- One round of the loop of `parseMimeHdr`; the result tells whether the function returns.
unfoldable pub hdr_round : Bool → MhdrSt → Mime → Bytes → Parsed
unfolding mh_match ce_ct_case match_case ce_ws_case ct_ws_case skip_case open_quote isox_loop
    begin_bnd bnd_value_loop
hdr_round in_hdrs mhdr_idle c bp = (c, bp, true)
hdr_round in_hdrs mhdr_ce_ct c bp =
    ce_ct_case (mh_match mhdr_ct_ws mhdr_idle (codes "Content-T") c bp)
hdr_round in_hdrs mhdr_ce c bp =
    match_case same (mh_match mhdr_ce_ws mhdr_idle (codes "ransfer-Encoding:") c bp)
hdr_round in_hdrs mhdr_ce_ws c bp = ce_ws_case c (span_ws bp).0
hdr_round in_hdrs mhdr_qp c bp =
    match_case (λ c. record c { mime_ce = ce_qp })
      (mh_match mhdr_idle mhdr_idle (codes "quoted-printable") c bp)
hdr_round in_hdrs mhdr_b64 c bp =
    match_case (λ c. record c { mime_ce = ce_b64 })
      (mh_match mhdr_idle mhdr_idle (codes "base64") c bp)
hdr_round in_hdrs mhdr_ct c bp = match_case same (mh_match mhdr_ct_ws mhdr_idle (codes "ype:") c bp)
hdr_round in_hdrs mhdr_ct_ws c bp = ct_ws_case in_hdrs c (span_ws bp).0
hdr_round in_hdrs mhdr_text c bp =
    match_case (λ c. record c { mime_ct = text }) (mh_match mhdr_html mhdr_idle (codes "text") c bp)
hdr_round in_hdrs mhdr_html c bp =
    match_case (λ c. record c { mime_ct = html })
      (mh_match mhdr_cset_skip_param mhdr_cset_skip_param (codes "/html") c bp)
hdr_round in_hdrs mhdr_cset_skip_param c bp = skip_case mhdr_cset_span_ws c (skip_param bp)
hdr_round in_hdrs mhdr_cset_span_ws c bp = skip_case mhdr_cset c (span_ws bp)
hdr_round in_hdrs mhdr_cset c bp =
    match_case same (mh_match mhdr_cset_iso8859 mhdr_cset_skip_param (codes "charset=") c bp)
hdr_round in_hdrs mhdr_cset_iso8859 c bp =
    match_case same (mh_match mhdr_cset_isox mhdr_idle (codes "iso-8859-") c (open_quote c bp))
hdr_round in_hdrs mhdr_cset_isox c bp = let (c', rest) = isox_loop c bp in (c', rest, true)
hdr_round in_hdrs mhdr_multipart c bp =
    match_case same
      (mh_match mhdr_bnd_skip_param mhdr_idle (codes "multipart") (to_st mhdr_text c) bp)
hdr_round in_hdrs mhdr_bnd_skip_param c bp = skip_case mhdr_bnd_span_ws c (skip_param bp)
hdr_round in_hdrs mhdr_bnd_span_ws c bp = skip_case mhdr_bnd c (span_ws bp)
hdr_round in_hdrs mhdr_bnd c bp =
    match_case (begin_bnd in_hdrs)
      (mh_match mhdr_bnd_value mhdr_bnd_skip_param (codes "boundary=") c bp)
hdr_round in_hdrs mhdr_bnd_value c bp = bnd_value_loop c bp

-- The loop of `parseMimeHdr`, which returns false wherever it ends; `none` is a loop that has not
-- ended.
unfoldable pub hdr_loop : ℕ → Bool → Mime → Bytes → Option Mime
unfolding hdr_round
hdr_loop zero in_hdrs c bp = none
hdr_loop (suc fuel) in_hdrs c [] = some c
hdr_loop (suc fuel) in_hdrs c (ch ∷ bp) =
    let (next, rest, stop) = hdr_round in_hdrs c.mhdr_st c (ch ∷ bp) in
    let more = hdr_loop fuel in_hdrs next rest in if stop then some next else more

-- Enough rounds for the loop of `parseMimeHdr` on `bp`.
abbrev pub hdr_fuel : Bytes → ℕ
hdr_fuel bp = 10 * length bp + 10

abbrev pub end_of : Mime → Option Mime → Mime
end_of c (some next) = next
end_of c none = c

-- The loop with enough rounds; `Headers.Loop` shows that it ends.
unfoldable pub hdr_run : Bool → Mime → Bytes → Mime
unfolding hdr_loop
hdr_run in_hdrs c bp = end_of c (hdr_loop (hdr_fuel bp) in_hdrs c bp)

-- At the start of a line of an entity's header, on a byte that is not '\n': a byte that is not blank
-- begins a new field.
unfoldable pub begin_line : Mime → ℕ → Mime
begin_line c ch =
    let fresh = record c { mhdr_st = mhdr_ce_ct; mhdr_pos = 0; bol = false } in
    let folded = record c { bol = false } in
    if not (ch == b' ') && not (ch == b'\t') then fresh else folded

-- `parseMimeHdr` where the flag is set: the rest of the line behind a '\r'.
unfoldable pub parse_line_start : Mime → Bytes → Mime × Bool
unfolding begin_line hdr_run
parse_line_start c [] = (c, false)
parse_line_start c (ch ∷ bp) =
    let line = hdr_run false (begin_line c ch) (ch ∷ bp) in
    if ch == b'\n' then (c, true) else (line, false)

abbrev pub skip_cr : Bytes → Bytes
skip_cr [] = []
skip_cr (ch ∷ bp) = if ch == b'\r' then bp else ch ∷ bp

-- `parseMimeHdr`; the result tells of a blank line.
unfoldable pub parse_mime_hdr : Bool → Mime → Bytes → Mime × Bool
unfolding parse_line_start
parse_mime_hdr in_hdrs c bp =
    let line = hdr_run in_hdrs c bp in
    let start = parse_line_start c (skip_cr bp) in
    if c.bol && not in_hdrs then start else (line, false)

abbrev pub is_mhdr_idle : MhdrSt → Bool
is_mhdr_idle mhdr_idle = true
is_mhdr_idle _ = false

-- The end of `ckMimeHdr`.
unfoldable pub enter_body : Mime → Mime
enter_body c =
    if not (c.mime_nest == 0)
    then record c { mp_st = mp_preamble; bol = true }
    else record c { bol = true }

-- `ckMimeHdr`
unfoldable pub ck_mime_hdr : Mime → Bytes → Mime
unfolding parse_mime_hdr enter_body
ck_mime_hdr c hdr =
    let read = (parse_mime_hdr true (record c { mhdr_st = mhdr_ce_ct; mhdr_pos = 0 }) hdr).0 in
    let ended = (parse_mime_hdr true read (b'\n' ∷ [])).0 in
    if not (is_mhdr_idle read.mhdr_st) then enter_body ended else enter_body read
