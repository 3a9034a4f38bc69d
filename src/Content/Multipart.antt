-- ===== src/Content/Multipart.antt =====
-- dcc/mime_multipart.go: the walk over a body with MIME boundaries.
pub mod Ends
pub mod Tries
use gdcc.Base.{
  ℕ, zero, suc, ◌+◌, ◌-◌, Bool, true, false, not, ◌&&◌, ◌||◌, Option, none, some, List, [], ◌∷◌,
  ◌++◌, Bytes, codes, ◌==◌, ltb, if◌then◌else◌, length, take, drop, map, bytes_eq,
}
use Prim.Native.Nat.{min}
use gdcc.Hash.{Digest}
use gdcc.Fuz2.{Tbl}
use gdcc.Mime.Context.{
  Mime, Bnd, MpSt, mp_preamble, mp_bnd, mp_hdrs, mp_text, mp_epilogue, bnd_at, set_bnd, ck_bnd_miss,
  decoders_init,
}
use gdcc.Mime.Headers.{parse_mime_hdr}
use gdcc.Content.{FuzzySum, Cks, Computed, decode_sum, cks_fin}

-- What the comparison of a boundary with the bytes at a line's start finds: a mismatch, a part of the
-- boundary up to the end of the bytes, or the whole line, with its length.
pub data BndTest : Type 0 where
  missed : BndTest
  partial : (cmp_len : ℕ) → BndTest
  whole : (cmp_len n : ℕ) → BndTest

-- White space and the newline behind a boundary, where `n` bytes are read.
unfoldable pub bnd_blanks : ℕ → ℕ → Bytes → BndTest
bnd_blanks cmp n [] = partial cmp
bnd_blanks cmp n (ch ∷ bp) =
    let rest = bnd_blanks cmp (n + 1) bp in
    if ch == b' ' || ch == b'\t' || ch == b'\r'
    then rest
    else if not (ch == b'\n')
    then missed
    else whole cmp (n + 1)

-- The second '-' of a final boundary.
unfoldable pub bnd_dash : ℕ → ℕ → Bytes → BndTest
unfolding bnd_blanks
bnd_dash cmp n [] = partial cmp
bnd_dash cmp n (ch ∷ bp) =
    if ch == b'-'
    then (if length bp == 0 then partial (cmp + 1) else bnd_blanks (cmp + 1) (n + 1) bp)
    else missed

-- What is behind the text of a boundary.
unfoldable pub bnd_tail : ℕ → ℕ → Bytes → BndTest
unfolding bnd_blanks bnd_dash
bnd_tail cmp n [] = partial cmp
bnd_tail cmp n (ch ∷ bp) =
    if ch == b'-'
    then (if length bp == 0 then partial (cmp + 1) else bnd_dash (cmp + 1) (n + 1) bp)
    else bnd_blanks cmp n (ch ∷ bp)

-- The comparison for one boundary, where `cmpLen` bytes have been compared before.
unfoldable pub match_bnd : Bnd → Bytes → BndTest
unfolding bnd_tail bnd_dash bnd_blanks
match_bnd b bp =
    let j = min (b.bnd_len - b.cmp_len) (length bp) in
    if ltb b.cmp_len b.bnd_len
    then (if not (bytes_eq (take j bp) (take j (drop b.cmp_len b.bnd)))
        then missed
        else if length bp - j == 0
        then partial (b.cmp_len + j)
        else bnd_tail (b.cmp_len + j) j (drop j bp))
    else if b.cmp_len == b.bnd_len
    then bnd_tail b.cmp_len 0 bp
    else if b.cmp_len == b.bnd_len + 1
    then bnd_dash b.cmp_len 0 bp
    else bnd_blanks b.cmp_len 0 bp

-- The state, the length that is matched, and the boundary whose line has been found.
pub record Tried : Type 0 where
  pub mime : Mime
  pub matched : ℕ
  pub found : Option ℕ

abbrev pub set_cmp : ℕ → ℕ → Mime → Mime
set_cmp bi cmp m = record m {
  mime_bnd = set_bnd m.mime_bnd bi (record (bnd_at m.mime_bnd bi) { cmp_len = cmp });
}

-- The outcome of a comparison of the boundary `bi`.
unfoldable pub note_test : ℕ → Mime → Bytes → ℕ → BndTest → Tried
note_test bi m bp matched missed = record {
  mime = record (set_cmp bi ck_bnd_miss m) { mime_bnd_matches = m.mime_bnd_matches - 1 };
  matched = matched;
  found = none;
}
note_test bi m bp matched (partial cmp) = record {
  mime = set_cmp bi cmp m;
  matched = length bp;
  found = none;
}
note_test bi m bp matched (whole cmp n) = record {
  mime = set_cmp bi cmp m;
  matched = n;
  found = some bi;
}

abbrev pub or_found : Option ℕ → Tried → Tried → Tried
or_found none t later = later
or_found (some bi) t later = t

-- The loop over the boundaries, with `k` of them left.
unfoldable pub try_bnds : ℕ → ℕ → Mime → Bytes → ℕ → Tried
unfolding match_bnd note_test
try_bnds zero bi m bp matched = record { mime = m; matched = matched; found = none }
try_bnds (suc k) bi m bp matched =
    let b = bnd_at m.mime_bnd bi in
    let t = note_test bi m bp matched (match_bnd b bp) in
    let later = try_bnds k (bi + 1) t.mime bp t.matched in
    let skipped = try_bnds k (bi + 1) m bp matched in
    if b.cmp_len == ck_bnd_miss then skipped else or_found t.found t later

-- The next line with its '\n', if it has one, and what is behind.
unfoldable pub next_line : Bytes → Bytes × Bytes
next_line [] = ([], [])
next_line (ch ∷ bp) =
    let (line, rest) = next_line bp in if ch == b'\n' then (ch ∷ [], bp) else (ch ∷ line, rest)

abbrev pub ends_line : Bytes → Bool
ends_line [] = false
ends_line (ch ∷ []) = ch == b'\n'
ends_line (ch ∷ d ∷ bp) = ends_line (d ∷ bp)

abbrev pub is_hdrs : MpSt → Bool
is_hdrs mp_hdrs = true
is_hdrs _ = false

abbrev pub uncompared : Bnd → Bnd
uncompared b = record b { cmp_len = 0 }

-- At the end of a line all the boundaries are compared anew.
unfoldable pub restart : Mime → Mime
restart m = record m {
  bol = true;
  mime_bnd_matches = m.mime_nest;
  mime_bnd = map uncompared m.mime_bnd;
}

-- The walk: the context, the bytes `bp[sum:cmp]` that wait, and the bytes from `cmp` on that are left.
pub record Walk (F : Type 0) : Type 0 where
  pub cks : Cks F
  pub pending : Bytes
  pub rest : Bytes

module _ (tbls : List Tbl) {F : Type 0} (ops : FuzzySum F) where
  unfoldable pub flush : Cks F → Bytes → Cks F
  unfolding decode_sum
  flush c bp = if not (length bp == 0) then decode_sum tbls ops c bp else c

  -- A line of an entity's header.
  unfoldable pub header_line : Cks F → Bytes → Bytes → Cks F × Bytes
  unfolding flush parse_mime_hdr
  header_line c pending line =
      let (m, blank) = parse_mime_hdr false c.mime line in
      let d = record c { mime = m } in
      let e = flush d (pending ++ line) in
      if blank
      then (record e { mime = record e.mime { mp_st = mp_text } }, [])
      else (d, pending ++ line)

  -- The next line, where no boundary is being compared.
  unfoldable pub line_step : Walk F → Walk F
  unfolding header_line next_line restart
  line_step w =
      let (line, rest) = next_line w.rest in
      let (c, pending) : Cks F × Bytes =
        if is_hdrs w.cks.mime.mp_st
        then header_line w.cks w.pending line
        else (w.cks, w.pending ++ line) in
      record {
        cks = if ends_line line then record c { mime = restart c.mime } else c;
        pending = pending;
        rest = rest;
      }

  abbrev with_mp : MpSt → Cks F → Cks F
  with_mp st c = record c { mime = record c.mime { mp_st = st } }

  -- The line of the boundary `bi` has been found.
  unfoldable pub enter : ℕ → Cks F → Bytes → Cks F
  unfolding flush decode_sum decoders_init
  enter bi c pending =
      let b = bnd_at c.mime.mime_bnd bi in
      let before = with_mp mp_bnd (flush c pending) in
      let summed = decode_sum tbls ops before (take b.bnd_len b.bnd) in
      let closed = with_mp mp_epilogue (decode_sum tbls ops summed (codes "--")) in
      let opened = with_mp mp_hdrs summed in
      if not (b.cmp_len == b.bnd_len)
      then record closed { mime = decoders_init (record closed.mime { mime_nest = bi }) }
      else record opened { mime = decoders_init (record opened.mime { mime_nest = bi + 1 }) }

  -- What the comparisons have found.
  unfoldable pub after_tries : Walk F → Tried → Option ℕ → Walk F
  unfolding enter
  after_tries w t none = record w {
    cks = record w.cks { mime = t.mime };
    rest = take (length w.rest - t.matched) w.rest;
  }
  after_tries w t (some bi) = record {
    cks = enter bi (record w.cks { mime = t.mime }) w.pending;
    pending = [];
    rest = drop t.matched w.rest;
  }

  unfoldable pub bnd_step : Walk F → Walk F
  unfolding try_bnds after_tries
  bnd_step w =
      let t = try_bnds w.cks.mime.mime_nest 0 w.cks.mime w.rest 0 in after_tries w t t.found

  -- One round of the loop of `ckBodyMultipart`.
  unfoldable pub walk_round : Walk F → Walk F
  unfolding line_step bnd_step
  walk_round w =
      let lined = line_step w in
      if not (w.cks.mime.mime_bnd_matches == 0)
      then bnd_step w
      else if length lined.rest == 0
      then lined
      else bnd_step lined

  -- The loop; `none` is a loop that has not ended.
  unfoldable pub walk_loop : ℕ → Walk F → Option (Cks F)
  unfolding walk_round flush decode_sum
  walk_loop zero w = none
  walk_loop (suc fuel) w =
      let more = walk_loop fuel (walk_round w) in
      if length w.rest == 0
      then some (flush w.cks w.pending)
      else if w.cks.mime.mime_nest == 0
      then some (decode_sum tbls ops w.cks (w.pending ++ w.rest))
      else more

  -- `ckBodyMultipart`, on two rounds for a byte and two more.
  unfoldable pub ck_body_multipart : Cks F → Bytes → Option (Cks F)
  unfolding walk_loop
  ck_body_multipart c bp =
      walk_loop (length bp + length bp + 2) (record { cks = c; pending = []; rest = bp })

  -- `ckBody`
  unfoldable pub ck_body : Cks F → Bytes → Option (Cks F)
  unfolding decode_sum ck_body_multipart
  ck_body c bp =
      if c.mime.mime_nest == 0 then some (decode_sum tbls ops c bp) else ck_body_multipart c bp

  abbrev fin_of : Digest → Option (Cks F) → Option Computed
  fin_of md5 none = none
  fin_of md5 (some c) = some (cks_fin tbls ops md5 c)

  -- `computeBody`
  unfoldable pub compute_body : Digest → Cks F → Bytes → Option Computed
  unfolding ck_body cks_fin
  compute_body md5 c body = fin_of md5 (ck_body c body)
