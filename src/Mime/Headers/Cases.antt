-- ===== src/Mime/Headers/Cases.antt =====
-- dcc/mime.go: the cases of parseMimeHdr, and whether they read a byte.
use gdcc.Base.{
  ℕ, ◌+◌, ◌-◌, ◌*◌, ◌≤◌, ◌<◌, ◌≡◌, refl, sym, subst, ◌⊎◌, inl, inr, Bool, true, false, not, [], ◌∷◌,
  Bytes, length, arith, length-drop,
}
use Prim.Native.Nat.{min}
use gdcc.Header.{is_white}
use gdcc.Mime.Context.{
  Mime, MhdrSt, mhdr_idle, mhdr_ce_ct, mhdr_ce, mhdr_ce_ws, mhdr_ct, mhdr_ct_ws, mhdr_qp, mhdr_b64,
  mhdr_text, mhdr_html, mhdr_cset_skip_param, mhdr_cset_span_ws, mhdr_cset, mhdr_cset_iso8859,
  mhdr_cset_isox, mhdr_multipart, mhdr_bnd_skip_param, mhdr_bnd_span_ws, mhdr_bnd, mhdr_bnd_value,
}
use gdcc.Mime.Headers.{
  Parsed, mh_advance, mh_match, span_ws, skip_param, ce_ct_case, match_case, ce_ws_case, ct_ws_case,
  skip_case, begin_bnd, put_bnd, bnd_value_loop,
}

-- The rounds that a state takes at most before it reads a byte, where the next byte is white space
-- or not.
abbrev pub rank : MhdrSt → Bool → ℕ
rank mhdr_idle w = 0
rank mhdr_ce_ct w = 9
rank mhdr_ce w = 8
rank mhdr_ce_ws w = 7
rank mhdr_ct w = 8
rank mhdr_ct_ws w = 7
rank mhdr_qp w = 1
rank mhdr_b64 w = 1
rank mhdr_text w = 6
rank mhdr_html w = 5
rank mhdr_cset_skip_param true = 3
rank mhdr_cset_skip_param false = 2
rank mhdr_cset_span_ws true = 2
rank mhdr_cset_span_ws false = 4
rank mhdr_cset true = 4
rank mhdr_cset false = 3
rank mhdr_cset_iso8859 w = 1
rank mhdr_cset_isox w = 0
rank mhdr_multipart w = 6
rank mhdr_bnd_skip_param true = 3
rank mhdr_bnd_skip_param false = 2
rank mhdr_bnd_span_ws true = 2
rank mhdr_bnd_span_ws false = 4
rank mhdr_bnd true = 4
rank mhdr_bnd false = 3
rank mhdr_bnd_value w = 1

pub rank_le : (st : MhdrSt) (w : Bool) → rank st w ≤ 9
rank_le st w = ground arith

abbrev first_white : Bytes → Bool
first_white [] = false
first_white (c ∷ b) = is_white c

abbrev pub measure : MhdrSt → Bytes → ℕ
measure st bp = 10 * length bp + rank st (first_white bp)

-- A round that reads a byte lowers the measure.
pub measure_read :
    (s st : MhdrSt) (rest bp : Bytes) → length rest < length bp → measure s rest < measure st bp
measure_read s st rest bp h = omega (arith, rank_le s (first_white rest))

-- Where a match ends: it has read bytes, or none, with all its target read before or a mismatch.
abbrev Moves : MhdrSt → MhdrSt → Bytes → Parsed → Type 0
Moves ok fail b (c, rest, m) =
    (length rest < length b)
    ⊎ ((rest ≡ b) × (((m ≡ true) × (c.mhdr_st ≡ ok)) ⊎ ((m ≡ false) × (c.mhdr_st ≡ fail))))

pub mh_match-Moves :
    (ok fail : MhdrSt) (tgt : Bytes) (c : Mime) (b : Bytes)
    → 0 < length b
    → Moves ok fail b (mh_match ok fail tgt c b)
unfolding mh_match mh_advance
mh_match-Moves ok fail tgt c b h =
    ground (arith, length-drop (min (length tgt - c.mhdr_pos) (length b)) b)

-- A case behind a match lowers the measure where its states do.
pub match_case-measure :
    (note : Mime → Mime) (ok fail st : MhdrSt) (b : Bytes) (r : Parsed)
    → ((c : Mime) → (note c).mhdr_st ≡ c.mhdr_st)
    → Moves ok fail b r
    → rank ok (first_white b) < rank st (first_white b)
    → rank fail (first_white b) < rank st (first_white b)
    → measure (match_case note r).0.mhdr_st (match_case note r).1 < measure st b
unfolding match_case
match_case-measure note ok fail st b (c, rest, true) keeps (inl read) ho hf =
    measure_read _ st rest b read
match_case-measure note ok fail st b (c, rest, false) keeps (inl read) ho hf =
    measure_read _ st rest b read
match_case-measure note ok fail st b (c, rest, true) keeps (inr (e, inl (_, o))) ho hf =
    rw (keeps c, o, e) (omega (arith, ho))
match_case-measure note ok fail st b (c, rest, false) keeps (inr (e, inl (x, o))) ho hf =
    absurd (cc)
match_case-measure note ok fail st b (c, rest, true) keeps (inr (e, inr (x, f))) ho hf = absurd (cc)
match_case-measure note ok fail st b (c, rest, false) keeps (inr (e, inr (_, f))) ho hf =
    rw (f, e) (omega (arith, hf))

-- The first byte that is left behind white space or a parameter.
pub span_ws_moves :
    (c : ℕ) (b : Bytes)
    → let r = span_ws (c ∷ b) in
      (length r.0 < length (c ∷ b)) ⊎ ((r ≡ (c ∷ b, true)) × (is_white c ≡ false))
unfolding span_ws
span_ws_moves c [] = ground arith
span_ws_moves c (d ∷ b) = ground (arith, span_ws_moves d b)

pub skip_param_moves :
    (c : ℕ) (b : Bytes)
    → let r = skip_param (c ∷ b) in
      (length r.0 < length (c ∷ b)) ⊎ ((r ≡ (c ∷ b, true)) × (is_white c ≡ true))
unfolding skip_param
skip_param_moves c [] = ground arith
skip_param_moves c (d ∷ b) = ground (arith, skip_param_moves d b)

pub skip_case-measure :
    (ok st : MhdrSt) (c : Mime) (ch : ℕ) (b : Bytes) (r : Bytes × Bool)
    → (length r.0 < length (ch ∷ b))
      ⊎ ((r ≡ (ch ∷ b, true)) × (rank ok (is_white ch) < rank st (is_white ch)))
    → measure (skip_case ok c r).0.mhdr_st (skip_case ok c r).1 < measure st (ch ∷ b)
unfolding skip_case
skip_case-measure ok st c ch b (rest, true) (inl h) = measure_read _ st rest (ch ∷ b) h
skip_case-measure ok st c ch b (rest, false) (inl h) = measure_read _ st rest (ch ∷ b) h
skip_case-measure ok st c ch b r (inr (e, less)) = rw e (omega (arith, less))

pub ce_ct_case-measure :
    (ok : MhdrSt) (b : Bytes) (r : Parsed)
    → Moves ok mhdr_idle b r
    → (ce_ct_case r).2 ≡ false
    → measure (ce_ct_case r).0.mhdr_st (ce_ct_case r).1 < measure mhdr_ce_ct b
unfolding ce_ct_case
ce_ct_case-measure ok b (c, rest, false) (inl read) h = measure_read _ mhdr_ce_ct rest b read
ce_ct_case-measure ok b (c, [], true) moves h = absurd (cc)
ce_ct_case-measure ok b (c, ch ∷ bp, true) (inl read) h =
    ground (arith, measure_read _ mhdr_ce_ct (ch ∷ bp) b read)
ce_ct_case-measure ok b (c, rest, false) (inr (e, inl (x, _))) h = absurd (cc)
ce_ct_case-measure ok b (c, rest, false) (inr (e, inr (_, f))) h = rw (f, e) (omega arith)
ce_ct_case-measure ok b (c, ch ∷ bp, true) (inr (e, _)) h = rw (sym e) (ground arith)

pub span_ws_le : (b : Bytes) → length (span_ws b).0 ≤ length b
unfolding span_ws
span_ws_le [] = omega arith
span_ws_le (c ∷ b) = ground (arith, span_ws_le b)

ws_le :
    (ch : ℕ) (b : Bytes) (d : ℕ) (bp : Bytes) → (span_ws (ch ∷ b)).0 ≡ d ∷ bp → length bp ≤ length b
ws_le ch b d bp e = ground (arith, span_ws_le (ch ∷ b))

pub ce_ws_case-measure :
    (c : Mime) (b rest : Bytes)
    → length rest ≤ length b
    → (ce_ws_case c rest).2 ≡ false
    → measure (ce_ws_case c rest).0.mhdr_st (ce_ws_case c rest).1 < measure mhdr_ce_ws b
unfolding ce_ws_case
ce_ws_case-measure c b [] le h = absurd (cc)
ce_ws_case-measure c b (ch ∷ bp) le h = ground arith

pub ct_ws_case-measure :
    (in_hdrs : Bool) (c : Mime) (b rest : Bytes)
    → length rest ≤ length b
    → (ct_ws_case in_hdrs c rest).2 ≡ false
    → measure (ct_ws_case in_hdrs c rest).0.mhdr_st (ct_ws_case in_hdrs c rest).1
      < measure mhdr_ct_ws b
unfolding ct_ws_case
ct_ws_case-measure in_hdrs c b [] le h = absurd (cc)
ct_ws_case-measure in_hdrs c b (ch ∷ bp) le h = ground arith

pub bnd_value_loop_le : (c : Mime) (bp : Bytes) → length (bnd_value_loop c bp).1 ≤ length bp - 1
unfolding bnd_value_loop
bnd_value_loop_le c [] = omega arith
bnd_value_loop_le c (ch ∷ bp) =
    let put = record (put_bnd c.mhdr_pos ch c) { mhdr_pos = c.mhdr_pos + 1 } in
    ground (
      arith,
      bnd_value_loop_le c bp,
      bnd_value_loop_le (record c { quoted = not c.quoted }) bp,
      bnd_value_loop_le put bp,
    )

pub mh_match_le :
    (ok fail : MhdrSt) (tgt : Bytes) (c : Mime) (b : Bytes)
    → length (mh_match ok fail tgt c b).1 ≤ length b
unfolding mh_match mh_advance
mh_match_le ok fail tgt c b =
    ground (arith, length-drop (min (length tgt - c.mhdr_pos) (length b)) b)

pub match_case_le : (note : Mime → Mime) (r : Parsed) → (match_case note r).1 ≡ r.1
unfolding match_case
match_case_le note (c, b, true) = refl
match_case_le note (c, b, false) = refl

-- What is left of the input at a byte that is white space or not.
pub at_white :
    (Less : Bool → Type 0) {w b : Bool} {A : Type 0} {E : Type 0}
    → Less b
    → A ⊎ (E × (w ≡ b))
    → A ⊎ (E × Less w)
at_white Less less (inl a) = inl a
at_white Less less (inr (e, x)) = inr (e, subst Less (sym x) less)

pub begin_bnd-mhdr_st : (in_hdrs : Bool) (c : Mime) → (begin_bnd in_hdrs c).mhdr_st ≡ c.mhdr_st
unfolding begin_bnd put_bnd
begin_bnd-mhdr_st true c = refl
begin_bnd-mhdr_st false c = refl
