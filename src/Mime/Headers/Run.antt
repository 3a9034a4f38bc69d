-- ===== src/Mime/Headers/Run.antt =====
-- The loop of `parseMimeHdr`, round by round.
use gdcc.Base.{
  and_false, ℕ, suc, ◌+◌, ◌-◌, ◌<◌, ◌≡◌, refl, sym, ap, ◌∙◌, Bool, true, false, some, [], ◌∷◌, ◌++◌,
  Bytes, ◌==◌, ltb, leb, length, take, arith, map, length-append, take-length_append,
  drop-length_append, take-of_le,
}
use mathlib.Core.Option.{some-injective}
use native.Mathlib.Nat.{add_comm}
use Prim.Native.Nat.{min}
use gdcc.Header.{to_lower}
use gdcc.Mime.Context.{Mime, MhdrSt}
use gdcc.Mime.Headers.{eq_fold, mh_advance, mh_match, hdr_round, hdr_loop, hdr_fuel, hdr_run}
use gdcc.Mime.Headers.Loop.{hdr_loop-ends, hdr_round-measure}
use gdcc.Mime.Headers.Cases.{measure, rank_le}

-- With more rounds than the measure of its state and input, which is at most ten for a byte and
-- nine more, the loop of `parseMimeHdr` ends, and where it ends does not depend on the number.
pub hdr_loop-hdr_run :
    (fuel : ℕ) (in_hdrs : Bool) (c : Mime) (bp : Bytes)
    → measure c.mhdr_st bp < fuel
    → hdr_loop fuel in_hdrs c bp ≡ some (hdr_run in_hdrs c bp)
unfolding hdr_run
hdr_loop-hdr_run fuel i c bp h =
    let g = hdr_fuel bp in
    let (d, at_fuel, sum) = hdr_loop-ends fuel g i c bp h in
    let (e, at_g, sum') = hdr_loop-ends g fuel i c bp (omega (arith, rank_le)) in
    let same : e ≡ d =
      some-injective _ _ (sym sum' ∙ ap (λ (n : ℕ). hdr_loop n i c bp) (add_comm g fuel) ∙ sum) in
    rw at_g (at_fuel ∙ ap some (sym same))

pub hdr_run-nil : (in_hdrs : Bool) (c : Mime) → hdr_run in_hdrs c [] ≡ c
unfolding hdr_run hdr_loop
hdr_run-nil i c = refl

-- A round behind which the loop goes on, and one that is the last.
pub hdr_run-round :
    (in_hdrs : Bool) (c d : Mime) (ch : ℕ) (bp rest : Bytes)
    → hdr_round in_hdrs c.mhdr_st c (ch ∷ bp) ≡ (d, rest, false)
    → hdr_run in_hdrs c (ch ∷ bp) ≡ hdr_run in_hdrs d rest
unfolding hdr_loop
hdr_run-round i c d ch bp rest e =
    let less = hdr_round-measure i c.mhdr_st c ch bp (rw e refl) in
    let less' : measure d.mhdr_st rest < measure c.mhdr_st (ch ∷ bp) = rw e at less in
    let fuel = suc (measure c.mhdr_st (ch ∷ bp)) in
    some-injective _ _ (
      sym (hdr_loop-hdr_run fuel i c (ch ∷ bp) (omega arith))
      ∙ rw e (hdr_loop-hdr_run (measure c.mhdr_st (ch ∷ bp)) i d rest less'))

pub hdr_run-last :
    (in_hdrs : Bool) (c d : Mime) (ch : ℕ) (bp rest : Bytes)
    → hdr_round in_hdrs c.mhdr_st c (ch ∷ bp) ≡ (d, rest, true)
    → hdr_run in_hdrs c (ch ∷ bp) ≡ d
unfolding hdr_loop
hdr_run-last i c d ch bp rest e =
    let fuel = suc (measure c.mhdr_st (ch ∷ bp)) in
    some-injective _ _ (sym (hdr_loop-hdr_run fuel i c (ch ∷ bp) (omega arith)) ∙ rw e refl)

-- Bytes in lower case.
abbrev pub lower : Bytes → Bytes
lower s = map to_lower s

pub length-lower : (s t : Bytes) → lower s ≡ lower t → length s ≡ length t
length-lower [] [] h = refl
length-lower [] (y ∷ t) h = absurd (cc)
length-lower (x ∷ s) [] h = absurd (cc)
length-lower (x ∷ s) (y ∷ t) h = ap suc (length-lower s t (cc))

eq_fold-lower : (s t : Bytes) → lower s ≡ lower t → eq_fold s t ≡ true
eq_fold-lower [] t h = refl
eq_fold-lower (x ∷ s) [] h = absurd (cc)
eq_fold-lower (x ∷ s) (y ∷ t) h =
    let head : to_lower x ≡ to_lower y = cc in
    let same : (to_lower x == to_lower y) ≡ true = ground arith in rw same (eq_fold-lower s t (cc))

-- A target that stands at the front of the input, in any case, is matched.
pub mh_match-lower :
    (ok fail : MhdrSt) (tgt : Bytes) (c : Mime) (name rest : Bytes)
    → c.mhdr_pos ≡ 0
    → lower tgt ≡ lower name
    → mh_match ok fail tgt c (name ++ rest) ≡ (record c { mhdr_st = ok; mhdr_pos = 0 }, rest, true)
unfolding mh_match mh_advance
mh_match-lower ok fail tgt c name rest z h =
    let len = length-lower tgt name h in
    let n : min (length tgt - 0) (length (name ++ rest)) ≡ length tgt =
      omega (arith, length-append name rest, len) in
    let whole : take (length tgt) tgt ≡ tgt = take-of_le (length tgt) tgt (omega arith) in
    let front = take-length_append name rest (length tgt) (sym len) in
    let back = drop-length_append name rest (length tgt) (sym len) in
    let eq = eq_fold-lower tgt name h in
    let done : leb (length tgt) (0 + length tgt) ≡ true = ground arith in
    rw (z, n, whole, front, back, eq, and_false (ltb 0 (length tgt)), done) refl
