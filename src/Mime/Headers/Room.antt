-- ===== src/Mime/Headers/Room.antt =====
-- dcc/mime.go: the cases of parseMimeHdr that store the text of a boundary, and the array that it has.
use gdcc.Base.{
  ℕ, zero, suc, ◌+◌, ◌-◌, ◌*◌, ◌≤◌, ◌<◌, ◌≡◌, refl, sym, ap, subst, ◌∙◌, inl, inr, Bool, true,
  false, not, List, [], ◌∷◌, Bytes, leb, length, arith, Bool-cases, All,
}
use gdcc.Cref.Steps.{length-set_at}
use gdcc.Mime.Context.{
  Mime, Bnd, MhdrSt, mhdr_cset_isox, mhdr_multipart, mhdr_bnd_skip_param, mhdr_bnd_span_ws,
  mhdr_bnd, mhdr_bnd_value, bnd_at, set_bnd, ck_bnd_max,
}
use gdcc.Mime.Headers.{skip_case, isox_loop, put_bnd, end_bnd, bnd_value_loop}

-- The containers at most: the headers of a message name one.
abbrev pub limit : Bool → ℕ
limit true = 1
limit false = 3

-- What the states that read a boundary need: a free entry of `mimeBnd`.
abbrev pub NestRoom : MhdrSt → ℕ → ℕ → Type 0
NestRoom mhdr_bnd_value limit nest = nest < limit
NestRoom mhdr_multipart limit nest = nest < 3
NestRoom mhdr_bnd_skip_param limit nest = nest < 3
NestRoom mhdr_bnd_span_ws limit nest = nest < 3
NestRoom mhdr_bnd limit nest = nest < 3
NestRoom _ limit nest = Unit

-- The state `mhdr_bnd_value` writes at the position.
abbrev pub PosRoom : MhdrSt → ℕ → Type 0
PosRoom mhdr_bnd_value pos = pos < 94
PosRoom _ pos = Unit

abbrev pub IsBnd : Bnd → Type 0
IsBnd b = (length b.bnd ≡ 96) × (b.bnd_len ≤ 94)

pub record Sound (in_hdrs : Bool) (c : Mime) : Type 0 where
  pub nest_le : c.mime_nest ≤ limit in_hdrs
  pub nest_room : NestRoom c.mhdr_st (limit in_hdrs) c.mime_nest
  pub pos_room : PosRoom c.mhdr_st c.mhdr_pos
  pub three : length c.mime_bnd ≡ 3
  pub bnds : All IsBnd c.mime_bnd

length-set_bnd : (bs : List Bnd) (i : ℕ) (x : Bnd) → length (set_bnd bs i x) ≡ length bs
length-set_bnd [] i x = refl
length-set_bnd (b ∷ bs) zero x = refl
length-set_bnd (b ∷ bs) (suc i) x = ap suc (length-set_bnd bs i x)

set_bnd-IsBnd :
    (bs : List Bnd) (i : ℕ) (x : Bnd) → All IsBnd bs → IsBnd x → All IsBnd (set_bnd bs i x)
set_bnd-IsBnd [] i x h hx = tt
set_bnd-IsBnd (b ∷ bs) zero x h hx = (hx, h.1)
set_bnd-IsBnd (b ∷ bs) (suc i) x h hx = (h.0, set_bnd-IsBnd bs i x h.1 hx)

pub bnd_at-IsBnd : (bs : List Bnd) (i : ℕ) → All IsBnd bs → IsBnd (bnd_at bs i)
bnd_at-IsBnd [] i h = (refl, omega arith)
bnd_at-IsBnd (b ∷ bs) zero h = h.0
bnd_at-IsBnd (b ∷ bs) (suc i) h = bnd_at-IsBnd bs i h.1

pub put_bnd-Sound :
    (in_hdrs : Bool) (i ch : ℕ) (c : Mime) → Sound in_hdrs c → Sound in_hdrs (put_bnd i ch c)
unfolding put_bnd
put_bnd-Sound in_hdrs i ch c s =
    let b = bnd_at c.mime_bnd c.mime_nest in
    let (l, m) = bnd_at-IsBnd c.mime_bnd c.mime_nest s.bnds in
    record {
      nest_le = s.nest_le;
      nest_room = s.nest_room;
      pos_room = s.pos_room;
      three = length-set_bnd c.mime_bnd c.mime_nest _ ∙ s.three;
      bnds = set_bnd-IsBnd c.mime_bnd c.mime_nest _ s.bnds (length-set_at b.bnd i ch ∙ l, m);
    }

end_bnd-Sound :
    (in_hdrs : Bool) (c : Mime)
    → c.mhdr_st ≡ mhdr_bnd_value
    → Sound in_hdrs c
    → Sound in_hdrs (end_bnd c)
unfolding end_bnd
end_bnd-Sound i c e s =
    let (l, m) = bnd_at-IsBnd c.mime_bnd c.mime_nest s.bnds in
    let pos : c.mhdr_pos < 94 = subst (λ (st : MhdrSt). PosRoom st c.mhdr_pos) e s.pos_room in
    let nest : c.mime_nest < limit i =
      subst (λ (st : MhdrSt). NestRoom st (limit i) c.mime_nest) e s.nest_room in
    record {
      nest_le = omega (arith, nest);
      nest_room = tt;
      pos_room = tt;
      three = length-set_bnd c.mime_bnd c.mime_nest _ ∙ s.three;
      bnds = set_bnd-IsBnd c.mime_bnd c.mime_nest _ s.bnds (l, omega (arith, pos));
    }

pub bnd_value_loop-Sound :
    (i : Bool) (c : Mime) (bp : Bytes)
    → c.mhdr_st ≡ mhdr_bnd_value
    → Sound i c
    → Sound i (bnd_value_loop c bp).0
unfolding bnd_value_loop
bnd_value_loop-Sound i c [] e s = s
bnd_value_loop-Sound i c (ch ∷ bp) e s =
    let q = put_bnd c.mhdr_pos ch c in
    let put = record q { mhdr_pos = c.mhdr_pos + 1 } in
    let at_put : q.mhdr_st ≡ mhdr_bnd_value = unfold put_bnd in e in
    let p = put_bnd-Sound i c.mhdr_pos ch c s in
    let ended = end_bnd-Sound i c e s in
    let ignore = bnd_value_loop-Sound i c bp e s in
    let quote =
      bnd_value_loop-Sound i (record c { quoted = not c.quoted }) bp e (ground (arith, s)) in
    elim (Bool-cases (leb ck_bnd_max put.mhdr_pos)) [
      | inl full ↦ rw full (ground (arith, p, ended, ignore, quote))
      | inr room ↦
          let less : c.mhdr_pos + 1 < 94 = ground arith in
          let more = bnd_value_loop-Sound i put bp at_put (written q at_put p less) in
          rw room (ground (arith, ended, ignore, quote, more))
    ]
  where
    written :
        (q : Mime)
        → q.mhdr_st ≡ mhdr_bnd_value
        → Sound i q
        → c.mhdr_pos + 1 < 94
        → Sound i (record q { mhdr_pos = c.mhdr_pos + 1 })
    written q e p less = record {
      nest_le = p.nest_le;
      nest_room = p.nest_room;
      pos_room = subst (λ (st : MhdrSt). PosRoom st (c.mhdr_pos + 1)) (sym e) less;
      three = p.three;
      bnds = p.bnds;
    }

pub skip_case-Sound :
    (i : Bool) (st : MhdrSt) (c : Mime) (r : Bytes × Bool)
    → Sound i c
    → NestRoom st (limit i) c.mime_nest
    → PosRoom st c.mhdr_pos
    → Sound i (skip_case st c r).0
unfolding skip_case
skip_case-Sound i st c (bp, true) s n p = ground (arith, s)
skip_case-Sound i st c (bp, false) s n p = s

pub isox_loop-Sound :
    (i : Bool) (c : Mime) (bp : Bytes)
    → c.mhdr_st ≡ mhdr_cset_isox
    → Sound i c
    → Sound i (isox_loop c bp).0
unfolding isox_loop
isox_loop-Sound i c [] e s = s
isox_loop-Sound i c (ch ∷ bp) e s =
    let next = record c { mhdr_pos = c.mhdr_pos * 10 + (ch - b'0') } in
    let more = isox_loop-Sound i next bp e (ground (arith, s, e)) in ground (arith, s, e, more)
