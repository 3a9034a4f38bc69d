-- ===== src/Fuz1/Letters.antt =====
-- dcc/fuz1.go: the letters, lines and room of the buffer between two steps of the URL machine.
use gdcc.Base.{
  subst, sym, true, ◌==◌, pick_by, ℕ, ◌+◌, ◌≤◌, ◌<◌, ◌≡◌, ◌⊎◌, refl, ap, ◌∙◌, inl, inr, false,
  Bool-cases, Option, some, none, ltb, leb, arith,
}
use gdcc.Cref.{set_at, is_lower}
use gdcc.Fuz1.State.{
  UrlSt, url_idle, url_quote, url_qh, url_t1, url_t2, url_p, url_s, url_colon, url_slash1,
  url_slash2, url_slash3_start, url_slash3, url_skipping_url, url_res_fwd, url_res_ck_space,
  url_res_skip, CkUrl, Fuz1State, add_sum,
}
use gdcc.Fuz1.Url.{to_url, Stepped}
use gdcc.Fuz1.{
  is_greeting, sum_line, space_round, ck_space, letter, keep_line, line_after, fuz1_char, after_url,
}
use gdcc.Fuz1.Labels.{Index, HostRoom, Ready, Ready-out, Behind}
use gdcc.Fuz1.Hosts.{at_index}
use gdcc.Fuz1.Steps.{FineStep, is_inside, HostMid, Mid, Ready-Mid}

-- A letter behind the position leaves a host name in the buffer.
room-up :
    (c : ℕ) (st : UrlSt) (k cp : ℕ) (u : CkUrl)
    → k ≤ cp
    → HostMid c st k cp u
    → HostRoom st k (cp + 1) u
room-up c url_slash3 k cp u le h = record {
  s = h.s;
  start = h.start;
  start_le = omega (arith, h.start_le);
  eol_lt = h.eol_lt;
  tld = up h.tld;
  sld = up h.sld;
}
  where
    up : {A : Type 0} {o : Option ℕ} → A ⊎ Index h.s cp o → A ⊎ Index h.s (cp + 1) o
    up (inl a) = inl a
    up (inr (i, e, lo, hi)) = inr (i, e, lo, omega arith)
room-up c url_idle k cp u le h = tt
room-up c url_quote k cp u le h = tt
room-up c url_qh k cp u le h = tt
room-up c url_t1 k cp u le h = inr (omega (arith, le))
room-up c url_t2 k cp u le h = inr (omega (arith, le))
room-up c url_p k cp u le h = inr (omega (arith, le))
room-up c url_s k cp u le h = inr (omega (arith, le))
room-up c url_colon k cp u le h = inr (omega (arith, le))
room-up c url_slash1 k cp u le h = inr (omega (arith, le))
room-up c url_slash2 k cp u le h = inr (omega (arith, le))
room-up c url_slash3_start k cp u le h = inr (omega (arith, le))
room-up c url_skipping_url k cp u le h = tt

-- Where the character is no letter, none is awaited.
Behind-of : (c k cp : ℕ) → is_lower c ≡ false → (is_lower c ≡ true) ⊎ Behind k cp → Behind k cp
Behind-of c k cp n (inl l) = (let x : true ≡ false = sym l ∙ n in absurd (cc))
Behind-of c k cp n (inr b) = b

room-settled :
    (c : ℕ) (st : UrlSt) (k cp : ℕ) (u : CkUrl)
    → is_lower c ≡ false
    → HostMid c st k cp u
    → HostRoom st k cp u
room-settled c url_t1 k cp u n h = Behind-of c k cp n h
room-settled c url_t2 k cp u n h = Behind-of c k cp n h
room-settled c url_p k cp u n h = Behind-of c k cp n h
room-settled c url_s k cp u n h = Behind-of c k cp n h
room-settled c url_colon k cp u n h = Behind-of c k cp n h
room-settled c url_idle k cp u n h = h
room-settled c url_quote k cp u n h = h
room-settled c url_qh k cp u n h = h
room-settled c url_slash1 k cp u n h = h
room-settled c url_slash2 k cp u n h = h
room-settled c url_slash3_start k cp u n h = h
room-settled c url_slash3 k cp u n h = h
room-settled c url_skipping_url k cp u n h = h

Mid-Ready : (c : ℕ) (f : Fuz1State) → is_lower c ≡ false → Mid c f → Ready f
Mid-Ready c f n m = record {
  calm = m.calm;
  cp_lt = m.cp_lt;
  eol_le = m.eol_le;
  host = room-settled c f.url.st (at_index f.eol) f.cp f.url n m.host;
}

-- What a sum leaves alone.
pub add_sum-rest :
    (f : Fuz1State) (n : ℕ) → ((add_sum f n).panicked ≡ f.panicked) × ((add_sum f n).url ≡ f.url)
unfolding add_sum
add_sum-rest f n = ground arith

summed-Ready : (f : Fuz1State) → f.panicked ≡ false → Ready (to_url url_idle (sum_line f))
unfolding sum_line
summed-Ready f p = record {
  calm = (add_sum-rest f f.cp).0 ∙ p;
  cp_lt = omega arith;
  eol_le = omega arith;
  host = tt;
}

letter-Ready : (c : ℕ) (f : Fuz1State) → Mid c f → Ready (letter c f)
unfolding letter
letter-Ready c f r =
    let g = record f { buf = set_at f.buf f.cp c; cp = f.cp + 1 } in
    let room : leb 317 f.cp ≡ false = ground (arith, r.cp_lt) in
    rw room (elim (Bool-cases (ltb (f.cp + 1) 317)) [
      | inl less ↦ rw less (record {
        calm = r.calm;
        cp_lt = ground (arith, less);
        eol_le = omega (arith, r.eol_le);
        host = room-up c f.url.st (at_index f.eol) f.cp f.url r.eol_le r.host;
      })
      | inr full ↦ rw full (summed-Ready g r.calm)
    ])

-- Outside a URL a line may end.
room-out : (st : UrlSt) (k cp : ℕ) (u : CkUrl) → is_inside st ≡ false → HostRoom st k cp u
room-out url_idle k cp u h = tt
room-out url_quote k cp u h = tt
room-out url_qh k cp u h = tt
room-out url_skipping_url k cp u h = tt
room-out url_t1 k cp u h = absurd (cc)
room-out url_t2 k cp u h = absurd (cc)
room-out url_p k cp u h = absurd (cc)
room-out url_s k cp u h = absurd (cc)
room-out url_colon k cp u h = absurd (cc)
room-out url_slash1 k cp u h = absurd (cc)
room-out url_slash2 k cp u h = absurd (cc)
room-out url_slash3_start k cp u h = absurd (cc)
room-out url_slash3 k cp u h = absurd (cc)

abbrev pub Out : Fuz1State → Type 0
Out f = is_inside f.url.st ≡ false

keep_line-Ready : (f : Fuz1State) → Out f → Ready f → Ready (keep_line f)
unfolding keep_line
keep_line-Ready f out r =
    let marked : Ready (record f { eol = some f.cp }) = record {
      calm = r.calm;
      cp_lt = r.cp_lt;
      eol_le = omega arith;
      host = room-out f.url.st f.cp f.cp f.url out;
    } in
    pick_by Ready _ _ _ (summed-Ready f r.calm) marked

line_after-Ready :
    (o : Option ℕ) (f : Fuz1State) → f.eol ≡ o → Out f → Ready f → Ready (line_after o f)
unfolding line_after
line_after-Ready none f e out r = keep_line-Ready f out r
line_after-Ready (some eol) f e out r = elim (Bool-cases (is_greeting eol f)) [
  | inl greeting ↦
      let less : eol < f.cp = unfold is_greeting in ground (arith, greeting) in
      let last : at_index f.eol ≡ eol = ap at_index e in
      rw greeting (record {
        calm = r.calm;
        cp_lt = omega (arith, less, r.cp_lt);
        eol_le = omega (arith, last);
        host = tt;
      })
  | inr plain ↦ rw plain (keep_line-Ready f out r)
]

pub fuz1_char-Ready :
    (c : ℕ) (f : Fuz1State) → ((c == b'\n') ≡ true → Out f) → Mid c f → Ready (fuz1_char c f)
unfolding fuz1_char
fuz1_char-Ready c f out m = elim (Bool-cases (is_lower c)) [
  | inl lower ↦ rw lower (letter-Ready c f m)
  | inr other ↦
      let r = Mid-Ready c f other m in
      rw other (elim (Bool-cases (c == b'\n')) [
        | inl ends ↦ rw ends (line_after-Ready f.eol f refl (out ends) r)
        | inr goes ↦ rw goes r
      ])
]

space_round-rest :
    (o : Option ℕ) (f : Fuz1State)
    → at_index o ≤ f.cp
    → ((space_round o f).panicked ≡ f.panicked)
      × ((space_round o f).url ≡ f.url)
      × ((space_round o f).cp ≤ f.cp)
      × (at_index (space_round o f).eol ≡ 0)
unfolding space_round sum_line
space_round-rest none f l = ((add_sum-rest f f.cp).0, (add_sum-rest f f.cp).1, omega arith, refl)
space_round-rest (some eol) f l =
    let room : ltb f.cp eol ≡ false = ground (arith, l) in
    rw room ((add_sum-rest f eol).0, (add_sum-rest f eol).1, omega arith, refl)

-- Room is made before a host name.
space_round-Ready :
    (o : Option ℕ) (f : Fuz1State)
    → at_index o ≤ f.cp
    → f.url.st ≡ url_slash3_start
    → Ready f
    → Ready (space_round o f) × ((space_round o f).url.st ≡ url_slash3_start)
space_round-Ready o f l e r =
    let (p, u, c, n) = space_round-rest o f l in
    let st : (space_round o f).url.st ≡ url_slash3_start = ap (λ (u : CkUrl). u.st) u ∙ e in
    (
      Ready-out url_slash3_start (space_round o f) st (inl n) (p ∙ r.calm)
          (omega (arith, c, r.cp_lt)) (omega (arith, n)),
      st,
    )

abbrev Before : Fuz1State → Type 0
Before f = Ready f × (f.url.st ≡ url_slash3_start)

ck_space-Before : (f : Fuz1State) → Before f → Before (ck_space f)
unfolding ck_space
ck_space-Before f (r, e) =
    let one = space_round f.eol f in
    let (r1, e1) = space_round-Ready f.eol f r.eol_le e r in
    pick_by Before _ _ _
      (pick_by Before _ _ _ (space_round-Ready one.eol one r1.eol_le e1 r1) (r1, e1)) (r, e)

slash3_start-Ready : (c : ℕ) (f : Fuz1State) → f.url.st ≡ url_slash3_start → Mid c f → Ready f
slash3_start-Ready c f e m =
    Ready-out url_slash3_start f e
      (subst (λ (st : UrlSt). HostMid c st (at_index f.eol) f.cp f.url) e m.host) m.calm m.cp_lt
      m.eol_le

pub after_url-Ready :
    (c : ℕ) (t : Stepped) → ((c == b'\n') ≡ true → Out t.0) → FineStep c t → Ready (after_url c t).0
unfolding after_url
after_url-Ready c (f, url_res_fwd, read) out (m, _) = fuz1_char-Ready c f out m
after_url-Ready c (f, url_res_ck_space, read) out (m, e) =
    let (s, st) = ck_space-Before f (slash3_start-Ready c f e m, e) in
    fuz1_char-Ready c (ck_space f)
      (λ n. (let x : true ≡ false = sym (ap is_inside e) ∙ out n in absurd (cc)))
      (Ready-Mid c (ck_space f) s)
after_url-Ready c (f, url_res_skip, read) out (m, o) = record {
  calm = m.calm;
  cp_lt = m.cp_lt;
  eol_le = m.eol_le;
  host = room-out f.url.st (at_index f.eol) f.cp f.url o;
}
