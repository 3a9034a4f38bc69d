-- ===== src/Fuz1/Safe.antt =====
-- dcc/fuz1.go: the rounds of fuz1 on a body without character references, and its panics.
use gdcc.Base.{
  ◌&&◌, List, subst, sym, true, not, ◌||◌, ◌==◌, ==_iff, All, if◌then◌else◌, pick_by, ℕ, zero, suc,
  ◌+◌, ◌*◌, ◌≡◌, refl, ap, ◌∙◌, inl, inr, Bool, false, Bool-cases, Option, some, none, [], ◌∷◌,
  Bytes, length, arith,
}
use gdcc.Header.{to_lower}
use gdcc.Cref.{Cref, is_idle}
use gdcc.Fuz1.State.{
  UrlSt, url_idle, url_quote, url_qh, url_t1, url_t2, url_p, url_s, url_colon, url_slash1,
  url_slash2, url_slash3_start, url_slash3, url_skipping_url, CkUrl, Fuz1State, reset_doms_buf,
  is_url_idle, is_quoted, new_fuz1_state,
}
use gdcc.Fuz1.Url.{
  set_url, to_url, at_char_of, end_host, host_char, url_in, scheme_char, ends_url, ck_url_step,
}
use gdcc.Fuz1.{ends_here, sum_line, fuz1_char, after_url, fuz1_round, fuz1_end, fuz1_loop, fuz1}
use gdcc.Fuz1.Labels.{HostRoom, Ready}
use gdcc.Fuz1.Hosts.{at_index}
use gdcc.Fuz1.Decoder.{url_in-In, after_url-In, fuz1_char-In}
use gdcc.Fuz1.Steps.{url_in-Fine, is_inside, Ready-Mid}
use gdcc.Fuz1.Letters.{add_sum-rest, Out, fuz1_char-Ready, after_url-Ready}

-- A newline ends a host name.
end_host-Out : (words : ℕ) (skip : Bool) (f : Fuz1State) → Out (end_host words skip f)
unfolding end_host
end_host-Out words true f = refl
end_host-Out words false f = refl

host_char-newline : (words : ℕ) (f : Fuz1State) → Out (host_char words b'\n' f)
unfolding host_char
host_char-newline words f =
    let g = set_url (record f.url { url_total = f.url.url_total + 1 }) f in
    pick_by Out _ (to_url url_idle g) (end_host words (is_quoted g.url.flags) g) refl
      (end_host-Out words (is_quoted g.url.flags) g)

url_in-newline :
    (st : UrlSt) (words : ℕ) (f : Fuz1State) → f.url.st ≡ st → Out (url_in st words b'\n' f).0
unfolding url_in scheme_char
url_in-newline url_slash2 words f e = refl
url_in-newline url_slash3_start words f e =
    host_char-newline words
      (set_url (record (reset_doms_buf (some f.cp) f.url) { st = url_slash3 }) f)
url_in-newline url_slash3 words f e = host_char-newline words f
url_in-newline url_skipping_url words f e = unfold ends_url in ground arith
url_in-newline url_idle words f e = ap is_inside e
url_in-newline url_quote words f e = refl
url_in-newline url_qh words f e = refl
url_in-newline url_t1 words f e = refl
url_in-newline url_t2 words f e = refl
url_in-newline url_p words f e = refl
url_in-newline url_s words f e = refl
url_in-newline url_colon words f e = refl
url_in-newline url_slash1 words f e = refl

idle-Out : (st : UrlSt) → is_url_idle st ≡ true → is_inside st ≡ false
idle-Out url_idle h = refl
idle-Out url_quote h = absurd (cc)
idle-Out url_qh h = absurd (cc)
idle-Out url_t1 h = absurd (cc)
idle-Out url_t2 h = absurd (cc)
idle-Out url_p h = absurd (cc)
idle-Out url_s h = absurd (cc)
idle-Out url_colon h = absurd (cc)
idle-Out url_slash1 h = absurd (cc)
idle-Out url_slash2 h = absurd (cc)
idle-Out url_slash3_start h = absurd (cc)
idle-Out url_slash3 h = absurd (cc)
idle-Out url_skipping_url h = absurd (cc)

-- No character reference is being read.
abbrev pub Unreferenced : Fuz1State → Type 0
Unreferenced f = is_idle f.url.cref.st ≡ true

abbrev pub NotAmp : ℕ → Type 0
NotAmp b = (b == b'&') ≡ false

to_lower-NotAmp : (b : ℕ) → NotAmp b → NotAmp (to_lower b)
unfolding to_lower
to_lower-NotAmp b h = ground (arith, h)

-- A round on a byte that begins no reference.
fuz1_round-Ready :
    (words b : ℕ) (f : Fuz1State)
    → NotAmp b
    → Unreferenced f
    → Ready f
    → Ready (fuz1_round words b f).0 × Unreferenced (fuz1_round words b f).0
unfolding fuz1_round ck_url_step
fuz1_round-Ready words b f h k r =
    let c = to_lower b in
    let amp : (c == b'&') ≡ false = to_lower-NotAmp b h in
    let t = at_char_of f.url.st words true c f in
    let newline : (c == b'\n') ≡ true → Out t.0 = λ n.
      subst (λ (c : ℕ). Out (url_in f.url.st words c f).0) (sym ((==_iff c b'\n').0 n))
        (url_in-newline f.url.st words f refl) in
    let fine = url_in-Fine f.url.st words c f refl r in
    let idle = is_url_idle f.url.st in
    let kept : (after_url c t).0.url.cref ≡ f.url.cref =
      after_url-In f.url.cref c t (url_in-In f.url.cref f.url.st words c f refl) in
    let kept_plain : (fuz1_char c f).url.cref ≡ f.url.cref = fuz1_char-In f.url.cref c f refl in
    let same : Fuz1State → Type 0 = λ (g : Fuz1State). is_idle g.url.cref.st ≡ true in
    rw (amp, k)
      (elim (Bool-cases (c == b'h' || c == b'=' || not idle)) [
        | inl stepped ↦ rw stepped (
          after_url-Ready c t newline fine,
          subst (λ (k : Cref). is_idle k.st ≡ true) (sym kept) k,
        )
        | inr plain ↦ rw plain (
          fuz1_char-Ready c f (λ _. idle-Out f.url.st (ground (arith, plain))) (Ready-Mid c f r),
          subst (λ (k : Cref). is_idle k.st ≡ true) (sym kept_plain) k,
        )
      ])

-- Where the line end is at the position, no host name is read, or at its start.
room-ended :
    (st : UrlSt) (k cp : ℕ) (u : CkUrl)
    → (cp == 0) ≡ false
    → k ≡ cp
    → HostRoom st k cp u
    → HostRoom st 0 0 u
room-ended url_slash3 k cp u n e h = elim h.eol_lt [
  | inl z ↦ absurd (ground (arith, n, e, z))
  | inr less ↦ absurd (omega (arith, less, e, h.start_le))
]
room-ended url_idle k cp u n e h = tt
room-ended url_quote k cp u n e h = tt
room-ended url_qh k cp u n e h = tt
room-ended url_t1 k cp u n e h = inl refl
room-ended url_t2 k cp u n e h = inl refl
room-ended url_p k cp u n e h = inl refl
room-ended url_s k cp u n e h = inl refl
room-ended url_colon k cp u n e h = inl refl
room-ended url_slash1 k cp u n e h = inl refl
room-ended url_slash2 k cp u n e h = inl refl
room-ended url_slash3_start k cp u n e h = inl refl
room-ended url_skipping_url k cp u n e h = tt

ends_here-at_index : (o : Option ℕ) (cp : ℕ) → ends_here o cp ≡ true → at_index o ≡ cp
ends_here-at_index none cp h = absurd (cc)
ends_here-at_index (some eol) cp h = (==_iff eol cp).0 h

-- What holds of a state between two chunks.
pub record Between (f : Fuz1State) : Type 0 where
  pub unreferenced : Unreferenced f
  pub ready : Ready f

and_left : (x y : Bool) → (not x && y) ≡ true → x ≡ false
and_left true y h = absurd (cc)
and_left false y h = refl

and_right : (x y : Bool) → (x && y) ≡ true → y ≡ true
and_right true y h = h
and_right false y h = absurd (cc)

sum_line-Between :
    (f : Fuz1State)
    → (f.cp == 0) ≡ false
    → ends_here f.eol f.cp ≡ true
    → Between f
    → Between (sum_line f)
unfolding sum_line
sum_line-Between f some_bytes whole b =
    let (p, u) = add_sum-rest f f.cp in
    record {
      unreferenced = subst (λ (u : CkUrl). is_idle u.cref.st ≡ true) (sym u) b.unreferenced;
      ready = record {
        calm = p ∙ b.ready.calm;
        cp_lt = omega arith;
        eol_le = omega arith;
        host =
            subst (λ (u : CkUrl). HostRoom u.st 0 0 u) (sym u)
              (room-ended f.url.st (at_index f.eol) f.cp f.url some_bytes
                (ends_here-at_index f.eol f.cp whole) b.ready.host);
      };
    }

fuz1_end-Between : (f : Fuz1State) → Between f → Between (fuz1_end f)
unfolding fuz1_end
fuz1_end-Between f b = ended (not (f.cp == 0) && ends_here f.eol f.cp) refl
  where
    ended :
        (t : Bool)
        → (not (f.cp == 0) && ends_here f.eol f.cp) ≡ t
        → Between (if t then sum_line f else f)
    ended false e = b
    ended true e =
        sum_line-Between f (and_left (f.cp == 0) (ends_here f.eol f.cp) e)
          (and_right (not (f.cp == 0)) (ends_here f.eol f.cp) e) b

fuz1_loop-Between :
    (fuel words : ℕ) (f : Fuz1State) (bp : Bytes)
    → All NotAmp bp
    → Between f
    → Between (fuz1_loop fuel words f bp)
unfolding fuz1_loop
fuz1_loop-Between zero words f bp h b = b
fuz1_loop-Between (suc fuel) words f [] h b = fuz1_end-Between f b
fuz1_loop-Between (suc fuel) words f (c ∷ cs) h b =
    let (next, kept) = fuz1_round-Ready words c f h.0 b.unreferenced b.ready in
    fuz1_loop-Between fuel words (fuz1_round words c f).0 _
      (pick_by (All NotAmp) (fuz1_round words c f).1 cs (c ∷ cs) h.1 h)
      (record { unreferenced = kept; ready = next })

-- The calls of `fuz1` on the chunks of a body, each with the count of words at that time.
unfoldable pub fuz1_chunks : Fuz1State → List (ℕ × Bytes) → Fuz1State
fuz1_chunks f [] = f
fuz1_chunks f ((words, bp) ∷ chunks) = fuz1_chunks (fuz1 words f bp) chunks

fuz1_chunks-Between :
    (f : Fuz1State) (chunks : List (ℕ × Bytes))
    → All (λ (p : ℕ × Bytes). All NotAmp p.1) chunks
    → Between f
    → Between (fuz1_chunks f chunks)
unfolding fuz1_chunks fuz1
fuz1_chunks-Between f [] h b = b
fuz1_chunks-Between f ((words, bp) ∷ chunks) h b =
    fuz1_chunks-Between (fuz1 words f bp) chunks h.1
      (fuz1_loop-Between (length bp * 2 + 2) words f bp h.0 b)

new_fuz1_state-Between : Between new_fuz1_state
new_fuz1_state-Between = record {
  unreferenced = refl;
  ready = record { calm = refl; cp_lt = omega arith; eol_le = omega arith; host = tt };
}

-- On a body without '&', in chunks of any kind and with any counts of words, `fuz1` does not panic at
-- its buffer: no slice of it ends before it begins or behind the buffer, and no index is -1.
pub fuz1-calm :
    (chunks : List (ℕ × Bytes))
    → All (λ (p : ℕ × Bytes). All NotAmp p.1) chunks
    → (fuz1_chunks new_fuz1_state chunks).panicked ≡ false
fuz1-calm chunks h = (fuz1_chunks-Between new_fuz1_state chunks h new_fuz1_state-Between).ready.calm
