-- ===== src/Fuz1/Steps.antt =====
-- dcc/fuz1.go: the steps of the URL machine, and the host name in the buffer.
use gdcc.Base.{
  ◌⊎◌, ◌≤◌, ==_iff, Bool-cases, pick_by, ℕ, ◌+◌, ◌<◌, ◌≡◌, refl, sym, ap, inl, inr, Bool, true,
  false, subst, some, ◌==◌, if◌then◌else◌, arith,
}
use gdcc.Cref.{is_lower}
use gdcc.Fuz1.State.{
  UrlSt, url_idle, url_quote, url_qh, url_t1, url_t2, url_p, url_s, url_colon, url_slash1,
  url_slash2, url_slash3_start, url_slash3, url_skipping_url, UrlRes, url_res_fwd, url_res_ck_space,
  url_res_skip, CkUrl, Fuz1State, reset_doms_buf,
}
use gdcc.Fuz1.Url.{set_url, to_url, scheme_char, make_room, url_in, Stepped, ends_url}
use gdcc.Fuz1.Hosts.{at_index}
use gdcc.Fuz1.Labels.{Behind, HostRoom, Ready}
use gdcc.Fuz1.Characters.{host_char-Ready}

-- What holds between the step of the URL machine on a character and the character itself: a letter of
-- the scheme goes to the buffer next.
abbrev pub HostMid : ℕ → UrlSt → ℕ → ℕ → CkUrl → Type 0
HostMid c url_t1 k cp u = (is_lower c ≡ true) ⊎ Behind k cp
HostMid c url_t2 k cp u = (is_lower c ≡ true) ⊎ Behind k cp
HostMid c url_p k cp u = (is_lower c ≡ true) ⊎ Behind k cp
HostMid c url_s k cp u = (is_lower c ≡ true) ⊎ Behind k cp
HostMid c url_colon k cp u = (is_lower c ≡ true) ⊎ Behind k cp
HostMid c st k cp u = HostRoom st k cp u

pub record Mid (c : ℕ) (f : Fuz1State) : Type 0 where
  pub calm : f.panicked ≡ false
  pub cp_lt : f.cp < 317
  pub eol_le : at_index f.eol ≤ f.cp
  pub host : HostMid c f.url.st (at_index f.eol) f.cp f.url

pub Ready-Mid : (c : ℕ) (f : Fuz1State) → Ready f → Mid c f
Ready-Mid c f r = record {
  calm = r.calm;
  cp_lt = r.cp_lt;
  eol_le = r.eol_le;
  host = mid f.url.st (at_index f.eol) f.cp f.url r.host;
}
  where
    mid : (st : UrlSt) (k cp : ℕ) (u : CkUrl) → HostRoom st k cp u → HostMid c st k cp u
    mid url_t1 k cp u h = inr h
    mid url_t2 k cp u h = inr h
    mid url_p k cp u h = inr h
    mid url_s k cp u h = inr h
    mid url_colon k cp u h = inr h
    mid url_idle k cp u h = h
    mid url_quote k cp u h = h
    mid url_qh k cp u h = h
    mid url_slash1 k cp u h = h
    mid url_slash2 k cp u h = h
    mid url_slash3_start k cp u h = h
    mid url_slash3 k cp u h = h
    mid url_skipping_url k cp u h = h

-- The states in which a line end may not stand at the position.
abbrev pub is_inside : UrlSt → Bool
is_inside url_idle = false
is_inside url_quote = false
is_inside url_qh = false
is_inside url_skipping_url = false
is_inside _ = true

-- Room is made in the buffer before a host name only, and bytes are skipped behind one only.
abbrev SpaceAt : UrlRes → UrlSt → Type 0
SpaceAt url_res_ck_space st = st ≡ url_slash3_start
SpaceAt url_res_skip st = is_inside st ≡ false
SpaceAt url_res_fwd st = Unit

abbrev pub Fine : ℕ → Fuz1State × UrlRes → Type 0
Fine c r = Mid c r.0 × SpaceAt r.1 r.0.url.st

abbrev is_scheme : UrlSt → Bool
is_scheme url_slash2 = false
is_scheme url_slash3_start = false
is_scheme url_slash3 = false
is_scheme url_skipping_url = false
is_scheme _ = true

lower_of : (c x : ℕ) → is_lower x ≡ true → (c == x) ≡ true → is_lower c ≡ true
lower_of c x h e = subst (λ (c : ℕ). is_lower c ≡ true) (sym ((==_iff c x).0 e)) h

-- The states before a host name.
scheme_char-room :
    (st : UrlSt) (uc k cp : ℕ) (u : CkUrl)
    → u.st ≡ st
    → HostRoom st k cp u
    → is_scheme st ≡ true
    → HostMid uc (scheme_char st uc u).st k cp (scheme_char st uc u)
unfolding scheme_char
scheme_char-room url_quote uc k cp u e h n = elim (Bool-cases (uc == b'h')) [
  | inl letter ↦ rw letter (inl (lower_of uc b'h' refl letter))
  | inr other ↦ rw other (elim (Bool-cases (uc == b'"')) [
    | inl double ↦ rw double tt
    | inr plain ↦
        rw plain
          (elim (Bool-cases (uc == b'\'')) [ inl single ↦ rw single tt | inr bare ↦ rw bare tt ])
  ])
]
scheme_char-room url_qh uc k cp u e h n = elim (Bool-cases (uc == b'h')) [
  | inl letter ↦ rw letter (inl (lower_of uc b'h' refl letter))
  | inr other ↦ rw other tt
]
scheme_char-room url_t1 uc k cp u e h n = elim (Bool-cases (uc == b't')) [
  | inl letter ↦ rw letter (inl (lower_of uc b't' refl letter))
  | inr other ↦ rw other tt
]
scheme_char-room url_t2 uc k cp u e h n = elim (Bool-cases (uc == b't')) [
  | inl letter ↦ rw letter (inl (lower_of uc b't' refl letter))
  | inr other ↦ rw other tt
]
scheme_char-room url_p uc k cp u e h n = elim (Bool-cases (uc == b'p')) [
  | inl letter ↦ rw letter (inl (lower_of uc b'p' refl letter))
  | inr other ↦ rw other tt
]
scheme_char-room url_s uc k cp u e h n = elim (Bool-cases (uc == b's')) [
  | inl letter ↦ rw letter (inl (lower_of uc b's' refl letter))
  | inr other ↦
      rw other
        (elim (Bool-cases (uc == b':')) [ inl colon ↦ rw colon h | inr none_of ↦ rw none_of tt ])
]
scheme_char-room url_colon uc k cp u e h n = elim (Bool-cases (uc == b':')) [
  | inl colon ↦ rw colon h
  | inr other ↦ rw other tt
]
scheme_char-room url_slash1 uc k cp u e h n = elim (Bool-cases (uc == b'/')) [
  | inl slash ↦ rw slash h
  | inr other ↦ rw other tt
]
scheme_char-room url_idle uc k cp u e h n = elim (Bool-cases (uc == b'h')) [
  | inl letter ↦ rw letter (inl (lower_of uc b'h' refl letter))
  | inr other ↦ rw other (elim (Bool-cases (uc == b'=')) [
    | inl equals ↦ rw equals tt
    | inr plain ↦ rw plain (subst (λ (st : UrlSt). HostMid uc st k cp u) (sym e) tt)
  ])
]
scheme_char-room url_slash2 uc k cp u e h n = absurd (cc)
scheme_char-room url_slash3_start uc k cp u e h n = absurd (cc)
scheme_char-room url_slash3 uc k cp u e h n = absurd (cc)
scheme_char-room url_skipping_url uc k cp u e h n = absurd (cc)

scheme-Fine :
    (st : UrlSt) (uc : ℕ) (f : Fuz1State)
    → f.url.st ≡ st
    → is_scheme st ≡ true
    → Ready f
    → Fine uc (set_url (scheme_char st uc f.url) f, url_res_fwd)
scheme-Fine st uc f e n r = (
  record {
    calm = r.calm;
    cp_lt = r.cp_lt;
    eol_le = r.eol_le;
    host =
        scheme_char-room st uc (at_index f.eol) f.cp f.url e
          (subst (λ (st : UrlSt). HostRoom st (at_index f.eol) f.cp f.url) e r.host) n;
  },
  tt,
)

pub url_in-Fine :
    (st : UrlSt) (words uc : ℕ) (f : Fuz1State)
    → f.url.st ≡ st
    → Ready f
    → Fine uc (url_in st words uc f)
unfolding url_in reset_doms_buf
url_in-Fine url_slash2 words uc f e r =
    let h = subst (λ (st : UrlSt). HostRoom st (at_index f.eol) f.cp f.url) e r.host in
    pick_by (Fine uc) _
      (set_url (record (make_room words f.url) { st = url_slash3_start }) f, url_res_ck_space)
      (to_url url_idle f, url_res_fwd)
      (record { calm = r.calm; cp_lt = r.cp_lt; eol_le = r.eol_le; host = h }, refl)
      (record { calm = r.calm; cp_lt = r.cp_lt; eol_le = r.eol_le; host = tt }, tt)
url_in-Fine url_slash3_start words uc f e r =
    let u = record (reset_doms_buf (some f.cp) f.url) { st = url_slash3 } in
    let h = subst (λ (st : UrlSt). HostRoom st (at_index f.eol) f.cp f.url) e r.host in
    (
      Ready-Mid uc _ (
          host_char-Ready words uc (set_url u f) (
            (r.calm, r.cp_lt, r.eol_le),
            refl,
            record {
              s = f.cp;
              start = refl;
              start_le = omega arith;
              eol_lt = h;
              tld = inl refl;
              sld = inl refl;
            },
          )),
      tt,
    )
url_in-Fine url_slash3 words uc f e r =
    let h = subst (λ (st : UrlSt). HostRoom st (at_index f.eol) f.cp f.url) e r.host in
    (Ready-Mid uc _ (host_char-Ready words uc f ((r.calm, r.cp_lt, r.eol_le), e, h)), tt)
url_in-Fine url_skipping_url words uc f e r =
    let u = record f.url { url_total = f.url.url_total + 1 } in
    let k = at_index f.eol in
    let goes : HostMid uc (if ends_url uc u then record u { st = url_idle } else u).st k f.cp
        (if ends_url uc u then record u { st = url_idle } else u) =
      pick_by (λ (v : CkUrl). HostMid uc v.st k f.cp v) (ends_url uc u) (record u { st = url_idle })
        u tt (subst (λ (st : UrlSt). HostMid uc st k f.cp u) (sym e) tt) in
    (
      record { calm = r.calm; cp_lt = r.cp_lt; eol_le = r.eol_le; host = goes },
      pick_by (λ (v : CkUrl). is_inside v.st ≡ false) (ends_url uc u) (record u { st = url_idle }) u
          refl (ap is_inside e),
    )
url_in-Fine url_idle words uc f e r = scheme-Fine url_idle uc f e refl r
url_in-Fine url_quote words uc f e r = scheme-Fine url_quote uc f e refl r
url_in-Fine url_qh words uc f e r = scheme-Fine url_qh uc f e refl r
url_in-Fine url_t1 words uc f e r = scheme-Fine url_t1 uc f e refl r
url_in-Fine url_t2 words uc f e r = scheme-Fine url_t2 uc f e refl r
url_in-Fine url_p words uc f e r = scheme-Fine url_p uc f e refl r
url_in-Fine url_s words uc f e r = scheme-Fine url_s uc f e refl r
url_in-Fine url_colon words uc f e r = scheme-Fine url_colon uc f e refl r
url_in-Fine url_slash1 words uc f e r = scheme-Fine url_slash1 uc f e refl r

abbrev pub FineStep : ℕ → Stepped → Type 0
FineStep c (f, res, read) = Fine c (f, res)
