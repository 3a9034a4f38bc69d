-- ===== src/Fuz1/Labels.antt =====
-- dcc/fuz1.go: the labels of a host name in the buffer.
use gdcc.Base.{
  pick_by, ℕ, ◌+◌, ◌-◌, ◌≤◌, ◌<◌, ◌≡◌, ◌⊎◌, refl, sym, ◌∙◌, inl, inr, Bool, true, false, not, ◌||◌,
  Bool-cases, subst, Option, some, none, Bytes, ◌==◌, ltb, leb, if◌then◌else◌, arith,
}
use mathlib.Core.Option.{some-injective}
use gdcc.Cref.{set_at}
use gdcc.Fuz1.State.{
  UrlSt, url_idle, url_quote, url_qh, url_skipping_url, url_slash3, CkUrl, Fuz1State, url_host_save,
  limit_host,
}
use gdcc.Fuz1.Puny.{punyencode, puny_store, utf8_loop, encoded}
use gdcc.Fuz1.Hosts.{at_index}
use gdcc.Fuz1.Url.{
  set_url, move_host, drop_labels, end_name, keep_host, cut_punct, url_host_end, end_host,
  save_char,
}

-- An index between the start of a URL and the position.
abbrev pub Index : ℕ → ℕ → Option ℕ → Type 0
Index s cp o = (i : ℕ) × (o ≡ some i) × (s ≤ i) × (i ≤ cp)

-- There is no line end, or it stands before the position.
abbrev pub Behind : ℕ → ℕ → Type 0
Behind k cp = (k ≡ 0) ⊎ (k < cp)

pub Behind-le : (k cp : ℕ) → Behind k cp → k ≤ cp
Behind-le k cp (inl z) = omega (arith, z)
Behind-le k cp (inr l) = omega (arith, l)

-- A host name that is read: its labels stand between its start and the position in the buffer, and
-- the line end `k` before them.
pub record Host (k cp : ℕ) (u : CkUrl) : Type 0 where
  pub s : ℕ
  pub start : u.start ≡ some s
  pub start_le : s ≤ cp
  pub eol_lt : Behind k s
  pub tld : (u.dot1 ≡ 0) ⊎ Index s cp u.tld
  pub sld : (u.dot2 ≡ 0) ⊎ Index s cp u.sld

abbrev pub HostRoom : UrlSt → ℕ → ℕ → CkUrl → Type 0
HostRoom url_idle k cp u = Unit
HostRoom url_quote k cp u = Unit
HostRoom url_qh k cp u = Unit
HostRoom url_skipping_url k cp u = Unit
HostRoom url_slash3 k cp u = Host k cp u
HostRoom _ k cp u = Behind k cp

-- Nothing has panicked, there is room for a letter, the last line end is not behind the position, and
-- a host name stands in the buffer behind it.
pub record Ready (f : Fuz1State) : Type 0 where
  pub calm : f.panicked ≡ false
  pub cp_lt : f.cp < 317
  pub eol_le : at_index f.eol ≤ f.cp
  pub host : HostRoom f.url.st (at_index f.eol) f.cp f.url

-- A state outside host names needs no more than room for a letter.
pub Ready-out :
    (st : UrlSt) (f : Fuz1State)
    → f.url.st ≡ st
    → HostRoom st (at_index f.eol) f.cp f.url
    → f.panicked ≡ false
    → f.cp < 317
    → at_index f.eol ≤ f.cp
    → Ready f
Ready-out st f e h p c l = record {
  calm = p;
  cp_lt = c;
  eol_le = l;
  host = subst (λ (st : UrlSt). HostRoom st (at_index f.eol) f.cp f.url) (sym e) h;
}

-- What the names of hosts leave alone in a URL.
record Same (u v : CkUrl) : Type 0 where
  start : v.start ≡ u.start
  tld : v.tld ≡ u.tld
  sld : v.sld ≡ u.sld
  dot1 : v.dot1 ≡ u.dot1
  dot2 : v.dot2 ≡ u.dot2
  st : v.st ≡ u.st

punyencode-Same : (u : CkUrl) → Same u (punyencode u)
unfolding punyencode
punyencode-Same u =
    let v = record u { flags = record u.flags { idn = false } } in
    let r = stored v (encoded (utf8_loop 63 v v.label_start)) in
    record { start = r.start; tld = r.tld; sld = r.sld; dot1 = r.dot1; dot2 = r.dot2; st = r.st }
  where
    stored : (v : CkUrl) (o : Option Bytes) → Same v (puny_store v o)
    stored v none = unfold puny_store in ground arith
    stored v (some p) = unfold puny_store in ground arith

end_name-Same : (u : CkUrl) → Same u (end_name u)
unfolding end_name
end_name-Same u = ground (arith, punyencode-Same u)

abbrev pub Calm : Fuz1State → Type 0
Calm f = (f.panicked ≡ false) × (f.cp < 317) × (at_index f.eol ≤ f.cp)

-- The labels that go were in the buffer.
drop_labels-Calm :
    (o start sld : Option ℕ) (s : ℕ) (f : Fuz1State)
    → Calm f
    → at_index o ≤ s
    → at_index f.eol ≤ s
    → start ≡ some s
    → s ≤ f.cp
    → Index s f.cp sld
    → Calm (drop_labels o start sld f)
unfolding drop_labels
drop_labels-Calm none (some start) sld s f (p, c, l) before before' e le (i, ei, lo, hi) =
    let same : start ≡ s = some-injective _ _ e in
    (p, omega (arith, same, le, c), omega (arith, same, before'))
drop_labels-Calm (some eol) (some start) (some sld) s f (p, c, l) before before' e le
      (i, ei, lo, hi) =
    unfold move_host in
    let same : start ≡ s = some-injective _ _ e in
    let second : sld ≡ i = some-injective _ _ ei in
    let fits : (ltb f.cp sld || ltb 317 (start + (f.cp - sld))) ≡ false = ground arith in
    let kept : (if leb f.cp eol then start + (f.cp - sld) else eol) ≤ start + (f.cp - sld) =
      pick_by (λ (n : ℕ). n ≤ start + (f.cp - sld)) (leb f.cp eol) (start + (f.cp - sld)) eol
        (omega arith) (omega (arith, before, same)) in
    rw fits (p, omega (arith, same, second, lo, hi, c), kept)
drop_labels-Calm none none sld s f c before before' e le x = absurd (cc)
drop_labels-Calm (some eol) none sld s f c before before' e le x = absurd (cc)
drop_labels-Calm (some eol) (some start) none s f c before before' e le (i, ei, lo, hi) =
    absurd (cc)

keep_host-Calm :
    (words : ℕ) (f : Fuz1State)
    → Calm f
    → Host (at_index f.eol) f.cp f.url
    → Calm (keep_host words f)
unfolding keep_host
keep_host-Calm words f c h =
    let u = end_name f.url in
    let e = end_name-Same f.url in
    elim (Bool-cases (not (u.dot2 == 0))) [
      | inr flat ↦ rw flat c
      | inl deep ↦ rw deep (elim h.sld [
        | inl z ↦ absurd (ground (arith, deep, e.dot2, z))
        | inr sld ↦
            drop_labels-Calm f.eol u.start u.sld h.s (set_url u f) c (Behind-le _ _ h.eol_lt)
              (Behind-le _ _ h.eol_lt) (e.start ∙ h.start) h.start_le
              (subst (Index h.s f.cp) (sym e.sld) sld)
      ])
    ]

url_host_end-Calm :
    (words : ℕ) (f : Fuz1State)
    → Calm f
    → Host (at_index f.eol) f.cp f.url
    → Calm (url_host_end words f)
unfolding url_host_end
url_host_end-Calm words f c h =
    pick_by Calm _ _ _ c (keep_host-Calm words (set_url (cut_punct f.url) f) c (cut h))
  where
    cut : Host (at_index f.eol) f.cp f.url → Host (at_index f.eol) f.cp (cut_punct f.url)
    cut h = elim (Bool-cases (not (f.url.punct == 0))) [
      | inl some_punct ↦ rw some_punct (record {
        s = h.s;
        start = h.start;
        start_le = h.start_le;
        eol_lt = h.eol_lt;
        tld = h.tld;
        sld = h.sld;
      })
      | inr none_punct ↦ rw none_punct h
    ]

-- The end of a host name leaves the state outside.
pub end_host-Ready :
    (words : ℕ) (skip : Bool) (f : Fuz1State)
    → Calm f
    → Host (at_index f.eol) f.cp f.url
    → Ready (end_host words skip f)
unfolding end_host
end_host-Ready words true f c h =
    let (p, l, b) = url_host_end-Calm words f c h in
    record { calm = p; cp_lt = l; eol_le = b; host = tt }
end_host-Ready words false f c h =
    let (p, l, b) = url_host_end-Calm words f c h in
    record { calm = p; cp_lt = l; eol_le = b; host = tt }

-- A URL that has ended, or goes on with its host name.
abbrev pub Goes : ℕ → ℕ → CkUrl → Type 0
Goes k cp u = (u.st ≡ url_idle) ⊎ ((u.st ≡ url_slash3) × Host k cp u)

Host-Same : (k cp : ℕ) (u v : CkUrl) → Same u v → Host k cp u → Host k cp v
Host-Same k cp u v e h = record {
  s = h.s;
  start = e.start ∙ h.start;
  start_le = h.start_le;
  eol_lt = h.eol_lt;
  tld =
      subst (λ (n : ℕ). (n ≡ 0) ⊎ Index h.s cp v.tld) (sym e.dot1)
        (subst (λ (o : Option ℕ). (u.dot1 ≡ 0) ⊎ Index h.s cp o) (sym e.tld) h.tld);
  sld =
      subst (λ (n : ℕ). (n ≡ 0) ⊎ Index h.s cp v.sld) (sym e.dot2)
        (subst (λ (o : Option ℕ). (u.dot2 ≡ 0) ⊎ Index h.s cp o) (sym e.sld) h.sld);
}

url_host_save-cases :
    (uc : ℕ) (u : CkUrl) → ((url_host_save uc u).st ≡ url_idle) ⊎ Same u (url_host_save uc u)
unfolding url_host_save limit_host
url_host_save-cases uc u = elim (Bool-cases (leb 256 (u.dom_end - u.dom_start))) [
  | inl long ↦ rw long (inl refl)
  | inr short_name ↦ rw short_name (inr (stored u.flags.too_long))
]
  where
    stored :
        (b : Bool)
        → Same u (
            if b
            then u
            else record u { doms_buf = set_at u.doms_buf u.dom_end uc; dom_end = u.dom_end + 1 })
    stored true = ground arith
    stored false = ground arith

url_host_save-idle : (uc : ℕ) (u : CkUrl) → u.st ≡ url_idle → (url_host_save uc u).st ≡ url_idle
url_host_save-idle uc u e = elim (url_host_save-cases uc u) [
  | inl idle ↦ idle
  | inr same ↦ same.st ∙ e
]

url_host_save-Goes : (k cp uc : ℕ) (u : CkUrl) → Goes k cp u → Goes k cp (url_host_save uc u)
url_host_save-Goes k cp uc u (inl e) = inl (url_host_save-idle uc u e)
url_host_save-Goes k cp uc u (inr (e, h)) = elim (url_host_save-cases uc u) [
  | inl idle ↦ inl idle
  | inr same ↦ inr (same.st ∙ e, Host-Same k cp u (url_host_save uc u) same h)
]

-- A dot that is saved begins a label at the position.
abbrev labelled : ℕ → CkUrl → CkUrl
labelled cp v = record v {
  dot2 = v.dot1;
  dot1 = v.dom_end;
  label_start = v.dom_end;
  sld = v.tld;
  tld = some cp;
}

labelled-Goes : (k cp : ℕ) (v : CkUrl) → Goes k cp v → Goes k cp (labelled cp v)
labelled-Goes k cp v (inl e) = inl e
labelled-Goes k cp v (inr (e, h)) = inr (
  e,
  record {
    s = h.s;
    start = h.start;
    start_le = h.start_le;
    eol_lt = h.eol_lt;
    tld = inr (cp, refl, h.start_le, omega arith);
    sld = h.tld;
  },
)

pub save_char-Goes : (k cp uc : ℕ) (u : CkUrl) → Goes k cp u → Goes k cp (save_char cp uc u)
unfolding save_char
save_char-Goes k cp uc u g =
    let opened = record u { flags = record u.flags { dot = false } } in
    let named = if opened.flags.idn then punyencode opened else opened in
    let n : Goes k cp named = named-Goes opened.flags.idn opened (opened-Goes g) in
    let v = url_host_save b'.' named in
    let l = labelled-Goes k cp v (url_host_save-Goes k cp b'.' named n) in
    pick_by (Goes k cp) (u.punct == 0) _ _
      (pick_by (Goes k cp) u.flags.dot _ _ (url_host_save-Goes k cp uc (labelled cp v) l)
        (url_host_save-Goes k cp uc u g))
      g
  where
    opened-Goes : Goes k cp u → Goes k cp (record u { flags = record u.flags { dot = false } })
    opened-Goes (inl e) = inl e
    opened-Goes (inr (e, h)) = inr (
      e,
      Host-Same k cp u (record u { flags = record u.flags { dot = false } })
          (record { start = refl; tld = refl; sld = refl; dot1 = refl; dot2 = refl; st = refl }) h,
    )

    named-Goes : (b : Bool) (o : CkUrl) → Goes k cp o → Goes k cp (if b then punyencode o else o)
    named-Goes false o g = g
    named-Goes true o (inl e) = inl ((punyencode-Same o).st ∙ e)
    named-Goes true o (inr (e, h)) =
        inr ((punyencode-Same o).st ∙ e, Host-Same k cp o (punyencode o) (punyencode-Same o) h)

pub Goes-Ready :
    (u : CkUrl) (f : Fuz1State) → Calm f → Goes (at_index f.eol) f.cp u → Ready (set_url u f)
Goes-Ready u f (p, c, l) (inl e) = Ready-out url_idle (set_url u f) e tt p c l
Goes-Ready u f (p, c, l) (inr (e, h)) = Ready-out url_slash3 (set_url u f) e h p c l
