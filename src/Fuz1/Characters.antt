-- ===== src/Fuz1/Characters.antt =====
-- dcc/fuz1.go: the characters of a host name, and its labels in the buffer.
use gdcc.Base.{
  ◌≤◌, pick_by, ℕ, ◌+◌, ◌<◌, ◌≡◌, sym, ap, ◌∙◌, inr, Bool, true, false, subst, Option, some, none,
  ◌==◌, if◌then◌else◌, arith,
}
use gdcc.Fuz1.State.{url_idle, url_slash3, UrlFlags, is_quoted, CkUrl, Fuz1State}
use gdcc.Fuz1.Url.{
  set_url, to_url, save_char, saved, other_char, dot_char, at_char, host_char, is_host_char,
}
use gdcc.Fuz1.Hosts.{at_index}
use gdcc.Fuz1.Labels.{
  Behind, Behind-le, Host, Ready, Calm, end_host-Ready, Goes, save_char-Goes, Goes-Ready,
}

-- A host name with other flags or another end.
abbrev with_punct : ℕ → UrlFlags → CkUrl → CkUrl
with_punct n flags u = record u { punct = n; flags = flags }

Host-punct :
    (k cp n : ℕ) (flags : UrlFlags) (u : CkUrl) → Host k cp u → Host k cp (with_punct n flags u)
Host-punct k cp n flags u h = record {
  s = h.s;
  start = h.start;
  start_le = h.start_le;
  eol_lt = h.eol_lt;
  tld = h.tld;
  sld = h.sld;
}

-- What a host name is read with.
abbrev Inside : Fuz1State → Type 0
Inside f = Calm f × (f.url.st ≡ url_slash3) × Host (at_index f.eol) f.cp f.url

saved-Ready : (uc : ℕ) (f : Fuz1State) → Inside f → Ready (saved uc f)
saved-Ready uc f (c, e, h) =
    Goes-Ready (save_char f.cp uc f.url) f c
      (save_char-Goes (at_index f.eol) f.cp uc f.url (inr (e, h)))

other_char-Ready : (words uc : ℕ) (f : Fuz1State) → Inside f → Ready (other_char words uc f)
unfolding other_char
other_char-Ready words uc f (c, e, h) =
    let u = f.url in
    let cut = if u.punct == 0 then record u { punct = u.dom_end } else u in
    let foreign = record u { flags = record u.flags { idn = true } } in
    pick_by Ready _ _ _ (saved-Ready uc (set_url cut f) (cut_inside (u.punct == 0))) (
      pick_by Ready _ _ _
        (saved-Ready uc (set_url foreign f)
          (c, e, Host-punct (at_index f.eol) f.cp u.punct (record u.flags { idn = true }) u h))
        (end_host-Ready words (is_quoted u.flags) f c h))
  where
    cut_inside :
        (b : Bool)
        → Inside (set_url (if b then record f.url { punct = f.url.dom_end } else f.url) f)
    cut_inside true = (c, e, Host-punct (at_index f.eol) f.cp f.url.dom_end f.url.flags f.url h)
    cut_inside false = (c, e, h)

dot_char-Host : (k cp : ℕ) (u : CkUrl) → u.st ≡ url_slash3 → Host k cp u → Goes k cp (dot_char u)
unfolding dot_char
dot_char-Host k cp u e h =
    pick_by (Goes k cp) u.flags.dot (with_punct u.dom_end u.flags u)
      (with_punct u.punct (record u.flags { dot = true }) u)
      (inr (e, Host-punct k cp u.dom_end u.flags u h))
      (inr (e, Host-punct k cp u.punct (record u.flags { dot = true }) u h))

at_char-Ready : (f : Fuz1State) → Calm f → Host (at_index f.eol) f.cp f.url → Ready (at_char f)
unfolding at_char
at_char-Ready f (p, c, l) h = record {
  calm = ap (λ (o : Option ℕ). elim o [ none ↦ true | some start ↦ f.panicked ]) h.start ∙ p;
  cp_lt =
      subst (λ (o : Option ℕ). (elim o [ none ↦ f.cp | some start ↦ start ]) < 317) (sym h.start)
        (omega (arith, h.start_le, c));
  eol_le =
      subst (λ (o : Option ℕ). at_index f.eol ≤ (elim o [ none ↦ f.cp | some start ↦ start ]))
        (sym h.start) (Behind-le _ _ h.eol_lt);
  host =
      subst
        (λ (o : Option ℕ). Behind (at_index f.eol) (elim o [ none ↦ f.cp | some start ↦ start ]))
        (sym h.start) h.eol_lt;
}

pub host_char-Ready : (words uc : ℕ) (f : Fuz1State) → Inside f → Ready (host_char words uc f)
unfolding host_char
host_char-Ready words uc g (c, e, hg) =
    let u = record g.url { url_total = g.url.url_total + 1 } in
    let f = set_url u g in
    let h : Host (at_index g.eol) g.cp u = record {
      s = hg.s;
      start = hg.start;
      start_le = hg.start_le;
      eol_lt = hg.eol_lt;
      tld = hg.tld;
      sld = hg.sld;
    } in
    let over : Ready (to_url url_idle f) = record {
      calm = c.0;
      cp_lt = c.1;
      eol_le = c.2;
      host = tt;
    } in
    pick_by Ready _ _ _ over (
      pick_by Ready (is_host_char uc) _ _ (saved-Ready uc f (c, e, h)) (
        pick_by Ready _ _ _
          (Goes-Ready (dot_char u) f c (dot_char-Host (at_index g.eol) g.cp u e h))
          (pick_by Ready _ _ _ (end_host-Ready words true f c h) (
            pick_by Ready _ _ _ (end_host-Ready words u.flags.squoted f c h) (
              pick_by Ready _ _ _ (end_host-Ready words u.flags.dquoted f c h) (
                pick_by Ready _ _ _ (end_host-Ready words (is_quoted u.flags) f c h) (
                  pick_by Ready _ _ _ (at_char-Ready f c h)
                    (other_char-Ready words uc f (c, e, h)))))))))
