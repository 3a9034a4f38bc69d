-- ===== src/Fuz1/Decoder.antt =====
-- dcc/fuz1.go: the state of the reference decoder within fuz1.
use gdcc.Base.{
  ltb, pick_by, ℕ, zero, suc, ◌+◌, ◌-◌, ◌≡◌, Bool, true, false, not, ◌&&◌, ◌||◌, Option, some, none,
  Bytes, ◌==◌, ltb, leb, if◌then◌else◌, arith,
}
use gdcc.Cref.{Cref, is_lower, set_at}
use gdcc.Fuz2.{min_words}
use gdcc.Fuz1.State.{
  UrlSt, url_failsafe, fuz1_buf_size, fuz1_max_line, https_len, url_idle, url_quote, url_qh, url_t1,
  url_t2, url_p, url_s, url_colon, url_slash1, url_slash2, url_slash3_start, url_slash3,
  url_skipping_url, UrlRes, url_res_fwd, url_res_ck_space, url_res_skip, is_quoted, CkUrl,
  Fuz1State, reset_doms_buf, url_host_save, limit_host, add_sum, copy_at, slice,
}
use gdcc.Fuz1.Puny.{punyencode, puny_store, utf8_loop, encoded}
use gdcc.Fuz1.Url.{
  set_url, move_host, drop_labels, drop_names, end_name, next_name, keep_host, cut_punct,
  url_host_end, to_url, end_host, save_char, saved, other_char, dot_char, at_char, host_char,
  scheme_char, make_room, drop_doms, index_zero, url_in, Stepped, ends_url, is_delim, is_host_char,
}
use gdcc.Fuz1.{
  is_full, sum_line, space_round, ck_space, letter, keep_line, is_greeting, line_after, fuz1_char,
  after_url,
}

-- Everything but the step of the reference decoder leaves its state alone.
module _ (k : Cref) where
  abbrev pub At : CkUrl → Type 0
  At u = u.cref ≡ k

  abbrev pub In : Fuz1State → Type 0
  In f = At f.url

  punyencode-At : (u : CkUrl) → At u → At (punyencode u)
  unfolding punyencode
  punyencode-At u h =
      let v = record u { flags = record u.flags { idn = false } } in
      stored (encoded (utf8_loop 63 v v.label_start))
    where
      stored :
          (o : Option Bytes)
          → At (puny_store (record u { flags = record u.flags { idn = false } }) o)
      stored none = unfold puny_store in h
      stored (some p) = unfold puny_store in pick_by At _ _ _ h h

  url_host_save-At : (uc : ℕ) (u : CkUrl) → At u → At (url_host_save uc u)
  unfolding url_host_save limit_host reset_doms_buf
  url_host_save-At uc u h = ground (arith, h)

  save_char-At : (cp uc : ℕ) (u : CkUrl) → At u → At (save_char cp uc u)
  unfolding save_char
  save_char-At cp uc u h =
      let opened = record u { flags = record u.flags { dot = false } } in
      let named = if opened.flags.idn then punyencode opened else opened in
      let n : At named = pick_by At _ _ _ (punyencode-At opened h) h in
      let v = url_host_save b'.' named in
      let label = record v {
        dot2 = v.dot1;
        dot1 = v.dom_end;
        label_start = v.dom_end;
        sld = v.tld;
        tld = some cp;
      } in
      pick_by At _ _ _
        (pick_by At _ _ _ (url_host_save-At uc label (url_host_save-At b'.' named n))
          (url_host_save-At uc u h))
        h

  end_name-At : (u : CkUrl) → At u → At (end_name u)
  unfolding end_name
  end_name-At u h = pick_by At u.flags.idn _ _ (punyencode-At u h) h

  drop_labels-In : (o start sld : Option ℕ) (f : Fuz1State) → In f → In (drop_labels o start sld f)
  unfolding drop_labels
  drop_labels-In none (some start) sld f h = h
  drop_labels-In none none sld f h = h
  drop_labels-In (some eol) (some start) (some sld) f h = unfold move_host in pick_by In _ _ _ h h
  drop_labels-In (some eol) (some start) none f h = h
  drop_labels-In (some eol) none sld f h = h

  drop_names-At : (words : ℕ) (u : CkUrl) → At u → At (drop_names words u)
  unfolding drop_names
  drop_names-At words u h = pick_by At _ _ u h h

  keep_host-In : (words : ℕ) (f : Fuz1State) → In f → In (keep_host words f)
  unfolding keep_host
  keep_host-In words f h =
      let u = end_name f.url in
      let hu = end_name-At f.url h in
      let g = drop_labels f.eol u.start u.sld (set_url u f) in
      let hg = drop_labels-In f.eol u.start u.sld (set_url u f) hu in
      pick_by In (not (u.dot2 == 0)) (set_url (next_name (drop_names words g.url)) g)
        (set_url (next_name u) f) (drop_names-At words g.url hg) hu

  url_host_end-In : (words : ℕ) (f : Fuz1State) → In f → In (url_host_end words f)
  unfolding url_host_end
  url_host_end-In words f h =
      let g = set_url (cut_punct f.url) f in
      let hg : In g =
        pick_by At (not (f.url.punct == 0)) (record f.url { dom_end = f.url.punct }) f.url h h in
      pick_by In (leb g.url.dom_end g.url.dom_start || g.url.flags.too_long) g (keep_host words g)
        hg (keep_host-In words g hg)

  end_host-In : (words : ℕ) (skip : Bool) (f : Fuz1State) → In f → In (end_host words skip f)
  unfolding end_host
  end_host-In words skip f h = url_host_end-In words f h

  other_char-In : (words uc : ℕ) (f : Fuz1State) → In f → In (other_char words uc f)
  unfolding other_char
  other_char-In words uc f h =
      let u = f.url in
      let cut = if u.punct == 0 then record u { punct = u.dom_end } else u in
      let foreign = record u { flags = record u.flags { idn = true } } in
      pick_by In (uc == b':' || is_delim uc && not u.flags.username) (saved uc (set_url cut f)) _
        (save_char-At f.cp uc cut
          (pick_by At (u.punct == 0) (record u { punct = u.dom_end }) u h h))
        (pick_by In (leb 0xc0 uc && u.punct == 0) (saved uc (set_url foreign f))
          (end_host words (is_quoted u.flags) f) (save_char-At f.cp uc foreign h)
          (end_host-In words (is_quoted u.flags) f h))

  host_char-In : (words uc : ℕ) (f : Fuz1State) → In f → In (host_char words uc f)
  unfolding host_char dot_char at_char
  host_char-In words uc g h =
      let u = record g.url { url_total = g.url.url_total + 1 } in
      let f = set_url u g in
      let over : In (to_url url_idle f) = h in
      pick_by In (ltb url_failsafe u.url_total) (to_url url_idle f) _ over (
        pick_by In (is_host_char uc) (saved uc f) _ (save_char-At f.cp uc u h) (
          pick_by In (uc == b'.' && u.punct == 0) (set_url (dot_char u) f) _
            (pick_by At u.flags.dot (record u { punct = u.dom_end })
              (record u { flags = record u.flags { dot = true } }) h h)
            (pick_by In (uc == b'/' || uc == b'\\') (end_host words true f) _
              (end_host-In words true f h)
              (pick_by In (uc == b'"') (end_host words u.flags.squoted f) _
                (end_host-In words u.flags.squoted f h)
                (pick_by In (uc == b'\'') (end_host words u.flags.dquoted f) _
                  (end_host-In words u.flags.dquoted f h)
                  (pick_by In
                    (uc == b'<' || uc == b'>' || leb uc b' ' || uc == 0xa0 && not u.flags.idn)
                    (end_host words (is_quoted u.flags) f) _
                    (end_host-In words (is_quoted u.flags) f h)
                    (pick_by In (uc == b'@' && not u.flags.username) (at_char f)
                      (other_char words uc f) h (other_char-In words uc f h))))))))

  scheme_char-At : (st : UrlSt) (uc : ℕ) (u : CkUrl) → At u → At (scheme_char st uc u)
  unfolding scheme_char
  scheme_char-At st uc u h = ground (arith, h)

  drop_doms-At : (fuel : ℕ) (u : CkUrl) → At u → At (drop_doms fuel u)
  unfolding drop_doms
  drop_doms-At zero u h = h
  drop_doms-At (suc fuel) u h =
      let p = index_zero u.doms_buf + 1 in
      let kept = u.dom_start - p in
      let next = record u {
        dom_start = kept;
        doms_buf = copy_at 0 (slice p kept u.doms_buf) u.doms_buf;
      } in
      pick_by At _ (drop_doms fuel next) u (drop_doms-At fuel next h) h

  make_room-At : (words : ℕ) (u : CkUrl) → At u → At (make_room words u)
  unfolding make_room
  make_room-At words u h =
      pick_by At (leb min_words words) (record u { dom_start = 0 }) (drop_doms u.dom_start u) h
        (drop_doms-At u.dom_start u h)

  pub url_in-In : (st : UrlSt) (words uc : ℕ) (f : Fuz1State) → In f → In (url_in st words uc f).0
  unfolding url_in reset_doms_buf
  url_in-In url_slash2 words uc f h =
      pick_by (λ (r : Fuz1State × UrlRes). In r.0) (uc == b'/')
        (set_url (record (make_room words f.url) { st = url_slash3_start }) f, url_res_ck_space)
        (to_url url_idle f, url_res_fwd) (make_room-At words f.url h) h
  url_in-In url_slash3_start words uc f h =
      let u = record (reset_doms_buf (some f.cp) f.url) { st = url_slash3 } in
      host_char-In words uc (set_url u f) h
  url_in-In url_slash3 words uc f h = host_char-In words uc f h
  url_in-In url_skipping_url words uc f h =
      let u = record f.url { url_total = f.url.url_total + 1 } in
      pick_by At (ends_url uc u) (record u { st = url_idle }) u h h
  url_in-In url_idle words uc f h = scheme_char-At url_idle uc f.url h
  url_in-In url_quote words uc f h = scheme_char-At url_quote uc f.url h
  url_in-In url_qh words uc f h = scheme_char-At url_qh uc f.url h
  url_in-In url_t1 words uc f h = scheme_char-At url_t1 uc f.url h
  url_in-In url_t2 words uc f h = scheme_char-At url_t2 uc f.url h
  url_in-In url_p words uc f h = scheme_char-At url_p uc f.url h
  url_in-In url_s words uc f h = scheme_char-At url_s uc f.url h
  url_in-In url_colon words uc f h = scheme_char-At url_colon uc f.url h
  url_in-In url_slash1 words uc f h = scheme_char-At url_slash1 uc f.url h

  add_sum-In : (f : Fuz1State) (n : ℕ) → In f → In (add_sum f n)
  unfolding add_sum
  add_sum-In f n h = ground (arith, h)

  sum_line-In : (f : Fuz1State) → In f → In (sum_line f)
  unfolding sum_line
  sum_line-In f h = add_sum-In f f.cp h

  space_round-In : (o : Option ℕ) (f : Fuz1State) → In f → In (space_round o f)
  unfolding space_round
  space_round-In none f h = sum_line-In f h
  space_round-In (some eol) f h = let a = add_sum-In f eol h in pick_by In (ltb f.cp eol) _ _ a a

  ck_space-In : (f : Fuz1State) → In f → In (ck_space f)
  unfolding ck_space
  ck_space-In f h =
      let one = space_round f.eol f in
      let h1 = space_round-In f.eol f h in
      let two = space_round one.eol one in
      let both = if is_full one then two else one in
      pick_by In (is_full f) both f
        (pick_by In (is_full one) two one (space_round-In one.eol one h1) h1) h

  letter-In : (c : ℕ) (f : Fuz1State) → In f → In (letter c f)
  unfolding letter
  letter-In c f h =
      let g = record f { buf = set_at f.buf f.cp c; cp = f.cp + 1 } in
      let full = to_url url_idle (sum_line g) in
      pick_by In (leb fuz1_buf_size f.cp) (record f { panicked = true })
        (if ltb (f.cp + 1) fuz1_buf_size then g else full) h
        (pick_by In (ltb (f.cp + 1) fuz1_buf_size) g full h (sum_line-In g h))

  keep_line-In : (f : Fuz1State) → In f → In (keep_line f)
  unfolding keep_line
  keep_line-In f h =
      pick_by In (leb (fuz1_buf_size - (fuz1_max_line + https_len)) f.cp)
        (to_url url_idle (sum_line f)) (record f { eol = some f.cp }) (sum_line-In f h) h

  line_after-In : (o : Option ℕ) (f : Fuz1State) → In f → In (line_after o f)
  unfolding line_after
  line_after-In none f h = keep_line-In f h
  line_after-In (some eol) f h =
      pick_by In (is_greeting eol f) (to_url url_idle (record f { cp = eol })) (keep_line f) h
        (keep_line-In f h)

  pub fuz1_char-In : (c : ℕ) (f : Fuz1State) → In f → In (fuz1_char c f)
  unfolding fuz1_char
  fuz1_char-In c f h =
      let line = if c == b'\n' then line_after f.eol f else f in
      pick_by In (is_lower c) (letter c f) line (letter-In c f h)
        (pick_by In (c == b'\n') (line_after f.eol f) f (line_after-In f.eol f h) h)

  pub after_url-In : (c : ℕ) (t : Stepped) → In t.0 → In (after_url c t).0
  unfolding after_url
  after_url-In c (f, url_res_fwd, read) h = fuz1_char-In c f h
  after_url-In c (f, url_res_ck_space, read) h = fuz1_char-In c (ck_space f) (ck_space-In f h)
  after_url-In c (f, url_res_skip, read) h = h
