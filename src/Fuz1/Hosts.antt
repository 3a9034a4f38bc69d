-- ===== src/Fuz1/Hosts.antt =====
-- dcc/fuz1.go: the bounds of the host names of the first fuzzy checksum.
use gdcc.Base.{
  pick_by, ℕ, ◌+◌, ◌-◌, ◌≤◌, ◌≡◌, refl, inl, inr, Bool, true, false, not, ◌&&◌, ◌||◌, Bool-cases,
  subst, Option, some, none, ◌++◌, Bytes, ◌==◌, ltb, leb, if◌then◌else◌, length, take, drop, arith,
  length-append, length-take, length-drop,
}
use gdcc.Hash.{write}
use gdcc.Fuz1.State.{
  is_quoted, CkUrl, Fuz1State, reset_doms_buf, url_host_save, limit_host, add_sum, copy_at, slice,
}
use gdcc.Fuz1.Puny.{punyencode, puny_store, utf8_loop, encoded}
use gdcc.Fuz1.Url.{
  set_url, move_host, drop_labels, drop_names, end_name, next_name, keep_host, cut_punct,
  url_host_end, end_host, save_char, saved, other_char, dot_char, at_char, host_char, is_delim,
  is_host_char,
}

-- An index, where there is one.
abbrev pub at_index : Option ℕ → ℕ
at_index none = 0
at_index (some i) = i

-- The buffer has its 317 bytes and the position, the last line end and the start of a URL are in it,
-- and no more than 4096 bytes have been summed, all of them counted.
pub record Sound (f : Fuz1State) : Type 0 where
  pub buf_317 : length f.buf ≡ 317
  pub cp_le : f.cp ≤ 317
  pub eol_le : at_index f.eol ≤ 317
  pub start_le : at_index f.url.start ≤ 317
  pub counted : f.total ≡ length f.md5
  pub total_le : f.total ≤ 4096

length-write : (b p : Bytes) → length (write b p) ≡ length b + length p
length-write b p = length-append b p

pub add_sum-Sound : (f : Fuz1State) (n : ℕ) → n ≤ 317 → Sound f → Sound (add_sum f n)
unfolding add_sum
add_sum-Sound f n h s =
    let m = if ltb 4096 (f.total + n) then 4096 - f.total else n in
    let le : m ≤ n = ground (arith, s) in
    let room : f.total + m ≤ 4096 = ground (arith, s) in
    ground (arith, s, le, room, length-write f.md5 (take m f.buf), length-take m f.buf)

-- The buffer goes on where `set_url` changes the URL alone.
pub set_url-Sound :
    (u : CkUrl) (f : Fuz1State) → at_index u.start ≤ 317 → Sound f → Sound (set_url u f)
set_url-Sound u f h s = ground (arith, s, h)

-- Each side of a test keeps the bounds.
pub pick : (b : Bool) {f g : Fuz1State} → Sound f → Sound g → Sound (if b then f else g)
pick true sf sg = sf
pick false sf sg = sg

abbrev pub InBuffer : CkUrl → Type 0
InBuffer u = at_index u.start ≤ 317

punyencode-start : (u : CkUrl) → (punyencode u).start ≡ u.start
unfolding punyencode
punyencode-start u =
    let v = record u { flags = record u.flags { idn = false } } in
    stored v (encoded (utf8_loop 63 v v.label_start))
  where
    stored : (u : CkUrl) (o : Option Bytes) → (puny_store u o).start ≡ u.start
    stored u none = unfold puny_store in refl
    stored u (some p) = unfold puny_store in ground arith

-- A host name that is too long forgets where it started.
url_host_save-start :
    (uc : ℕ) (u : CkUrl) → at_index u.start ≤ 317 → at_index (url_host_save uc u).start ≤ 317
unfolding url_host_save limit_host reset_doms_buf
url_host_save-start uc u h = ground (arith, h)

save_char-start :
    (cp uc : ℕ) (u : CkUrl) → at_index u.start ≤ 317 → at_index (save_char cp uc u).start ≤ 317
unfolding save_char
save_char-start cp uc u h =
    let opened = record u { flags = record u.flags { dot = false } } in
    let named = if opened.flags.idn then punyencode opened else opened in
    let v = url_host_save b'.' named in
    let label = record v {
      dot2 = v.dot1;
      dot1 = v.dom_end;
      label_start = v.dom_end;
      sld = v.tld;
      tld = some cp;
    } in
    let start : at_index named.start ≤ 317 = ground (arith, h, punyencode-start opened) in
    let dotted = url_host_save-start b'.' named start in
    let a = url_host_save-start uc label dotted in
    let b = url_host_save-start uc u h in
    pick_by InBuffer (u.punct == 0) _ _ (pick_by InBuffer u.flags.dot _ _ a b) h

saved-Sound : (uc : ℕ) (f : Fuz1State) → Sound f → Sound (saved uc f)
saved-Sound uc f s = set_url-Sound _ f (save_char-start f.cp uc f.url s.start_le) s

end_name-start : (u : CkUrl) → (end_name u).start ≡ u.start
unfolding end_name
end_name-start u = ground (arith, punyencode-start u)

drop_names-start : (words : ℕ) (u : CkUrl) → (drop_names words u).start ≡ u.start
unfolding drop_names
drop_names-start words u = ground arith

length-copy_at :
    (i : ℕ) (s buf : Bytes) → i + length s ≤ length buf → length (copy_at i s buf) ≡ length buf
length-copy_at i s buf h = omega (
  arith,
  length-append (take i buf) (s ++ drop (i + length s) buf),
  length-append s (drop (i + length s) buf),
  length-take i buf,
  length-drop (i + length s) buf,
)

move_host-Sound :
    (start sld eol : ℕ) (f : Fuz1State)
    → f.eol ≡ some eol
    → Sound f
    → Sound (move_host start sld eol f)
unfolding move_host
move_host-Sound start sld eol f e s =
    let len = f.cp - sld in
    let p = slice sld len f.buf in
    let eol_le : eol ≤ 317 = subst (λ (o : Option ℕ). at_index o ≤ 317) e s.eol_le in
    let size : length p ≤ len = omega (arith, length-take len (drop sld f.buf)) in
    elim (Bool-cases (ltb f.cp sld || ltb 317 (start + len))) [
      | inl panic ↦ rw panic (ground (arith, s))
      | inr fits ↦
          let room : start + len ≤ 317 = ground arith in
          let same = length-copy_at start p f.buf (omega (arith, room, size, s.buf_317)) in
          rw fits (ground (arith, s, eol_le, room, same))
    ]

drop_labels-Sound :
    (o start sld : Option ℕ) (f : Fuz1State)
    → f.eol ≡ o
    → at_index start ≤ 317
    → Sound f
    → Sound (drop_labels o start sld f)
unfolding drop_labels
drop_labels-Sound none (some start) sld f e h s = ground (arith, s, h)
drop_labels-Sound none none sld f e h s = ground (arith, s)
drop_labels-Sound (some eol) (some start) (some sld) f e h s = move_host-Sound start sld eol f e s
drop_labels-Sound (some eol) (some start) none f e h s = ground (arith, s)
drop_labels-Sound (some eol) none sld f e h s = ground (arith, s)

keep_host-Sound : (words : ℕ) (f : Fuz1State) → Sound f → Sound (keep_host words f)
unfolding keep_host
keep_host-Sound words f s =
    let u = end_name f.url in
    let start : at_index u.start ≤ 317 = rw (end_name-start f.url) s.start_le in
    let g = drop_labels f.eol u.start u.sld (set_url u f) in
    let sg =
      drop_labels-Sound f.eol u.start u.sld (set_url u f) refl start (set_url-Sound u f start s) in
    let named : at_index (drop_names words g.url).start ≤ 317 =
      rw (drop_names-start words g.url) sg.start_le in
    elim (Bool-cases (not (u.dot2 == 0))) [
      | inl deep ↦ rw deep (set_url-Sound (next_name (drop_names words g.url)) g named sg)
      | inr flat ↦ rw flat (set_url-Sound (next_name u) f start s)
    ]

url_host_end-Sound : (words : ℕ) (f : Fuz1State) → Sound f → Sound (url_host_end words f)
unfolding url_host_end
url_host_end-Sound words f s =
    let g = set_url (cut_punct f.url) f in
    let sg : Sound g = set_url-Sound (cut_punct f.url) f (ground (arith, s)) s in
    elim (Bool-cases (leb g.url.dom_end g.url.dom_start || g.url.flags.too_long)) [
      | inl empty ↦ rw empty sg
      | inr named ↦ rw named (keep_host-Sound words g sg)
    ]

end_host-Sound : (words : ℕ) (skip : Bool) (f : Fuz1State) → Sound f → Sound (end_host words skip f)
unfolding end_host
end_host-Sound words skip f s =
    let e = url_host_end-Sound words f s in set_url-Sound _ (url_host_end words f) e.start_le e

other_char-Sound : (words uc : ℕ) (f : Fuz1State) → Sound f → Sound (other_char words uc f)
unfolding other_char
other_char-Sound words uc f s =
    let u = f.url in
    let cut = if u.punct == 0 then record u { punct = u.dom_end } else u in
    let foreign = record u { flags = record u.flags { idn = true } } in
    let ended = end_host-Sound words (is_quoted u.flags) f s in
    let a = saved-Sound uc (set_url cut f) (set_url-Sound cut f (ground (arith, s)) s) in
    let b = saved-Sound uc (set_url foreign f) (set_url-Sound foreign f s.start_le s) in
    pick (uc == b':' || is_delim uc && not u.flags.username) a
      (pick (leb 0xc0 uc && u.punct == 0) b ended)

dot_char-start : (u : CkUrl) → (dot_char u).start ≡ u.start
unfolding dot_char
dot_char-start u = ground arith

at_char-Sound : (f : Fuz1State) → Sound f → Sound (at_char f)
unfolding at_char
at_char-Sound f s = ground (arith, s, back f.url.start s.start_le)
  where
    back : (o : Option ℕ) → at_index o ≤ 317 → (elim o [ none ↦ f.cp | some start ↦ start ]) ≤ 317
    back none h = s.cp_le
    back (some start) h = h

pub host_char-Sound : (words uc : ℕ) (f : Fuz1State) → Sound f → Sound (host_char words uc f)
unfolding host_char
host_char-Sound words uc g sg =
    let f = set_url (record g.url { url_total = g.url.url_total + 1 }) g in
    let s : Sound f = set_url-Sound _ g sg.start_le sg in
    let u = f.url in
    pick _ (set_url-Sound _ f s.start_le s) (
      pick (is_host_char uc) (saved-Sound uc f s) (
        pick _ (set_url-Sound (dot_char u) f (rw (dot_char-start u) s.start_le) s) (
          pick _ (end_host-Sound words true f s) (
            pick _ (end_host-Sound words u.flags.squoted f s) (
              pick _ (end_host-Sound words u.flags.dquoted f s) (
                pick _ (end_host-Sound words (is_quoted u.flags) f s)
                  (pick _ (at_char-Sound f s) (other_char-Sound words uc f s))))))))
