-- ===== src/Fuz1/Url.antt =====
-- dcc/fuz1.go: the URLs, `urlHostEnd` and `ckURLStep`.
use gdcc.Base.{
  ℕ, zero, suc, ◌+◌, ◌-◌, Bool, true, false, not, ◌&&◌, ◌||◌, Option, some, none, [], ◌∷◌, Bytes,
  ◌==◌, ltb, leb, if◌then◌else◌,
}
use gdcc.Cref.{Cref, Step, more, taken, short, is_idle, is_lower, is_digit, set_at}
use gdcc.Cref
use gdcc.Fuz2.{min_words}
use gdcc.Fuz1.State.{
  UrlSt, url_idle, url_quote, url_qh, url_t1, url_t2, url_p, url_s, url_colon, url_slash1,
  url_slash2, url_slash3_start, url_slash3, url_skipping_url, UrlRes, url_res_fwd, url_res_ck_space,
  url_res_skip, no_flags, is_quoted, CkUrl, Fuz1State, reset_doms_buf, url_host_save, url_failsafe,
  doms_buf_size, fuz1_buf_size, url_host_max_save, copy_at, slice,
}
use gdcc.Fuz1.Puny.{punyencode}

abbrev pub set_url : CkUrl → Fuz1State → Fuz1State
set_url u f = record f { url = u }

-- `buf[sld:cp]` moves to `start`; Go panics where a slice ends before it begins or behind the buffer.
unfoldable pub move_host : ℕ → ℕ → ℕ → Fuz1State → Fuz1State
move_host start sld eol f =
    let len = f.cp - sld in
    let moved = record f {
      buf = copy_at start (slice sld len f.buf) f.buf;
      eol = some (if leb f.cp eol then start + len else eol);
      cp = start + len;
    } in
    if ltb f.cp sld || ltb fuz1_buf_size (start + len) then record f { panicked = true } else moved

-- Go panics at an index of -1.
abbrev pub panic : Fuz1State → Fuz1State
panic f = record f { panicked = true }

-- The labels of a host name in the buffer before the second level go, by the last line end, the start
-- of the name and that of the second level.
unfoldable pub drop_labels : Option ℕ → Option ℕ → Option ℕ → Fuz1State → Fuz1State
unfolding move_host
drop_labels none (some start) sld f = record f { cp = start }
drop_labels (some eol) (some start) (some sld) f = move_host start sld eol f
drop_labels _ _ _ f = panic f

-- The same in the buffer of names, where there are few words.
unfoldable pub drop_names : ℕ → CkUrl → CkUrl
drop_names words u =
    let len = u.dom_end - u.dot2 in
    if ltb words min_words
    then record u {
      doms_buf = copy_at u.dom_start (slice u.dot2 len u.doms_buf) u.doms_buf;
      dom_end = u.dom_start + len;
    }
    else u

-- The name of a host has ended: it gets a 0 behind it.
unfoldable pub end_name : CkUrl → CkUrl
unfolding punyencode set_at
end_name u =
    let v = if u.flags.idn then punyencode u else u in
    record v { doms_buf = set_at v.doms_buf v.dom_end 0; dom_end = v.dom_end + 1 }

abbrev pub next_name : CkUrl → CkUrl
next_name u = record u { dom_start = u.dom_end; doms = u.doms + 1 }

-- The end of `urlHostEnd`, where there is a name.
unfoldable pub keep_host : ℕ → Fuz1State → Fuz1State
unfolding drop_labels drop_names end_name
keep_host words f =
    let u = end_name f.url in
    let g = drop_labels f.eol u.start u.sld (set_url u f) in
    if not (u.dot2 == 0)
    then set_url (next_name (drop_names words g.url)) g
    else set_url (next_name u) f

abbrev pub cut_punct : CkUrl → CkUrl
cut_punct u = if not (u.punct == 0) then record u { dom_end = u.punct } else u

-- `urlHostEnd`
unfoldable pub url_host_end : ℕ → Fuz1State → Fuz1State
unfolding keep_host
url_host_end words f =
    let g = set_url (cut_punct f.url) f in
    if leb g.url.dom_end g.url.dom_start || g.url.flags.too_long then g else keep_host words g

abbrev pub to_url : UrlSt → Fuz1State → Fuz1State
to_url st f = record f { url = record f.url { st = st } }

-- The end of a host name; the rest of the URL is skipped, or the URL has ended.
unfoldable pub end_host : ℕ → Bool → Fuz1State → Fuz1State
unfolding url_host_end
end_host words skip f = to_url (if skip then url_skipping_url else url_idle) (url_host_end words f)

-- A character of a host name goes to the buffer of names, behind a dot that waits.
unfoldable pub save_char : ℕ → ℕ → CkUrl → CkUrl
unfolding url_host_save punyencode
save_char cp uc u =
    let opened = record u { flags = record u.flags { dot = false } } in
    let named = if opened.flags.idn then punyencode opened else opened in
    let v = url_host_save b'.' named in
    let label = record v {
      dot2 = v.dot1;
      dot1 = v.dom_end;
      label_start = v.dom_end;
      sld = v.tld;
      tld = some cp;
    } in
    if u.punct == 0 then (if u.flags.dot then url_host_save uc label else url_host_save uc u) else u

abbrev pub is_host_char : ℕ → Bool
is_host_char uc = is_lower uc || is_digit uc || uc == b'-' || uc == b'_'

-- The delimiters that may be part of a user name.
abbrev pub is_delim : ℕ → Bool
is_delim uc =
    uc == b';'
    || uc == b'?'
    || uc == b'&'
    || uc == b'='
    || uc == b'$'
    || uc == b'+'
    || uc == b'!'
    || uc == b'*'
    || uc == b'('
    || uc == b')'
    || uc == b','

abbrev pub saved : ℕ → Fuz1State → Fuz1State
saved uc f = set_url (save_char f.cp uc f.url) f

-- Where a host name does not go on with a letter, a digit, '-' or '_', a dot, a quote, a slash, a
-- blank or '@'.
unfoldable pub other_char : ℕ → ℕ → Fuz1State → Fuz1State
unfolding end_host save_char
other_char words uc f =
    let u = f.url in
    let cut = if u.punct == 0 then record u { punct = u.dom_end } else u in
    let foreign = record u { flags = record u.flags { idn = true } } in
    let ended = end_host words (is_quoted u.flags) f in
    if uc == b':' || is_delim uc && not u.flags.username
    then saved uc (set_url cut f)
    else if leb 0xc0 uc && u.punct == 0
    then saved uc (set_url foreign f)
    else ended

-- The character '.' in a host name.
unfoldable pub dot_char : CkUrl → CkUrl
dot_char u =
    if u.flags.dot
    then record u { punct = u.dom_end }
    else record u { flags = record u.flags { dot = true } }

-- `@`: what was read was a user name.
unfoldable pub at_char : Fuz1State → Fuz1State
at_char f =
    let u = f.url in
    record f {
      cp = elim u.start [ none ↦ f.cp | some start ↦ start ];
      url = record u { flags = record u.flags { username = true }; st = url_slash3_start };
      panicked = elim u.start [ none ↦ true | some start ↦ f.panicked ];
    }

-- The case `urlSlash3`.
unfoldable pub host_char : ℕ → ℕ → Fuz1State → Fuz1State
unfolding end_host save_char other_char dot_char at_char
host_char words uc g =
    let f = set_url (record g.url { url_total = g.url.url_total + 1 }) g in
    let u = f.url in
    let slash = end_host words true f in
    let quote = end_host words u.flags.squoted f in
    let apostrophe = end_host words u.flags.dquoted f in
    let blank = end_host words (is_quoted u.flags) f in
    let other = other_char words uc f in
    if ltb url_failsafe u.url_total
    then to_url url_idle f
    else if is_host_char uc
    then saved uc f
    else if uc == b'.' && u.punct == 0
    then set_url (dot_char u) f
    else if uc == b'/' || uc == b'\\'
    then slash
    else if uc == b'"'
    then quote
    else if uc == b'\''
    then apostrophe
    else if uc == b'<' || uc == b'>' || leb uc b' ' || uc == 0xa0 && not u.flags.idn
    then blank
    else if uc == b'@' && not u.flags.username
    then at_char f
    else other

-- Whether a byte ends a URL that is skipped.
unfoldable pub ends_url : ℕ → CkUrl → Bool
ends_url uc u =
    uc == b'"' && not u.flags.squoted
    || uc == b'\'' && not u.flags.dquoted
    || uc == b'>' && not (is_quoted u.flags)
    || uc == b' '
    || uc == b'\t'
    || uc == b'\n'
    || uc == b'\r'
    || uc == 0xa0 && not u.flags.idn
    || ltb url_failsafe u.url_total

-- The bytes before the first 0.
abbrev pub index_zero : Bytes → ℕ
index_zero [] = 0
index_zero (b ∷ bs) = if b == 0 then 0 else suc (index_zero bs)

-- The loop that drops the first names while the buffer is almost full; a round drops a byte at least.
unfoldable pub drop_doms : ℕ → CkUrl → CkUrl
drop_doms zero u = u
drop_doms (suc fuel) u =
    let p = index_zero u.doms_buf + 1 in
    let kept = u.dom_start - p in
    let next = record u {
      dom_start = kept;
      doms_buf = copy_at 0 (slice p kept u.doms_buf) u.doms_buf;
    } in
    let again = drop_doms fuel next in
    if ltb (doms_buf_size - url_host_max_save) u.dom_start then again else u

-- The second slash: room for a name.
unfoldable pub make_room : ℕ → CkUrl → CkUrl
unfolding drop_doms
make_room words u =
    if leb min_words words then record u { dom_start = 0 } else drop_doms u.dom_start u

abbrev go_to : Bool → UrlSt → CkUrl → CkUrl
go_to test st u = record u { st = if test then st else url_idle }

-- The states before a host name.
unfoldable pub scheme_char : UrlSt → ℕ → CkUrl → CkUrl
scheme_char url_quote uc u =
    if uc == b'h'
    then record u { st = url_t1 }
    else if uc == b'"'
    then record u { flags = record u.flags { dquoted = true }; st = url_qh }
    else if uc == b'\''
    then record u { flags = record no_flags { squoted = true }; st = url_qh }
    else record u { st = url_idle }
scheme_char url_qh uc u = go_to (uc == b'h') url_t1 u
scheme_char url_t1 uc u = go_to (uc == b't') url_t2 u
scheme_char url_t2 uc u = go_to (uc == b't') url_p u
scheme_char url_p uc u = go_to (uc == b'p') url_s u
scheme_char url_s uc u =
    if uc == b's'
    then record u { st = url_colon }
    else if uc == b':'
    then record u { st = url_slash1 }
    else record u { st = url_idle }
scheme_char url_colon uc u = go_to (uc == b':') url_slash1 u
scheme_char url_slash1 uc u = go_to (uc == b'/') url_slash2 u
scheme_char _ uc u =
    if uc == b'h'
    then record u { st = url_t1; flags = no_flags }
    else if uc == b'='
    then record u { st = url_quote; flags = no_flags }
    else u

-- `ckURLStep`, by the state, with a character.
unfoldable pub url_in : UrlSt → ℕ → ℕ → Fuz1State → Fuz1State × UrlRes
unfolding scheme_char make_room host_char ends_url
url_in url_slash2 words uc f =
    if uc == b'/'
    then (set_url (record (make_room words f.url) { st = url_slash3_start }) f, url_res_ck_space)
    else (to_url url_idle f, url_res_fwd)
url_in url_slash3_start words uc f =
    let u = reset_doms_buf (some f.cp) f.url in
    (host_char words uc (set_url (record u { st = url_slash3 }) f), url_res_fwd)
url_in url_slash3 words uc f = (host_char words uc f, url_res_fwd)
url_in url_skipping_url words uc f =
    let u = record f.url { url_total = f.url.url_total + 1 } in
    (set_url (if ends_url uc u then record u { st = url_idle } else u) f, url_res_skip)
url_in st words uc f = (set_url (scheme_char st uc f.url) f, url_res_fwd)

-- What `ckURLStep` gives: the state, what to do with the byte, and whether it has been read.
abbrev pub Stepped : Type 0
Stepped = Fuz1State × UrlRes × Bool

abbrev pub at_char_of : UrlSt → ℕ → Bool → ℕ → Fuz1State → Stepped
at_char_of st words read uc f = let (g, res) = url_in st words uc f in (g, res, read)

-- What a step of the reference decoder gives.
unfoldable pub url_cref : ℕ → Fuz1State → Cref × Step → Stepped
unfolding url_in
url_cref words f (cref, more) = (set_url (record f.url { cref = cref }) f, url_res_fwd, true)
url_cref words f (cref, taken) =
    let g = set_url (record f.url { cref = cref }) f in at_char_of f.url.st words true cref.result g
url_cref words f (cref, short) =
    let g = set_url (record f.url { cref = cref }) f in
    at_char_of f.url.st words false cref.result g

-- `ckURLStep`
unfoldable pub ck_url_step : ℕ → ℕ → Fuz1State → Stepped
unfolding url_cref url_in
ck_url_step words uc f =
    let stepped = url_cref words f (Cref.step f.url.cref uc) in
    let plain = at_char_of f.url.st words true uc f in
    if uc == b'&' || not (is_idle f.url.cref.st) then stepped else plain
