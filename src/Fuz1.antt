-- ===== src/Fuz1.antt =====
-- dcc/fuz1.go: the first fuzzy checksum, of the letters of a body without the paths of its URLs.
pub mod State
pub mod Puny
pub mod Url
pub mod Bounds
pub mod Hosts
pub mod Safe
pub mod Letters
pub mod Steps
pub mod Characters
pub mod Labels
pub mod Rounds
pub mod Decoder
use gdcc.Base.{
  ℕ, zero, suc, ◌+◌, ◌-◌, ◌*◌, Bool, true, false, not, ◌&&◌, ◌||◌, Option, some, none, List, [],
  ◌∷◌, ◌++◌, Bytes, codes, ◌==◌, ltb, leb, if◌then◌else◌, length, take, drop, replicate, bytes_eq,
}
use gdcc.Hash.{Digest, sum_of}
use gdcc.Header.{to_lower}
use gdcc.Cref.{is_lower, set_at}
use gdcc.Fuz1.State.{
  UrlRes, url_res_fwd, url_res_ck_space, url_res_skip, url_idle, is_url_idle, Fuz1State, clear_buf,
  add_sum, fuz1_buf_size, fuz1_max_line, https_len, url_host_max, slice,
}
use gdcc.Fuz1.Url.{Stepped, ck_url_step, to_url}

-- `dearWord`
abbrev pub dear_word : Bytes → Bytes → Bool
dear_word buf w = leb (length w + 1) (length buf) && bytes_eq (take (length w) buf) w

-- `dearSucker`
unfoldable pub dear_sucker : Bytes → Bool
dear_sucker buf =
    dear_word buf (codes "dear")
    || dear_word buf (codes "hello")
    || dear_word buf (codes "greeting")
    || dear_word buf (codes "date")

-- `addSum(cp)`, and an empty buffer.
unfoldable pub sum_line : Fuz1State → Fuz1State
unfolding add_sum
sum_line f = record (add_sum f f.cp) { cp = 0; eol = none; buf = clear_buf }

-- A round of the loop that makes room for a host name, by the last line end; Go panics where the
-- slice from the line end to the position ends before it begins.
unfoldable pub space_round : Option ℕ → Fuz1State → Fuz1State
unfolding sum_line add_sum
space_round none f = sum_line f
space_round (some eol) f =
    let line = slice eol (f.cp - eol) f.buf in
    let n = length line in
    let moved = record (add_sum f eol) {
      buf = line ++ replicate (fuz1_buf_size - n) 0;
      cp = f.cp - eol;
      eol = none;
    } in
    if ltb f.cp eol then record (add_sum f eol) { panicked = true } else moved

abbrev pub is_full : Fuz1State → Bool
is_full f = leb (fuz1_buf_size - url_host_max) f.cp

-- The loop, which ends behind the round that finds no line end.
unfoldable pub ck_space : Fuz1State → Fuz1State
unfolding space_round
ck_space f =
    let one = space_round f.eol f in
    let two = space_round one.eol one in if is_full f then (if is_full one then two else one) else f

-- A letter; an index behind the buffer is a panic.
unfoldable pub letter : ℕ → Fuz1State → Fuz1State
unfolding sum_line set_at
letter c f =
    let g = record f { buf = set_at f.buf f.cp c; cp = f.cp + 1 } in
    let full = to_url url_idle (sum_line g) in
    if leb fuz1_buf_size f.cp
    then record f { panicked = true }
    else if ltb g.cp fuz1_buf_size
    then g
    else full

-- The end of a line that is kept.
unfoldable pub keep_line : Fuz1State → Fuz1State
unfolding sum_line
keep_line f =
    let full = to_url url_idle (sum_line f) in
    if leb (fuz1_buf_size - (fuz1_max_line + https_len)) f.cp
    then full
    else record f { eol = some f.cp }

-- Whether the line behind `eol` is a greeting or a date.
unfoldable pub is_greeting : ℕ → Fuz1State → Bool
unfolding dear_sucker
is_greeting eol f =
    let n = f.cp - eol in not (n == 0) && leb n fuz1_max_line && dear_sucker (slice eol n f.buf)

-- A line end, by the last one: a greeting or a date behind it is dropped.
unfoldable pub line_after : Option ℕ → Fuz1State → Fuz1State
unfolding keep_line is_greeting
line_after none f = keep_line f
line_after (some eol) f =
    if is_greeting eol f then to_url url_idle (record f { cp = eol }) else keep_line f

-- A byte that is summed, or not.
unfoldable pub fuz1_char : ℕ → Fuz1State → Fuz1State
unfolding letter line_after
fuz1_char c f = if is_lower c then letter c f else if c == b'\n' then line_after f.eol f else f

-- What the URL step says to do with the byte.
unfoldable pub after_url : ℕ → Stepped → Fuz1State × Bool
unfolding fuz1_char ck_space
after_url c (f, url_res_fwd, read) = (fuz1_char c f, read)
after_url c (f, url_res_ck_space, read) = (fuz1_char c (ck_space f), read)
after_url c (f, url_res_skip, read) = (f, read)

-- One round of the loop of `fuz1`; the result tells whether the byte has been read.
unfoldable pub fuz1_round : ℕ → ℕ → Fuz1State → Fuz1State × Bool
unfolding after_url ck_url_step fuz1_char
fuz1_round words b f =
    let c = to_lower b in
    let stepped = after_url c (ck_url_step words c f) in
    let plain = fuz1_char c f in
    if c == b'h' || c == b'=' || not (is_url_idle f.url.st) then stepped else (plain, true)

abbrev pub ends_here : Option ℕ → ℕ → Bool
ends_here none cp = false
ends_here (some eol) cp = eol == cp

-- The end of the bytes: whole lines are summed.
unfoldable pub fuz1_end : Fuz1State → Fuz1State
unfolding sum_line
fuz1_end f = if not (f.cp == 0) && ends_here f.eol f.cp then sum_line f else f

unfoldable pub fuz1_loop : ℕ → ℕ → Fuz1State → Bytes → Fuz1State
unfolding fuz1_round fuz1_end
fuz1_loop zero words f bp = f
fuz1_loop (suc fuel) words f [] = fuz1_end f
fuz1_loop (suc fuel) words f (c ∷ cs) =
    let (next, read) = fuz1_round words c f in
    let rest = fuz1_loop fuel words next (if read then cs else c ∷ cs) in rest

-- `fuz1`; a byte takes at most two rounds.
unfoldable pub fuz1 : ℕ → Fuz1State → Bytes → Fuz1State
unfolding fuz1_loop
fuz1 words f bp = fuz1_loop (length bp * 2 + 2) words f bp

-- `final`
unfoldable pub final : Digest → Fuz1State → Bytes × Bool
final md5 f = if ltb f.total 30 then (replicate 16 0, false) else (sum_of md5 f.md5, true)
