-- ===== src/Fuz2/State.antt =====
-- dcc/fuz2.go and dcc/fuz2_tables.go: the state of the checksum and the lookup in a dictionary.
use gdcc.Base.{
  ℕ, zero, suc, ◌+◌, ◌%◌, Bool, true, false, Option, some, none, List, [], ◌∷◌, Bytes, ◌==◌, ltb,
  if◌then◌else◌, length, take, drop, bytes_eq,
}
use gdcc.Hash.{write}
use gdcc.Cref.{
  Cref, CrefSt, idle, Step, more, taken, short, clear, is_lower, is_digit, is_idle, set_at,
  word_hash, bucket_at,
}
use gdcc.Cref
use gdcc.Fuz2.Charset.{Cset, latin1, latin2}

abbrev pub few_words : ℕ
few_words = 100

abbrev pub min_words : ℕ
min_words = 8

abbrev pub fc_a : ℕ
fc_a = 0x61

abbrev pub fc_sp : ℕ
fc_sp = 0x20

abbrev pub fc_lt : ℕ
fc_lt = 0x3c

abbrev pub min_ck_wlen : ℕ
min_ck_wlen = 3

abbrev pub ck_word_len : ℕ
ck_word_len = 16

abbrev pub skip_wlen : ℕ
skip_wlen = ck_word_len + 1

abbrev pub url_failsafe : ℕ
url_failsafe = 2000

-- `ckCtText`, `ckCtHTML` and `ckCtBinary`
pub data ContentType : Type 0 where
  text html binary : ContentType

abbrev pub is_html : ContentType → Bool
is_html text = false
is_html html = true
is_html binary = false

abbrev pub is_binary : ContentType → Bool
is_binary text = false
is_binary html = false
is_binary binary = true

-- `fuz2St`
pub data Fuz2St : Type 0 where
  word start_tag skip_tag skip_comment : Fuz2St

-- `fuz2Lang`, with the bytes written to its hash.
pub record Lang : Type 0 where
  pub wsummed : ℕ
  pub wtotal : ℕ
  pub md5 : Bytes

-- `fuz2Tbl`: a dictionary in buckets, and the table that it wants, if any.
pub record Tbl : Type 0 where
  pub words : List Bytes
  pub cset : Option Cset

-- `fuz2State`, with the two fields of `cks` that it uses through its pointer.
pub record Fuz2State : Type 0 where
  pub wlen : ℕ
  pub w : Bytes
  pub st : Fuz2St
  pub cref : Cref
  pub btotal : ℕ
  pub xsummed : ℕ
  pub tag_len : ℕ
  pub tag : Bytes
  pub lang : List Lang
  pub mime_ct : ContentType
  pub mime_cset : Cset
  pub panicked : Bool

abbrev pub new_lang : Lang
new_lang = record { wsummed = 0; wtotal = 0; md5 = [] }

-- `newFuz2State`, in the context that `newCks` makes.
abbrev pub new_fuz2_state : Fuz2State
new_fuz2_state = record {
  wlen = 0;
  w = clear;
  st = word;
  cref = record { st = Cref.idle; w = clear; length = 0; result = 0 };
  btotal = 0;
  xsummed = 0;
  tag_len = 0;
  tag = clear;
  lang = new_lang ∷ new_lang ∷ new_lang ∷ new_lang ∷ [];
  mime_ct = text;
  mime_cset = latin1;
  panicked = false;
}

-- The loop of `lookupWord` over what is left of a bucket; `none` is a panic.
unfoldable pub word_loop : ℕ → Bytes → Bytes → ℕ → Option Bool
word_loop zero bucket w wlen = some false
word_loop (suc fuel) [] w wlen = some false
word_loop (suc fuel) (n ∷ bucket) w wlen =
    let later = word_loop fuel (drop n bucket) w wlen in
    if n == 0
    then some false
    else if n == wlen
    then (if ltb (length bucket) n
        then none
        else if bytes_eq (take n bucket) (take n w)
        then some true
        else later)
    else later

unfoldable pub lookup_word : Bytes → ℕ → List Bytes → Option Bool
unfolding word_loop
lookup_word w wlen buckets =
    let bucket = bucket_at buckets (word_hash w % length buckets) in
    word_loop (length bucket) bucket w wlen

abbrev pub is_found : Option Bool → Bool
is_found none = false
is_found (some b) = b

-- `t.cset != nil && t.cset != f.c.mimeCset`
abbrev pub is_other : Option Cset → Cset → Bool
is_other none s = false
is_other (some latin1) latin1 = false
is_other (some latin1) latin2 = true
is_other (some latin2) latin1 = true
is_other (some latin2) latin2 = false

-- The loop of `addWord`.
unfoldable pub add_to : Bytes → ℕ → Cset → List Tbl → List Lang → List Lang
unfolding lookup_word
add_to w wlen s [] langs = langs
add_to w wlen s (t ∷ ts) [] = []
add_to w wlen s (t ∷ ts) (lp ∷ langs) =
    let rest = add_to w wlen s ts langs in
    let added : Lang = record {
      wsummed = lp.wsummed + wlen;
      wtotal = lp.wtotal + 1;
      md5 = write lp.md5 (take wlen w);
    } in
    if is_other t.cset s
    then lp ∷ rest
    else if is_found (lookup_word w wlen t.words)
    then added ∷ rest
    else lp ∷ rest
