-- ===== src/Fuz2.antt =====
-- dcc/fuz2.go and `lookupWord` of dcc/fuz2_tables.go: the checksum of the dictionary words of a body.
-- The dictionaries, which dcc/fuz2_tables.go reads from embedded files, are a parameter.
mod State
pub mod Context
pub mod Charset
pub mod Stream
pub mod Bounds
pub mod Final
pub mod Blob
unfoldable pub use State.*
use gdcc.Base.{
  ℕ, zero, suc, ◌+◌, ◌-◌, ◌*◌, ◌%◌, Bool, true, false, not, ◌&&◌, ◌||◌, Option, some, none, List,
  [], ◌∷◌, ◌++◌, Bytes, codes, ◌==◌, ltb, leb, if◌then◌else◌, length, take, drop, bytes_eq,
}
use gdcc.Hash.{Digest, write, sum_of}
use gdcc.Header.{to_lower}
use gdcc.Cref.{
  Cref, CrefSt, idle, Step, more, taken, short, clear, is_lower, is_digit, is_idle, set_at,
  word_hash, bucket_at,
}
use gdcc.Cref
use gdcc.Fuz2.Charset.{Cset, latin1, latin2, folded}

-- The size of `ckWord`, the array of a word and of a tag: Go panics at an index behind it.
abbrev pub word_size : ℕ
word_size = 16

module _ (tbls : List Tbl) where
  unfoldable pub add_word : Fuz2State → Fuz2State
  unfolding add_to
  add_word f = record f { lang = add_to f.w f.wlen f.mime_cset tbls f.lang }

  abbrev pub skip_word : Fuz2State → Fuz2State
  skip_word f = record f { wlen = skip_wlen }

  abbrev pub junk : Fuz2State → Fuz2State
  junk f = record f { wlen = skip_wlen; st = word }

  -- The state `fuz2StWord` with the folded character.
  unfoldable pub word_char : Fuz2State → ℕ → Fuz2State
  unfolding add_word
  word_char f c =
      let counted : Fuz2State = record f { btotal = f.btotal + 1 } in
      if leb fc_a c
      then (if ltb f.wlen ck_word_len
          then record counted {
            w = set_at f.w f.wlen c;
            wlen = f.wlen + 1;
            panicked = f.panicked || leb word_size f.wlen;
          }
          else skip_word counted)
      else if c == fc_sp
      then (let done = if leb min_ck_wlen f.wlen && leb f.wlen ck_word_len then add_word f else f in
          record done { wlen = 0; w = clear })
      else if c == fc_lt
      then record counted { tag_len = 0; tag = clear; st = start_tag }
      else junk counted

  -- What a step of the reference decoder gives, where `go` reads its character; the result tells
  -- whether the byte was read.
  unfoldable pub with_cref :
      (Fuz2State → ℕ → Fuz2State) → Fuz2State → Cref × Step → Fuz2State × Bool
  with_cref go f (cref, more) = (record f { cref = cref }, true)
  with_cref go f (cref, taken) = (go (record f { cref = cref }) cref.result, true)
  with_cref go f (cref, short) = (go (record f { cref = cref }) cref.result, false)

  -- The characters in a tag or a comment that is skipped.
  unfoldable pub skip_char : Fuz2State → ℕ → Fuz2State
  skip_char f c =
      let summed : Fuz2State = record f { xsummed = f.xsummed + 1; btotal = f.btotal + 1 } in
      if c == b'>'
      then record summed { st = word }
      else if not (folded f.mime_cset c == fc_sp)
      then (let longer : Fuz2State = record summed { tag_len = f.tag_len + 1 } in
          if ltb url_failsafe longer.tag_len then junk longer else longer)
      else f

  -- Whether a byte belongs to the name of a tag.
  unfoldable pub is_tag_char : ℕ → ℕ → Bool
  is_tag_char len c =
      (is_lower c || is_digit c) && ltb len 16
      || (c == b'/' || c == b'!') && len == 0
      || c == b'-' && leb 1 len && leb len 2

  -- A tag "html" makes the text HTML.
  unfoldable pub note_html : Fuz2State → Fuz2State
  note_html f =
      if f.tag_len == 4 && not (is_html f.mime_ct) && bytes_eq (take 4 f.tag) (codes "html")
      then record f { mime_ct = html }
      else f

  -- The end of the name of a tag, before the byte `c`.
  unfoldable pub end_name : Fuz2State → ℕ → Fuz2State × Bool
  end_name f c =
      let summed : Fuz2State = record f { xsummed = f.xsummed + f.tag_len + 1 } in
      if is_html f.mime_ct && ltb 0 f.tag_len
      then (if c == b'>'
          then (
            record summed { xsummed = summed.xsummed + 1; btotal = f.btotal + 1; st = word },
            true,
          )
          else if leb 3 f.tag_len && bytes_eq (take 3 f.tag) (codes "!--")
          then (record summed { st = skip_comment }, false)
          else (record summed { st = skip_tag }, false))
      else (junk f, false)

  unfoldable pub end_tag : Fuz2State → ℕ → Fuz2State × Bool
  unfolding note_html end_name
  end_tag f c = end_name (note_html f) c

  -- One round of the loops of `fuz2` on a byte.
  unfoldable pub round_in : Fuz2St → Fuz2State → ℕ → Fuz2State × Bool
  unfolding word_char with_cref skip_char is_tag_char end_tag
  round_in word f c =
      let go : Fuz2State → ℕ → Fuz2State = λ g b. word_char g (folded g.mime_cset b) in
      let plain = go f c in
      let stepped = with_cref go f (Cref.step f.cref c) in
      if not (is_idle f.cref.st) || c == b'&' && is_html f.mime_ct then stepped else (plain, true)
  round_in start_tag f b =
      let c = to_lower b in
      let ended = end_tag f c in
      if is_tag_char f.tag_len c
      then (
        record f {
          tag = set_at f.tag f.tag_len c;
          tag_len = f.tag_len + 1;
          btotal = f.btotal + 1;
          panicked = f.panicked || leb word_size f.tag_len;
        },
        true,
      )
      else ended
  round_in skip_tag g c =
      let f : Fuz2State = record g { btotal = g.btotal + 1 } in
      let plain = skip_char f c in
      let stepped = with_cref skip_char f (Cref.step f.cref c) in
      if not (is_idle f.cref.st) || c == b'&' then stepped else (plain, true)
  round_in skip_comment f c = (skip_char f c, true)

  unfoldable pub round : Fuz2State → ℕ → Fuz2State × Bool
  unfolding round_in
  round f c = round_in f.st f c

  -- The loops of `fuz2`.
  unfoldable pub fuz2_loop : ℕ → Fuz2State → Bytes → Fuz2State
  unfolding round
  fuz2_loop zero f bp = f
  fuz2_loop (suc fuel) f [] = f
  fuz2_loop (suc fuel) f (c ∷ cs) =
      let (next, read) = round f c in
      let rest = fuz2_loop fuel next (if read then cs else c ∷ cs) in rest

  -- `fuz2`; a byte takes at most 4 rounds.
  unfoldable pub fuz2 : Fuz2State → Bytes → Fuz2State
  unfolding fuz2_loop
  fuz2 f bp = fuz2_loop (length bp * 4 + 4) f bp
