-- ===== src/Fuz2/Bounds.antt =====
-- The words and tags that are read stay inside their 16 bytes.
use gdcc.Base.{
  leb, false, ℕ, zero, suc, ◌+◌, ◌≤◌, ◌<◌, ◌≡◌, refl, ◌∙◌, true, not, ◌&&◌, ◌||◌, inl, inr,
  Bool-cases, List, [], ◌∷◌, Bytes, ◌==◌, length, All, arith,
}
use gdcc.Base.Words.{IsByte}
use gdcc.Header.{to_lower}
use gdcc.Cref.{Cref, Step, more, taken, short, is_idle, set_at}
use gdcc.Cref
use gdcc.Cref.Steps.{Fits, step-Fits, length-set_at}
use gdcc.Fuz2.{
  Fuz2State, Fuz2St, word, start_tag, skip_tag, skip_comment, Tbl, word_char, with_cref, skip_char,
  is_tag_char, end_tag, end_name, note_html, round_in, round, fuz2, add_word, is_html,
}
use gdcc.Fuz2.Charset.{folded}
use gdcc.Fuz2.Stream.{eat, each, fuz2-each}

abbrev TagLimit : Fuz2St → ℕ → Type 0
TagLimit word n = Unit
TagLimit start_tag n = n ≤ 16
TagLimit skip_tag n = Unit
TagLimit skip_comment n = Unit

-- No index has been behind an array, the word and the tag have their 16 bytes, the length of the word is at most 17, where 17 marks a
-- word that is skipped, a tag's name ends inside the tag, and the reference decoder is in order.
pub record Sound (f : Fuz2State) : Type 0 where
  pub calm : f.panicked ≡ false
  pub word_16 : length f.w ≡ 16
  pub tag_16 : length f.tag ≡ 16
  pub wlen_17 : f.wlen ≤ 17
  pub name : TagLimit f.st f.tag_len
  pub cref : Fits f.cref

module _ (tbls : List Tbl) where
  word_char-Sound : (f : Fuz2State) (c : ℕ) → f.st ≡ word → Sound f → Sound (word_char tbls f c)
  unfolding word_char add_word
  word_char-Sound f c e s = ground (arith, s, e, length-set_at f.w f.wlen c)

  skip_char-Sound : (f : Fuz2State) (c : ℕ) → f.st ≡ skip_tag → Sound f → Sound (skip_char tbls f c)
  unfolding skip_char
  skip_char-Sound f c e s = ground (arith, s, e)

  skip_char-Sound_comment :
      (f : Fuz2State) (c : ℕ) → f.st ≡ skip_comment → Sound f → Sound (skip_char tbls f c)
  unfolding skip_char
  skip_char-Sound_comment f c e s = ground (arith, s, e)

  with_cref-Sound :
      (go : Fuz2State → ℕ → Fuz2State) (f : Fuz2State) (r : Cref × Step)
      → ((g : Fuz2State) (b : ℕ) → g.st ≡ f.st → Sound g → Sound (go g b))
      → Fits r.0
      → Sound f
      → Sound (with_cref tbls go f r).0
  unfolding with_cref
  with_cref-Sound go f (cref, more) keeps fits s = ground (arith, s, fits)
  with_cref-Sound go f (cref, taken) keeps fits s =
      keeps (record f { cref = cref }) cref.result refl (ground (arith, s, fits))
  with_cref-Sound go f (cref, short) keeps fits s =
      keeps (record f { cref = cref }) cref.result refl (ground (arith, s, fits))

  end_tag-Sound : (f : Fuz2State) (c : ℕ) → Sound f → Sound (end_tag tbls f c).0
  unfolding end_tag
  end_tag-Sound f c s = end_name-Sound (note_html tbls f) (note_html-Sound f s)
    where
      note_html-Sound : (f : Fuz2State) → Sound f → Sound (note_html tbls f)
      note_html-Sound f s = unfold note_html in ground (arith, s)

      end_name-Sound : (f : Fuz2State) → Sound f → Sound (end_name tbls f c).0
      end_name-Sound f s = unfold end_name in ground (arith, s)

  round_in-Sound :
      (s : Fuz2St) (f : Fuz2State) (c : ℕ)
      → f.st ≡ s
      → c < 256
      → Sound f
      → Sound (round_in tbls s f c).0
  unfolding round_in
  round_in-Sound word f c e b s =
      let go : Fuz2State → ℕ → Fuz2State = λ g x. word_char tbls g (folded g.mime_cset x) in
      elim (Bool-cases (not (is_idle f.cref.st) || c == b'&' && is_html f.mime_ct)) [
        | inr plain ↦ rw plain (word_char-Sound f (folded f.mime_cset c) e s)
        | inl stepped ↦ rw stepped (
            with_cref-Sound go f (Cref.step f.cref c)
              (λ g x eq sg. word_char-Sound g (folded g.mime_cset x) (eq ∙ e) sg)
              (step-Fits f.cref c b s.cref) s)
      ]
  round_in-Sound start_tag f c e b s = elim (Bool-cases (is_tag_char tbls f.tag_len (to_lower c))) [
    | inl in_name ↦ rw in_name (tag_char-Sound in_name)
    | inr ends ↦ rw ends (end_tag-Sound f (to_lower c) s)
  ]
    where
      tag_char-Sound :
          is_tag_char tbls f.tag_len (to_lower c) ≡ true
          → Sound (record f {
            tag = set_at f.tag f.tag_len (to_lower c);
            tag_len = f.tag_len + 1;
            btotal = f.btotal + 1;
            panicked = f.panicked || leb 16 f.tag_len;
          })
      tag_char-Sound h =
          let short_name : f.tag_len < 16 = unfold is_tag_char in ground (arith, h) in
          ground (arith, s, length-set_at f.tag f.tag_len (to_lower c), short_name, e)
  round_in-Sound skip_tag f c e b s =
      let g : Fuz2State = record f { btotal = f.btotal + 1 } in
      let sg : Sound g = ground (arith, s) in
      elim (Bool-cases (not (is_idle f.cref.st) || c == b'&')) [
        | inr plain ↦ rw plain (skip_char-Sound g c e sg)
        | inl stepped ↦ rw stepped (
            with_cref-Sound (skip_char tbls) g (Cref.step f.cref c)
              (λ k x eq sk. skip_char-Sound k x (eq ∙ e) sk) (step-Fits f.cref c b s.cref) sg)
      ]
  round_in-Sound skip_comment f c e b s = skip_char-Sound_comment f c e s

  eat-Sound : (k : ℕ) (f : Fuz2State) (c : ℕ) → c < 256 → Sound f → Sound (eat tbls k f c)
  unfolding eat
  eat-Sound zero f c b s = s
  eat-Sound (suc k) f c b s =
      let next : Sound (round tbls f c).0 = unfold round in round_in-Sound f.st f c refl b s in
      elim (Bool-cases (round tbls f c).1) [
        | inl read ↦ rw read next
        | inr unread ↦ rw unread (eat-Sound k (round tbls f c).0 c b next)
      ]

  each-Sound : (f : Fuz2State) (bp : Bytes) → All IsByte bp → Sound f → Sound (each tbls f bp)
  unfolding each
  each-Sound f [] h s = s
  each-Sound f (c ∷ cs) h s = each-Sound (eat tbls 4 f c) cs h.1 (eat-Sound 4 f c h.0 s)

  -- Reading bytes writes no byte behind the 16 of the word or of the tag, where Go panics, and keeps the
  -- length of the word at most 17, where 17 marks a word that is skipped, the name of a tag inside
  -- the tag and the reference decoder in order.
  pub fuz2-Sound : (f : Fuz2State) (bp : Bytes) → All IsByte bp → Sound f → Sound (fuz2 tbls f bp)
  fuz2-Sound f bp h s = rw (fuz2-each tbls f bp) (each-Sound f bp h s)
