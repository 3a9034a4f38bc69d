-- ===== src/Fuz2/Context.antt =====
-- What the checksum does to the content type and the table that it reads in the context.
use gdcc.Base.{
  ℕ, zero, suc, ◌+◌, ◌*◌, if◌then◌else◌, ◌≡◌, refl, ◌∙◌, false, not, ◌&&◌, ◌||◌, inl, inr,
  Bool-cases, List, [], ◌∷◌, Bytes, ◌==◌, length, arith,
}
use gdcc.Header.{to_lower}
use gdcc.Cref.{Cref, Step, more, taken, short, is_idle}
use gdcc.Cref
use gdcc.Fuz2.{
  Fuz2State, Fuz2St, word, start_tag, skip_tag, skip_comment, Tbl, ContentType, is_binary,
  word_char, with_cref, skip_char, is_tag_char, end_tag, end_name, note_html, round_in, round, fuz2,
  fuz2_loop, add_word, is_html,
}
use gdcc.Fuz2.Charset.{folded}

-- Content that is summed.
abbrev pub IsText : ContentType → Type 0
IsText ct = is_binary ct ≡ false

-- The same table, and no binary content where there was none.
record Keeps (f g : Fuz2State) : Type 0 where
  cset : g.mime_cset ≡ f.mime_cset
  text : IsText f.mime_ct → IsText g.mime_ct

module _ (tbls : List Tbl) where
  word_char-Keeps : (f : Fuz2State) (c : ℕ) → Keeps f (word_char tbls f c)
  unfolding word_char add_word
  word_char-Keeps f c = ground arith

  skip_char-Keeps : (f : Fuz2State) (c : ℕ) → Keeps f (skip_char tbls f c)
  unfolding skip_char
  skip_char-Keeps f c = ground arith

  with_cref-Keeps :
      (go : Fuz2State → ℕ → Fuz2State) (f : Fuz2State) (r : Cref × Step)
      → ((g : Fuz2State) (b : ℕ) → Keeps g (go g b))
      → Keeps f (with_cref tbls go f r).0
  unfolding with_cref
  with_cref-Keeps go f (cref, more) keeps = ground arith
  with_cref-Keeps go f (cref, taken) keeps =
      let k = keeps (record f { cref = cref }) cref.result in
      record { cset = k.cset; text = k.text }
  with_cref-Keeps go f (cref, short) keeps =
      let k = keeps (record f { cref = cref }) cref.result in
      record { cset = k.cset; text = k.text }

  end_tag-Keeps : (f : Fuz2State) (c : ℕ) → Keeps f (end_tag tbls f c).0
  unfolding end_tag
  end_tag-Keeps f c =
      let h = note_html-Keeps in
      let n = end_name-Keeps (note_html tbls f) in
      record { cset = n.cset ∙ h.cset; text = λ t. n.text (h.text t) }
    where
      note_html-Keeps : Keeps f (note_html tbls f)
      note_html-Keeps = unfold note_html in ground arith

      end_name-Keeps : (g : Fuz2State) → Keeps g (end_name tbls g c).0
      end_name-Keeps g = unfold end_name in ground arith

  round_in-Keeps : (s : Fuz2St) (f : Fuz2State) (c : ℕ) → Keeps f (round_in tbls s f c).0
  unfolding round_in
  round_in-Keeps word f c =
      let go : Fuz2State → ℕ → Fuz2State = λ g b. word_char tbls g (folded g.mime_cset b) in
      elim (Bool-cases (not (is_idle f.cref.st) || c == b'&' && is_html f.mime_ct)) [
        | inr plain ↦ rw plain (word_char-Keeps f (folded f.mime_cset c))
        | inl stepped ↦ rw stepped (
            with_cref-Keeps go f (Cref.step f.cref c)
              (λ g b. word_char-Keeps g (folded g.mime_cset b)))
      ]
  round_in-Keeps start_tag f b = elim (Bool-cases (is_tag_char tbls f.tag_len (to_lower b))) [
    | inl in_name ↦ rw in_name (record { cset = refl; text = λ t. t })
    | inr ends ↦ rw ends (end_tag-Keeps f (to_lower b))
  ]
  round_in-Keeps skip_tag f c =
      let g : Fuz2State = record f { btotal = f.btotal + 1 } in
      elim (Bool-cases (not (is_idle f.cref.st) || c == b'&')) [
        | inr plain ↦
            rw plain (let k = skip_char-Keeps g c in record { cset = k.cset; text = k.text })
        | inl stepped ↦ rw stepped (
            let k = with_cref-Keeps (skip_char tbls) g (Cref.step f.cref c) skip_char-Keeps in
            record { cset = k.cset; text = k.text })
      ]
  round_in-Keeps skip_comment f c = skip_char-Keeps f c

  fuz2_loop-Keeps : (fuel : ℕ) (f : Fuz2State) (bp : Bytes) → Keeps f (fuz2_loop tbls fuel f bp)
  unfolding fuz2_loop round
  fuz2_loop-Keeps zero f bp = record { cset = refl; text = λ t. t }
  fuz2_loop-Keeps (suc fuel) f [] = record { cset = refl; text = λ t. t }
  fuz2_loop-Keeps (suc fuel) f (c ∷ cs) =
      let r = round_in tbls f.st f c in
      let one = round_in-Keeps f.st f c in
      let rest = fuz2_loop-Keeps fuel r.0 (if r.1 then cs else c ∷ cs) in
      record { cset = rest.cset ∙ one.cset; text = λ t. rest.text (one.text t) }

  -- The checksum leaves the table alone.
  pub fuz2-mime_cset : (f : Fuz2State) (bp : Bytes) → (fuz2 tbls f bp).mime_cset ≡ f.mime_cset
  unfolding fuz2
  fuz2-mime_cset f bp = (fuz2_loop-Keeps (length bp * 4 + 4) f bp).cset

  -- It never makes a text binary.
  pub fuz2-IsText :
      (f : Fuz2State) (bp : Bytes) → IsText f.mime_ct → IsText (fuz2 tbls f bp).mime_ct
  unfolding fuz2
  fuz2-IsText f bp h = (fuz2_loop-Keeps (length bp * 4 + 4) f bp).text h
