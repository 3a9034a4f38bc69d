-- ===== src/Fuz2/Stream.antt =====
-- The loops of `fuz2` end, and how the body is cut into pieces makes no difference.
use gdcc.Base.{
  ℕ, zero, suc, ◌+◌, ◌*◌, ◌≤◌, ◌<◌, ◌≡◌, refl, sym, ap, ◌∙◌, true, false, not, ◌&&◌, ◌||◌, inl, inr,
  Bool-cases, List, [], ◌∷◌, ◌++◌, Bytes, ◌==◌, if◌then◌else◌, length, arith,
}
use gdcc.Header.{to_lower}
use gdcc.Cref.{Cref, Step, more, taken, short, is_idle, set_at}
use gdcc.Cref
use gdcc.Cref.Steps.{step-short}
use gdcc.Fuz2.{
  Fuz2State, Fuz2St, word, start_tag, skip_tag, skip_comment, Tbl, word_char, with_cref, skip_char,
  is_tag_char, end_tag, end_name, note_html, round_in, round, fuz2_loop, fuz2, add_word, is_html,
}
use gdcc.Fuz2.Charset.{folded}

abbrev in_start : Fuz2St → ℕ
in_start word = 0
in_start start_tag = 1
in_start skip_tag = 0
in_start skip_comment = 0

-- How many rounds can pass before a byte is read.
pub rank : Fuz2State → ℕ
rank f = in_start f.st + (if is_idle f.cref.st then 0 else 2)

in_start_le : (s : Fuz2St) → in_start s ≤ 1
in_start_le word = omega arith
in_start_le start_tag = omega arith
in_start_le skip_tag = omega arith
in_start_le skip_comment = omega arith

rank_le : (f : Fuz2State) → rank f ≤ 3
unfolding rank
rank_le f = ground (arith, in_start_le f.st)

module _ (tbls : List Tbl) where
  word_char-cref : (f : Fuz2State) (c : ℕ) → (word_char tbls f c).cref ≡ f.cref
  unfolding word_char add_word
  word_char-cref f c = ground arith

  skip_char-cref : (f : Fuz2State) (c : ℕ) → (skip_char tbls f c).cref ≡ f.cref
  unfolding skip_char
  skip_char-cref f c = ground arith

  -- A reference that ends before the byte leaves the decoder idle.
  with_cref-rank :
      (go : Fuz2State → ℕ → Fuz2State) (f : Fuz2State) (r : Cref × Step)
      → ((g : Fuz2State) (b : ℕ) → (go g b).cref ≡ g.cref)
      → (r.1 ≡ short → is_idle r.0.st ≡ true)
      → (with_cref tbls go f r).1 ≡ false
      → rank (with_cref tbls go f r).0 ≤ 1
  unfolding with_cref rank
  with_cref-rank go f (cref, more) keeps ends h = absurd (cc)
  with_cref-rank go f (cref, taken) keeps ends h = absurd (cc)
  with_cref-rank go f (cref, short) keeps ends h =
      let g : Fuz2State = record f { cref = cref } in
      rw (keeps g cref.result, ends refl) (omega (arith, in_start_le (go g cref.result).st))

  -- A round of a decoder that is not idle, or begins a reference, on a byte that it does not read.
  stepped-rank :
      (go : Fuz2State → ℕ → Fuz2State) (f : Fuz2State) (c : ℕ)
      → ((g : Fuz2State) (b : ℕ) → (go g b).cref ≡ g.cref)
      → (with_cref tbls go f (Cref.step f.cref c)).1 ≡ false
      → (is_idle f.cref.st ≡ false) × (rank (with_cref tbls go f (Cref.step f.cref c)).0 ≤ 1)
  stepped-rank go f c keeps h =
      let r = Cref.step f.cref c in
      let stops : r.1 ≡ short = with_cref-short go f r h in
      let (ended, busy) = step-short f.cref c stops in
      (busy, with_cref-rank go f r keeps (λ e. ended) h)
    where
      with_cref-short :
          (go : Fuz2State → ℕ → Fuz2State) (f : Fuz2State) (r : Cref × Step)
          → (with_cref tbls go f r).1 ≡ false
          → r.1 ≡ short
      with_cref-short go f (cref, more) h = absurd (unfold with_cref in cc)
      with_cref-short go f (cref, taken) h = absurd (unfold with_cref in cc)
      with_cref-short go f (cref, short) h = refl

  end_name-rank :
      (f : Fuz2State) (c : ℕ)
      → (end_name tbls f c).1 ≡ false
      → (in_start (end_name tbls f c).0.st ≡ 0) × ((end_name tbls f c).0.cref ≡ f.cref)
  unfolding end_name
  end_name-rank f c h = (ground (arith, h), ground (arith, h))

  note_html-cref : (f : Fuz2State) → (note_html tbls f).cref ≡ f.cref
  unfolding note_html
  note_html-cref f = ground arith

  rank_busy : (f : Fuz2State) → is_idle f.cref.st ≡ false → 2 ≤ rank f
  unfolding rank
  rank_busy f h = rw h (omega arith)

  end_tag-rank :
      (f : Fuz2State) (c : ℕ)
      → f.st ≡ start_tag
      → (end_tag tbls f c).1 ≡ false
      → rank (end_tag tbls f c).0 < rank f
  unfolding end_tag rank
  end_tag-rank f c e h =
      let (z, k) = end_name-rank (note_html tbls f) c h in
      rw (z, k, note_html-cref f, e) (omega arith)

  round_in-rank :
      (s : Fuz2St) (f : Fuz2State) (c : ℕ)
      → f.st ≡ s
      → (round_in tbls s f c).1 ≡ false
      → rank (round_in tbls s f c).0 < rank f
  unfolding round_in
  round_in-rank word f c e h =
      let go : Fuz2State → ℕ → Fuz2State = λ g b. word_char tbls g (folded g.mime_cset b) in
      elim (Bool-cases (not (is_idle f.cref.st) || c == b'&' && is_html f.mime_ct)) [
        | inr plain ↦ (let x : true ≡ false = rw plain at h in absurd (cc))
        | inl stepped ↦
            let (busy, le) =
              stepped-rank go f c (λ g b. word_char-cref g (folded g.mime_cset b))
                (rw stepped at h) in
            rw stepped (omega (arith, le, rank_busy f busy))
      ]
  round_in-rank start_tag f c e h = elim (Bool-cases (is_tag_char tbls f.tag_len (to_lower c))) [
    | inl in_name ↦ (let x : true ≡ false = rw in_name at h in absurd (cc))
    | inr ends ↦ rw ends (end_tag-rank f (to_lower c) e (rw ends at h))
  ]
  round_in-rank skip_tag f c e h =
      let g : Fuz2State = record f { btotal = f.btotal + 1 } in
      elim (Bool-cases (not (is_idle f.cref.st) || c == b'&')) [
        | inr plain ↦ (let x : true ≡ false = rw plain at h in absurd (cc))
        | inl stepped ↦
            let (busy, le) = stepped-rank (skip_char tbls) g c skip_char-cref (rw stepped at h) in
            rw stepped (omega (arith, le, rank_busy f busy))
      ]
  round_in-rank skip_comment f c e h = absurd (cc)

  round-rank :
      (f : Fuz2State) (c : ℕ) → (round tbls f c).1 ≡ false → rank (round tbls f c).0 < rank f
  unfolding round
  round-rank f c h = round_in-rank f.st f c refl h

  -- At most `k` rounds on a byte, up to the one that reads it.
  unfoldable pub eat : ℕ → Fuz2State → ℕ → Fuz2State
  eat zero f c = f
  eat (suc k) f c =
      let (next, read) = round tbls f c in let again = eat k next c in if read then next else again

  -- The state behind the bytes, one after the other.
  unfoldable pub each : Fuz2State → Bytes → Fuz2State
  each f [] = f
  each f (c ∷ cs) = each (eat 4 f c) cs

  eat_fuel : (k m : ℕ) (f : Fuz2State) (c : ℕ) → rank f < k → rank f < m → eat k f c ≡ eat m f c
  unfolding eat
  eat_fuel zero m f c hk hm = absurd (omega arith)
  eat_fuel (suc k) zero f c hk hm = absurd (omega arith)
  eat_fuel (suc k) (suc m) f c hk hm = elim (Bool-cases (round tbls f c).1) [
    | inl read ↦ rw read refl
    | inr unread ↦
        let less = round-rank f c unread in
        rw unread (eat_fuel k m (round tbls f c).0 c (omega (arith, less)) (omega (arith, less)))
  ]

  fuz2_loop-each :
      (fuel : ℕ) (f : Fuz2State) (bp : Bytes)
      → length bp * 4 + rank f < fuel
      → fuz2_loop tbls fuel f bp ≡ each f bp
  unfolding fuz2_loop each eat
  fuz2_loop-each zero f bp h = absurd (omega arith)
  fuz2_loop-each (suc fuel) f [] h = refl
  fuz2_loop-each (suc fuel) f (c ∷ cs) h =
      let next = (round tbls f c).0 in
      elim (Bool-cases (round tbls f c).1) [
        | inl read ↦ rw read (fuz2_loop-each fuel next cs (omega (arith, rank_le next)))
        | inr unread ↦
            let less = round-rank f c unread in
            let again =
              eat_fuel 4 3 next c (omega (arith, rank_le f, less))
                (omega (arith, rank_le f, less)) in
            rw unread (
              fuz2_loop-each fuel next (c ∷ cs) (omega (arith, less))
              ∙ ap (λ (g : Fuz2State). each g cs) again)
      ]

  -- The loops of `fuz2` end with the state behind all the bytes, read one after the other.
  pub fuz2-each : (f : Fuz2State) (bp : Bytes) → fuz2 tbls f bp ≡ each f bp
  unfolding fuz2
  fuz2-each f bp = fuz2_loop-each (length bp * 4 + 4) f bp (omega (arith, rank_le f))

  each-append : (f : Fuz2State) (a b : Bytes) → each f (a ++ b) ≡ each (each f a) b
  unfolding each
  each-append f [] b = refl
  each-append f (c ∷ cs) b = each-append (eat 4 f c) cs b

  -- Two pieces of a body leave the state that the pieces in one leave.
  pub fuz2-append :
      (f : Fuz2State) (a b : Bytes) → fuz2 tbls (fuz2 tbls f a) b ≡ fuz2 tbls f (a ++ b)
  fuz2-append f a b =
      fuz2-each (fuz2 tbls f a) b
      ∙ ap (λ (g : Fuz2State). each g b) (fuz2-each f a)
      ∙ sym (each-append f a b)
      ∙ sym (fuz2-each f (a ++ b))
