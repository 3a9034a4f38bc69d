-- ===== src/Content/Multipart/Ends.antt =====
-- The walk over a body with MIME boundaries ends.
use gdcc.Base.{
  ℕ, zero, suc, ◌+◌, ◌-◌, ◌≤◌, ◌<◌, ◌≡◌, refl, sym, ◌∙◌, ◌⊎◌, inl, inr, true, false, not, Option,
  none, some, List, [], ◌∷◌, ◌++◌, Bytes, ◌==◌, if◌then◌else◌, length, take, map, arith, Bool-cases,
  ==_iff, length-drop, length-take,
}
use gdcc.Fuz2.{Tbl}
use gdcc.Mime.Context.{Mime, Bnd, bnd_at, decoders_init, TransferEncoding, ce_ascii, ce_qp, ce_b64}
use gdcc.Mime.Quoted.{qp_chunks, qp_fuel}
use gdcc.Mime.Base64.{b64_chunks}
use gdcc.Content.{
  FuzzySum, Cks, decode_sum, decode_text, sum_chunk, sum_chunks, body_sum, fz1_sum, fz2_sum,
  tbuf_len,
}
use gdcc.Content.Multipart.{
  Tried, try_bnds, next_line, ends_line, is_hdrs, uncompared, restart, Walk, flush, header_line,
  line_step, enter, after_tries, bnd_step, walk_round, walk_loop, ck_body_multipart,
}
use gdcc.Content.Multipart.Tries.{live, Matches, try_bnds-live}

module _ (tbls : List Tbl) {F : Type 0} (ops : FuzzySum F) where
  -- What summing bytes leaves alone in the context.
  record Frame (c d : Mime) : Type 0 where
    nest : d.mime_nest ≡ c.mime_nest
    bnd : d.mime_bnd ≡ c.mime_bnd
    matches : d.mime_bnd_matches ≡ c.mime_bnd_matches

  Frame-refl : (c : Mime) → Frame c c
  Frame-refl c = record { nest = refl; bnd = refl; matches = refl }

  Frame-trans : (a b c : Mime) → Frame a b → Frame b c → Frame a c
  Frame-trans a b c f g = record {
    nest = g.nest ∙ f.nest;
    bnd = g.bnd ∙ f.bnd;
    matches = g.matches ∙ f.matches;
  }

  sum_chunk-Frame : (c : Cks F) (p : Bytes) → Frame c.mime (sum_chunk tbls ops c p).mime
  unfolding sum_chunk body_sum fz1_sum fz2_sum
  sum_chunk-Frame c p = ground arith

  sum_chunks-Frame : (c : Cks F) (ps : List Bytes) → Frame c.mime (sum_chunks tbls ops c ps).mime
  unfolding sum_chunks
  sum_chunks-Frame c [] = Frame-refl c.mime
  sum_chunks-Frame c (p ∷ ps) =
      let d = sum_chunk tbls ops c p in
      Frame-trans c.mime d.mime _ (sum_chunk-Frame c p) (sum_chunks-Frame d ps)

  decode_text-Frame :
      (enc : TransferEncoding) (c : Cks F) (bp : Bytes)
      → Frame c.mime (decode_text tbls ops enc c bp).mime
  unfolding decode_text
  decode_text-Frame ce_ascii c bp = sum_chunk-Frame c bp
  decode_text-Frame ce_qp c bp =
      let r = qp_chunks (qp_fuel bp) tbuf_len c.mime.qp bp in
      let d : Cks F = record c { mime = record c.mime { qp = r.1 } } in
      Frame-trans c.mime d.mime _ (record { nest = refl; bnd = refl; matches = refl })
        (sum_chunks-Frame d r.0)
  decode_text-Frame ce_b64 c bp =
      let r = b64_chunks (length bp + 1) tbuf_len c.mime.b64 bp in
      let d : Cks F = record c { mime = record c.mime { b64 = r.1 } } in
      Frame-trans c.mime d.mime _ (record { nest = refl; bnd = refl; matches = refl })
        (sum_chunks-Frame d r.0)

  decode_sum-Frame : (c : Cks F) (bp : Bytes) → Frame c.mime (decode_sum tbls ops c bp).mime
  unfolding decode_sum body_sum fz1_sum fz2_sum
  decode_sum-Frame c bp = ground (arith, decode_text-Frame c.mime.mime_ce c bp)

  flush-Frame : (c : Cks F) (bp : Bytes) → Frame c.mime (flush tbls ops c bp).mime
  unfolding flush
  flush-Frame c bp = ground (arith, decode_sum-Frame c bp, Frame-refl c.mime)

  -- The boundaries that count as compared are at most those that are.
  abbrev pub Live : Mime → Type 0
  Live m = m.mime_bnd_matches ≤ live m.mime_nest 0 m.mime_bnd

  live-uncompared : (k i : ℕ) (bs : List Bnd) → live k i (map uncompared bs) ≡ k
  live-uncompared zero i bs = refl
  live-uncompared (suc k) i bs =
      rw (bnd_at-uncompared bs i, live-uncompared k (i + 1) bs) (omega arith)
    where
      bnd_at-uncompared : (bs : List Bnd) (i : ℕ) → (bnd_at (map uncompared bs) i).cmp_len ≡ 0
      bnd_at-uncompared [] i = refl
      bnd_at-uncompared (b ∷ bs) zero = refl
      bnd_at-uncompared (b ∷ bs) (suc i) = bnd_at-uncompared bs i

  restart-Live : (m : Mime) → Live (restart m)
  unfolding restart
  restart-Live m = omega (arith, live-uncompared m.mime_nest 0 m.mime_bnd)

  -- A line that does not end has nothing behind it.
  next_line-rest : (bp : Bytes) → ends_line (next_line bp).0 ≡ false → (next_line bp).1 ≡ []
  unfolding next_line
  next_line-rest [] h = refl
  next_line-rest (ch ∷ bp) h = elim (Bool-cases (ch == b'\n')) [
    | inl nl ↦ (let x : true ≡ false = sym nl ∙ rw nl at h in absurd (cc))
    | inr more ↦ rw more (next_line-rest bp (ends_line-cons (next_line bp).0 (rw more at h)))
  ]
    where
      ends_line-cons : (line : Bytes) → ends_line (ch ∷ line) ≡ false → ends_line line ≡ false
      ends_line-cons [] h = refl
      ends_line-cons (d ∷ line) h = h

  next_line_shorter : (ch : ℕ) (bp : Bytes) → length (next_line (ch ∷ bp)).1 < length (ch ∷ bp)
  unfolding next_line
  next_line_shorter ch [] = ground arith
  next_line_shorter ch (d ∷ bp) = ground (arith, next_line_shorter d bp)

  -- A line step reads a line, and then the boundaries are compared anew or nothing is left.
  line_step-Live :
      (w : Walk F)
      → let d = line_step tbls ops w in
        (0 < length w.rest → length d.rest < length w.rest) × ((d.rest ≡ []) ⊎ Live d.cks.mime)
  unfolding line_step
  line_step-Live w = (
    λ h. shorter w.rest h,
    elim (Bool-cases (ends_line (next_line w.rest).0)) [
      | inl ended ↦
          let line = (next_line w.rest).0 in
          let r : Cks F × Bytes =
            if is_hdrs w.cks.mime.mp_st
            then header_line tbls ops w.cks w.pending line
            else (w.cks, w.pending ++ line) in
          rw ended (inr (restart-Live r.0.mime))
      | inr cut ↦ inl (next_line-rest w.rest cut)
    ],
  )
    where
      shorter : (bp : Bytes) → 0 < length bp → length (next_line bp).1 < length bp
      shorter [] h = absurd (omega arith)
      shorter (ch ∷ bp) h = next_line_shorter ch bp

  enter-matches :
      (bi : ℕ) (c : Cks F) (pending : Bytes)
      → (enter tbls ops bi c pending).mime.mime_bnd_matches ≡ 0
  unfolding enter decoders_init
  enter-matches bi c pending = ground arith

  -- The comparisons at a line's start: a boundary's part at the end, or none is compared any more.
  abbrev Stepped : Walk F → Walk F → Type 0
  Stepped w d =
      (d.rest ≡ []) ⊎ ((d.cks.mime.mime_bnd_matches ≡ 0) × (length d.rest ≤ length w.rest))

  bnd_step-Stepped :
      (w : Walk F) → 0 < length w.rest → Live w.cks.mime → Stepped w (bnd_step tbls ops w)
  unfolding bnd_step
  bnd_step-Stepped w h l =
      after (try_bnds w.cks.mime.mime_nest 0 w.cks.mime w.rest 0)
        (try_bnds-live w.cks.mime.mime_nest 0 w.cks.mime w.rest h)
    where
      taken : (bp : Bytes) (n : ℕ) → n ≡ length bp → take (length bp - n) bp ≡ []
      taken bp n e = let z : length bp - n ≡ 0 = omega arith in rw z refl

      found_case :
          (t : Tried) (o : Option ℕ)
          → (o ≡ none → (t.matched ≡ length w.rest) ⊎ (t.mime.mime_bnd_matches ≡ 0))
          → Stepped w (after_tries tbls ops w t o)
      found_case t none e =
          unfold after_tries in
          elim (e refl) [
            | inl all ↦ inl (taken w.rest t.matched all)
            | inr failed ↦
                inr (failed, omega (arith, length-take (length w.rest - t.matched) w.rest))
          ]
      found_case t (some bi) e =
          unfold after_tries in
          inr (enter-matches bi _ w.pending, omega (arith, length-drop t.matched w.rest))

      after :
          (t : Tried)
          → Matches w.rest t
            ⊎ ((t.found ≡ none)
                × (t.matched ≡ 0)
                × (t.mime.mime_bnd_matches
                    ≡ w.cks.mime.mime_bnd_matches
                      - live w.cks.mime.mime_nest 0 w.cks.mime.mime_bnd))
          → Stepped w (after_tries tbls ops w t t.found)
      after t (inl (pos, all)) = found_case t t.found (λ e. inl (all e))
      after t (inr (f, z, e)) = found_case t t.found (λ _. inr (omega (arith, e, l)))

  abbrev pending_test : ℕ → ℕ
  pending_test n = if n == 0 then 0 else 1

  -- A line is read with its boundaries compared, or they are compared.
  abbrev pub measure : Walk F → ℕ
  measure w = length w.rest + length w.rest + pending_test w.cks.mime.mime_bnd_matches

  test_le : (n : ℕ) → pending_test n ≤ 1
  test_le n = ground arith

  -- What a round of the walk gives.
  abbrev Lower : Walk F → Walk F → Type 0
  Lower w d = (measure d < measure w) × ((d.rest ≡ []) ⊎ Live d.cks.mime)

  -- The comparisons at the start of the line where the round began.
  compared-Lower :
      (w d : Walk F)
      → 0 < length w.rest
      → pending_test w.cks.mime.mime_bnd_matches ≡ 1
      → Stepped w d
      → Lower w d
  compared-Lower w d h one (inl e) =
      let z : length d.rest ≡ 0 = rw e refl in
      (omega (arith, test_le d.cks.mime.mime_bnd_matches), inl e)
  compared-Lower w d h one (inr (z, le)) =
      let none : pending_test d.cks.mime.mime_bnd_matches ≡ 0 = rw z refl in
      (omega (arith, none), inr (omega (arith, z)))

  -- The comparisons behind a line that has been read.
  read-Lower :
      (w m d : Walk F) → 0 < length w.rest → length m.rest < length w.rest → Stepped m d → Lower w d
  read-Lower w m d h less (inl e) =
      let z : length d.rest ≡ 0 = rw e refl in
      (omega (arith, test_le d.cks.mime.mime_bnd_matches), inl e)
  read-Lower w m d h less (inr (z, le)) =
      let none : pending_test d.cks.mime.mime_bnd_matches ≡ 0 = rw z refl in
      (omega (arith, none), inr (omega (arith, z)))

  ready : (w : Walk F) → 0 < length w.rest → (w.rest ≡ []) ⊎ Live w.cks.mime → Live w.cks.mime
  ready w h (inl e) = let z : length w.rest ≡ 0 = rw e refl in absurd (omega arith)
  ready w h (inr l) = l

  line-Lower :
      (w m : Walk F)
      → 0 < length w.rest
      → length m.rest < length w.rest
      → (m.rest ≡ []) ⊎ Live m.cks.mime
      → Lower w (if length m.rest == 0 then m else bnd_step tbls ops m)
  line-Lower w m h less live = elim (Bool-cases (length m.rest == 0)) [
    | inl z ↦ rw z (omega (arith, test_le m.cks.mime.mime_bnd_matches, (==_iff _ _).0 z), live)
    | inr more ↦ rw more (
        let left : 0 < length m.rest = ground arith in
        read-Lower w m (bnd_step tbls ops m) h less (bnd_step-Stepped m left (ready m left live)))
  ]

  -- One round lowers the measure.
  walk_round-measure :
      (w : Walk F)
      → 0 < length w.rest
      → Live w.cks.mime
      → let d = walk_round tbls ops w in (measure d < measure w) × ((d.rest ≡ []) ⊎ Live d.cks.mime)
  unfolding walk_round
  walk_round-measure w h l = elim (Bool-cases (not (w.cks.mime.mime_bnd_matches == 0))) [
    | inl compared ↦
        rw compared
          (compared-Lower w (bnd_step tbls ops w) h (ground arith) (bnd_step-Stepped w h l))
    | inr line ↦
        rw line (
          let (less, live) = line_step-Live w in
          line-Lower w (line_step tbls ops w) h (less h) live)
  ]

  walk_loop-ends :
      (fuel : ℕ) (w : Walk F)
      → measure w < fuel
      → (w.rest ≡ []) ⊎ Live w.cks.mime
      → (d : Cks F) × (walk_loop tbls ops fuel w ≡ some d)
  unfolding walk_loop
  walk_loop-ends zero w h l = absurd (omega arith)
  walk_loop-ends (suc fuel) w h l = elim (Bool-cases (length w.rest == 0)) [
    | inl done ↦ rw done (flush tbls ops w.cks w.pending, refl)
    | inr more ↦ elim (Bool-cases (w.cks.mime.mime_nest == 0)) [
      | inl out ↦ rw (more, out) (decode_sum tbls ops w.cks (w.pending ++ w.rest), refl)
      | inr inside ↦
          rw (more, inside)
            (let left : 0 < length w.rest = ground arith in
              let (less, live) = walk_round-measure w left (ready w left l) in
              walk_loop-ends fuel (walk_round tbls ops w) (omega (arith, less)) live)
    ]
  ]

  -- The walk of `ckBodyMultipart` over any body ends within two rounds for a byte and two more, where
  -- no more boundaries count as compared than are.
  pub ck_body_multipart-ends :
      (c : Cks F) (bp : Bytes)
      → Live c.mime
      → (d : Cks F) × (ck_body_multipart tbls ops c bp ≡ some d)
  unfolding ck_body_multipart
  ck_body_multipart-ends c bp l =
      let w : Walk F = record { cks = c; pending = []; rest = bp } in
      walk_loop-ends (length bp + length bp + 2) w (omega (arith, test_le c.mime.mime_bnd_matches))
        (inr l)
