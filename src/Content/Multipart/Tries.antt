-- ===== src/Content/Multipart/Tries.antt =====
-- dcc/mime_multipart.go: the comparisons of the boundaries at the start of a line.
use gdcc.Base.{
  ℕ, zero, suc, ◌+◌, ◌-◌, ◌≤◌, ◌<◌, ◌≡◌, refl, ap, subst, ◌⊎◌, inl, inr, none, List, [], ◌∷◌, Bytes,
  ◌==◌, if◌then◌else◌, length, drop, arith, Bool-cases,
}
use Prim.Native.Nat.{min}
use native.Mathlib.Nat.{zero-add}
use gdcc.Mime.Context.{Mime, Bnd, bnd_at, set_bnd, ck_bnd_miss}
use gdcc.Content.Multipart.{
  BndTest, missed, partial, whole, match_bnd, bnd_tail, bnd_dash, bnd_blanks, Tried, set_cmp,
  note_test, or_found, try_bnds,
}

abbrev alive : Bnd → ℕ
alive b = if b.cmp_len == ck_bnd_miss then 0 else 1

-- The boundaries that are still compared, among the `k` from `i` on.
abbrev pub live : ℕ → ℕ → List Bnd → ℕ
live zero i bs = 0
live (suc k) i bs = alive (bnd_at bs i) + live k (i + 1) bs

bnd_at-set_bnd :
    (bs : List Bnd) (i j : ℕ) (x : Bnd) → i < j → bnd_at (set_bnd bs i x) j ≡ bnd_at bs j
bnd_at-set_bnd [] i j x h = refl
bnd_at-set_bnd (b ∷ bs) i zero x h = absurd (omega arith)
bnd_at-set_bnd (b ∷ bs) zero (suc j) x h = refl
bnd_at-set_bnd (b ∷ bs) (suc i) (suc j) x h = bnd_at-set_bnd bs i j x (omega arith)

live-set_bnd :
    (k i j : ℕ) (bs : List Bnd) (x : Bnd) → i < j → live k j (set_bnd bs i x) ≡ live k j bs
live-set_bnd zero i j bs x h = refl
live-set_bnd (suc k) i j bs x h =
    rw (bnd_at-set_bnd bs i j x h)
      (ap (λ (n : ℕ). alive (bnd_at bs j) + n) (live-set_bnd k i (j + 1) bs x (omega arith)))

-- The line of a boundary that is found is longer than `n`.
abbrev Longer : ℕ → BndTest → Type 0
Longer n missed = Unit
Longer n (partial cmp) = Unit
Longer n (whole cmp m) = n < m

Longer-weaken : (n k : ℕ) (t : BndTest) → n ≤ k → Longer k t → Longer n t
Longer-weaken n k missed h l = tt
Longer-weaken n k (partial cmp) h l = tt
Longer-weaken n k (whole cmp m) h l = omega arith

bnd_blanks-Longer : (cmp n : ℕ) (bp : Bytes) → Longer n (bnd_blanks cmp n bp)
unfolding bnd_blanks
bnd_blanks-Longer cmp n [] = tt
bnd_blanks-Longer cmp n (ch ∷ bp) =
    let later =
      Longer-weaken n (n + 1) (bnd_blanks cmp (n + 1) bp) (omega arith)
        (bnd_blanks-Longer cmp (n + 1) bp) in
    ground (arith, later)

bnd_dash-Longer : (cmp n : ℕ) (bp : Bytes) → Longer n (bnd_dash cmp n bp)
unfolding bnd_dash
bnd_dash-Longer cmp n [] = tt
bnd_dash-Longer cmp n (ch ∷ bp) =
    let later =
      Longer-weaken n (n + 1) (bnd_blanks (cmp + 1) (n + 1) bp) (omega arith)
        (bnd_blanks-Longer (cmp + 1) (n + 1) bp) in
    ground (arith, later)

bnd_tail-Longer : (cmp n : ℕ) (bp : Bytes) → Longer n (bnd_tail cmp n bp)
unfolding bnd_tail
bnd_tail-Longer cmp n [] = tt
bnd_tail-Longer cmp n (ch ∷ bp) =
    let later =
      Longer-weaken n (n + 1) (bnd_dash (cmp + 1) (n + 1) bp) (omega arith)
        (bnd_dash-Longer (cmp + 1) (n + 1) bp) in
    ground (arith, later, bnd_blanks-Longer cmp n (ch ∷ bp))

match_bnd-Longer : (b : Bnd) (bp : Bytes) → Longer 0 (match_bnd b bp)
unfolding match_bnd
match_bnd-Longer b bp =
    let j = min (b.bnd_len - b.cmp_len) (length bp) in
    let tail =
      Longer-weaken 0 j (bnd_tail (b.cmp_len + j) j (drop j bp)) (omega arith)
        (bnd_tail-Longer (b.cmp_len + j) j (drop j bp)) in
    ground (
      arith,
      tail,
      bnd_tail-Longer b.cmp_len 0 bp,
      bnd_dash-Longer b.cmp_len 0 bp,
      bnd_blanks-Longer b.cmp_len 0 bp,
    )

-- A part of a boundary stands at the end of the bytes, or the line of one has been found.
abbrev pub Matches : Bytes → Tried → Type 0
Matches bp t = (0 < t.matched) × (t.found ≡ none → t.matched ≡ length bp)

-- What is behind one comparison, where the later ones go on with `later`.
module _ (i : ℕ) (m : Mime) (bp : Bytes) (later : Mime → ℕ → Tried) where
  abbrev behind : ℕ → BndTest → Tried
  behind matched t =
      let noted = note_test i m bp matched t in
      or_found noted.found noted (later noted.mime noted.matched)

  behind_matched :
      (matched : ℕ) (t : BndTest)
      → matched ≡ length bp
      → Longer 0 t
      → ((m : Mime) (x : ℕ) → x ≡ length bp → Matches bp (later m x))
      → Matches bp (behind matched t)
  unfolding note_test
  behind_matched matched missed h l keeps = keeps _ matched h
  behind_matched matched (partial cmp) h l keeps = keeps _ (length bp) refl
  behind_matched matched (whole cmp n) h l keeps = (l, λ e. cc)

  -- Nothing matched: this boundary has failed, and the later ones.
  behind_failed :
      (k : ℕ) (t : BndTest)
      → Longer 0 t
      → ((m : Mime) (x : ℕ) → x ≡ length bp → Matches bp (later m x))
      → ((d : Mime)
          → live k (i + 1) d.mime_bnd ≡ live k (i + 1) m.mime_bnd
          → Matches bp (later d 0)
            ⊎ (((later d 0).found ≡ none)
                × ((later d 0).matched ≡ 0)
                × ((later d 0).mime.mime_bnd_matches
                    ≡ d.mime_bnd_matches - live k (i + 1) m.mime_bnd)))
      → Matches bp (behind 0 t)
        ⊎ (((behind 0 t).found ≡ none)
            × ((behind 0 t).matched ≡ 0)
            × ((behind 0 t).mime.mime_bnd_matches
                ≡ m.mime_bnd_matches - (1 + live k (i + 1) m.mime_bnd)))
  unfolding note_test
  behind_failed k missed l keeps fails =
      let d = record (set_cmp i ck_bnd_miss m) { mime_bnd_matches = m.mime_bnd_matches - 1 } in
      elim (fails d (live-set_bnd k i (i + 1) m.mime_bnd _ (omega arith))) [
        | inl h ↦ inl h
        | inr (f, z, e) ↦ inr (f, z, omega (arith, e))
      ]
  behind_failed k (partial cmp) l keeps fails = inl (keeps _ (length bp) refl)
  behind_failed k (whole cmp n) l keeps fails = inl (l, λ e. cc)

try_bnds-matched :
    (k i : ℕ) (m : Mime) (bp : Bytes) (matched : ℕ)
    → 0 < length bp
    → matched ≡ length bp
    → Matches bp (try_bnds k i m bp matched)
unfolding try_bnds
try_bnds-matched zero i m bp matched b h = (omega arith, λ e. h)
try_bnds-matched (suc k) i m bp matched b h =
    let boundary = bnd_at m.mime_bnd i in
    let later : Mime → ℕ → Tried = λ m x. try_bnds k (i + 1) m bp x in
    elim (Bool-cases (boundary.cmp_len == ck_bnd_miss)) [
      | inl miss ↦ rw miss (try_bnds-matched k (i + 1) m bp matched b h)
      | inr alive ↦ rw alive (
          behind_matched i m bp later matched (match_bnd boundary bp) h
            (match_bnd-Longer boundary bp) (λ m x h. try_bnds-matched k (i + 1) m bp x b h))
    ]

-- Bytes are matched, or all the boundaries that were compared have failed.
pub try_bnds-live :
    (k i : ℕ) (m : Mime) (bp : Bytes)
    → 0 < length bp
    → let t = try_bnds k i m bp 0 in
      Matches bp t
      ⊎ ((t.found ≡ none)
          × (t.matched ≡ 0)
          × (t.mime.mime_bnd_matches ≡ m.mime_bnd_matches - live k i m.mime_bnd))
unfolding try_bnds
try_bnds-live zero i m bp b = inr (refl, refl, omega arith)
try_bnds-live (suc k) i m bp b =
    let boundary = bnd_at m.mime_bnd i in
    let later : Mime → ℕ → Tried = λ m x. try_bnds k (i + 1) m bp x in
    elim (Bool-cases (boundary.cmp_len == ck_bnd_miss)) [
      | inl miss ↦ rw (miss, zero-add (live k (i + 1) m.mime_bnd)) (try_bnds-live k (i + 1) m bp b)
      | inr alive ↦ rw alive (
          behind_failed i m bp later k (match_bnd boundary bp) (match_bnd-Longer boundary bp)
            (λ m x h. try_bnds-matched k (i + 1) m bp x b h)
            (λ d e.
              subst
                (λ (n : ℕ).
                  Matches bp (later d 0)
                  ⊎ (((later d 0).found ≡ none)
                      × ((later d 0).matched ≡ 0)
                      × ((later d 0).mime.mime_bnd_matches ≡ d.mime_bnd_matches - n)))
                e (try_bnds-live k (i + 1) d bp b)))
    ]
