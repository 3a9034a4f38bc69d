-- ===== src/Fuz1/Rounds.antt =====
-- `fuz1` reads all the bytes of a chunk.
use gdcc.Base.{
  ℕ, zero, suc, ◌+◌, ◌*◌, ◌≤◌, ◌<◌, ◌≡◌, refl, sym, ap, ◌∙◌, inl, inr, Bool, true, false, not, ◌||◌,
  Bool-cases, [], ◌∷◌, Bytes, ◌==◌, if◌then◌else◌, length, arith,
}
use gdcc.Header.{to_lower}
use gdcc.Cref.{Cref, Step, more, taken, short, is_idle, is_lower, set_at}
use gdcc.Cref
use gdcc.Cref.Steps.{step-short}
use gdcc.Fuz1.State.{url_res_fwd, url_res_ck_space, url_res_skip, Fuz1State, is_url_idle}
use gdcc.Fuz1.Url.{set_url, Stepped, url_cref, ck_url_step}
use gdcc.Fuz1.Decoder.{url_in-In, after_url-In}
use gdcc.Fuz1.{after_url, fuz1_round, fuz1_end, fuz1_loop, fuz1}

after_url-read : (c : ℕ) (t : Stepped) → (after_url c t).1 ≡ t.2
unfolding after_url
after_url-read c (f, url_res_fwd, read) = refl
after_url-read c (f, url_res_ck_space, read) = refl
after_url-read c (f, url_res_skip, read) = refl

-- A reference that is being decoded may leave one byte unread.
abbrev pub busy : Fuz1State → ℕ
busy f = if is_idle f.url.cref.st then 0 else 1

-- A byte that is not read ends a reference.
url_cref-unread :
    (words : ℕ) (f : Fuz1State) (t : Cref × Step)
    → (url_cref words f t).2 ≡ false
    → (t.1 ≡ short) × ((url_cref words f t).0.url.cref ≡ t.0)
unfolding url_cref
url_cref-unread words f (cref, more) h = absurd (cc)
url_cref-unread words f (cref, taken) h = absurd (cc)
url_cref-unread words f (cref, short) h = (
  refl,
  url_in-In cref f.url.st words cref.result (set_url (record f.url { cref = cref }) f) refl,
)

ck_url_step-unread :
    (words uc : ℕ) (f : Fuz1State)
    → (ck_url_step words uc f).2 ≡ false
    → (is_idle f.url.cref.st ≡ false)
      × (is_idle (Cref.step f.url.cref uc).0.st ≡ true)
      × ((ck_url_step words uc f).0.url.cref ≡ (Cref.step f.url.cref uc).0)
unfolding ck_url_step
ck_url_step-unread words uc f h =
    let t = Cref.step f.url.cref uc in
    elim (Bool-cases (uc == b'&' || not (is_idle f.url.cref.st))) [
      | inr plain ↦ (let x : true ≡ false = rw plain at h in absurd (cc))
      | inl stepped ↦
          let (stops, at) = url_cref-unread words f t (rw stepped at h) in
          let (ended, begun) = step-short f.url.cref uc stops in (begun, ended, rw stepped at)
    ]

fuz1_round-unread :
    (words b : ℕ) (f : Fuz1State)
    → (fuz1_round words b f).1 ≡ false
    → (busy f ≡ 1) × (busy (fuz1_round words b f).0 ≡ 0)
unfolding fuz1_round
fuz1_round-unread words b f h =
    let c = to_lower b in
    let t = ck_url_step words c f in
    let k = (Cref.step f.url.cref c).0 in
    elim (Bool-cases (c == b'h' || c == b'=' || not (is_url_idle f.url.st))) [
      | inr plain ↦ (let x : true ≡ false = rw plain at h in absurd (cc))
      | inl stepped ↦
          let unread : t.2 ≡ false = sym (after_url-read c t) ∙ rw stepped at h in
          let (begun, ended, at) = ck_url_step-unread words c f unread in
          let kept : (after_url c t).0.url.cref ≡ k = after_url-In k c t at in
          let idle : is_idle (after_url c t).0.url.cref.st ≡ true =
            ap (λ (c : Cref). is_idle c.st) kept ∙ ended in
          (rw begun refl, rw stepped (rw idle refl))
    ]

abbrev pub measure : Fuz1State → Bytes → ℕ
measure f bp = length bp * 2 + busy f

busy_le : (f : Fuz1State) → busy f ≤ 1
busy_le f = ground arith

-- A round reads a byte or ends a reference.
fuz1_round-measure :
    (words : ℕ) (f : Fuz1State) (b : ℕ) (bs : Bytes)
    → let r = fuz1_round words b f in measure r.0 (if r.1 then bs else b ∷ bs) < measure f (b ∷ bs)
fuz1_round-measure words f b bs =
    let r = fuz1_round words b f in
    elim (Bool-cases r.1) [
      | inl read ↦ rw read (omega (arith, busy_le r.0))
      | inr unread ↦
          let (one, zero_left) = fuz1_round-unread words b f unread in
          rw unread (omega (arith, one, zero_left))
    ]

-- The rounds of the loop of `fuz1`: each takes a byte or leaves it to the next, and there are rounds
-- until no byte is left, where the last whole line is summed.
pub data Reads (words : ℕ) : Fuz1State → Bytes → Fuz1State → Type 0 where
  ended : {f : Fuz1State} → Reads words f [] (fuz1_end f)
  read :
      {f g : Fuz1State} {b : ℕ} {bs : Bytes}
      → (fuz1_round words b f).1 ≡ true
      → Reads words (fuz1_round words b f).0 bs g
      → Reads words f (b ∷ bs) g
  left :
      {f g : Fuz1State} {b : ℕ} {bs : Bytes}
      → (fuz1_round words b f).1 ≡ false
      → Reads words (fuz1_round words b f).0 (b ∷ bs) g
      → Reads words f (b ∷ bs) g

fuz1_loop-Reads :
    (fuel words : ℕ) (f : Fuz1State) (bp : Bytes)
    → measure f bp < fuel
    → Reads words f bp (fuz1_loop fuel words f bp)
unfolding fuz1_loop
fuz1_loop-Reads zero words f bp h = absurd (omega arith)
fuz1_loop-Reads (suc fuel) words f [] h = ended
fuz1_loop-Reads (suc fuel) words f (b ∷ bs) h =
    let r = fuz1_round words b f in
    let less = fuz1_round-measure words f b bs in
    let rest = fuz1_loop-Reads fuel words r.0 (if r.1 then bs else b ∷ bs) (omega (arith, less)) in
    go r.1 refl rest
  where
    go :
        (t : Bool)
        → (fuz1_round words b f).1 ≡ t
        → Reads words
            (fuz1_round words b f).0
            (if t then bs else b ∷ bs)
            (fuz1_loop fuel words (fuz1_round words b f).0 (if t then bs else b ∷ bs))
        → Reads words f
            (b ∷ bs)
            (fuz1_loop fuel words (fuz1_round words b f).0 (if t then bs else b ∷ bs))
    go true e r = read e r
    go false e r = left e r

-- On all bytes and from every state the loop of `fuz1` ends: finitely many rounds read every byte, in
-- order, and sum the last whole line, and their state is that of `fuz1`. Where Go panics, the rounds
-- go on with the state that says so.
pub fuz1-Reads : (words : ℕ) (f : Fuz1State) (bp : Bytes) → Reads words f bp (fuz1 words f bp)
unfolding fuz1
fuz1-Reads words f bp = fuz1_loop-Reads (length bp * 2 + 2) words f bp (omega (arith, busy_le f))
