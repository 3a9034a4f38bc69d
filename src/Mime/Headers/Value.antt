-- ===== src/Mime/Headers/Value.antt =====
-- dcc/mime.go: the text of a boundary in parseMimeHdr, byte by byte.
use gdcc.Base.{
  ℕ, zero, suc, ◌+◌, ◌≤◌, ◌<◌, ◌≡◌, refl, sym, ap, ◌∙◌, inl, inr, Bool, true, false, not, ◌&&◌,
  ◌||◌, List, [], ◌∷◌, ◌++◌, Bytes, ◌==◌, leb, if◌then◌else◌, length, take, arith, All,
  append_assoc, ◌⊎◌, append-nil,
}
use native.Mathlib.Nat.{add-zero}
use gdcc.Cref.Steps.{length-set_at}
use gdcc.Header.{is_white}
use gdcc.Cref.{set_at}
use gdcc.Mime.Context.{Mime, Bnd, MhdrSt, mhdr_idle, mhdr_bnd_value, ck_bnd_max}
use gdcc.Mime.Headers.{
  Parsed, skip_param, put_bnd, end_bnd, bnd_value_loop, hdr_round, hdr_run, is_mhdr_idle,
}
use gdcc.Mime.Headers.Run.{hdr_run-nil, hdr_run-round, hdr_run-last}
use gdcc.Mime.Headers.Fields.{hdr_run-idle}

-- A parameter that ends in ';'.
pub skip_param-named :
    (p rest : Bytes)
    → All (λ c. (is_white c ≡ false) × ((c == b';') ≡ false)) p
    → skip_param (p ++ b';' ∷ rest) ≡ (rest, true)
unfolding skip_param is_white
skip_param-named [] rest h = refl
skip_param-named (x ∷ p) rest h = rw (h.0.0, h.0.1) (skip_param-named p rest h.1)

-- A boundary ends at '\n', or at a blank or ';' outside quotes.
abbrev pub is_end : Bool → ℕ → Bool
is_end q ch = ch == b'\n' || (ch == b' ' || ch == b'\t' || ch == b';') && not q

-- The spellings of a boundary in what is left of a header, in a quoted part or not: a quote begins
-- or ends a quoted part, and '\r' is passed over.
pub data Spells : Bool → Bytes → Bytes → Type 0 where
  done : {q : Bool} → Spells q [] []
  ends : {q : Bool} {ch : ℕ} {rest : Bytes} → is_end q ch ≡ true → Spells q (ch ∷ rest) []
  cr : {q : Bool} {e t : Bytes} → Spells q e t → Spells q (b'\r' ∷ e) t
  quote : {q : Bool} {e t : Bytes} → Spells (not q) e t → Spells q (b'"' ∷ e) t
  char :
      {q : Bool} {ch : ℕ} {e t : Bytes}
      → is_end q ch ≡ false
      → (ch == b'\r') ≡ false
      → (ch == b'"') ≡ false
      → Spells q e t
      → Spells q (ch ∷ e) (ch ∷ t)

-- `t` written from the position `i` on.
abbrev pub write_at : Bytes → ℕ → Bytes → Bytes
write_at bs i [] = bs
write_at bs i (x ∷ t) = write_at (set_at bs i x) (i + 1) t

take-set_at :
    (bs : Bytes) (i x : ℕ) → i < length bs → take (suc i) (set_at bs i x) ≡ take i bs ++ (x ∷ [])
unfolding set_at
take-set_at [] i x h = absurd (omega arith)
take-set_at (b ∷ bs) zero x h = refl
take-set_at (b ∷ bs) (suc i) x h = ap (◌∷◌ b) (take-set_at bs i x (omega arith))

pub take-write_at :
    (bs : Bytes) (i : ℕ) (t : Bytes)
    → i + length t ≤ length bs
    → take (i + length t) (write_at bs i t) ≡ take i bs ++ t
take-write_at bs i [] h = rw (add-zero i) (sym (append-nil (take i bs)))
take-write_at bs i (x ∷ t) h =
    let step : i + suc (length t) ≡ i + 1 + length t = omega arith in
    let len = length-set_at bs i x in
    let one : i + 1 ≡ suc i = omega arith in
    rw step (
      take-write_at (set_at bs i x) (i + 1) t (omega (arith, len))
      ∙ ap (λ (s : Bytes). s ++ t)
          (ap (λ (n : ℕ). take n (set_at bs i x)) one ∙ take-set_at bs i x (omega arith))
      ∙ append_assoc (take i bs) (x ∷ []) t)

-- The state that reads a boundary into the first entry, from the position `i` on.
abbrev pub reading : Mime → List Bnd → Bnd → ℕ → Bool → Mime
reading c bs b i q = record c {
  mime_nest = 0;
  mime_bnd = b ∷ bs;
  mhdr_pos = i;
  quoted = q;
  mhdr_st = mhdr_bnd_value;
}

-- The state where the boundary with the text `s` has been read.
abbrev pub named : Mime → List Bnd → Bytes → ℕ → Bool → Mime
named c bs s n q = record c {
  mime_nest = 1;
  mime_bnd = record { bnd_len = n; cmp_len = 0; bnd = s } ∷ bs;
  mhdr_pos = n;
  quoted = q;
  mhdr_st = mhdr_idle;
}

-- A boundary is read up to its end, or up to the end of the header, where a newline ends it.
abbrev Reads : Mime → List Bnd → Mime → Bytes → Bytes → ℕ → Type 0
Reads c bs m e s n =
    ((q : Bool) × (rest : Bytes) × (bnd_value_loop m e ≡ (named c bs s n q, rest, false)))
    ⊎ ((d : Mime) × (q : Bool) × (bnd_value_loop m e ≡ (d, [], true))
        × (d.mhdr_st ≡ mhdr_bnd_value)
        × (bnd_value_loop d (b'\n' ∷ []) ≡ (named c bs s n q, [], false)))

-- A byte in front that goes to the state `d`.
Reads-cons :
    (c : Mime) (bs : List Bnd) (m d : Mime) (ch : ℕ) (e s : Bytes) (n : ℕ)
    → bnd_value_loop m (ch ∷ e) ≡ bnd_value_loop d e
    → Reads c bs d e s n
    → Reads c bs m (ch ∷ e) s n
Reads-cons c bs m d ch e s n h (inl (q, rest, r)) = inl (q, rest, h ∙ r)
Reads-cons c bs m d ch e s n h (inr (l, q, r, at_value, last)) = inr (l, q, h ∙ r, at_value, last)

pub value-Reads :
    (c : Mime) (bs : List Bnd) (b : Bnd) (i : ℕ) (q : Bool) {e t : Bytes}
    → Spells q e t
    → i + length t < 94
    → Reads c bs (reading c bs b i q) e (write_at b.bnd i t) (i + length t)
unfolding bnd_value_loop end_bnd put_bnd
value-Reads c bs b i q done h = rw (add-zero i) (inr (reading c bs b i q, q, refl, refl, refl))
value-Reads c bs b i q (ends {rest} x) h = rw (add-zero i) (inl (q, rest, rw x refl))
value-Reads c bs b i q (cr {e} {t} r) h =
    Reads-cons c bs (reading c bs b i q) (reading c bs b i q) b'\r' e (write_at b.bnd i t)
      (i + length t) refl (value-Reads c bs b i q r h)
value-Reads c bs b i q (quote {e} {t} r) h =
    Reads-cons c bs (reading c bs b i q) (reading c bs b i (not q)) b'"' e (write_at b.bnd i t)
      (i + length t) refl (value-Reads c bs b i (not q) r h)
value-Reads c bs b i q (char {ch} {e} {t} x y z r) h =
    let b' = record b { bnd = set_at b.bnd i ch } in
    let step : i + suc (length t) ≡ i + 1 + length t = omega arith in
    let room : leb ck_bnd_max (i + 1) ≡ false = ground arith in
    rw step (
      Reads-cons c bs (reading c bs b i q) (reading c bs b' (i + 1) q) ch e
        (write_at b'.bnd (i + 1) t) (i + 1 + length t) (rw (x, y, z, room) refl)
        (value-Reads c bs b' (i + 1) q r (omega arith)))

-- The loop on the rest of a header behind "boundary=", and on the newline that ends the header.
abbrev pub finish : Mime → Mime
finish d = if not (is_mhdr_idle d.mhdr_st) then hdr_run true d (b'\n' ∷ []) else d

-- The newline, in the state that reads a boundary.
newline_run :
    (c : Mime) (bs : List Bnd) (d : Mime) (s : Bytes) (n : ℕ) (q : Bool)
    → d.mhdr_st ≡ mhdr_bnd_value
    → bnd_value_loop d (b'\n' ∷ []) ≡ (named c bs s n q, [], false)
    → finish d ≡ named c bs s n q
unfolding hdr_round
newline_run c bs d s n q v last =
    let round : hdr_round true d.mhdr_st d (b'\n' ∷ []) ≡ (named c bs s n q, [], false) =
      ap (λ (st : MhdrSt). hdr_round true st d (b'\n' ∷ [])) v ∙ last in
    let busy : is_mhdr_idle d.mhdr_st ≡ false = ap is_mhdr_idle v in
    rw busy (hdr_run-round true d (named c bs s n q) b'\n' [] [] round ∙ hdr_run-nil true _)

pub finish-named :
    (c : Mime) (bs : List Bnd) (m : Mime) (e s : Bytes) (n : ℕ)
    → m.mhdr_st ≡ mhdr_bnd_value
    → Reads c bs m e s n
    → (q : Bool) × (finish (hdr_run true m e) ≡ named c bs s n q)
unfolding hdr_round
finish-named c bs m [] s n at_value (inl (q, rest, h)) =
    let x : true ≡ false = unfold bnd_value_loop in ap (λ (r : Parsed). r.2) h in absurd (cc)
finish-named c bs m [] s n at_value (inr (d, q, h, v, last)) =
    let same : m ≡ d = unfold bnd_value_loop in ap (λ (r : Parsed). r.0) h in
    (q, ap finish (hdr_run-nil true m ∙ same) ∙ newline_run c bs d s n q v last)
finish-named c bs m (ch ∷ e) s n at_value (inl (q, rest, h)) =
    let round = ap (λ (st : MhdrSt). hdr_round true st m (ch ∷ e)) at_value ∙ h in
    (
      q,
      ap finish (
          hdr_run-round true m (named c bs s n q) ch e rest round
          ∙ hdr_run-idle true (named c bs s n q) rest),
    )
finish-named c bs m (ch ∷ e) s n at_value (inr (d, q, h, v, last)) =
    let round = ap (λ (st : MhdrSt). hdr_round true st m (ch ∷ e)) at_value ∙ h in
    (q, ap finish (hdr_run-last true m d ch e [] round) ∙ newline_run c bs d s n q v last)
