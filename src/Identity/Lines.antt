-- ===== src/Identity/Lines.antt =====
-- The lines of a text and the fields of a line.
use gdcc.Base.{
  ℕ, ◌<◌, ◌≡◌, refl, sym, ap, ◌∙◌, false, inl, inr, Bool-cases, List, [], ◌∷◌, ◌++◌, Bytes, ◌==◌,
  leb, length, All, arith, append-nil, append_assoc,
}
use gdcc.Identity.{
  before, is_space, fields, fields_loop, split_lines, onto_first, scanned, max_token,
}

-- Lines that each end in a newline.
unfoldable pub join_lines : List Bytes → Bytes
join_lines [] = []
join_lines (l ∷ ls) = l ++ (b'\n' ∷ join_lines ls)

-- A text without the byte.
abbrev pub Without : ℕ → Bytes → Type 0
Without c b = All (λ x. (x == c) ≡ false) b

split_lines-line :
    (l rest : Bytes) → Without b'\n' l → split_lines (l ++ (b'\n' ∷ rest)) ≡ l ∷ split_lines rest
unfolding split_lines
split_lines-line [] rest h = refl
split_lines-line (c ∷ l) rest h = rw (h.0, split_lines-line l rest h.1) refl

pub split_lines-join_lines :
    (ls : List Bytes) → All (Without b'\n') ls → split_lines (join_lines ls) ≡ ls ++ ([] ∷ [])
unfolding join_lines
split_lines-join_lines [] h = unfold split_lines in refl
split_lines-join_lines (l ∷ ls) h =
    split_lines-line l (join_lines ls) h.0
    ∙ ap (λ (r : List Bytes). l ∷ r) (split_lines-join_lines ls h.1)

-- What is scanned of short lines, each with its newline.
pub scanned-lines :
    (ls : List Bytes)
    → All (λ l. leb max_token (length l) ≡ false) ls
    → scanned (ls ++ ([] ∷ [])) ≡ ls
unfolding scanned
scanned-lines [] h = refl
scanned-lines (l ∷ []) h = rw (h.0) refl
scanned-lines (l ∷ k ∷ ls) h =
    rw (h.0) (ap (λ (r : List Bytes). l ∷ r) (scanned-lines (k ∷ ls) h.1))

pub before-Without : (c : ℕ) (l : Bytes) → Without c l → before c l ≡ l
unfolding before
before-Without c [] h = refl
before-Without c (x ∷ l) h = rw (h.0) (ap (λ (r : Bytes). x ∷ r) (before-Without c l h.1))

fields_loop-word :
    (current w rest : Bytes)
    → All (λ x. is_space x ≡ false) w
    → fields_loop current (w ++ rest) ≡ fields_loop (current ++ w) rest
unfolding fields_loop
fields_loop-word current [] rest h =
    ap (λ (r : Bytes). fields_loop r rest) (sym (append-nil current))
fields_loop-word current (x ∷ w) rest h = rw (h.0) (
    fields_loop-word (current ++ (x ∷ [])) w rest h.1
    ∙ ap (λ (r : Bytes). fields_loop r rest) (append_assoc current (x ∷ []) w))

-- Two words with a space between them are the fields of their line.
fields-two :
    (a b : ℕ) (xs ys : Bytes)
    → All (λ x. is_space x ≡ false) (a ∷ xs)
    → All (λ x. is_space x ≡ false) (b ∷ ys)
    → fields ((a ∷ xs) ++ (b' ' ∷ (b ∷ ys))) ≡ (a ∷ xs) ∷ (b ∷ ys) ∷ []
unfolding fields
fields-two a b xs ys ha hb =
    fields_loop-word [] (a ∷ xs) (b' ' ∷ (b ∷ ys)) ha
    ∙ ap (λ (r : List Bytes). (a ∷ xs) ∷ r)
        (ap (fields_loop []) (sym (append-nil (b ∷ ys))) ∙ fields_loop-word [] (b ∷ ys) [] hb)

pub fields-words :
    (u v : Bytes)
    → 0 < length u
    → 0 < length v
    → All (λ x. is_space x ≡ false) u
    → All (λ x. is_space x ≡ false) v
    → fields (u ++ (b' ' ∷ v)) ≡ u ∷ v ∷ []
fields-words [] v hu hv au av = absurd (omega arith)
fields-words (a ∷ xs) [] hu hv au av = absurd (omega arith)
fields-words (a ∷ xs) (b ∷ ys) hu hv au av = fields-two a b xs ys au av

onto_first-Without :
    (c : ℕ) (ls : List Bytes)
    → (c == b'\n') ≡ false
    → All (Without b'\n') ls
    → All (Without b'\n') (onto_first c ls)
onto_first-Without c [] e h = ((e, tt), tt)
onto_first-Without c (l ∷ ls) e h = ((e, h.0), h.1)

pub split_lines-Without : (d : Bytes) → All (Without b'\n') (split_lines d)
unfolding split_lines
split_lines-Without [] = (tt, tt)
split_lines-Without (c ∷ d) = elim (Bool-cases (c == b'\n')) [
  | inl newline ↦ rw newline (tt, split_lines-Without d)
  | inr other ↦ rw other (onto_first-Without c (split_lines d) other (split_lines-Without d))
]
