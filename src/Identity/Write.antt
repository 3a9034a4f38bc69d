-- ===== src/Identity/Write.antt =====
-- dcc/identity.go: what `WriteIdentityFile` writes, and how it is read back.
use gdcc.Base.{
  ℕ, ◌<◌, ◌^◌, ◌≡◌, refl, sym, ap, ◌∙◌, subst, Bool, true, false, not, Option, some, none, inl, inr,
  Bool-cases, List, [], ◌∷◌, ◌++◌, Bytes, ◌==◌, leb, if◌then◌else◌, length, map, keep, All,
  All-append, All-imp, arith, append_assoc, trim_right, drop_while, Result, ok, err,
}
use mathlib.Core.List.{reverse, reverse-append}
use gdcc.Proto.{dcc_id_anon}
use gdcc.Identity.{
  Identity, is_space, is_digit, before, fields, line_entry, id_of_line, split_lines, scanned,
  usable, first_usable, parse_identity, max_token,
}
use gdcc.Identity.Decimal.{decimal, decimal-All, decimal_ne, parse_uint-decimal}
use gdcc.Identity.Lines.{
  join_lines, Without, split_lines-join_lines, scanned-lines, before-Without, fields-words,
  split_lines-Without,
}

pub data WriteError : Type 0 where
  anonymous_id empty_password : WriteError

abbrev pub own_line : Identity → Bytes
own_line id = decimal id.client_id ++ (b' ' ∷ id.password)

abbrev pub is_entry : Option ℕ → ℕ → Bool
is_entry none n = false
is_entry (some m) n = m == n

-- The lines that stay: not those of the id, and no empty ones.
abbrev pub stays : Identity → Bytes → Bool
stays id line = if is_entry (id_of_line line) id.client_id then false else not (length line == 0)

abbrev pub trim_cr : Bytes → Bytes
trim_cr line = trim_right (λ c. c == b'\r') line

-- The lines of the file as it is; none where there is no file.
abbrev pub lines_of : Option Bytes → List Bytes
lines_of none = []
lines_of (some content) = split_lines content

unfoldable pub kept_lines : Option Bytes → Identity → List Bytes
kept_lines file id = keep (stays id) (map trim_cr (lines_of file))

-- `strings.Join(lines, "\n")`
unfoldable pub join : List Bytes → Bytes
join [] = []
join (l ∷ []) = l
join (l ∷ k ∷ ls) = l ++ (b'\n' ∷ join (k ∷ ls))

-- `WriteIdentityFile`: the content that it writes, where it can read and write the file.
unfoldable pub write_identity : Option Bytes → Identity → Result WriteError Bytes
unfolding kept_lines join
write_identity file id =
    if leb id.client_id dcc_id_anon
    then err anonymous_id
    else if length id.password == 0
    then err empty_password
    else ok (join (kept_lines file id ++ (own_line id ∷ [])) ++ (b'\n' ∷ []))

join-join_lines :
    (ls : List Bytes) (l : Bytes)
    → join (ls ++ (l ∷ [])) ++ (b'\n' ∷ []) ≡ join_lines (ls ++ (l ∷ []))
unfolding join join_lines
join-join_lines [] l = refl
join-join_lines (k ∷ []) l = append_assoc k (b'\n' ∷ l) (b'\n' ∷ [])
join-join_lines (k ∷ m ∷ ls) l =
    append_assoc k (b'\n' ∷ join ((m ∷ ls) ++ (l ∷ []))) (b'\n' ∷ [])
    ∙ ap (λ (r : Bytes). k ++ (b'\n' ∷ r)) (join-join_lines (m ∷ ls) l)

All-reverse : (P : ℕ → Type 0) (xs : Bytes) → All P xs → All P (reverse xs)
All-reverse P [] h = tt
All-reverse P (x ∷ xs) h =
    subst (All P) (sym (reverse-append (x ∷ []) xs))
      (All-append P (reverse xs) (x ∷ []) (All-reverse P xs h.1) (h.0, tt))

All-drop_while : (P : ℕ → Type 0) (p : ℕ → Bool) (xs : Bytes) → All P xs → All P (drop_while p xs)
All-drop_while P p [] h = tt
All-drop_while P p (x ∷ xs) h = elim (Bool-cases (p x)) [
  | inl dropped ↦ rw dropped (All-drop_while P p xs h.1)
  | inr left ↦ rw left h
]

All-trim_right : (P : ℕ → Type 0) (p : ℕ → Bool) (xs : Bytes) → All P xs → All P (trim_right p xs)
unfolding trim_right
All-trim_right P p xs h =
    All-reverse P (drop_while p (reverse xs)) (All-drop_while P p (reverse xs) (All-reverse P xs h))

All-kept :
    (id : Identity) (ls : List Bytes)
    → All (Without b'\n') ls
    → All (Without b'\n') (keep (stays id) (map trim_cr ls))
All-kept id [] h = tt
All-kept id (l ∷ ls) h =
    let line : Without b'\n' (trim_cr l) =
      All-trim_right (λ x. (x == b'\n') ≡ false) (λ c. c == b'\r') l h.0 in
    elim (Bool-cases (stays id (trim_cr l))) [
      | inl kept ↦ rw kept (line, All-kept id ls h.1)
      | inr gone ↦ rw gone (All-kept id ls h.1)
    ]

kept_lines-Without :
    (file : Option Bytes) (id : Identity) → All (Without b'\n') (kept_lines file id)
unfolding kept_lines
kept_lines-Without none id = tt
kept_lines-Without (some content) id =
    All-kept id (split_lines content) (split_lines-Without content)

-- A password that the file can hold: it has no space and no '#'.
pub record Plain (id : Identity) : Type 0 where
  pub bounded : id.client_id < 2 ^ 32
  pub spaceless : All (λ c. is_space c ≡ false) id.password
  pub uncommented : Without b'#' id.password

own_line_free :
    (c : ℕ) (id : Identity)
    → ((d : ℕ) → is_digit d ≡ true → (d == c) ≡ false)
    → (b' ' == c) ≡ false
    → Without c id.password
    → Without c (own_line id)
own_line_free c id digit space h =
    All-append (λ x. (x == c) ≡ false) (decimal id.client_id) (b' ' ∷ id.password)
      (All-imp (λ d. is_digit d ≡ true) (λ x. (x == c) ≡ false) (decimal id.client_id)
        (λ d e. digit d e) (decimal-All id.client_id))
      (space, h)

line_entry-own_line :
    (id : Identity) → Plain id → 0 < length id.password → line_entry (own_line id) ≡ some id
unfolding line_entry
line_entry-own_line id p ne =
    let number = decimal id.client_id in
    let whole : before b'#' (own_line id) ≡ own_line id =
      before-Without b'#' (own_line id)
        (own_line_free b'#' id (λ d e. ground (arith, e)) refl p.uncommented) in
    let words : fields (own_line id) ≡ number ∷ id.password ∷ [] =
      fields-words number id.password (decimal_ne id.client_id) ne
        (All-imp (λ d. is_digit d ≡ true) (λ x. is_space x ≡ false) number
          (λ d e. ground (arith, e)) (decimal-All id.client_id))
        p.spaceless in
    let token : before b',' number ≡ number = before-Without b',' number (
      All-imp (λ d. is_digit d ≡ true) (λ x. (x == b',') ≡ false) number (λ d e. ground (arith, e))
        (decimal-All id.client_id)) in
    rw (whole, words, token, parse_uint-decimal id.client_id p.bounded) refl

usable-none :
    (o a b : Option Identity) (id : Identity)
    → usable o a ≡ none
    → (a ≡ none → b ≡ some id)
    → usable o b ≡ some id
usable-none none a b id h go = go h
usable-none (some x) a b id h go = elim (Bool-cases (leb x.client_id dcc_id_anon)) [
  | inl anon ↦ rw anon (go (rw anon at h))
  | inr named ↦ (let bad : some x ≡ none = rw named at h in absurd (cc))
]

first_usable-append :
    (ls : List Bytes) (l : Bytes) (id : Identity)
    → first_usable ls ≡ none
    → line_entry l ≡ some id
    → dcc_id_anon < id.client_id
    → first_usable (ls ++ (l ∷ [])) ≡ some id
unfolding first_usable
first_usable-append [] l id alone e h =
    let over : leb id.client_id dcc_id_anon ≡ false = ground arith in rw (e, over) refl
first_usable-append (k ∷ ls) l id alone e h =
    usable-none (line_entry k) (first_usable ls) (first_usable (ls ++ (l ∷ []))) id alone
      (λ n. first_usable-append ls l id n e h)

-- An identity that is not anonymous, with a password without spaces and '#' that is not empty, is read
-- back from the file that is written for it, where no other line of the file is a usable identity and
-- every line is shorter than the scanner's 64 KiB.
pub parse_identity-write_identity :
    (file : Option Bytes) (id : Identity)
    → dcc_id_anon < id.client_id
    → 0 < length id.password
    → Plain id
    → first_usable (kept_lines file id) ≡ none
    → All (λ l. leb max_token (length l) ≡ false) (kept_lines file id ++ (own_line id ∷ []))
    → (content : Bytes) × (write_identity file id ≡ ok content) × (parse_identity content ≡ some id)
unfolding write_identity parse_identity
parse_identity-write_identity file id named ne p alone fits =
    let ls = kept_lines file id ++ (own_line id ∷ []) in
    let named_b : leb id.client_id dcc_id_anon ≡ false = ground arith in
    let ne_b : (length id.password == 0) ≡ false = ground arith in
    let own : Without b'\n' (own_line id) =
      own_line_free b'\n' id (λ d e. ground (arith, e)) refl
        (All-imp (λ c. is_space c ≡ false) (λ c. (c == b'\n') ≡ false) id.password
          (λ c e. ground (arith, e)) p.spaceless) in
    let lines : split_lines (join_lines ls) ≡ ls ++ ([] ∷ []) = split_lines-join_lines ls (
      All-append (Without b'\n') (kept_lines file id) (own_line id ∷ [])
        (kept_lines-Without file id) (own, tt)) in
    (
      join_lines ls,
      rw (named_b, ne_b) (ap ok (join-join_lines (kept_lines file id) (own_line id))),
      ap (λ (r : List Bytes). first_usable (scanned r)) lines
          ∙ ap first_usable (scanned-lines ls fits)
          ∙ first_usable-append (kept_lines file id) (own_line id) id alone
              (line_entry-own_line id p ne) named,
    )
