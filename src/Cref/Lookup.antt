-- ===== src/Cref/Lookup.antt =====
-- The table of character references: no lookup leaves it, and all its entries are found.
use gdcc.Base.{
  ℕ, zero, suc, ◌+◌, ◌-◌, ◌%◌, ◌<◌, ◌≡◌, refl, ap, Bool, true, false, ◌||◌, Option, some, none, inl,
  inr, Bool-cases, List, [], ◌∷◌, ◌++◌, Bytes, ◌==◌, ==_iff, ltb, if◌then◌else◌, length, get_or,
  take, drop, replicate, All, All-imp, All-drop, ltb→lt, arith, bytes_eq,
}
use gdcc.Sum.{be32}
use gdcc.Base.Words.{IsByte}
use gdcc.Cref.{or_zero, get, bucket_loop, bucket_at, word_hash, lookup_cref}
use gdcc.Cref.Table.{cref_tbl}

get-some : (b : Bytes) (i : ℕ) → i < length b → (c : ℕ) × (get b i ≡ some c)
unfolding get
get-some [] i h = absurd (omega arith)
get-some (b ∷ bs) zero h = (b, refl)
get-some (b ∷ bs) (suc i) h = get-some bs i (omega arith)

-- Every entry ends inside the bucket.
well_formed : ℕ → Bytes → Bool
well_formed zero b = false
well_formed (suc k) [] = true
well_formed (suc k) (n ∷ b) =
    let later = well_formed k (drop (n + 1) b) in if ltb n (length b) then later else false

bucket_loop-some :
    (k fuel : ℕ) (bucket w : Bytes) (clen : ℕ)
    → well_formed k bucket ≡ true
    → (c : ℕ) × (bucket_loop fuel bucket w clen ≡ some c)
unfolding bucket_loop well_formed
bucket_loop-some k zero bucket w clen h = (0, refl)
bucket_loop-some k (suc fuel) [] w clen h = (0, refl)
bucket_loop-some zero (suc fuel) (n ∷ b) w clen h = absurd (ground (arith, h))
bucket_loop-some (suc k) (suc fuel) (n ∷ b) w clen h =
    let room : n < length b = ground arith in
    let inside : ltb (length b) n ≡ false = ground arith in
    let (c, later) = bucket_loop-some k fuel (drop (n + 1) b) w clen (ground arith) in
    elim (Bool-cases (n == 0)) [
      | inl z ↦ rw z (0, refl)
      | inr z ↦ elim (Bool-cases (n == clen)) [
        | inr other ↦ rw (z, other) (c, later)
        | inl same ↦ elim (Bool-cases (bytes_eq (take n b) (take n w))) [
          | inr differs ↦ rw (z, same, inside, differs) (c, later)
          | inl equal ↦
              rw (z, same, inside, equal) (get-some b clen (omega (arith, (==_iff n clen).0 same)))
        ]
      ]
    ]

all_true {ℓ} : {A : Type ℓ} → (A → Bool) → List A → Bool
all_true p [] = true
all_true p (x ∷ xs) = let rest = all_true p xs in if p x then rest else false

all_true-All {ℓ} :
    {A : Type ℓ} (p : A → Bool) (xs : List A) → all_true p xs ≡ true → All (λ x. p x ≡ true) xs
unfolding all_true
all_true-All p [] h = tt
all_true-All p (x ∷ xs) h = (ground arith, all_true-All p xs (ground arith))

bucket_at-All :
    (p : Bytes → Bool) (bs : List Bytes) (i : ℕ)
    → p [] ≡ true
    → All (λ b. p b ≡ true) bs
    → p (bucket_at bs i) ≡ true
bucket_at-All p [] i e h = e
bucket_at-All p (b ∷ bs) zero e h = h.0
bucket_at-All p (b ∷ bs) (suc i) e h = bucket_at-All p bs i e h.1

table_well_formed : all_true (well_formed 100) cref_tbl ≡ true
unfolding all_true well_formed
table_well_formed = refl

-- Whatever the word and the length, the lookup reads no byte outside a bucket.
pub lookup_cref-some : (w : Bytes) (clen : ℕ) → (c : ℕ) × (lookup_cref w clen ≡ some c)
unfolding lookup_cref
lookup_cref-some w clen =
    let bucket = bucket_at cref_tbl (word_hash w % 131) in
    let fine : well_formed 100 bucket ≡ true =
      bucket_at-All (well_formed 100) cref_tbl (word_hash w % 131) (unfold well_formed in refl)
        (all_true-All (well_formed 100) cref_tbl table_well_formed) in
    elim (Bool-cases (ltb (length w) clen || clen == 0)) [
      | inl none_there ↦ rw none_there (0, refl)
      | inr there ↦ rw there (bucket_loop-some 100 (length bucket) bucket w clen fine)
    ]

get_byte : (b : Bytes) (i : ℕ) → All IsByte b → or_zero (get b i) < 256
unfolding get
get_byte [] i h = omega arith
get_byte (b ∷ bs) zero h = h.0
get_byte (b ∷ bs) (suc i) h = get_byte bs i h.1

bucket_loop_byte :
    (fuel : ℕ) (bucket w : Bytes) (clen : ℕ)
    → All IsByte bucket
    → or_zero (bucket_loop fuel bucket w clen) < 256
unfolding bucket_loop
bucket_loop_byte zero bucket w clen h = omega arith
bucket_loop_byte (suc fuel) [] w clen h = omega arith
bucket_loop_byte (suc fuel) (n ∷ b) w clen h = ground (
  arith,
  bucket_loop_byte fuel (drop (n + 1) b) w clen (All-drop IsByte (n + 1) b h.1),
  get_byte b clen h.1,
)

are_bytes : Bytes → Bool
are_bytes b = all_true (λ c. ltb c 256) b

are_bytes-All : (b : Bytes) → are_bytes b ≡ true → All IsByte b
unfolding are_bytes
are_bytes-All b h =
    All-imp (λ c. ltb c 256 ≡ true) IsByte b (λ c e. ltb→lt c 256 e)
      (all_true-All (λ c. ltb c 256) b h)

table_bytes : all_true are_bytes cref_tbl ≡ true
unfolding all_true are_bytes
table_bytes = refl

-- The lookup returns a byte.
pub lookup_cref_byte : (w : Bytes) (clen : ℕ) → or_zero (lookup_cref w clen) < 256
unfolding lookup_cref
lookup_cref_byte w clen =
    let bucket = bucket_at cref_tbl (word_hash w % 131) in
    let bytes : All IsByte bucket = are_bytes-All bucket (
      bucket_at-All are_bytes cref_tbl (word_hash w % 131)
        (unfold are_bytes in unfold all_true in refl)
        (all_true-All are_bytes cref_tbl table_bytes)) in
    elim (Bool-cases (ltb (length w) clen || clen == 0)) [
      | inl none_there ↦ rw none_there (omega arith)
      | inr there ↦ rw there (bucket_loop_byte (length bucket) bucket w clen bytes)
    ]

-- The entries of a bucket: a name and its character.
entries_of : ℕ → Bytes → List (Bytes × ℕ)
entries_of zero b = []
entries_of (suc k) [] = []
entries_of (suc k) (n ∷ b) = (take n b, get_or b n 0) ∷ entries_of k (drop (n + 1) b)

pub entries : List Bytes → List (Bytes × ℕ)
entries [] = []
entries (b ∷ bs) = entries_of (length b) b ++ entries bs

-- A name in a word of 16 bytes.
unfoldable pub padded : Bytes → Bytes
padded name = name ++ replicate (16 - length name) 0

is_some_of : Option ℕ → ℕ → Bool
is_some_of none code = false
is_some_of (some c) code = c == code

is_some_of-some : (o : Option ℕ) (code : ℕ) → is_some_of o code ≡ true → o ≡ some code
unfolding is_some_of
is_some_of-some none code h = absurd (ground (arith, h))
is_some_of-some (some c) code h = ap some ((==_iff c code).0 h)

abbrev is_found : Bytes × ℕ → Bool
is_found e = is_some_of (lookup_cref (padded e.0) (length e.0)) e.1

table_found : all_true is_found (entries cref_tbl) ≡ true
unfolding all_true is_some_of entries entries_of lookup_cref padded be32
table_found = refl

-- Every name of the table is found, in the bucket of its hash, with its character.
pub lookup_cref-entries :
    All (λ e. lookup_cref (padded e.0) (length e.0) ≡ some e.1) (entries cref_tbl)
lookup_cref-entries =
    All-imp (λ e. is_found e ≡ true) (λ e. lookup_cref (padded e.0) (length e.0) ≡ some e.1)
      (entries cref_tbl) (λ e h. is_some_of-some (lookup_cref (padded e.0) (length e.0)) e.1 h)
      (all_true-All is_found (entries cref_tbl) table_found)
