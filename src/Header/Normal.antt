-- ===== src/Header/Normal.antt =====
-- What a header checksum depends on.
use gdcc.Base.{
  ℕ, zero, suc, ◌+◌, ◌<◌, ◌≤◌, ◌≡◌, refl, sym, ap, ap₂, ◌∙◌, true, [], ◌∷◌, ◌++◌, Bytes, ◌==◌,
  if◌then◌else◌, length, take, trim_right, trim_right-concat_dropped, arith, append-nil,
  append_assoc, length-append, Bool-cases, inl, inr, suc_eq_zero, take-of_le,
}
use gdcc.Hash.{Digest, sum_of}
use gdcc.Header.{hdr_ck_max, is_white, to_lower, is_skipped, str2ck_loop, str2ck}

-- The retained bytes of a value, before the cut: skipped bytes dropped, letters in lower case.
unfoldable pub folded : Bytes → Bytes
folded [] = []
folded (c ∷ cs) = if is_skipped c then folded cs else to_lower c ∷ folded cs

loop-folded :
    (s cbuf : Bytes) (room : ℕ)
    → length cbuf + room ≡ hdr_ck_max
    → str2ck_loop cbuf s ≡ cbuf ++ take room (folded s)
unfolding str2ck_loop folded
loop-folded [] cbuf zero h = sym (append-nil cbuf)
loop-folded [] cbuf (suc room) h = sym (append-nil cbuf)
loop-folded (c ∷ cs) cbuf zero h = ground (arith, append-nil cbuf)
loop-folded (c ∷ cs) cbuf (suc room) h = elim (Bool-cases (is_skipped c)) [
  | inl skip ↦ rw skip (ground (arith, loop-folded cs cbuf (suc room)))
  | inr ret ↦ rw ret (
      ground (
        arith,
        length-append cbuf (to_lower c ∷ []),
        loop-folded cs (cbuf ++ (to_lower c ∷ [])) room,
        append_assoc cbuf (to_lower c ∷ []) (take room (folded cs)),
      ))
]

-- The bytes of the value that are hashed.
unfoldable pub hashed : Bytes → Bytes
hashed s = trim_right (λ c. c == b'.') (take hdr_ck_max (folded s))

pub str2ck-hashed :
    (md5 : Digest) (name s : Bytes) → str2ck md5 name s ≡ sum_of md5 (name ++ hashed s)
unfolding str2ck hashed
str2ck-hashed md5 [] s = rw (loop-folded s [] hdr_ck_max refl)
str2ck-hashed md5 (n ∷ ns) s = rw (suc_eq_zero (length ns), loop-folded s [] hdr_ck_max refl)

folded-append : (s t : Bytes) → folded (s ++ t) ≡ folded s ++ folded t
unfolding folded
folded-append [] t = refl
folded-append (c ∷ s) t = ground (arith, folded-append s t)

-- White space, angle brackets, quotes and commas.
pub data Dropped : ℕ → Type 0 where
  space : Dropped b' '
  tab : Dropped b'\t'
  return : Dropped b'\r'
  newline : Dropped b'\n'
  less : Dropped b'<'
  greater : Dropped b'>'
  apostrophe : Dropped b'\''
  quote : Dropped b'"'
  comma : Dropped b','

-- Two bytes are the same, or one letter in both cases.
pub data SameLetter : ℕ → ℕ → Type 0 where
  same : {c : ℕ} → SameLetter c c
  upper : {c d : ℕ} → b'A' ≤ c → c ≤ b'Z' → d ≡ c + 32 → SameLetter c d
  lower : {c d : ℕ} → b'A' ≤ d → d ≤ b'Z' → c ≡ d + 32 → SameLetter c d

-- Two values that differ in letter case and in dropped bytes.
pub data SameText : Bytes → Bytes → Type 0 where
  nil : SameText [] []
  fold : {c d : ℕ} {s t : Bytes} → SameLetter c d → SameText s t → SameText (c ∷ s) (d ∷ t)
  skip_left : {c : ℕ} {s t : Bytes} → Dropped c → SameText s t → SameText (c ∷ s) t
  skip_right : {d : ℕ} {s t : Bytes} → Dropped d → SameText s t → SameText s (d ∷ t)

Dropped-is_skipped : {c : ℕ} → Dropped c → is_skipped c ≡ true
unfolding is_white
Dropped-is_skipped space = refl
Dropped-is_skipped tab = refl
Dropped-is_skipped return = refl
Dropped-is_skipped newline = refl
Dropped-is_skipped less = refl
Dropped-is_skipped greater = refl
Dropped-is_skipped apostrophe = refl
Dropped-is_skipped quote = refl
Dropped-is_skipped comma = refl

SameLetter-folded : {c d : ℕ} → SameLetter c d → folded (c ∷ []) ≡ folded (d ∷ [])
unfolding folded is_white to_lower
SameLetter-folded same = refl
SameLetter-folded (upper lo hi e) = ground (arith, lo, hi, e)
SameLetter-folded (lower lo hi e) = ground (arith, lo, hi, e)

folded-Dropped : (c : ℕ) (s : Bytes) → Dropped c → folded (c ∷ s) ≡ folded s
unfolding folded
folded-Dropped c s h = rw (Dropped-is_skipped h) refl

folded-SameText : {s t : Bytes} → SameText s t → folded s ≡ folded t
folded-SameText nil = refl
folded-SameText (fold {c} {d} {s} {t} l r) =
    folded-append (c ∷ []) s
    ∙ ap₂ (λ (x y : Bytes). x ++ y) (SameLetter-folded l) (folded-SameText r)
    ∙ sym (folded-append (d ∷ []) t)
folded-SameText (skip_left {c} {s} h r) = folded-Dropped c s h ∙ folded-SameText r
folded-SameText (skip_right {d} {s} {t} h r) = folded-SameText r ∙ sym (folded-Dropped d t h)

-- Two header values that differ only in letter case, white space, quotes, angle brackets and commas
-- have the same checksum under a name.
pub str2ck-SameText :
    (md5 : Digest) (name : Bytes) {s t : Bytes}
    → SameText s t
    → str2ck md5 name s ≡ str2ck md5 name t
str2ck-SameText md5 name {s} {t} r =
    str2ck-hashed md5 name s
    ∙ unfold hashed in rw (folded-SameText r) refl ∙ sym (str2ck-hashed md5 name t)

folded_period : folded (b'.' ∷ []) ≡ b'.' ∷ []
unfolding folded is_white to_lower
folded_period = refl

-- A period at the end of a value whose hashed part has less than 1024 bytes does not change the
-- checksum.
pub str2ck-period :
    (md5 : Digest) (name s : Bytes)
    → length (folded s) < hdr_ck_max
    → str2ck md5 name (s ++ (b'.' ∷ [])) ≡ str2ck md5 name s
str2ck-period md5 name s h =
    str2ck-hashed md5 name (s ++ (b'.' ∷ []))
    ∙ ap (λ b. sum_of md5 (name ++ b)) trimmed
    ∙ sym (str2ck-hashed md5 name s)
  where
    trimmed : hashed (s ++ (b'.' ∷ [])) ≡ hashed s
    trimmed =
        unfold hashed in
        rw (folded-append s (b'.' ∷ []), folded_period)
          (rw
            (take-of_le hdr_ck_max (folded s ++ (b'.' ∷ []))
              (omega (arith, length-append (folded s) (b'.' ∷ []), h)))
            (rw (take-of_le hdr_ck_max (folded s) (omega arith))
              (trim_right-concat_dropped (λ c. c == b'.') (folded s) b'.' refl)))
