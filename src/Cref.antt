-- ===== src/Cref.antt =====
-- dcc/cref.go and dcc/cref_lookup.go: the decoder of HTML character references.
pub mod Table
pub mod Lookup
pub mod Steps
use gdcc.Base.{
  ℕ, zero, suc, ◌+◌, ◌-◌, ◌*◌, ◌%◌, ◌^◌, Bool, true, false, not, ◌&&◌, ◌||◌, Option, some, none,
  List, [], ◌∷◌, Bytes, codes, ◌==◌, ltb, leb, if◌then◌else◌, length, get_or, take, drop, replicate,
  bytes_eq,
}
use Prim.Native.Nat.{bit_and, bit_xor}
use gdcc.Sum.{be32}
use gdcc.Cref.Table.{cref_tbl}

-- `crefSt`
pub data CrefSt : Type 0 where
  idle start num dec hex name : CrefSt

-- `st == crefIdle`
abbrev pub is_idle : CrefSt → Bool
is_idle idle = true
is_idle start = false
is_idle num = false
is_idle dec = false
is_idle hex = false
is_idle name = false

-- `ckCref`; `w` has the 16 bytes of a `ckWord`.
pub record Cref : Type 0 where
  pub st : CrefSt
  pub w : Bytes
  pub length : ℕ
  pub result : ℕ

-- `ckWord.clear`
abbrev pub clear : Bytes
clear = replicate 16 0

abbrev pub is_lower : ℕ → Bool
is_lower c = leb b'a' c && leb c b'z'

abbrev pub is_upper : ℕ → Bool
is_upper c = leb b'A' c && leb c b'Z'

abbrev pub is_digit : ℕ → Bool
is_digit c = leb b'0' c && leb c b'9'

-- `w[i] = c`
unfoldable pub set_at : Bytes → ℕ → ℕ → Bytes
set_at [] i c = []
set_at (b ∷ bs) zero c = c ∷ bs
set_at (b ∷ bs) (suc i) c = b ∷ set_at bs i c

-- An element of a slice; there is none where Go panics.
unfoldable pub get : Bytes → ℕ → Option ℕ
get [] i = none
get (b ∷ bs) zero = some b
get (b ∷ bs) (suc i) = get bs i

-- The loop of `lookupCref` over what is left of a bucket; `none` is a panic. A round reads a byte.
unfoldable pub bucket_loop : ℕ → Bytes → Bytes → ℕ → Option ℕ
unfolding get
bucket_loop zero bucket w clen = some 0
bucket_loop (suc fuel) [] w clen = some 0
bucket_loop (suc fuel) (n ∷ bucket) w clen =
    let later = bucket_loop fuel (drop (n + 1) bucket) w clen in
    if n == 0
    then some 0
    else if n == clen
    then (if ltb (length bucket) n
        then none
        else if bytes_eq (take n bucket) (take n w)
        then get bucket clen
        else later)
    else later

-- `CK_WORD_HASH`
unfoldable pub word_hash : Bytes → ℕ
word_hash w =
    bit_xor
      (bit_xor (bit_xor (be32 (take 4 w)) (be32 (take 4 (drop 4 w)))) (be32 (take 4 (drop 8 w))))
      (be32 (take 4 (drop 12 w)))

abbrev pub bucket_at : List Bytes → ℕ → Bytes
bucket_at [] i = []
bucket_at (b ∷ bs) zero = b
bucket_at (b ∷ bs) (suc i) = bucket_at bs i

unfoldable pub lookup_cref : Bytes → ℕ → Option ℕ
unfolding bucket_loop word_hash
lookup_cref w clen =
    if ltb (length w) clen || clen == 0
    then some 0
    else (let bucket = bucket_at cref_tbl (word_hash w % 131) in
        bucket_loop (length bucket) bucket w clen)

-- What `step` returns: -1, 0 and 1.
pub data Step : Type 0 where
  more : Step
  taken : Step
  short : Step

-- `boolToInt(uc != ';')`
abbrev pub unless_semicolon : ℕ → Step
unless_semicolon uc = if not (uc == b';') then short else taken

abbrev pub cap_255 : ℕ → ℕ
cap_255 n = if ltb 255 n then 255 else n

abbrev pub or_zero : Option ℕ → ℕ
or_zero none = 0
or_zero (some b) = b

-- The state `crefHex`: the value of a digit.
abbrev pub hex_digit_value : ℕ → Option ℕ
hex_digit_value uc =
    if leb b'a' uc && leb uc b'f' || leb b'A' uc && leb uc b'F'
    then some (bit_and uc 0xf + 9)
    else if is_digit uc
    then some (uc - b'0')
    else none

-- The case `crefHex` of `step`, by the value of the byte as a digit.
unfoldable pub hex_step : Option ℕ → Cref → ℕ → Cref × Step
hex_step (some d) cref uc = (record cref { result = cap_255 (cref.result * 2 ^ 4 + d) }, more)
hex_step none cref uc = (record cref { st = idle }, unless_semicolon uc)

-- `step`, by the state.
unfoldable pub step_in : CrefSt → Cref → ℕ → Cref × Step
unfolding set_at lookup_cref hex_step
step_in idle cref uc = (record cref { st = start }, more)
step_in start cref uc =
    if uc == b'#'
    then (record cref { st = num }, more)
    else if is_lower uc || is_upper uc
    then (record cref { w = set_at clear 0 uc; length = 1; st = name }, more)
    else (record cref { st = idle }, more)
step_in num cref uc =
    if uc == b'x' || uc == b'X'
    then (record cref { result = 0; st = hex }, more)
    else if is_digit uc
    then (record cref { result = uc - b'0'; st = dec }, more)
    else (record cref { result = b'#'; st = idle }, short)
step_in dec cref uc =
    if is_digit uc
    then (record cref { result = cap_255 (cref.result * 10 + (uc - b'0')) }, more)
    else (record cref { st = idle }, unless_semicolon uc)
step_in hex cref uc = hex_step (hex_digit_value uc) cref uc
step_in name cref uc =
    if is_lower uc || is_upper uc || is_digit uc
    then (if ltb cref.length 16
        then (record cref { w = set_at cref.w cref.length uc; length = cref.length + 1 }, more)
        else (cref, more))
    else (
      record cref { result = or_zero (lookup_cref cref.w cref.length); st = idle },
      unless_semicolon uc,
    )

unfoldable pub step : Cref → ℕ → Cref × Step
unfolding step_in
step cref uc = step_in cref.st cref uc
