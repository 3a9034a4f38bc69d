-- ===== src/Identity.antt =====
-- dcc/identity.go: the file with the client's identities, for text in ASCII (`strings.Fields` parts
-- other text at further spaces). Reading and writing the file itself is left out.
pub mod Decimal
pub mod Lines
pub mod Write
use gdcc.Base.{
  ℕ, zero, suc, ◌+◌, ◌-◌, ◌*◌, ◌/◌, ◌%◌, ◌^◌, Bool, true, false, not, ◌&&◌, ◌||◌, Option, some,
  none, List, [], ◌∷◌, ◌++◌, Bytes, codes, ◌==◌, ltb, leb, if◌then◌else◌, length, trim_right,
  Result, ok, err,
}
use gdcc.Proto.{dcc_id_anon}

-- `Identity`
pub record Identity : Type 0 where
  pub client_id : ℕ
  pub password : Bytes

-- `Identity.Anonymous`
unfoldable pub anonymous : Identity → Bool
anonymous id = leb id.client_id dcc_id_anon || length id.password == 0

-- The text before the first `c`: `line[:strings.IndexByte(line, c)]`, or all of it.
unfoldable pub before : ℕ → Bytes → Bytes
before c [] = []
before c (b ∷ bs) = if b == c then [] else b ∷ before c bs

abbrev pub is_space : ℕ → Bool
is_space c = leb 9 c && leb c 13 || c == b' '

-- `strings.Fields`: the word that is read so far, and the words behind it.
abbrev pub close_word : Bytes → List Bytes → List Bytes
close_word [] words = words
close_word (c ∷ cs) words = (c ∷ cs) ∷ words

unfoldable pub fields_loop : Bytes → Bytes → List Bytes
fields_loop current [] = close_word current []
fields_loop current (c ∷ cs) =
    let ended = close_word current (fields_loop [] cs) in
    let longer = fields_loop (current ++ (c ∷ [])) cs in if is_space c then ended else longer

unfoldable pub fields : Bytes → List Bytes
unfolding fields_loop
fields line = fields_loop [] line

abbrev pub is_digit : ℕ → Bool
is_digit c = leb b'0' c && leb c b'9'

-- `strconv.ParseUint(s, 10, 32)`: the value of the digits, where there are any and nothing else.
unfoldable pub digits_value : ℕ → Bytes → Option ℕ
digits_value n [] = some n
digits_value n (c ∷ cs) =
    let rest = digits_value (n * 10 + (c - b'0')) cs in if is_digit c then rest else none

abbrev pub in_32_bits : Option ℕ → Option ℕ
in_32_bits none = none
in_32_bits (some n) = if ltb n (2 ^ 32) then some n else none

unfoldable pub parse_uint : Bytes → Option ℕ
unfolding digits_value
parse_uint [] = none
parse_uint (c ∷ cs) = in_32_bits (digits_value 0 (c ∷ cs))

abbrev pub with_password : Bytes → Option ℕ → Option Identity
with_password pw none = none
with_password pw (some n) = some (record { client_id = n; password = pw })

-- The entry of the fields of a line: an id, with options behind it, and a password.
abbrev pub entry_of : List Bytes → Option Identity
entry_of [] = none
entry_of (token ∷ []) = none
entry_of (token ∷ pw ∷ more) = with_password pw (parse_uint (before b',' token))

-- The lines of `ParseIdentityFile` and of `idOfLine`, which go the same way to this point.
unfoldable pub line_entry : Bytes → Option Identity
unfolding before fields parse_uint
line_entry line = entry_of (fields (before b'#' line))

-- `idOfLine`
abbrev pub id_of_line : Bytes → Option ℕ
id_of_line line = elim (line_entry line) [ none ↦ none | some e ↦ some e.client_id ]

-- `strings.Split(data, "\n")`
abbrev pub onto_first : ℕ → List Bytes → List Bytes
onto_first c [] = (c ∷ []) ∷ []
onto_first c (l ∷ ls) = (c ∷ l) ∷ ls

unfoldable pub split_lines : Bytes → List Bytes
split_lines [] = [] ∷ []
split_lines (c ∷ cs) =
    let rest = split_lines cs in if c == b'\n' then [] ∷ rest else onto_first c rest

abbrev pub max_token : ℕ
max_token = 65536

-- The lines that a `bufio.Scanner` returns, a last one without newline where it is not empty; it
-- stops at a line that does not fit its buffer. The CR that it strips is a space to `fields`.
unfoldable pub scanned : List Bytes → List Bytes
scanned [] = []
scanned (l ∷ []) = if length l == 0 || leb max_token (length l) then [] else l ∷ []
scanned (l ∷ k ∷ ls) =
    let rest = scanned (k ∷ ls) in if leb max_token (length l) then [] else l ∷ rest

-- The first entry that is not anonymous.
abbrev pub usable : Option Identity → Option Identity → Option Identity
usable none later = later
usable (some e) later = if leb e.client_id dcc_id_anon then later else some e

unfoldable pub first_usable : List Bytes → Option Identity
unfolding line_entry
first_usable [] = none
first_usable (l ∷ ls) = usable (line_entry l) (first_usable ls)

-- `ParseIdentityFile`
unfoldable pub parse_identity : Bytes → Option Identity
unfolding first_usable scanned split_lines
parse_identity content = first_usable (scanned (split_lines content))

-- `ResolveIdentity`: the flags, the environment's id and password, and the files in their order, each
-- with what is in it where it can be opened.
abbrev pub first_file : List (Option Bytes) → Identity
first_file [] = record { client_id = dcc_id_anon; password = [] }
first_file (none ∷ fs) = first_file fs
first_file (some content ∷ fs) = elim (parse_identity content) [ some e ↦ e | none ↦ first_file fs ]

unfoldable pub resolve_identity : Identity → Option Bytes → Bytes → List (Option Bytes) → Identity
unfolding parse_identity
resolve_identity flag env_id env_passwd files =
    let parsed : Option ℕ = elim env_id [ none ↦ none | some v ↦ parse_uint v ] in
    let env : ℕ = elim parsed [ none ↦ 0 | some n ↦ n ] in
    if not (leb flag.client_id dcc_id_anon) && not (length flag.password == 0)
    then flag
    else if not (leb env dcc_id_anon) && not (length env_passwd == 0)
    then record { client_id = env; password = env_passwd }
    else first_file files
