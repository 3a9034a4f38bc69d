-- ===== src/Message.antt =====
-- dcc/message.go: the header fields and the body of a message, and the checksums in their order.
pub mod Split
pub mod Values
pub mod Order
pub mod Headers
use gdcc.Base.{
  ℕ, zero, suc, ◌+◌, Bool, true, false, not, ◌&&◌, ◌||◌, Option, some, none, List, [], ◌∷◌, ◌++◌,
  Bytes, codes, ◌==◌, ltb, if◌then◌else◌, length, get_or, take, drop, trim_right, drop_while,
  concat,
}
use gdcc.Hash.{Digest}
use gdcc.Header.{to_lower, str2ck}
use gdcc.CkType
use gdcc.CkType.{CkType}
use gdcc.Sum.{Checksum}

-- The bytes up to the first newline, which is included, and those behind it: `msg[i:end]`.
unfoldable pub next_line : Bytes → Bytes × Bytes
next_line [] = ([], [])
next_line (c ∷ cs) =
    let (line, rest) = next_line cs in if c == b'\n' then (c ∷ [], cs) else (c ∷ line, rest)

unfoldable pub is_blank_line : Bytes → Bool
is_blank_line [] = true
is_blank_line (a ∷ []) = a == b'\n'
is_blank_line (a ∷ b ∷ []) = a == b'\r' && b == b'\n'
is_blank_line (a ∷ b ∷ c ∷ cs) = false

-- `fields[last]` grows by the line behind it.
unfoldable pub extend_last : Bytes → Bytes → List Bytes → List Bytes
extend_last line f [] = (f ++ line) ∷ []
extend_last line f (g ∷ fs) = f ∷ extend_last line g fs

-- A line joins the last field where it begins with a blank, else it is a field.
unfoldable pub add_line : List Bytes → Bytes → List Bytes
unfolding extend_last
add_line [] line = line ∷ []
add_line (f ∷ fs) line =
    let first = get_or line 0 0 in
    if first == b' ' || first == b'\t' then extend_last line f fs else (f ∷ fs) ++ (line ∷ [])

-- The loop of `splitHeadersBody`; every round reads a byte at least.
unfoldable pub split_loop : ℕ → List Bytes → Bytes → List Bytes × Bytes
unfolding next_line is_blank_line add_line
split_loop zero fields msg = (fields, [])
split_loop (suc fuel) fields [] = (fields, [])
split_loop (suc fuel) fields (c ∷ cs) =
    let (line, rest) = next_line (c ∷ cs) in
    let later = split_loop fuel (add_line fields line) rest in
    if is_blank_line line then (fields, rest) else later

unfoldable pub split_headers_body : Bytes → List Bytes × Bytes
unfolding split_loop
split_headers_body msg = split_loop (length msg) [] msg

unfoldable pub has_prefix_fold : Bytes → Bytes → Bool
has_prefix_fold b [] = true
has_prefix_fold [] (p ∷ ps) = false
has_prefix_fold (c ∷ cs) (p ∷ ps) =
    let rest = has_prefix_fold cs ps in if to_lower c == to_lower p then rest else false

abbrev pub is_blank : ℕ → Bool
is_blank c = c == b' ' || c == b'\t'

abbrev pub is_line_end : ℕ → Bool
is_line_end c = c == b'\r' || c == b'\n'

abbrev pub return_path_name : Bytes
return_path_name = codes "Return-Path:"

unfoldable pub parse_return_path : Bytes → Option Bytes
unfolding has_prefix_fold trim_right
parse_return_path f =
    if not (has_prefix_fold f return_path_name)
    then none
    else (let v = trim_right is_line_end (drop_while is_blank (drop (length return_path_name) f)) in
        if length v == 0 then none else some v)

-- The bytes before the first space, where there is one: `bytes.IndexByte(v, ' ')`.
unfoldable pub before_space : Bytes → Option Bytes
before_space [] = none
before_space (c ∷ cs) =
    let rest = before_space cs in
    if c == b' ' then some [] else elim rest [ none ↦ none | some w ↦ some (c ∷ w) ]

-- A prefix that is compared byte by byte.
unfoldable pub has_prefix : Bytes → Bytes → Bool
has_prefix b [] = true
has_prefix [] (p ∷ ps) = false
has_prefix (c ∷ cs) (p ∷ ps) = let rest = has_prefix cs ps in if c == p then rest else false

unfoldable pub parse_unix_from : Bytes → Option Bytes
unfolding before_space has_prefix
parse_unix_from f =
    if not (has_prefix f (codes "From "))
    then none
    else elim (before_space (drop_while (λ c. c == b' ') (drop 5 f))) [
      | none ↦ none
      | some w ↦ if length w == 0 then none else some w
    ]

-- What `Checksums` has noticed of the headers.
pub record Noticed : Type 0 where
  pub from_sum : Option Bytes
  pub msg_id_sum : Option Bytes
  pub recv_sum : Option Bytes
  pub env_from : Option Bytes

abbrev pub nothing_noticed : Noticed
nothing_noticed = record { from_sum = none; msg_id_sum = none; recv_sum = none; env_from = none }

-- The envelope sender of a field; only the first field can be the UNIX line.
unfoldable pub envelope : Bool → Bytes → Option Bytes
unfolding parse_unix_from parse_return_path
envelope first f = elim (if first then parse_unix_from f else none) [
  | some v ↦ some v
  | none ↦ parse_return_path f
]

-- The body of the loop of `Checksums` over the fields.
unfoldable pub notice : Digest → Bool → Bytes → Noticed → Noticed
unfolding has_prefix_fold envelope
notice md5 first f n =
    let named : Noticed =
      if has_prefix_fold f (codes "From:")
      then record n { from_sum = some (str2ck md5 [] (drop 5 f)) }
      else if has_prefix_fold f (codes "Message-ID:")
      then record n { msg_id_sum = some (str2ck md5 [] (drop 11 f)) }
      else if has_prefix_fold f (codes "Received:")
      then record n { recv_sum = some (str2ck md5 [] (drop 9 f)) }
      else n in
    elim n.env_from [ some v ↦ named | none ↦ record named { env_from = envelope first f } ]

unfoldable pub notice_all : Digest → Bool → List Bytes → Noticed → Noticed
unfolding notice
notice_all md5 first [] n = n
notice_all md5 first (f ∷ fs) n = notice_all md5 false fs (notice md5 first f n)

-- A checksum that is there, as the one entry that `add` appends.
unfoldable pub add : CkType → Option Bytes → Bool → List Checksum
add t none report = []
add t (some s) report = record { type = t; sum = s; report = report } ∷ []

-- The checksums of a body under the MIME headers of the message: `computeBody`.
pub record BodySums : Type 0 where
  pub body : Option Bytes
  pub fuz1 : Option Bytes
  pub fuz2 : Option Bytes

abbrev pub map_option : (Bytes → Bytes) → Option Bytes → Option Bytes
map_option f none = none
map_option f (some x) = some (f x)

-- The Message-ID's checksum; one that is made up where there is no such header is not reported.
unfoldable pub add_id : Bytes → Option Bytes → List Checksum
add_id empty none = add CkType.message_id (some empty) false
add_id empty (some s) = add CkType.message_id (some s) true

-- The end of `Checksums`: the checksums in the order of their types.
unfoldable pub listed : Digest → Noticed → BodySums → List Checksum
unfolding add add_id
listed md5 n sums =
    add CkType.env_from (map_option (str2ck md5 []) n.env_from) true
    ++ (add CkType.from n.from_sum true
        ++ (add_id (str2ck md5 [] []) n.msg_id_sum
            ++ (add CkType.received n.recv_sum true
                ++ (add CkType.body sums.body true
                    ++ (add CkType.fuz1 sums.fuz1 true ++ add CkType.fuz2 sums.fuz2 true)))))

-- `Checksums`; what `computeBody` returns for the fields and the body is an argument.
unfoldable pub checksums : Digest → (List Bytes → Bytes → BodySums) → Bytes → List Checksum
unfolding split_headers_body notice_all listed
checksums md5 compute_body msg =
    let (fields, content) = split_headers_body msg in
    listed md5 (notice_all md5 true fields nothing_noticed) (compute_body fields content)
