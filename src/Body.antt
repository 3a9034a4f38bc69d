-- ===== src/Body.antt =====
-- dcc/body.go: the streaming body checksum.
pub mod Spec
pub mod Checksum
use gdcc.Base.{
  ℕ, ◌+◌, ◌-◌, ◌≡◌, Bool, true, false, not, ◌||◌, List, [], ◌∷◌, ◌++◌, Bytes, codes, ◌==◌, leb,
  if◌then◌else◌, length, get_or, take,
}
use gdcc.Hash.{Digest, write, sum_of}

-- `bodyState`; `md5` is the bytes written to the hash.
pub record BodyState : Type 0 where
  pub md5 : Bytes
  pub total : ℕ
  pub flen : ℕ
  pub buf : Bytes

abbrev pub from_seq : Bytes
from_seq = b'\n' ∷ codes ">From"

abbrev pub from_tail : Bytes
from_tail = codes ">From"

abbrev pub body_buf_len : ℕ
body_buf_len = 1024

abbrev pub new_body_state : BodyState
new_body_state = record { md5 = []; total = 0; flen = 1; buf = [] }

unfoldable pub emit : BodyState → Bytes → BodyState
emit b p =
    let buf' = b.buf ++ p in
    if leb body_buf_len (length buf')
    then record b { md5 = write b.md5 buf'; total = b.total + length p; buf = [] }
    else record b { total = b.total + length p; buf = buf' }

-- The body of the loop below the partial match: the switch on one byte.
body_byte : BodyState → ℕ → BodyState
body_byte b c =
    if c == b'\n'
    then record b { flen = 1 }
    else if c == b' ' || c == b'\t' || c == b'\r'
    then b
    else if c == b'='
    then b
    else emit b (c ∷ [])

-- The partial match of `from_seq` fails after `b.flen` bytes: what was held back is emitted.
body_mismatch : BodyState → BodyState
body_mismatch b =
    let held = b.flen - 1 in
    if not (held == 0)
    then record (emit b (take held from_tail)) { flen = 0 }
    else record b { flen = 0 }

-- One round of the loop of `body0`.
unfoldable pub body_step : BodyState → ℕ → BodyState
unfolding body_byte body_mismatch
body_step b c =
    if not (b.flen == 0)
    then (if c == get_or from_seq b.flen 0
        then (if leb 6 (b.flen + 1)
            then record (emit b (codes "From")) { flen = 0 }
            else record b { flen = b.flen + 1 })
        else body_byte (body_mismatch b) c)
    else body_byte b c

unfoldable pub body0 : BodyState → Bytes → BodyState
body0 b [] = b
body0 b (c ∷ cs) = body0 (body_step b c) cs

-- The bytes that `final` has hashed.
abbrev pub flushed : BodyState → Bytes
flushed b = if not (length b.buf == 0) then write b.md5 b.buf else b.md5

unfoldable pub final : Digest → BodyState → Bytes × Bool
final md5 b = (sum_of md5 (flushed b), leb 30 b.total)
