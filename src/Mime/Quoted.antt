-- ===== src/Mime/Quoted.antt =====
-- dcc/mime.go: `qpDecode`, the quoted-printable decoder.
pub mod Stream
pub mod RoundTrip
use gdcc.Base.{
  ℕ, zero, suc, ◌+◌, ◌-◌, ◌*◌, ◌%◌, Bool, true, false, ◌||◌, List, [], ◌∷◌, ◌++◌, Bytes, ◌==◌, leb,
  within, if◌then◌else◌, length, Option, none, some,
}

-- `CK_QP_*`
pub data QpPhase : Type 0 where
  idle eq first fail1 fail2 fail3 : QpPhase

-- `qpState`
pub record QpState : Type 0 where
  pub x : ℕ
  pub y : ℕ
  pub n : ℕ
  pub phase : QpPhase

-- The value of a hexadecimal digit, if it is one.
unfoldable pub hex_value : ℕ → Option ℕ
hex_value ch =
    if within b'0' b'9' ch
    then some (ch - b'0')
    else if within b'a' b'f' ch
    then some (ch - (b'a' - 10))
    else if within b'A' b'F' ch
    then some (ch - (b'A' - 10))
    else none

-- What one round of the loop does: the state, and a byte that it writes.
abbrev pub Round : Type 0
Round = QpState × Option ℕ

abbrev go_on : QpState → Round
go_on q = (q, none)

-- Case `qpEq`, on the byte behind '='.
qp_eq : QpState → ℕ → Round
qp_eq q ch =
    let q' = record q { x = ch } in
    if ch == b'\r'
    then go_on (record q' { phase = first })
    else if ch == b'\n'
    then go_on (record q' { phase = idle })
    else elim (hex_value ch) [
      | some n ↦ go_on (record q' { n = n; phase = first })
      | none ↦ (record q' { phase = fail1 }, some b'=')
    ]

-- Case `qp1`, on the second byte behind '='. `byte(n << 4) | ch` has no bit in common.
qp_first : QpState → ℕ → Round
qp_first q ch =
    let q' = record q { y = ch } in
    let failed : Round = (record q' { phase = fail2 }, some b'=') in
    if q.x == b'\r'
    then (if ch == b'\n' then go_on (record q' { phase = idle }) else failed)
    else elim (hex_value ch) [
      | some low ↦ (record q' { phase = idle }, some (q.n * 16 % 256 + low))
      | none ↦ failed
    ]

-- The phases that read a byte.
unfoldable pub qp_read : QpPhase → QpState → ℕ → Round
unfolding qp_eq qp_first
qp_read eq q ch = qp_eq q ch
qp_read first q ch = qp_first q ch
qp_read _ q ch = if ch == b'=' then go_on (record q { phase = eq }) else (q, some ch)

-- One round of the loop with `ch` at the front of the input: the state, what it writes, and the
-- input that is left. The phases `fail1` to `fail3` write a byte read before, and read none.
qp_round : QpPhase → QpState → ℕ → Bytes → QpState × Option ℕ × Bytes
unfolding qp_read
qp_round fail1 q ch cs = (record q { phase = idle }, some q.x, ch ∷ cs)
qp_round fail2 q ch cs = (record q { phase = fail3 }, some q.x, ch ∷ cs)
qp_round fail3 q ch cs = (record q { phase = idle }, some q.y, ch ∷ cs)
qp_round phase q ch cs = let (q', written) = qp_read phase q ch in (q', written, cs)

-- The output, the input that is left and the state.
pub record Decoded : Type 0 where
  pub out : Bytes
  pub rest : Bytes
  pub state : QpState

-- `out[result] = ch; result++`
abbrev pub append_byte : Bytes → Option ℕ → Bytes
append_byte out none = out
append_byte out (some ch) = out ++ (ch ∷ [])

-- The round that fills the buffer is the last.
abbrev pub is_full : ℕ → Bytes → Option ℕ → Bool
is_full cap out none = false
is_full cap out (some ch) = leb cap (length out)

-- The loop, with the bytes written so far.
unfoldable pub qp_loop : ℕ → ℕ → QpState → Bytes → Bytes → Decoded
unfolding qp_round
qp_loop zero cap q input out = record { out = out; rest = input; state = q }
qp_loop (suc fuel) cap q [] out = record { out = out; rest = []; state = q }
qp_loop (suc fuel) cap q (ch ∷ cs) out =
    let (q', written, rest) = qp_round q.phase q ch cs in
    let out' = append_byte out written in
    let more = qp_loop fuel cap q' rest out' in
    if is_full cap out' written then record { out = out'; rest = rest; state = q' } else more

-- Each byte is read once, and at most two bytes are written between two reads.
abbrev pub qp_fuel : Bytes → ℕ
qp_fuel input = 4 * length input + 3

-- `qpDecode` into a buffer of `cap` bytes.
unfoldable pub qp_decode : ℕ → QpState → Bytes → Decoded
unfolding qp_loop
qp_decode cap q input =
    if cap == 0
    then record { out = []; rest = input; state = q }
    else qp_loop (qp_fuel input) cap q input []

-- The loop of `decodeSum` for quoted-printable: the chunks, and the state behind the last.
unfoldable pub qp_chunks : ℕ → ℕ → QpState → Bytes → List Bytes × QpState
unfolding qp_decode
qp_chunks zero cap q input = ([], q)
qp_chunks (suc fuel) cap q [] = ([], q)
qp_chunks (suc fuel) cap q (ch ∷ cs) =
    let d = qp_decode cap q (ch ∷ cs) in
    let (chunks, last) = qp_chunks fuel cap d.state d.rest in (d.out ∷ chunks, last)
