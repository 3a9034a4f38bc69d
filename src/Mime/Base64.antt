-- ===== src/Mime/Base64.antt =====
-- dcc/mime.go: `b64Decode`, the base64 decoder.
pub mod Stream
pub mod Loop
pub mod RoundTrip
use gdcc.Base.{
  ℕ, zero, suc, ◌+◌, ◌-◌, ◌*◌, ◌/◌, ◌%◌, ◌^◌, Bool, true, false, List, [], ◌∷◌, ◌++◌, Bytes, ◌==◌,
  ltb, leb, if◌then◌else◌, length, get_or,
}

-- `base64Decode`
abbrev pub base64_decode : List ℕ
base64_decode =
    64 ∷ 64 ∷ 64 ∷ 64 ∷ 64 ∷ 64 ∷ 64 ∷ 64 ∷ 64 ∷ 64 ∷ 64 ∷ 64 ∷ 64 ∷ 64 ∷ 64 ∷ 64 ∷ 64 ∷ 64 ∷ 64
    ∷ 64 ∷ 64 ∷ 64 ∷ 64 ∷ 64 ∷ 64 ∷ 64 ∷ 64 ∷ 64 ∷ 64 ∷ 64 ∷ 64 ∷ 64 ∷ 64 ∷ 64 ∷ 64 ∷ 64 ∷ 64 ∷ 64
    ∷ 64 ∷ 64 ∷ 64 ∷ 64 ∷ 64 ∷ 62 ∷ 64 ∷ 64 ∷ 64 ∷ 63 ∷ 52 ∷ 53 ∷ 54 ∷ 55 ∷ 56 ∷ 57 ∷ 58 ∷ 59 ∷ 60
    ∷ 61 ∷ 64 ∷ 64 ∷ 64 ∷ 65 ∷ 64 ∷ 64 ∷ 64 ∷ 0 ∷ 1 ∷ 2 ∷ 3 ∷ 4 ∷ 5 ∷ 6 ∷ 7 ∷ 8 ∷ 9 ∷ 10 ∷ 11 ∷ 12
    ∷ 13 ∷ 14 ∷ 15 ∷ 16 ∷ 17 ∷ 18 ∷ 19 ∷ 20 ∷ 21 ∷ 22 ∷ 23 ∷ 24 ∷ 25 ∷ 64 ∷ 64 ∷ 64 ∷ 64 ∷ 64 ∷ 64
    ∷ 26 ∷ 27 ∷ 28 ∷ 29 ∷ 30 ∷ 31 ∷ 32 ∷ 33 ∷ 34 ∷ 35 ∷ 36 ∷ 37 ∷ 38 ∷ 39 ∷ 40 ∷ 41 ∷ 42 ∷ 43 ∷ 44
    ∷ 45 ∷ 46 ∷ 47 ∷ 48 ∷ 49 ∷ 50 ∷ 51 ∷ 64 ∷ 64 ∷ 64 ∷ 64 ∷ 64 ∷ []

abbrev pub b64_bad : ℕ
b64_bad = 0o100

abbrev pub b64_eq : ℕ
b64_eq = 0o101

-- `b64State`; the quantum is a `uint32`.
pub record B64State : Type 0 where
  pub quantum : ℕ
  pub quantum_cnt : ℕ

-- `(quantum << 6) | v` on `uint32`, for `v` up to 65. The shift leaves the low six bits free, so a
-- value below 64 is added; 65 has bit 0, which is free, and bit 6, which is the old lowest bit.
unfoldable pub shift_in : ℕ → ℕ → ℕ
shift_in quantum v =
    let kept = quantum % 2 ^ 26 in
    if ltb v 64 then kept * 64 + v else kept * 64 + (v - 64) + (if kept % 2 == 0 then 64 else 0)

-- The bytes written at '='.
unfoldable pub b64_pad : B64State → Bytes
b64_pad s =
    if s.quantum_cnt == 2
    then (s.quantum / 2 ^ 4 % 256) ∷ []
    else if s.quantum_cnt == 3
    then (s.quantum / 2 ^ 10 % 256) ∷ (s.quantum / 2 ^ 2 % 256) ∷ []
    else []

-- What one round of the loop does: the state, the output so far, and whether it breaks.
pub record Round : Type 0 where
  pub state : B64State
  pub out : Bytes
  pub stop : Bool

-- The end of a round: the value joins the quantum, and a full quantum is written.
unfoldable pub b64_shift : ℕ → B64State → ℕ → Bytes → Round
unfolding shift_in
b64_shift cap s v out =
    let q = shift_in s.quantum v in
    if leb 4 (s.quantum_cnt + 1)
    then (let out' = out ++ ((q / 2 ^ 16 % 256) ∷ (q / 2 ^ 8 % 256) ∷ (q % 256) ∷ []) in
        record {
          state = record { quantum = q; quantum_cnt = 0 };
          out = out';
          stop = leb (cap - 3) (length out');
        })
    else record {
      state = record { quantum = q; quantum_cnt = s.quantum_cnt + 1 };
      out = out;
      stop = false;
    }

-- A round on a value of the table. The code goes on with '=' as with a digit, unless the buffer is
-- full: 65 joins the new quantum.
unfoldable pub b64_value_round : ℕ → B64State → ℕ → Bytes → Round
unfolding b64_pad b64_shift
b64_value_round cap s v out =
    if v == b64_bad
    then record { state = s; out = out; stop = false }
    else if v == b64_eq
    then (let out' = out ++ b64_pad s in
        let fresh = record s { quantum_cnt = 0 } in
        if leb (cap - 3) (length out')
        then record { state = fresh; out = out'; stop = true }
        else b64_shift cap fresh v out')
    else b64_shift cap s v out

-- The value of a byte; bytes from 128 on are skipped like those that the table calls bad.
unfoldable pub b64_value : ℕ → ℕ
b64_value ci = if leb 128 ci then b64_bad else get_or base64_decode ci b64_bad

-- The output, the input that is left and the state.
pub record Decoded : Type 0 where
  pub out : Bytes
  pub rest : Bytes
  pub state : B64State

-- The loop into a buffer of `cap` bytes, with what is written so far.
unfoldable pub b64_loop : ℕ → B64State → Bytes → Bytes → Decoded
unfolding b64_value_round b64_value
b64_loop cap s [] out = record { out = out; rest = []; state = s }
b64_loop cap s (ci ∷ cs) out =
    let r = b64_value_round cap s (b64_value ci) out in
    let more = b64_loop cap r.state cs r.out in
    if r.stop then record { out = r.out; rest = cs; state = r.state } else more

-- `b64Decode`
unfoldable pub b64_decode : ℕ → B64State → Bytes → Decoded
unfolding b64_loop
b64_decode cap s input =
    if ltb cap 3 then record { out = []; rest = input; state = s } else b64_loop cap s input []

-- The loop of `decodeSum` for base64: the chunks, and the state behind the last.
unfoldable pub b64_chunks : ℕ → ℕ → B64State → Bytes → List Bytes × B64State
unfolding b64_decode
b64_chunks zero cap s input = ([], s)
b64_chunks (suc fuel) cap s [] = ([], s)
b64_chunks (suc fuel) cap s (ci ∷ cs) =
    let d = b64_decode cap s (ci ∷ cs) in
    let (chunks, last) = b64_chunks fuel cap d.state d.rest in (d.out ∷ chunks, last)
