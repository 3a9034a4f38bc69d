-- ===== src/Tests/Decoders.antt =====
-- The decoders of dcc/mime.go at concrete inputs.
use gdcc.Base.{◌≡◌, ◌≤◌, refl, Bytes, codes, length, arith, concat, keep}
use gdcc.Mime.Quoted
use gdcc.Mime.Quoted.{QpState, qp_fuel, qp_chunks, qp_decode, hex_value}
use gdcc.Mime.Quoted.Stream.{qp_text, qp_last, qp_chunks-qp_text}
use gdcc.Mime.Base64.{B64State, b64_decode, b64_chunks, b64_value}
use gdcc.Mime.Base64.RoundTrip.{is_digit, encode, b64_chunks-encode}
use gdcc.Mime.Base64.Loop.{b64_decode_bounds}

abbrev start : QpState
start = record { x = 0; y = 0; n = 0; phase = Quoted.idle }

abbrev quoted : Bytes
quoted = codes "a=3Db=\r\nc"

-- A failed escape is written out as it stands.
failed_escape : concat (qp_chunks (qp_fuel (codes "=4Zx")) 2 start (codes "=4Zx")).0 ≡ codes "=4Zx"
unfolding qp_chunks hex_value
failed_escape = refl

cut_escape :
    (concat (qp_chunks 19 2 start (codes "=4Zx")).0 ≡ qp_text start (codes "=4Zx"))
    × ((qp_chunks 19 2 start (codes "=4Zx")).1 ≡ qp_last start (codes "=4Zx"))
cut_escape = qp_chunks-qp_text 19 2 start (codes "=4Zx") (omega arith) (omega arith)

abbrev empty : B64State
empty = record { quantum = 0; quantum_cnt = 0 }

abbrev wrapped : Bytes
wrapped = codes "SGVs\r\nbG8="

wrapped_digits : keep is_digit wrapped ≡ encode (codes "Hello")
unfolding b64_value
wrapped_digits = refl

b64_chunks-encode_example : concat (b64_chunks 20 4 empty wrapped).0 ≡ codes "Hello"
b64_chunks-encode_example =
    b64_chunks-encode 20 4 empty wrapped (codes "Hello") (omega arith) (omega arith) refl
      (omega arith) wrapped_digits

small_buffer : length (b64_decode 4 empty wrapped).out ≤ 4
small_buffer = b64_decode_bounds 4 empty wrapped

hello : (b64_decode 1024 empty wrapped).out ≡ codes "Hello"
unfolding b64_decode
hello = refl
