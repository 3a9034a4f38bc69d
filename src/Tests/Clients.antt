-- ===== src/Tests/Clients.antt =====
-- dcc/client.go at concrete inputs.
use gdcc.Base.{
  ℕ, zero, suc, ◌≡◌, ◌≢◌, ◌≤◌, ◌↔◌, refl, true, false, none, List, [], ◌∷◌, ◌++◌, Bytes, codes,
  take, replicate, ok, err,
}
use gdcc.Base.Words.{put_u16, put_u32, get_u16, get_u32}
use gdcc.Hash.{copy}
use gdcc.Sum.{Checksum}
use gdcc.Result.{CkCount}
use gdcc.Proto.{
  OpNums, AnswerCount, mismatch, server_error, op_error, op_query, sign_packet, parse_answer,
  verify_answer_sig, read_counts, trim_nul, reportable,
}
use gdcc.Proto.Answer.{encode_answer}
use gdcc.Client.{build_result}
use gdcc.Client.Exchange.{
  is_timeout, timed_out, no_servers, answer_error, Xmit, Attempt, Request, max_xmits, read_answer,
  exchange, first_answer, failover,
}
use gdcc.Client.Answers.{Stray, other, forged, Found, read_answer-ok_iff, read_answer-err}
use gdcc.Client.Packets.{queries, exchange-queries}
use gdcc.Client.Failover.{
  pair_up, build_result-pair_up, FirstAnswer, first_answer-ok_iff, Answered, failover-ok_iff,
}
use gdcc.Client.Authentic.{Source, exchange-Source}
use gdcc.Tests.Data.{toy_md5, length-toy_md5}

abbrev pub secret : Bytes
secret = codes "0123456789abcdef"

abbrev ours : OpNums
ours = record { h = 77; p = 88; r = 99; t = 0 }

abbrev theirs : OpNums
theirs = record { h = 7; p = 88; r = 99; t = 0 }

abbrev one_count : List AnswerCount
one_count = (record { cur = 5; prev = 4 }) ∷ []

abbrev unsigned_answer : Bytes
unsigned_answer = encode_answer 12 1 ours one_count (replicate 16 0)

abbrev answer : Bytes
answer = sign_packet toy_md5 unsigned_answer secret

abbrev foreign : Bytes
foreign = encode_answer 12 1 theirs one_count (replicate 16 0)

foreign-Stray : Stray toy_md5 1 ours secret foreign
unfolding parse_answer put_u16 put_u32 get_u16 get_u32
foreign-Stray = other refl

forged-Stray : Stray toy_md5 1 ours secret unsigned_answer
unfolding parse_answer put_u16 put_u32 get_u16 get_u32 read_counts verify_answer_sig
forged-Stray = forged one_count refl refl

accepted :
    read_answer toy_md5 1 ours secret (foreign ∷ unsigned_answer ∷ answer ∷ []) timed_out
    ≡ ok one_count
unfolding read_answer parse_answer put_u16 put_u32 get_u16 get_u32 read_counts verify_answer_sig
    sign_packet copy
accepted = refl

read_answer-ok_iff_example :
    (read_answer toy_md5 1 ours secret (foreign ∷ unsigned_answer ∷ answer ∷ []) timed_out
      ≡ ok one_count)
    ↔ Found toy_md5 1 ours secret (foreign ∷ unsigned_answer ∷ answer ∷ []) one_count
read_answer-ok_iff_example =
    read_answer-ok_iff toy_md5 1 ours secret (foreign ∷ unsigned_answer ∷ answer ∷ []) timed_out
      one_count

-- An error datagram that nobody has signed.
abbrev refusal : Bytes
refusal =
    put_u16 44
    ++ (12 ∷ op_error ∷ put_u32 1)
    ++ put_u32 77
    ++ put_u32 88
    ++ put_u32 99
    ++ put_u32 0
    ++ codes "no"

refusal_parsed : parse_answer (take 2048 refusal) 1 ours ≡ err (server_error (codes "no"))
unfolding parse_answer put_u16 put_u32 get_u16 get_u32 trim_nul
refusal_parsed = refl

no_mismatch : (m : Bytes) → server_error m ≢ mismatch
no_mismatch m e = cc

error_ends_wait :
    read_answer toy_md5 1 ours secret ((foreign ∷ []) ++ (refusal ∷ answer ∷ [])) timed_out
    ≡ err (answer_error (server_error (codes "no")))
error_ends_wait =
    read_answer-err toy_md5 1 ours secret (foreign ∷ []) (answer ∷ []) refusal timed_out
      (server_error (codes "no")) (foreign-Stray, tt) refusal_parsed (no_mismatch (codes "no"))

abbrev pub sums : List Checksum
sums =
    (record { type = 5; sum = replicate 16 1; report = false })
    ∷ (record { type = 7; sum = replicate 16 2; report = true })
    ∷ []

abbrev asked : Request
asked = record {
  op = op_query;
  sender = 4;
  nums = ours;
  tgts = 0;
  cks = sums;
  passwd = secret;
  n = 1;
}

-- The first transmission is lost, the second is answered.
abbrev waits : ℕ → Xmit
waits zero = record {
  before = none;
  written = true;
  arrivals = foreign ∷ [];
  ending = timed_out;
  late = false;
}
waits (suc t) = record {
  before = none;
  written = true;
  arrivals = answer ∷ [];
  ending = timed_out;
  late = false;
}

abbrev pub reached : Attempt
reached = record {
  in_time = true;
  resolved = true;
  dialed = true;
  xmit = waits;
  cancelled_since = false;
}

exchange-queries_example :
    (k : ℕ) × (k ≤ max_xmits)
    × ((exchange toy_md5 reached asked).1 ≡ queries toy_md5 length-toy_md5 asked 0 k)
exchange-queries_example = exchange-queries toy_md5 length-toy_md5 reached asked

answered : (exchange toy_md5 reached asked).0 ≡ ok one_count
unfolding exchange parse_answer put_u16 put_u32 get_u16 get_u32 read_counts verify_answer_sig
    sign_packet copy is_timeout
answered = refl

exchange-Source_example : Source toy_md5 waits 1 secret ours max_xmits one_count
exchange-Source_example = exchange-Source toy_md5 reached asked one_count answered

sums_pair_up : build_result sums one_count ≡ pair_up (reportable sums) one_count
sums_pair_up = build_result-pair_up sums one_count

abbrev pub paired : List CkCount
paired = (record { type = 7; cur = 5; prev = 4 }) ∷ []

first_answer-ok_iff_example :
    (first_answer no_servers sums (err timed_out ∷ ok one_count ∷ []) ≡ ok paired)
    ↔ FirstAnswer sums (err timed_out ∷ ok one_count ∷ []) paired
first_answer-ok_iff_example =
    first_answer-ok_iff no_servers sums (err timed_out ∷ ok one_count ∷ []) paired

failover-ok_iff_example :
    (failover no_servers sums ((reached, err timed_out) ∷ (reached, ok one_count) ∷ []) ≡ ok paired)
    ↔ Answered sums ((reached, err timed_out) ∷ (reached, ok one_count) ∷ []) paired
failover-ok_iff_example =
    failover-ok_iff no_servers sums ((reached, err timed_out) ∷ (reached, ok one_count) ∷ []) paired
