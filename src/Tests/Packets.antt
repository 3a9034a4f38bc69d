-- ===== src/Tests/Packets.antt =====
-- dcc/proto.go at concrete inputs.
use gdcc.Base.{
  ℕ, suc, ◌+◌, ◌*◌, ◌^◌, ◌≡◌, ◌≤◌, ◌↔◌, refl, true, false, List, [], ◌∷◌, Bytes, codes, length,
  arith, ok, replicate,
}
use gdcc.Sum.{Checksum}
use gdcc.Proto.{
  OpNums, AnswerCount, op_query, hdr_len, sig_len, ck_len, build_query, parse_answer, reportable,
  sign_packet, verify_answer_sig, dcc_pkt_vers,
}
use gdcc.Proto.Query.{read_query, values, read_query-build_query}
use gdcc.Proto.Answer.{
  AnswersTo, Laid, encode_answer, parse_answer-encode_answer, parse_answer-ok_iff,
}
use gdcc.Proto.Sign.{verify_answer_sig_iff}
use gdcc.Tests.Data.{toy_md5, length-toy_md5}

abbrev nums : OpNums
nums = record { h = 77; p = 88; r = 99; t = 3 }

abbrev want : OpNums
want = record { h = 77; p = 88; r = 99; t = 1 }

abbrev counts : List AnswerCount
counts = (record { cur = 5; prev = 4 }) ∷ (record { cur = 0xfffff0; prev = 0xfffff0 }) ∷ []

abbrev reply : Bytes
reply = encode_answer 12 1 nums counts (replicate 16 0)

abbrev sums : List Checksum
sums =
    (record { type = 5; sum = replicate 16 1; report = false })
    ∷ (record { type = 7; sum = replicate 16 2; report = true })
    ∷ []

sums_reportable : reportable sums ≡ (record { type = 7; sum = replicate 16 2; report = true }) ∷ []
unfolding reportable
sums_reportable = refl

sums_fit : (n : ℕ) → n ≡ 1 → suc (hdr_len + 4 + n * ck_len + sig_len) ≤ 2 ^ 16
sums_fit n h = omega arith

read_query-build_query_example :
    read_query (length (reportable sums)) (build_query toy_md5 op_query 1 nums 0 sums (codes "pw"))
    ≡ record {
      stated = length (build_query toy_md5 op_query 1 nums 0 sums (codes "pw"));
      vers = dcc_pkt_vers;
      op = op_query;
      sender = 1;
      nums = nums;
      tgts = 0;
      sums = values (reportable sums);
    }
unfolding reportable
read_query-build_query_example =
    read_query-build_query toy_md5 op_query 1 nums 0 sums (codes "pw") (omega arith) (omega arith)
      (omega arith) (omega arith) (omega arith) (sums_fit (length (reportable sums)) refl)

parsed_answer : parse_answer reply (length counts) want ≡ ok counts
parsed_answer =
    parse_answer-encode_answer 12 1 nums want counts (replicate 16 0) (refl, refl, refl)
      (omega arith) (omega arith) refl (omega arith)

parse_answer-ok_iff_example :
    (parse_answer reply 2 want ≡ ok counts)
    ↔ (AnswersTo reply 2 want × (length counts ≡ 2) × Laid reply 24 counts)
parse_answer-ok_iff_example = parse_answer-ok_iff reply 2 want counts

verify_answer_sig_iff_example :
    (verify_answer_sig toy_md5 reply (codes "pw") ≡ true)
    ↔ ((sig_len ≤ length reply) × (sign_packet toy_md5 reply (codes "pw") ≡ reply))
verify_answer_sig_iff_example =
    verify_answer_sig_iff toy_md5 length-toy_md5 reply (codes "pw") (λ e. cc)
