-- ===== src/Tests/Checksums.antt =====
-- dcc/body.go, dcc/header.go, dcc/sum.go and dcc/result.go at concrete inputs.
use gdcc.Base.{
  ◌≡◌, ◌<◌, refl, true, List, [], ◌∷◌, ◌++◌, Bytes, codes, length, arith, concat, some, trim_right,
}
use gdcc.Body.{body0, body_step, emit, new_body_state}
use gdcc.Body.Spec.{accepted, held, run_chunks, unquote}
use gdcc.Body.Checksum.{Summed, final-run_chunks, final-line_end}
use gdcc.Header.{str2ck, to_lower, is_white}
use gdcc.Header.Normal.{
  folded, hashed, SameText, nil, fold, same, upper, lower, less, greater, space, skip_left,
  skip_right, str2ck-SameText, str2ck-period,
}
use gdcc.Sum.{sum_string, be32, hex_word}
use gdcc.Sum.Text.{read_hex, read_hex-sum_string}
use gdcc.Result.{
  CkCount, Action, verdict_threshold, whitelisted, body_count, is_body_type,
  is_white as is_white_count,
}
use gdcc.Result.Decision.{Decides, verdict_threshold-Decides}
use gdcc.Tests.Data.{toy_md5}

abbrev text : Bytes
text = codes "Dear = all,\n>From here on\nthe rest of a body with some words\n"

abbrev chunks : List Bytes
chunks =
    codes "Dear = all,\n>Fr"
    ∷ codes "om here on\nthe rest of a body "
    ∷ codes "with some words\n"
    ∷ []

-- The '>' of ">From" at the start of a line is not summed, also where two chunks cut it.
body_accepted : accepted true text ≡ codes "Dearall,Fromhereontherestofabodywithsomewords"
unfolding unquote
body_accepted = refl

body_run : (run_chunks new_body_state chunks).buf ≡ accepted true text
unfolding body0 body_step emit unquote
body_run = refl

final-run_chunks_example :
    (h : Bytes) × (h ++ held (run_chunks new_body_state chunks) ≡ accepted true (concat chunks))
    × Summed toy_md5 (run_chunks new_body_state chunks) h
final-run_chunks_example = final-run_chunks toy_md5 chunks

closed_body : Summed toy_md5 (run_chunks new_body_state chunks) (accepted true (concat chunks))
closed_body =
    final-line_end toy_md5 chunks
      (codes "Dear = all,\n>From here on\nthe rest of a body with some words") refl

hashed_address : hashed (codes " \"Ann\" <ANN@Example.COM.>\n") ≡ codes "annann@example.com"
unfolding hashed folded is_white to_lower trim_right
hashed_address = refl

same_text : SameText (codes "<Ann@B>") (codes "aNN@b ")
unfolding to_lower is_white
same_text = skip_left less (
    fold (upper (omega arith) (omega arith) refl) (
      fold (lower (omega arith) (omega arith) refl) (
        fold (lower (omega arith) (omega arith) refl) (
          fold same (
            fold (upper (omega arith) (omega arith) refl)
              (skip_left greater (skip_right space nil)))))))

str2ck-SameText_example : str2ck toy_md5 [] (codes "<Ann@B>") ≡ str2ck toy_md5 [] (codes "aNN@b ")
str2ck-SameText_example = str2ck-SameText toy_md5 [] same_text

short_value : length (folded (codes "mx.example")) < 1024
unfolding folded is_white to_lower
short_value = omega arith

last_period :
    str2ck toy_md5 [] (codes "mx.example" ++ codes ".") ≡ str2ck toy_md5 [] (codes "mx.example")
last_period = str2ck-period toy_md5 [] (codes "mx.example") short_value

abbrev some_sum : Bytes
some_sum = 0 ∷ 1 ∷ 0xab ∷ 0xff ∷ 16 ∷ 32 ∷ 48 ∷ 64 ∷ 9 ∷ 10 ∷ 11 ∷ 12 ∷ 13 ∷ 14 ∷ 15 ∷ 255 ∷ []

some_sum_printed : sum_string some_sum ≡ codes "0001abff 10203040 090a0b0c 0d0e0fff"
unfolding sum_string hex_word be32
some_sum_printed = refl

printed_sum : read_hex (sum_string some_sum) ≡ some_sum
printed_sum = read_hex-sum_string some_sum refl (omega arith)

abbrev answer : List CkCount
answer =
    (record { type = 3; cur = 0xfffff1; prev = 0 })
    ∷ (record { type = 7; cur = 12; prev = 11 })
    ∷ (record { type = 9; cur = 40; prev = 2 })
    ∷ []

-- The certified From: header does not accept, and the largest body count rejects.
answer_verdict : verdict_threshold answer 30 ≡ record { action = Action.reject; bulk = some 40 }
unfolding verdict_threshold whitelisted body_count is_body_type is_white_count
answer_verdict = refl

verdict_threshold-Decides_example : Decides answer 30 (verdict_threshold answer 30)
verdict_threshold-Decides_example = verdict_threshold-Decides answer 30
