-- ===== src/Tests/Contents.antt =====
-- dcc/mime.go, dcc/mime_multipart.go and dcc/cks.go at concrete inputs.
use gdcc.Base.{
  Result, ℕ, ◌+◌, ◌≡◌, refl, true, false, some, none, List, [], codes, length, arith, replicate,
}
use gdcc.Header.{to_lower, is_white}
use gdcc.Sum.{Checksum}
use gdcc.Mime.Context.{Mime, mhdr_idle, mhdr_ce_ct, ce_qp, ce_b64, new_mime, decoders_init}
use gdcc.Mime.Headers.{parse_mime_hdr, ck_mime_hdr, hdr_loop, hdr_run}
use gdcc.Mime.Headers.Bounds.{parse_mime_hdr-Sound}
use gdcc.Mime.Headers.Room.{Sound}
use gdcc.Mime.Headers.Run.{hdr_loop-hdr_run}
use gdcc.Mime.Headers.Fields.{base64, parse_mime_hdr-encoding}
use gdcc.Mime.Headers.Boundary.{IsMultipart, ck_mime_hdr-boundary}
use gdcc.Mime.Headers.Value.{ends, char, quote}
use gdcc.Mime.Quoted.{hex_value}
use gdcc.Mime.Quoted.RoundTrip.{plain, escape}
use gdcc.Mime.Quoted.RoundTrip
use gdcc.Content.{FuzzySum, Cks, new_cks, decode_sum}
use gdcc.Content.First.{first_sum}
use gdcc.Content.Decoded.{Sums, quoted_printable, decode_sum-Sums}
use gdcc.Content.Multipart.{ck_body_multipart}
use gdcc.Content.Multipart.Ends.{ck_body_multipart-ends}
use gdcc.Content.Message.{list_checksums, Panic}
use gdcc.Content.Message.Total.{Listed, list_checksums-total}
use gdcc.Tests.Data.{toy_md5}

-- A first fuzzy checksum that counts the bytes it is given.
abbrev byte_count : FuzzySum ℕ
byte_count = record {
  fuz1 = λ words n bp. n + length bp;
  final = λ n. (replicate 16 n, true);
  url = λ n. none;
  new = 0;
  panicked = λ n. false;
}

abbrev start : Mime
start = record new_mime { mime_nest = 0 }

new_mime-Sound : Sound true new_mime
unfolding new_mime decoders_init
new_mime-Sound = record {
  nest_le = omega arith;
  nest_room = tt;
  pos_room = tt;
  three = refl;
  bnds = ((refl, omega arith), ((refl, omega arith), ((refl, omega arith), tt)));
}

parse_mime_hdr-Sound_example : Sound true (parse_mime_hdr true new_mime (codes "x; boundary=a\n")).0
parse_mime_hdr-Sound_example =
    parse_mime_hdr-Sound true new_mime (codes "x; boundary=a\n") new_mime-Sound

abbrev at_ct : Mime
at_ct = record new_mime { mhdr_st = mhdr_ce_ct; mhdr_pos = 0 }

hdr_loop-hdr_run_example :
    hdr_loop 300 true at_ct (codes "Content-Type: text/html")
    ≡ some (hdr_run true at_ct (codes "Content-Type: text/html"))
hdr_loop-hdr_run_example =
    hdr_loop-hdr_run 300 true at_ct (codes "Content-Type: text/html") (omega arith)

parse_mime_hdr-encoding_example :
    parse_mime_hdr false new_mime (codes "content-transfer-encoding: BASE64\r\n")
    ≡ (record new_mime { mhdr_st = mhdr_idle; mhdr_pos = 0; bol = false; mime_ce = ce_b64 }, false)
unfolding to_lower is_white new_mime decoders_init
parse_mime_hdr-encoding_example =
    parse_mime_hdr-encoding new_mime (codes "content-transfer-encoding:") (codes " ")
      (codes "BASE64") (codes "\r\n") refl refl (refl, tt) (base64 refl)

ck_mime_hdr-boundary_example :
    IsMultipart
      (codes "a;b")
      (ck_mime_hdr new_mime (codes "Content-type: multipart/mixed; boundary=\"a;b\"\n"))
unfolding to_lower is_white
ck_mime_hdr-boundary_example =
    ck_mime_hdr-boundary new_mime (codes "Content-type:") (codes " ") (codes "multipart")
      (codes "/mixed") (codes " ") (codes "boundary=") (codes "\"a;b\"\n") (codes "a;b")
      new_mime-Sound refl (refl, tt) refl
      (
        (refl, refl),
        ((refl, refl), ((refl, refl), ((refl, refl), ((refl, refl), ((refl, refl), tt))))),
      )
      (refl, tt) refl
      (quote (char refl refl refl (char refl refl refl (char refl refl refl (quote (ends refl))))))
      (omega arith)

abbrev qp_mime : Mime
qp_mime = record new_mime { mime_ce = ce_qp }

abbrev qp_cks : Cks ℕ
qp_cks = record (new_cks [] byte_count) { mime = qp_mime }

decode_sum-Sums_example :
    Sums [] byte_count qp_cks (decode_sum [] byte_count qp_cks (codes "a=3Db")) (codes "a=b")
unfolding hex_value new_mime decoders_init
decode_sum-Sums_example =
    decode_sum-Sums [] byte_count qp_cks refl refl
      (quoted_printable refl refl (plain refl (escape refl refl (plain refl RoundTrip.done))))

abbrev parts : Mime
parts = record new_mime { mime_nest = 1; mime_bnd_matches = 1 }

abbrev parts_cks : Cks ℕ
parts_cks = record (new_cks [] byte_count) { mime = parts }

parts_end :
    (d : Cks ℕ) × (ck_body_multipart [] byte_count parts_cks (codes "--\n\nHello\n----\n") ≡ some d)
unfolding new_mime decoders_init
parts_end =
    ck_body_multipart-ends [] byte_count parts_cks (codes "--\n\nHello\n----\n") (omega arith)

list_checksums-total_example :
    (r : Result Panic (List Checksum)) × (list_checksums []
        (first_sum toy_md5)
        toy_md5
        (codes "Subject: a\n\nHello\n")
      ≡ some r)
    × Listed [] (first_sum toy_md5) toy_md5 (codes "Subject: a\n\nHello\n") r
list_checksums-total_example =
    list_checksums-total [] (first_sum toy_md5) toy_md5 (codes "Subject: a\n\nHello\n")
