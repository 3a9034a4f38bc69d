-- ===== src/Tests/Messages.antt =====
-- dcc/message.go at concrete inputs.
use gdcc.Base.{◌≡◌, refl, true, some, none, List, [], ◌∷◌, Bytes, codes}
use gdcc.Message.{
  BodySums, nothing_noticed, notice_all, split_headers_body, parse_return_path, parse_unix_from,
  checksums,
}
use gdcc.Message.Values.{parse_return_path-some, nil, fold}
use gdcc.Message.Headers.{last_value, sender_of, notice_all-last_value}
use gdcc.Message.Order.{Ascending, checksums-Ascending}
use gdcc.Header.{to_lower}
use gdcc.Tests.Data.{toy_md5}

abbrev mail : Bytes
mail = codes "Return-Path: <a@b>\r\nFrom: Ann\n <ann@b>\nReceived: one\nReceived: two\n\r\nHello\n"

abbrev mail_fields : List Bytes
mail_fields =
    codes "Return-Path: <a@b>\r\n"
    ∷ codes "From: Ann\n <ann@b>\n"
    ∷ codes "Received: one\n"
    ∷ codes "Received: two\n"
    ∷ []

mail_split : split_headers_body mail ≡ (mail_fields, codes "Hello\n")
unfolding split_headers_body
mail_split = refl

return_path_read : parse_return_path (codes "return-path: <a>\r\n") ≡ some (codes "<a>")
unfolding to_lower
return_path_read =
    parse_return_path-some {name = codes "return-path:"} (codes " ") (codes "a") (codes "\r\n") b'<'
      b'>'
      (fold refl (
        fold refl (
          fold refl (
            fold refl (
              fold refl (
                fold refl
                  (fold refl (fold refl (fold refl (fold refl (fold refl (fold refl nil))))))))))))
      (refl, tt) (refl, (refl, tt)) refl refl

unix_from : parse_unix_from (codes "From  ann@b Thu\n") ≡ some (codes "ann@b")
unfolding parse_unix_from
unix_from = refl

notice_all-last_value_example : notice_all toy_md5 true mail_fields nothing_noticed ≡ record {
  from_sum = last_value toy_md5 (codes "From:") mail_fields none;
  msg_id_sum = last_value toy_md5 (codes "Message-ID:") mail_fields none;
  recv_sum = last_value toy_md5 (codes "Received:") mail_fields none;
  env_from = sender_of mail_fields;
}
notice_all-last_value_example = notice_all-last_value toy_md5 mail_fields

abbrev no_body : List Bytes → Bytes → BodySums
no_body fields body = record { body = none; fuz1 = some body; fuz2 = none }

checksums-Ascending_example : Ascending 1 (checksums toy_md5 no_body mail)
checksums-Ascending_example = checksums-Ascending toy_md5 no_body mail
