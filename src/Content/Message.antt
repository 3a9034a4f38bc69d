-- ===== src/Content/Message.antt =====
-- dcc/message.go and dcc/cks.go: the body checksums of a message, from its headers and its body.
pub mod Total
pub mod Fresh
use gdcc.Base.{
  Bool, true, false, Option, none, some, List, [], ◌∷◌, Bytes, Result, ok, err, if◌then◌else◌,
}
use gdcc.Sum.{Checksum}
use gdcc.Message.{BodySums, split_headers_body, notice_all, nothing_noticed, listed}
use gdcc.Hash.{Digest}
use gdcc.Fuz2.{Tbl}
use gdcc.Mime.Context.{Mime, new_mime}
use gdcc.Mime.Headers.{ck_mime_hdr}
use gdcc.Content.{FuzzySum, Cks, Computed, new_cks}
use gdcc.Content.Multipart.{compute_body}

-- The calls of `ckMimeHdr` in the loop of `Checksums` over the header fields.
unfoldable pub headers : Mime → List Bytes → Mime
unfolding ck_mime_hdr
headers m [] = m
headers m (f ∷ fields) = headers (ck_mime_hdr m f) fields

module _ (tbls : List Tbl) {F : Type 0} (ops : FuzzySum F) where
  -- The context of a message with these header fields.
  unfoldable pub cks_of : List Bytes → Cks F
  unfolding headers
  cks_of fields = record (new_cks tbls ops) { mime = headers new_mime fields }

  -- `newCks`, the headers and `computeBody` in `Checksums`.
  unfoldable pub message_sums : Digest → List Bytes → Bytes → Option Computed
  unfolding cks_of compute_body
  message_sums md5 fields body = compute_body tbls ops md5 (cks_of fields) body

-- A checksum is listed where it is valid.
abbrev pub valid : Bytes × Bool → Option Bytes
valid (sum, true) = some sum
valid (sum, false) = none

abbrev pub valid_sums : Computed → BodySums
valid_sums c = record { body = valid c.body; fuz1 = valid c.f1; fuz2 = valid c.f2 }

-- `Checksums` has panicked, in the first fuzzy checksum.
pub data Panic : Type 0 where
  panic : Panic

module _ (tbls : List Tbl) {F : Type 0} (ops : FuzzySum F) where
  abbrev pub list_sums :
      Digest → List Bytes → Option Computed → Option (Result Panic (List Checksum))
  list_sums md5 fields none = none
  list_sums md5 fields (some sums) = some (
      if sums.panicked
      then err panic
      else ok (listed md5 (notice_all md5 true fields nothing_noticed) (valid_sums sums)))

  -- `Checksums` with its calls of `ckMimeHdr` and `computeBody`.
  unfoldable pub list_checksums : Digest → Bytes → Option (Result Panic (List Checksum))
  unfolding message_sums split_headers_body listed
  list_checksums md5 msg =
      let (fields, content) = split_headers_body msg in
      list_sums md5 fields (message_sums tbls ops md5 fields content)
