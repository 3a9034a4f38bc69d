-- ===== src/Header.antt =====
-- dcc/header.go: the checksum of a header value.
pub mod Normal
use gdcc.Base.{
  ℕ, ◌+◌, ◌-◌, Bool, true, false, not, ◌&&◌, ◌||◌, List, [], ◌∷◌, ◌++◌, Bytes, ◌==◌, leb, within,
  if◌then◌else◌, length, trim_right,
}
use gdcc.Hash.{Digest, write, sum_of}

abbrev pub hdr_ck_max : ℕ
hdr_ck_max = 1024

unfoldable pub is_white : ℕ → Bool
is_white c = c == b' ' || c == b'\t' || c == b'\r' || c == b'\n'

unfoldable pub to_lower : ℕ → ℕ
to_lower c = if within b'A' b'Z' c then c + (b'a' - b'A') else c

-- The bytes that the loop skips.
abbrev pub is_skipped : ℕ → Bool
is_skipped c = is_white c || c == b'<' || c == b'>' || c == b'\'' || c == b'"' || c == b','

-- The loop over `str`; it stops where `cbuf` is full.
unfoldable pub str2ck_loop : Bytes → Bytes → Bytes
str2ck_loop cbuf [] = cbuf
str2ck_loop cbuf (c ∷ cs) =
    let rest = str2ck_loop (if is_skipped c then cbuf else cbuf ++ (to_lower c ∷ [])) cs in
    if leb hdr_ck_max (length cbuf) then cbuf else rest

-- `str2ck`; the hash gets the name first, if there is one.
unfoldable pub str2ck : Digest → Bytes → Bytes → Bytes
str2ck md5 hdr_name str =
    let cbuf = trim_right (λ c. c == b'.') (str2ck_loop [] str) in
    sum_of md5 (write (if not (length hdr_name == 0) then write [] hdr_name else []) cbuf)
