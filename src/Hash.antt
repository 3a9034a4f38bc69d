-- ===== src/Hash.antt =====
-- The standard library's `crypto/md5` as the program uses it. A `hash.Hash` is the bytes written to
-- it so far; the digest of a byte string is a parameter of every definition that finishes one.
use gdcc.Base.{
  Bytes, ◌++◌, ◌≡◌, ◌∙◌, ap₂, take, drop, replicate, length, arith, length-take, length-drop,
  length-append, take-of_le, drop-of_le, append-nil,
}

-- What MD5 computes from the bytes written.
abbrev pub Digest : Type 0
Digest = Bytes → Bytes

-- `h.Write(p)`
abbrev pub write : Bytes → Bytes → Bytes
write h p = h ++ p

-- Go's `copy(dst, src)`, as the new content of `dst`.
unfoldable pub copy : Bytes → Bytes → Bytes
copy dst src = take (length dst) src ++ drop (length src) dst

pub length-copy : (dst src : Bytes) → length (copy dst src) ≡ length dst
unfolding copy
length-copy dst src = omega (
  arith,
  length-append (take (length dst) src) (drop (length src) dst),
  length-take (length dst) src,
  length-drop (length src) dst,
)

-- A source as long as the destination replaces it.
pub copy_whole : (dst src : Bytes) → length src ≡ length dst → copy dst src ≡ src
unfolding copy
copy_whole dst src h =
    ap₂ (λ (p q : Bytes). p ++ q) (take-of_le (length dst) src (omega arith))
      (drop-of_le (length src) dst (omega arith))
    ∙ append-nil src

-- `var s Sum; copy(s[:], h.Sum(nil))`
unfoldable pub sum_of : Digest → Bytes → Bytes
unfolding copy
sum_of md5 h = copy (replicate 16 0) (md5 h)

-- A checksum is 16 bytes long, whatever the digest.
pub length-sum_of : (md5 : Digest) (h : Bytes) → length (sum_of md5 h) ≡ 16
unfolding sum_of
length-sum_of md5 h = length-copy (replicate 16 0) (md5 h)
