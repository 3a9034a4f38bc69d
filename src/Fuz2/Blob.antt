-- ===== src/Fuz2/Blob.antt =====
-- dcc/fuz2_tables.go: the packed form of a dictionary.
use gdcc.Base.{
  ℕ, zero, suc, ◌<◌, ◌^◌, ◌≡◌, refl, List, [], ◌∷◌, ◌++◌, Bytes, length, take, drop, All,
  take-length_append, drop-length_append,
}
use gdcc.Base.Words.{put_u16, put_u32, get_u16, get_u32, get_u16-put_u16, get_u32-put_u32}

-- The loop of `decodeWordBlob`; an empty bucket is nil there.
unfoldable pub decode_buckets : ℕ → Bytes → List Bytes
decode_buckets zero b = []
decode_buckets (suc n) b =
    let l = get_u16 b in take l (drop 2 b) ∷ decode_buckets n (drop l (drop 2 b))

unfoldable pub decode_word_blob : Bytes → List Bytes
unfolding decode_buckets
decode_word_blob blob = decode_buckets (get_u32 blob) (drop 4 blob)

-- Buckets with their lengths in front of them.
pub pack : List Bytes → Bytes
pack [] = []
pack (b ∷ bs) = put_u16 (length b) ++ (b ++ pack bs)

drop-put_u16 : (n : ℕ) (rest : Bytes) → drop 2 (put_u16 n ++ rest) ≡ rest
unfolding put_u16
drop-put_u16 n rest = refl

drop-put_u32 : (n : ℕ) (rest : Bytes) → drop 4 (put_u32 n ++ rest) ≡ rest
unfolding put_u32
drop-put_u32 n rest = refl

decode_buckets-pack :
    (bs : List Bytes) → All (λ b. length b < 65536) bs → decode_buckets (length bs) (pack bs) ≡ bs
unfolding decode_buckets pack
decode_buckets-pack [] h = refl
decode_buckets-pack (b ∷ bs) h =
    rw
      (
        get_u16-put_u16 (length b) (b ++ pack bs) h.0,
        drop-put_u16 (length b) (b ++ pack bs),
        take-length_append b (pack bs) (length b) refl,
        drop-length_append b (pack bs) (length b) refl,
        decode_buckets-pack bs h.1,
      )
      refl

-- Fewer than 2^32 buckets, each shorter than 64 KiB, are read back from their packed form.
pub decode_word_blob-pack :
    (bs : List Bytes)
    → length bs < 2 ^ 32
    → All (λ b. length b < 65536) bs
    → decode_word_blob (put_u32 (length bs) ++ pack bs) ≡ bs
unfolding decode_word_blob
decode_word_blob-pack bs n h =
    rw (get_u32-put_u32 (length bs) (pack bs) n, drop-put_u32 (length bs) (pack bs))
      (decode_buckets-pack bs h)
