-- ===== src/Tests/Data.antt =====
-- Inputs that the tests share.
use gdcc.Base.{◌≡◌, Bytes, ◌++◌, take, replicate, length, arith, length-take, length-append}
use gdcc.Hash.{Digest}

-- A digest of 16 bytes that can be followed by hand.
abbrev pub toy_md5 : Digest
toy_md5 b = take 16 (b ++ replicate 16 7)

pub length-toy_md5 : (b : Bytes) → length (toy_md5 b) ≡ 16
length-toy_md5 b =
    omega (arith, length-take 16 (b ++ replicate 16 7), length-append b (replicate 16 7))
