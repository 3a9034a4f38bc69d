-- ===== src/Tests/Words.antt =====
-- dcc/fuz2.go and dcc/fuz2_tables.go at concrete inputs.
use gdcc.Base.{◌≡◌, refl, none, List, [], ◌∷◌, ◌++◌, Bytes, codes, arith}
use gdcc.Base.Words.{put_u32}
use gdcc.Sum.{be32}
use gdcc.Header.{to_lower}
use gdcc.Cref.{word_hash}
use gdcc.Cref
use gdcc.Fuz2.{Fuz2State, Tbl, new_fuz2_state, fuz2, lookup_word}
use gdcc.Fuz2.Charset.{table}
use gdcc.Fuz2.Stream.{each, fuz2-each, fuz2-append}
use gdcc.Fuz2.Bounds.{Sound, fuz2-Sound}
use gdcc.Fuz2.Final.{best, best_of}
use gdcc.Fuz2.Blob.{pack, decode_word_blob, decode_word_blob-pack}

abbrev bucket : Bytes
bucket = 3 ∷ codes "the" ++ (4 ∷ codes "word")

-- One dictionary, all of it in one bucket.
abbrev dictionary : List Tbl
dictionary = (record { words = bucket ∷ []; cset = none }) ∷ []

abbrev page : Bytes
page = codes "<html>The <b>w&#111;rd</b> "

counted : (best_of (fuz2 dictionary new_fuz2_state page).lang).wtotal ≡ 2
unfolding fuz2 Cref.step table to_lower lookup_word word_hash be32 best
counted = refl

fuz2-each_example : fuz2 dictionary new_fuz2_state page ≡ each dictionary new_fuz2_state page
fuz2-each_example = fuz2-each dictionary new_fuz2_state page

fuz2-append_example :
    fuz2 dictionary (fuz2 dictionary new_fuz2_state (codes "<ht")) (codes "ml>The")
    ≡ fuz2 dictionary new_fuz2_state (codes "<ht" ++ codes "ml>The")
fuz2-append_example = fuz2-append dictionary new_fuz2_state (codes "<ht") (codes "ml>The")

new-Sound : Sound new_fuz2_state
new-Sound = ground arith

fuz2-Sound_example : Sound (fuz2 dictionary new_fuz2_state (codes "<b>&lt;"))
fuz2-Sound_example = fuz2-Sound dictionary new_fuz2_state (codes "<b>&lt;") (omega arith) new-Sound

abbrev many : Fuz2State
many = record new_fuz2_state {
  btotal = 30;
  lang = (record { wsummed = 25; wtotal = 9; md5 = codes "some words" }) ∷ [];
}

packed_words : decode_word_blob (put_u32 2 ++ pack (codes "ab" ∷ [] ∷ [])) ≡ codes "ab" ∷ [] ∷ []
packed_words = decode_word_blob-pack (codes "ab" ∷ [] ∷ []) (omega arith) (omega arith)
