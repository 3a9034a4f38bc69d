-- ===== src/Tests/Urls.antt =====
-- dcc/fuz1.go and dcc/puny.go at concrete inputs.
use gdcc.Base.{ℕ, List, Bytes, replicate, ◌≡◌, refl, true, false, some, [], ◌∷◌, ◌++◌, codes, arith}
use gdcc.Header.{to_lower}
use gdcc.Cref
use gdcc.Fuz1.State.{Fuz1State, new_fuz1_state}
use gdcc.Fuz1.Puny.{puny_encode}
use gdcc.Fuz1.{fuz1}
use gdcc.Fuz1.Rounds.{Reads, fuz1-Reads}
use gdcc.Fuz1.Safe.{fuz1_chunks, fuz1-calm}

-- "bücher" and "müller.": the characters of two labels.
puny_bucher : puny_encode (codes "b" ++ (0xfc ∷ codes "cher")) ≡ some (codes "xn--bcher-kva")
unfolding puny_encode
puny_bucher = refl

puny_snow : puny_encode (0x2603 ∷ []) ≡ some (codes "xn--n3h")
unfolding puny_encode
puny_snow = refl

abbrev host : Fuz1State
host = fuz1 0 new_fuz1_state (codes "a\nhttp://www.example.com/x?y q\n")

-- Only the last two labels of a host name are summed, and no path.
host_summed : host.md5 ≡ codes "ahttpexamplecomq"
unfolding fuz1 to_lower Cref.step
host_summed = refl

-- A URL that a newline in a character reference does not end goes on in the next chunk, where its
-- host name ends before it begins.
cut_url : (fuz1 0 (fuz1 0 new_fuz1_state (codes "http://a.b&\n")) (codes ".c&\n/")).panicked ≡ true
unfolding fuz1 to_lower Cref.step
cut_url = refl

-- In one chunk it ends as it should.
whole_url : (fuz1 0 new_fuz1_state (codes "http://a.b&\n.c&\n/")).panicked ≡ false
unfolding fuz1 to_lower Cref.step
whole_url = refl

abbrev two_chunks : List (ℕ × Bytes)
two_chunks = (0, codes "a\nhttp://b@c.d") ∷ (9, codes ".e/ f\n") ∷ []

fuz1-calm_example : (fuz1_chunks new_fuz1_state two_chunks).panicked ≡ false
fuz1-calm_example = fuz1-calm two_chunks (ground arith)

fuz1-Reads_example :
    Reads 9 new_fuz1_state (codes "a &amp; b\n") (fuz1 9 new_fuz1_state (codes "a &amp; b\n"))
fuz1-Reads_example = fuz1-Reads 9 new_fuz1_state (codes "a &amp; b\n")

-- One chunk: '@' and a line end in a reference leave the line end behind the position.
abbrev behind : Bytes
behind =
    codes "aaaaa http://"
    ++ (replicate 200 b'a' ++ (codes "&\n@x/ " ++ (replicate 80 b'z' ++ codes " http://")))

behind_panics : (fuz1 0 new_fuz1_state behind).panicked ≡ true
unfolding fuz1 to_lower Cref.step
behind_panics = refl
