-- ===== src/Fuz2/Final.antt =====
-- dcc/fuz2.go: the end of the checksum.
use gdcc.Base.{
  ℕ, ◌+◌, ◌-◌, ◌*◌, ◌≤◌, ◌≡◌, Bool, true, false, ◌&&◌, Option, some, none, List, [], ◌∷◌, Bytes,
  ltb, leb, if◌then◌else◌, take, replicate, ◌++◌, ◌<◌,
}
use gdcc.Hash.{Digest, write, sum_of}
use gdcc.Fuz2.{Fuz2State, Lang, few_words, min_words}

-- What `final` reads of a `ckURL`.
pub record Hosts : Type 0 where
  pub doms : ℕ
  pub dom_start : ℕ
  pub doms_buf : Bytes

-- The language with the most words, the first of those.
unfoldable pub best : Lang → List Lang → Lang
best lp [] = lp
best lp (l ∷ ls) = best (if ltb lp.wtotal l.wtotal then l else lp) ls

abbrev pub best_of : List Lang → Lang
best_of [] = record { wsummed = 0; wtotal = 0; md5 = [] }
best_of (l ∷ ls) = best l ls

abbrev pub invalid : Bytes × Bool
invalid = (replicate 16 0, false)

-- Few words: the host names of a message that has some make up for them.
unfoldable pub with_hosts : Digest → Lang → Option Hosts → Bytes × Bool
with_hosts md5 lp none = invalid
with_hosts md5 lp (some url) =
    let n = url.dom_start - 1 in
    if leb min_words (lp.wtotal + url.doms * 4)
    then (if ltb 0 n
        then (sum_of md5 (write lp.md5 (take n url.doms_buf)), true)
        else (sum_of md5 lp.md5, true))
    else invalid

-- `final`; the languages are never empty.
unfoldable pub final : Digest → Fuz2State → Option Hosts → Bytes × Bool
unfolding best with_hosts
final md5 f url =
    let lp = best_of f.lang in
    if ltb lp.wtotal few_words && ltb ((lp.wsummed + f.xsummed) * 10) f.btotal
    then invalid
    else if ltb lp.wtotal min_words
    then with_hosts md5 lp url
    else (sum_of md5 lp.md5, true)

abbrev larger : Lang → Lang → Lang
larger lp l = if ltb lp.wtotal l.wtotal then l else lp

-- The checksum is that of the words of the language, where they suffice, or with the host names
-- behind them.
pub data Summed (md5 : Digest) (lp : Lang) (sum : Bytes) : Option Hosts → Type 0 where
  words :
      {url : Option Hosts} → min_words ≤ lp.wtotal → sum ≡ sum_of md5 lp.md5 → Summed md5 lp sum url
  hosts :
      {url : Hosts}
      → lp.wtotal < min_words
      → min_words ≤ lp.wtotal + url.doms * 4
      → sum ≡ sum_of md5 (lp.md5 ++ take (url.dom_start - 1) url.doms_buf)
      → Summed md5 lp sum (some url)
