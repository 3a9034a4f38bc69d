-- ===== src/Fuz1/Puny.antt =====
-- dcc/puny.go: the Punycode of a label. The bit operations on bytes are written as arithmetic.
use gdcc.Base.{
  ℕ, zero, suc, ◌+◌, ◌-◌, ◌*◌, ◌/◌, ◌%◌, Bool, false, not, ◌&&◌, ◌||◌, Option, some, none, List, [],
  ◌∷◌, ◌++◌, Bytes, codes, ◌==◌, ltb, leb, within, if◌then◌else◌, length, get_or,
}
use gdcc.Fuz1.State.{CkUrl, url_label_max, url_host_max, copy_at}

abbrev pub utf8_max : ℕ
utf8_max = 0x10ffff

abbrev pub puny_base : ℕ
puny_base = 36

abbrev pub puny_tmin : ℕ
puny_tmin = 1

abbrev pub puny_tmax : ℕ
puny_tmax = 26

abbrev pub puny_skew : ℕ
puny_skew = 38

abbrev pub puny_damp : ℕ
puny_damp = 700

abbrev pub puny_initial_bias : ℕ
puny_initial_bias = 72

abbrev pub puny_initial_n : ℕ
puny_initial_n = 0x80

abbrev pub puny_prefix : Bytes
puny_prefix = codes "xn--"

abbrev pub puny_code36 : Bytes
puny_code36 = codes "abcdefghijklmnopqrstuvwxyz0123456789"

-- The loop of `punyAdapt`; a round makes `delta` smaller.
unfoldable pub puny_adapt_loop : ℕ → ℕ → ℕ → ℕ × ℕ
puny_adapt_loop zero delta k = (delta, k)
puny_adapt_loop (suc fuel) delta k =
    let more = puny_adapt_loop fuel (delta / (puny_base - puny_tmin)) (k + puny_base) in
    if ltb ((puny_base - puny_tmin) * puny_tmax / 2) delta then more else (delta, k)

-- `punyAdapt`
unfoldable pub puny_adapt : ℕ → ℕ → Bool → ℕ
unfolding puny_adapt_loop
puny_adapt delta numpoints firsttime =
    let scaled = if firsttime then delta / puny_damp else delta / 2 in
    let start = scaled + scaled / numpoints in
    let (d, k) = puny_adapt_loop start start 0 in
    k + (puny_base - puny_tmin + 1) * d / (d + puny_skew)

-- `punyOut`; there is no result where the label is full.
unfoldable pub puny_out : ℕ → Bytes → Option Bytes
puny_out c puny = if leb url_label_max (length puny) then none else some (puny ++ (c ∷ []))

-- The six bits of a byte that goes on with a character.
abbrev pub next_bits : ℕ → Option ℕ
next_bits b = if within 0x80 0xbf b then some (b - 0x80) else none

-- `n` more bytes of a character, from the position `i` on; the last one is before `domEnd`.
unfoldable pub utf8_more : ℕ → ℕ → Bytes → ℕ → Option ℕ
utf8_more zero uc buf i = some uc
utf8_more (suc n) uc buf i = elim (next_bits (get_or buf i 0)) [
  | none ↦ none
  | some bits ↦ utf8_more n (uc * 64 + bits) buf (i + 1)
]

-- A character of `n` more bytes, whose first byte has the bits `uc`.
unfoldable pub utf8_long : ℕ → ℕ → CkUrl → ℕ → Option (ℕ × ℕ)
unfolding utf8_more
utf8_long n uc u i =
    if uc == 0 || leb u.dom_end (i + n - 1) then none else elim (utf8_more n uc u.doms_buf i) [
      | none ↦ none
      | some c ↦ (if ltb utf8_max c then none else some (c, i + n))
    ]

-- The character at the position `i`, and the position behind it.
unfoldable pub utf8_char : CkUrl → ℕ → Option (ℕ × ℕ)
unfolding utf8_long
utf8_char u i =
    let uc = get_or u.doms_buf i 0 in
    if ltb uc 0x80
    then some (uc, i + 1)
    else if within 0xc0 0xdf uc
    then utf8_long 1 (uc % 32) u (i + 1)
    else if within 0xe0 0xef uc
    then utf8_long 2 (uc % 16) u (i + 1)
    else if within 0xf0 0xf7 uc
    then utf8_long 3 (uc % 8) u (i + 1)
    else none

-- The loop over the characters, with `slots` of the array left.
unfoldable pub utf8_loop : ℕ → CkUrl → ℕ → Option (List ℕ)
unfolding utf8_char
utf8_loop zero u i = none
utf8_loop (suc slots) u i = elim (utf8_char u i) [
  | none ↦ none
  | some (uc, j) ↦
      (let rest = utf8_loop slots u j in
        if j == u.dom_end
        then some (uc ∷ [])
        else elim rest [ none ↦ none | some us ↦ some (uc ∷ us) ])
]

-- The ASCII characters of a label.
unfoldable pub puny_basic : List ℕ → Bytes → Option Bytes
unfolding puny_out
puny_basic [] puny = some puny
puny_basic (uc ∷ us) puny =
    let skipped = puny_basic us puny in
    if leb 0x80 uc
    then skipped
    else elim (puny_out uc puny) [ none ↦ none | some more ↦ puny_basic us more ]

-- The threshold of the digit `k`.
abbrev pub puny_t : ℕ → ℕ → ℕ
puny_t k bias =
    if leb k bias then puny_tmin else if leb (bias + puny_tmax) k then puny_tmax else k - bias

-- The digits of `q`; a round makes it smaller.
unfoldable pub puny_digits : ℕ → ℕ → ℕ → ℕ → Bytes → Option Bytes
unfolding puny_out
puny_digits zero q k bias puny = none
puny_digits (suc fuel) q k bias puny =
    let t = puny_t k bias in
    let last = puny_out (get_or puny_code36 q 0) puny in
    let digit = get_or puny_code36 (t + (q - t) % (puny_base - t)) 0 in
    if ltb q t then last else elim (puny_out digit puny) [
      | none ↦ none
      | some more ↦ puny_digits fuel ((q - t) / (puny_base - t)) (k + puny_base) bias more
    ]

-- What the loops of the encoder change.
pub record Puny : Type 0 where
  pub puny : Bytes
  pub delta : ℕ
  pub bias : ℕ
  pub h : ℕ

-- The loop over the characters for the code point `n`; `b` of them are ASCII.
unfoldable pub puny_points : ℕ → ℕ → List ℕ → Puny → Option Puny
unfolding puny_digits puny_adapt
puny_points n b [] p = some p
puny_points n b (uc ∷ us) p =
    let counted = puny_points n b us (record p { delta = p.delta + 1 }) in
    let skipped = puny_points n b us p in
    if ltb uc n
    then counted
    else if uc == n
    then elim (puny_digits (p.delta + 1) p.delta puny_base p.bias p.puny) [
      | none ↦ none
      | some more ↦ puny_points n b us (record {
        puny = more;
        delta = 0;
        bias = puny_adapt p.delta (p.h + 1) (p.h == b);
        h = p.h + 1;
      })
    ]
    else skipped

-- The least character from `n` on.
unfoldable pub puny_least : ℕ → List ℕ → ℕ → ℕ
puny_least n [] m = m
puny_least n (uc ∷ us) m = puny_least n us (if ltb uc m && leb n uc then uc else m)

-- The main loop; a round encodes a character at least, and the search reads one slot too many, which
-- is 0.
unfoldable pub puny_loop : ℕ → ℕ → ℕ → List ℕ → Puny → Option Bytes
unfolding puny_points puny_least
puny_loop zero n b us p = none
puny_loop (suc fuel) n b us p =
    let m = puny_least n (us ++ (0 ∷ [])) (utf8_max + 1) in
    let start = record p { delta = p.delta + (m - n) * (p.h + 1) } in
    if leb (length us) p.h then some p.puny else elim (puny_points m b us start) [
      | none ↦ none
      | some q ↦ puny_loop fuel (m + 1) b us (record q { delta = q.delta + 1 })
    ]

abbrev pub ascii_count : List ℕ → ℕ
ascii_count [] = 0
ascii_count (uc ∷ us) = if ltb uc 0x80 then suc (ascii_count us) else ascii_count us

-- The '-' behind the ASCII characters, if there are any.
unfoldable pub puny_hyphen : ℕ → Option Bytes → Option Bytes
unfolding puny_out
puny_hyphen b none = none
puny_hyphen b (some puny) = if not (b == 0) then puny_out b'-' puny else some puny

-- The Punycode of characters.
unfoldable pub puny_encode : List ℕ → Option Bytes
unfolding puny_basic puny_hyphen puny_loop
puny_encode us =
    let b = ascii_count us in
    elim (puny_hyphen b (puny_basic us puny_prefix)) [
      | none ↦ none
      | some puny ↦
          puny_loop (length us + 1) puny_initial_n b us
            (record { puny = puny; delta = 0; bias = puny_initial_bias; h = b })
    ]

-- The end of `punyencode`: the label is replaced where the name still fits.
unfoldable pub puny_store : CkUrl → Option Bytes → CkUrl
puny_store u none = u
puny_store u (some puny) =
    if leb (u.label_start + length puny) url_host_max
    then record u {
      dom_end = u.label_start + length puny;
      doms_buf = copy_at u.label_start puny u.doms_buf;
    }
    else u

abbrev pub encoded : Option (List ℕ) → Option Bytes
encoded none = none
encoded (some us) = puny_encode us

-- `punyencode`
unfoldable pub punyencode : CkUrl → CkUrl
unfolding utf8_loop puny_encode puny_store
punyencode u =
    let v = record u { flags = record u.flags { idn = false } } in
    puny_store v (encoded (utf8_loop url_label_max v v.label_start))
