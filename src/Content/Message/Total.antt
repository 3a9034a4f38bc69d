-- ===== src/Content/Message/Total.antt =====
-- The body checksums are computed for every message.
use gdcc.Base.{
  ℕ, zero, suc, ◌+◌, ◌≤◌, ◌≡◌, refl, sym, ap, subst, inl, inr, true, false, Result, ok, err,
  if◌then◌else◌, not, Option, some, none, List, [], ◌∷◌, Bytes, ◌==◌, arith, Bool-cases,
}
use mathlib.Core.Option.{some-injective}
use gdcc.Hash.{Digest}
use gdcc.Fuz2.{Tbl}
use gdcc.Mime.Context.{Mime, Bnd, mhdr_ce_ct, new_mime, decoders_init}
use gdcc.Mime.Headers.{
  hdr_round, hdr_loop, hdr_fuel, hdr_run, end_of, ck_mime_hdr, enter_body, is_mhdr_idle,
}
use gdcc.Mime.Headers.Boundary.{ck_mime_hdr-finish}
use gdcc.Mime.Headers.Value.{finish}
use gdcc.Content.{FuzzySum, Computed, cks_fin, decode_sum}
use gdcc.Content.Multipart.{ck_body, compute_body}
use gdcc.Content.Multipart.Ends.{Live, ck_body_multipart-ends}
use gdcc.Content.Multipart.Tries.{live}
use gdcc.Content.Message.{
  headers, cks_of, message_sums, valid_sums, list_sums, list_checksums, Panic, panic,
}
use gdcc.Sum.{Checksum}
use gdcc.Message.{split_headers_body, notice_all, nothing_noticed, listed}
use gdcc.Message.Order.{Ascending, listed-Ascending}
use gdcc.Content.Message.Fresh.{Uncompared, Fresh, bnd_at-Uncompared, hdr_round-Fresh}

-- The loop of `parseMimeHdr` keeps what its rounds keep.
hdr_loop-Fresh :
    (fuel : ℕ) (c : Mime) (bp : Bytes)
    → Fresh c
    → (d : Mime) → hdr_loop fuel true c bp ≡ some d
    → Fresh d
unfolding hdr_loop
hdr_loop-Fresh zero c bp f d h = absurd (cc)
hdr_loop-Fresh (suc fuel) c [] f d h = subst Fresh (some-injective _ _ h) f
hdr_loop-Fresh (suc fuel) c (ch ∷ bp) f d h =
    let r = hdr_round true c.mhdr_st c (ch ∷ bp) in
    let next = hdr_round-Fresh c.mhdr_st c (ch ∷ bp) f in
    elim (Bool-cases r.2) [
      | inl stop ↦ subst Fresh (some-injective _ _ (rw stop at h)) next
      | inr go ↦ hdr_loop-Fresh fuel r.0 r.1 next d (rw go at h)
    ]

hdr_run-Fresh : (c : Mime) (bp : Bytes) → Fresh c → Fresh (hdr_run true c bp)
unfolding hdr_run
hdr_run-Fresh c bp f =
    ended (hdr_loop (hdr_fuel bp) true c bp) (hdr_loop-Fresh (hdr_fuel bp) c bp f)
  where
    ended : (o : Option Mime) → ((d : Mime) → o ≡ some d → Fresh d) → Fresh (end_of c o)
    ended none h = f
    ended (some d) h = h d refl

ck_mime_hdr-Fresh : (c : Mime) (hdr : Bytes) → Fresh c → Fresh (ck_mime_hdr c hdr)
ck_mime_hdr-Fresh c hdr f =
    let c0 = record c { mhdr_st = mhdr_ce_ct; mhdr_pos = 0 } in
    let d = hdr_run true c0 hdr in
    let fd = hdr_run-Fresh c0 hdr (record { matches_1 = f.matches_1; uncompared = f.uncompared }) in
    subst Fresh (sym (ck_mime_hdr-finish c hdr)) (entered (finish d) (finished d fd))
  where
    entered : (c : Mime) → Fresh c → Fresh (enter_body c)
    entered c f = unfold enter_body in ground (arith, f)

    finished : (d : Mime) → Fresh d → Fresh (finish d)
    finished d f = elim (Bool-cases (not (is_mhdr_idle d.mhdr_st))) [
      | inl busy ↦ rw busy (hdr_run-Fresh d (b'\n' ∷ []) f)
      | inr idle ↦ rw idle f
    ]

headers-Fresh : (m : Mime) (fields : List Bytes) → Fresh m → Fresh (headers m fields)
unfolding headers
headers-Fresh m [] f = f
headers-Fresh m (x ∷ fields) f = headers-Fresh (ck_mime_hdr m x) fields (ck_mime_hdr-Fresh m x f)

new_mime-Fresh : Fresh new_mime
unfolding new_mime decoders_init
new_mime-Fresh = record { matches_1 = omega arith; uncompared = (refl, (refl, (refl, tt))) }

live_all : (k i : ℕ) (bs : List Bnd) → Uncompared bs → live k i bs ≡ k
live_all zero i bs h = refl
live_all (suc k) i bs h = rw (bnd_at-Uncompared bs i h, live_all k (i + 1) bs h) (omega arith)

module _ (tbls : List Tbl) {F : Type 0} (ops : FuzzySum F) where
  -- The body checksums of any fields and any body are computed.
  pub message_sums-total :
      (md5 : Digest) (fields : List Bytes) (body : Bytes)
      → (sums : Computed) × (message_sums tbls ops md5 fields body ≡ some sums)
  unfolding message_sums compute_body ck_body cks_of
  message_sums-total md5 fields body =
      let m = headers new_mime fields in
      let f = headers-Fresh new_mime fields new_mime-Fresh in
      let c = cks_of tbls ops fields in
      elim (Bool-cases (m.mime_nest == 0)) [
        | inl single ↦ rw single (cks_fin tbls ops md5 (decode_sum tbls ops c body), refl)
        | inr multi ↦
            let nest : 1 ≤ m.mime_nest = ground arith in
            let l : Live tbls ops m =
              omega (arith, nest, f.matches_1, live_all m.mime_nest 0 m.mime_bnd f.uncompared) in
            let (d, e) = ck_body_multipart-ends tbls ops c body l in
            rw multi (cks_fin tbls ops md5 d, rw e refl)
      ]

  -- What `Checksums` gives: the checksums in the order of their types, or a panic where the first
  -- fuzzy checksum has panicked.
  pub data Listed (md5 : Digest) (msg : Bytes) : Result Panic (List Checksum) → Type 0 where
    lists :
        {sums : Computed} {cs : List Checksum}
        → message_sums tbls ops md5 (split_headers_body msg).0 (split_headers_body msg).1
          ≡ some sums
        → sums.panicked ≡ false
        → Ascending 1 cs
        → Listed md5 msg (ok cs)
    panics :
        {sums : Computed}
        → message_sums tbls ops md5 (split_headers_body msg).0 (split_headers_body msg).1
          ≡ some sums
        → sums.panicked ≡ true
        → Listed md5 msg (err panic)

  -- For every message, whatever its bytes, the walk over the parts of the body ends, and `Checksums`
  -- returns a list in which the types of the checksums ascend, unless the first fuzzy checksum
  -- panics on the way.
  pub list_checksums-total :
      (md5 : Digest) (msg : Bytes)
      → (r : Result Panic (List Checksum)) × (list_checksums tbls ops md5 msg ≡ some r)
        × Listed md5 msg r
  unfolding list_checksums
  list_checksums-total md5 msg =
      let (fields, content) = split_headers_body msg in
      let (sums, e) = message_sums-total md5 fields content in
      let noticed = notice_all md5 true fields nothing_noticed in
      let cs = listed md5 noticed (valid_sums sums) in
      (
        if sums.panicked then err panic else ok cs,
        ap (list_sums tbls ops md5 fields) e,
        elim (Bool-cases sums.panicked) [
          | inl p ↦ rw p (panics e p)
          | inr calm ↦ rw calm (lists e calm (listed-Ascending md5 noticed (valid_sums sums)))
        ],
      )
