-- ===== src/Client/Packets.antt =====
-- The packets that `exchange` sends.
use gdcc.Base.{
  ℕ, zero, suc, ◌+◌, ◌*◌, ◌%◌, ◌^◌, ◌≤◌, ◌≡◌, refl, sym, ap, ap₂, ◌∙◌, Bool, true, false, Option,
  some, none, inl, inr, Bool-cases, List, [], ◌∷◌, ◌++◌, Bytes, arith, ok, err, not, if◌then◌else◌,
  length, replicate, length-append, take-length_append, drop-length_append,
}
use gdcc.Base.Words.{put_u16, put_u32}
use gdcc.Hash.{Digest, copy, copy_whole}
use gdcc.Sum.{Checksum}
use gdcc.Proto.{
  OpNums, hdr_len, ck_len, sig_len, dcc_pkt_vers, reportable, put_checksums, sign_packet,
  build_query,
}
use gdcc.Proto.Sign.{unsigned, signature, sign_packet_lem}
use gdcc.Client.Exchange.{
  ClientError, send_failed, Counts, Sent, Xmit, Attempt, Request, put_t, is_timeout, after_wait,
  unless_ended, xmit_loop, exchange, max_xmits,
}

module _ (md5 : Digest) (md5-length : (b : Bytes) → length (md5 b) ≡ 16) where
  -- The signature of the bytes in front of it.
  tag : Bytes → Bytes → Bytes
  tag [] u = replicate 16 0
  tag (p ∷ ps) u = md5 ((p ∷ ps) ++ u)

  front_of : (u s : Bytes) → length s ≡ 16 → unsigned (u ++ s) ≡ u
  front_of u s h = take-length_append u s _ (omega (arith, length-append u s))

  back_of : (u s : Bytes) → length s ≡ 16 → signature (u ++ s) ≡ s
  back_of u s h = drop-length_append u s _ (omega (arith, length-append u s))

  -- Signing puts the tag in the place of any signature.
  sign_packet-append :
      (u s passwd : Bytes) → length s ≡ 16 → sign_packet md5 (u ++ s) passwd ≡ u ++ tag passwd u
  unfolding tag
  sign_packet-append u s [] h =
      sign_packet_lem md5 (u ++ s) []
      ∙ ap₂ (λ (x y : Bytes). x ++ replicate (length y) 0) (front_of u s h) (back_of u s h)
      ∙ ap (λ n. u ++ replicate n 0) h
  sign_packet-append u s (p ∷ ps) h =
      sign_packet_lem md5 (u ++ s) (p ∷ ps)
      ∙ ap₂ (λ (x y : Bytes). x ++ copy y (md5 ((p ∷ ps) ++ x))) (front_of u s h) (back_of u s h)
      ∙ ap (λ (b : Bytes). u ++ b) (copy_whole s _ (md5-length ((p ∷ ps) ++ u) ∙ sym h))

  length-tag : (passwd u : Bytes) → length (tag passwd u) ≡ 16
  unfolding tag
  length-tag [] u = refl
  length-tag (p ∷ ps) u = md5-length ((p ∷ ps) ++ u)

  -- A packet up to its transmission number, and what stands between it and the signature.
  abbrev before_t : ℕ → ℕ → OpNums → List Checksum → Bytes
  before_t op sender nums sent =
      put_u16 ((hdr_len + 4 + length sent * ck_len + sig_len) % 2 ^ 16)
      ++ (dcc_pkt_vers ∷ (op % 256) ∷ put_u32 sender)
      ++ (put_u32 nums.h ++ (put_u32 nums.p ++ put_u32 nums.r))

  abbrev behind_t : ℕ → List Checksum → Bytes
  behind_t tgts sent = put_u32 tgts ++ put_checksums sent

  abbrev covered : Request → ℕ → Bytes
  covered r t =
      before_t r.op r.sender r.nums (reportable r.cks)
      ++ (put_u32 t ++ behind_t r.tgts (reportable r.cks))

  -- The packet of a request with the transmission number `t`.
  pub query_t : Request → ℕ → Bytes
  query_t r t =
      build_query md5 r.op r.sender (record { h = r.nums.h; p = r.nums.p; r = r.nums.r; t = t })
        r.tgts r.cks r.passwd

  query_t_blank :
      (r : Request) (t : ℕ)
      → query_t r t ≡ sign_packet md5 (covered r t ++ replicate sig_len 0) r.passwd
  unfolding query_t build_query put_u32 put_u16
  query_t_blank r t = refl

  query_t_lem : (r : Request) (t : ℕ) → query_t r t ≡ covered r t ++ tag r.passwd (covered r t)
  query_t_lem r t =
      query_t_blank r t ∙ sign_packet-append (covered r t) (replicate sig_len 0) r.passwd refl

  put_t-covered :
      (r : Request) (t u : ℕ) (s : Bytes) → put_t (covered r t ++ s) u ≡ covered r u ++ s
  unfolding put_t put_u32 put_u16
  put_t-covered r t u s = refl

  -- Another transmission number in a signed packet, signed again, is the packet built afresh.
  sign_packet-put_t :
      (r : Request) (t u : ℕ) → sign_packet md5 (put_t (query_t r t) u) r.passwd ≡ query_t r u
  sign_packet-put_t r t u =
      ap (λ (b : Bytes). sign_packet md5 (put_t b u) r.passwd) (query_t_lem r t)
      ∙ ap (λ (b : Bytes). sign_packet md5 b r.passwd)
          (put_t-covered r t u (tag r.passwd (covered r t)))
      ∙ sign_packet-append (covered r u) (tag r.passwd (covered r t)) r.passwd
          (length-tag r.passwd (covered r t))
      ∙ sym (query_t_lem r u)

  -- The packets with the `k` transmission numbers behind `t`.
  pub queries : Request → ℕ → ℕ → List Bytes
  queries r t zero = []
  queries r t (suc k) = query_t r (t + 1) ∷ queries r (t + 1) k

  -- At most `left` packets were sent, from the number behind `t` on.
  abbrev Sends : Request → ℕ → ℕ → List Bytes → Type 0
  Sends r t left ps = (k : ℕ) × (k ≤ left) × (ps ≡ queries r t k)

  one_packet : (r : Request) (t left : ℕ) → Sends r t (suc left) (query_t r (t + 1) ∷ [])
  unfolding queries
  one_packet r t left = (1, omega arith, refl)

  after_wait-Sends :
      (r : Request) (t left : ℕ) (counts : Counts) (late : Bool) (later : Sent)
      → Sends r (t + 1) left later.1
      → Sends r t (suc left) (after_wait counts late (query_t r (t + 1)) later).1
  unfolding after_wait queries
  after_wait-Sends r t left (ok c) late later h = one_packet r t left
  after_wait-Sends r t left (err e) late later (k, le, sent) = elim (Bool-cases (is_timeout e)) [
    | inr other ↦ rw other (one_packet r t left)
    | inl timeout ↦ elim (Bool-cases late) [
      | inl over ↦ rw (timeout, over) (one_packet r t left)
      | inr early ↦
          rw (timeout, early)
            (suc k, omega arith, ap (λ (ps : List Bytes). query_t r (t + 1) ∷ ps) sent)
    ]
  ]

  nothing_sent : (r : Request) (t left : ℕ) → Sends r t left []
  unfolding queries
  nothing_sent r t left = (0, omega arith, refl)

  round-Sends :
      (r : Request) (t left : ℕ) (e : Xmit) (counts : Counts) (later : Sent)
      → Sends r (t + 1) left later.1
      → Sends r t
          (suc left)
          (unless_ended e.before (
            if not e.written
            then (err send_failed, [])
            else after_wait counts e.late (query_t r (t + 1)) later)).1
  unfolding unless_ended
  round-Sends r t left e counts later h = go e.before e.written
    where
      go :
          (before : Option ClientError) (written : Bool)
          → Sends r t
              (suc left)
              (unless_ended before (
                if not written
                then (err send_failed, [])
                else after_wait counts e.late (query_t r (t + 1)) later)).1
      go (some x) written = nothing_sent r t (suc left)
      go none false = nothing_sent r t (suc left)
      go none true = after_wait-Sends r t left counts e.late later h

  xmit_loop-Sends :
      (r : Request) (env : ℕ → Xmit) (n left t : ℕ)
      → Sends r t left
          (xmit_loop md5 env n r.passwd left
            (record { h = r.nums.h; p = r.nums.p; r = r.nums.r; t = t })
            (query_t r t)).1
  unfolding xmit_loop
  xmit_loop-Sends r env n zero t = nothing_sent r t 0
  xmit_loop-Sends r env n (suc left) t =
      rw (sign_packet-put_t r t (t + 1))
        (round-Sends r t left (env t) _ _ (xmit_loop-Sends r env n left (t + 1)))

  -- With a digest of 16 bytes, an exchange sends at most 4 packets, and each is what `buildQuery` makes
  -- of the request with the next transmission number, signed as that is.
  pub exchange-queries :
      (a : Attempt) (r : Request)
      → (k : ℕ) × (k ≤ max_xmits) × ((exchange md5 a r).1 ≡ queries r r.nums.t k)
  unfolding exchange
  exchange-queries a r =
      let sent = xmit_loop-Sends r a.xmit r.n max_xmits r.nums.t in
      elim (Bool-cases a.resolved) [
        | inr unresolved ↦ rw unresolved (nothing_sent r r.nums.t max_xmits)
        | inl resolved ↦ elim (Bool-cases a.dialed) [
          | inr undialed ↦ rw (resolved, undialed) (nothing_sent r r.nums.t max_xmits)
          | inl dialed ↦ rw (resolved, dialed) (unfold query_t in sent)
        ]
      ]
