-- ===== src/Proto/Query.antt =====
-- `build_query` against the layout that a server reads.
use gdcc.Base.{
  ℕ, zero, suc, ◌+◌, ◌-◌, ◌*◌, ◌%◌, ◌^◌, ◌<◌, ◌≡◌, refl, ap, ap₂, sym, ◌∙◌, List, [], ◌∷◌, ◌++◌,
  Bytes, length, take, drop, get_or, replicate, All, arith, length-append, take-length_append,
  drop-length_append, append_assoc, take-append-drop,
}
use gdcc.Base.Words.{
  IsU32, IsByte, put_u16, put_u32, get_u16, get_u32, get_u32-put_u32, get_u16-put_u16,
}
use gdcc.Hash.{Digest, copy, length-copy, copy_whole}
use gdcc.Sum.{Checksum}
use gdcc.Proto.{
  OpNums, hdr_len, ck_len, sig_len, dcc_pkt_vers, reportable, put_checksums, build_query,
  sign_packet,
}
use gdcc.Proto.Sign.{unsigned, signature, unsigned-sign_packet, length-sign_packet}

-- What a server finds in a query or report with `n` checksums.
pub record Query : Type 0 where
  pub stated : ℕ
  pub vers : ℕ
  pub op : ℕ
  pub sender : ℕ
  pub nums : OpNums
  pub tgts : ℕ
  pub sums : List (ℕ × Bytes)

-- Each checksum has its type, its length and 16 bytes.
abbrev pub read_sums : ℕ → Bytes → List (ℕ × Bytes)
read_sums zero b = []
read_sums (suc n) b = (get_or b 0 0, take 16 (drop 2 b)) ∷ read_sums n (drop 18 b)

abbrev pub read_query : ℕ → Bytes → Query
read_query n b = record {
  stated = get_u16 b;
  vers = get_or b 2 0;
  op = get_or b 3 0;
  sender = get_u32 (drop 4 b);
  nums = record {
    h = get_u32 (drop 8 b);
    p = get_u32 (drop 12 b);
    r = get_u32 (drop 16 b);
    t = get_u32 (drop 20 b);
  };
  tgts = get_u32 (drop 24 b);
  sums = read_sums n (drop 28 b);
}

abbrev pub IsSum : Checksum → Type 0
IsSum c = IsByte c.type × (length c.sum ≡ 16)

abbrev pub values : List Checksum → List (ℕ × Bytes)
values [] = []
values (c ∷ cs) = (c.type, c.sum) ∷ values cs

length-put_checksums : (cs : List Checksum) → length (put_checksums cs) ≡ length cs * ck_len
unfolding put_checksums
length-put_checksums [] = refl
length-put_checksums (c ∷ cs) = omega (
  arith,
  length-append (copy (replicate 16 0) c.sum) (put_checksums cs),
  length-copy (replicate 16 0) c.sum,
  length-put_checksums cs,
)

read_sums-put_checksums :
    (cs : List Checksum) (rest : Bytes)
    → All IsSum cs
    → read_sums (length cs) (put_checksums cs ++ rest) ≡ values cs
unfolding put_checksums
read_sums-put_checksums [] rest h = refl
read_sums-put_checksums (c ∷ cs) rest ((hb, hl), hs) = rw (copy_whole (replicate 16 0) c.sum hl) (
    rw (append_assoc c.sum (put_checksums cs) rest) (
      ap₂ (λ (x : ℕ × Bytes) (xs : List (ℕ × Bytes)). x ∷ xs)
        (λ i. (
          (let e : c.type % 256 ≡ c.type = omega arith in e) i,
          take-length_append c.sum (put_checksums cs ++ rest) 16 hl i,
        ))
        (rw (drop-length_append c.sum (put_checksums cs ++ rest) 16 hl)
          (read_sums-put_checksums cs rest hs))))

-- The packet before its signature.
abbrev front : ℕ → ℕ → OpNums → ℕ → List Checksum → Bytes
front op sender nums tgts sent =
    (put_u16 ((hdr_len + 4 + length sent * ck_len + sig_len) % 2 ^ 16)
      ++ (dcc_pkt_vers ∷ (op % 256) ∷ put_u32 sender))
    ++ ((put_u32 nums.h ++ (put_u32 nums.p ++ (put_u32 nums.r ++ put_u32 nums.t)))
        ++ (put_u32 tgts ++ put_checksums sent))

length-front :
    (op sender : ℕ) (nums : OpNums) (tgts : ℕ) (sent : List Checksum)
    → length (front op sender nums tgts sent) ≡ hdr_len + 4 + length sent * ck_len
unfolding put_u32 put_u16
length-front op sender nums tgts sent = omega (arith, length-put_checksums sent)

module _ (md5 : Digest) (op sender : ℕ) (nums : OpNums) (tgts : ℕ) (cks : List Checksum)
    (passwd : Bytes) where
  abbrev packet : Bytes
  packet = build_query md5 op sender nums tgts cks passwd

  abbrev blank : Bytes
  blank = front op sender nums tgts (reportable cks) ++ replicate sig_len 0

  packet_lem : packet ≡ sign_packet md5 blank passwd
  unfolding build_query put_u32 put_u16
  packet_lem = refl

  length-blank : length blank ≡ hdr_len + 4 + length (reportable cks) * ck_len + sig_len
  length-blank = omega (
    arith,
    length-append (front op sender nums tgts (reportable cks)) (replicate sig_len 0),
    length-front op sender nums tgts (reportable cks),
  )

  unsigned-blank : unsigned blank ≡ front op sender nums tgts (reportable cks)
  unsigned-blank =
      take-length_append (front op sender nums tgts (reportable cks)) (replicate sig_len 0) _
        (omega (arith, length-blank, length-front op sender nums tgts (reportable cks)))

  unsigned-packet : unsigned packet ≡ front op sender nums tgts (reportable cks)
  unsigned-packet = ap unsigned packet_lem ∙ unsigned-sign_packet md5 blank passwd ∙ unsigned-blank

  packet-front : packet ≡ front op sender nums tgts (reportable cks) ++ signature packet
  packet-front =
      sym (take-append-drop (length packet - sig_len) packet)
      ∙ ap (λ (f : Bytes). f ++ signature packet) unsigned-packet

  -- A packet is 44 bytes and 18 for each checksum sent.
  pub length-build_query : length packet ≡ hdr_len + 4 + length (reportable cks) * ck_len + sig_len
  length-build_query = ap length packet_lem ∙ length-sign_packet md5 blank passwd ∙ length-blank

abbrev pub IsNums : OpNums → Type 0
IsNums n = IsU32 n.h × IsU32 n.p × IsU32 n.r × IsU32 n.t

read_query-front :
    (op sender : ℕ) (nums : OpNums) (tgts : ℕ) (sent : List Checksum) (sig : Bytes)
    → IsByte op
    → IsU32 sender
    → IsNums nums
    → IsU32 tgts
    → All IsSum sent
    → hdr_len + 4 + length sent * ck_len + sig_len < 2 ^ 16
    → read_query (length sent) (front op sender nums tgts sent ++ sig) ≡ record {
      stated = hdr_len + 4 + length sent * ck_len + sig_len;
      vers = dcc_pkt_vers;
      op = op;
      sender = sender;
      nums = nums;
      tgts = tgts;
      sums = values sent;
    }
unfolding put_u32 put_u16
read_query-front op sender nums tgts sent sig ho hs (h, p, r, t) ht hc hl = λ i. record {
  stated = stated_is i;
  vers = dcc_pkt_vers;
  op = op_is i;
  sender = sender_is i;
  nums = record { h = h_is i; p = p_is i; r = r_is i; t = t_is i };
  tgts = tgts_is i;
  sums = read_sums-put_checksums sent sig hc i;
}
  where
    packet : Bytes
    packet = front op sender nums tgts sent ++ sig

    sender_is : get_u32 (drop 4 packet) ≡ sender
    sender_is = get_u32-put_u32 sender _ hs

    h_is : get_u32 (drop 8 packet) ≡ nums.h
    h_is = get_u32-put_u32 nums.h _ h

    p_is : get_u32 (drop 12 packet) ≡ nums.p
    p_is = get_u32-put_u32 nums.p _ p

    r_is : get_u32 (drop 16 packet) ≡ nums.r
    r_is = get_u32-put_u32 nums.r _ r

    t_is : get_u32 (drop 20 packet) ≡ nums.t
    t_is = get_u32-put_u32 nums.t _ t

    tgts_is : get_u32 (drop 24 packet) ≡ tgts
    tgts_is = get_u32-put_u32 tgts _ ht

    op_is : op % 256 ≡ op
    op_is = omega arith

    stated_is :
        get_u16 (front op sender nums tgts sent ++ sig)
        ≡ hdr_len + 4 + length sent * ck_len + sig_len
    stated_is =
        get_u16-put_u16 ((hdr_len + 4 + length sent * ck_len + sig_len) % 2 ^ 16) _ (omega arith)
        ∙ omega arith

All-reportable : (cks : List Checksum) → All IsSum cks → All IsSum (reportable cks)
unfolding reportable
All-reportable [] h = tt
All-reportable (c ∷ cks) h = ground (arith, All-reportable cks)

-- Where every number fits its field, every checksum has 16 bytes and the packet is shorter than 64
-- KiB, a server that reads the packet by the protocol's layout finds the length of the packet, the
-- version, the operation, the sender, the transaction, the targets and the reportable checksums in
-- their order.
pub read_query-build_query :
    (md5 : Digest) (op sender : ℕ) (nums : OpNums) (tgts : ℕ) (cks : List Checksum) (passwd : Bytes)
    → IsByte op
    → IsU32 sender
    → IsNums nums
    → IsU32 tgts
    → All IsSum cks
    → hdr_len + 4 + length (reportable cks) * ck_len + sig_len < 2 ^ 16
    → read_query (length (reportable cks)) (build_query md5 op sender nums tgts cks passwd)
      ≡ record {
        stated = length (build_query md5 op sender nums tgts cks passwd);
        vers = dcc_pkt_vers;
        op = op;
        sender = sender;
        nums = nums;
        tgts = tgts;
        sums = values (reportable cks);
      }
read_query-build_query md5 op sender nums tgts cks passwd ho hs hn ht hc hl =
    rw (length-build_query md5 op sender nums tgts cks passwd) (
      ap (read_query (length (reportable cks))) (packet-front md5 op sender nums tgts cks passwd)
      ∙ read_query-front op sender nums tgts (reportable cks) _ ho hs hn ht (All-reportable cks hc)
          hl)
