-- ===== src/Proto/Answer.antt =====
-- `parse_answer` against the layout of an answer.
use gdcc.Base.{
  ℕ, zero, suc, ◌+◌, ◌*◌, ◌≤◌, ◌<◌, ◌≡◌, refl, ap, ap₂, subst, ◌↔◌, sym, ◌∙◌, List, [], ◌∷◌, ◌++◌,
  Bytes, length, drop, drop-drop, get_or, All, arith, length-append, ok,
}
use gdcc.Base.Words.{IsU32, put_u16, put_u32, get_u16, get_u32, get_u32-put_u32, get_u16-put_u16}
use gdcc.Proto.{OpNums, AnswerCount, hdr_len, sig_len, op_answer, read_counts, parse_answer}

-- How a server lays an answer out: the counts in the order of the query, then the signature.
abbrev pub encode_counts : List AnswerCount → Bytes
encode_counts [] = []
encode_counts (c ∷ cs) = put_u32 c.cur ++ (put_u32 c.prev ++ encode_counts cs)

abbrev pub encode_answer : ℕ → ℕ → OpNums → List AnswerCount → Bytes → Bytes
encode_answer vers sender nums counts sig =
    put_u16 (hdr_len + length counts * 8 + sig_len)
    ++ (vers
        ∷ op_answer
        ∷ (put_u32 sender
            ++ (put_u32 nums.h
                ++ (put_u32 nums.p
                    ++ (put_u32 nums.r ++ (put_u32 nums.t ++ (encode_counts counts ++ sig)))))))

abbrev pub IsCount : AnswerCount → Type 0
IsCount c = IsU32 c.cur × IsU32 c.prev

read_counts-encode :
    (cs : List AnswerCount) (sig : Bytes)
    → All IsCount cs
    → read_counts (length cs) (encode_counts cs ++ sig) ≡ cs
unfolding read_counts put_u32
read_counts-encode [] sig h = refl
read_counts-encode (c ∷ cs) sig (h, hs) =
    ap₂ (λ (r : AnswerCount) (rs : List AnswerCount). r ∷ rs)
      (λ i. record {
        cur = get_u32-put_u32 c.cur (put_u32 c.prev ++ (encode_counts cs ++ sig)) h.0 i;
        prev = get_u32-put_u32 c.prev (encode_counts cs ++ sig) h.1 i;
      })
      (read_counts-encode cs sig hs)

length-encode_counts : (cs : List AnswerCount) → length (encode_counts cs) ≡ length cs * 8
unfolding put_u32
length-encode_counts [] = refl
length-encode_counts (c ∷ cs) = omega (arith, length-encode_counts cs)

-- Two transactions are the same but for the transmission number.
abbrev pub SameTransaction : OpNums → OpNums → Type 0
SameTransaction a b = (a.h ≡ b.h) × (a.p ≡ b.p) × (a.r ≡ b.r)

abbrev IsNums : OpNums → Type 0
IsNums n = IsU32 n.h × IsU32 n.p × IsU32 n.r

-- What the header of an answer to `want` with `n` counts holds.
pub record AnswersTo (buf : Bytes) (n : ℕ) (want : OpNums) : Type 0 where
  pub host : get_u32 (drop 8 buf) ≡ want.h
  pub process : get_u32 (drop 12 buf) ≡ want.p
  pub report : get_u32 (drop 16 buf) ≡ want.r
  pub op : get_or buf 3 0 ≡ op_answer
  pub stated : get_u16 buf ≡ hdr_len + n * 8 + sig_len
  pub present : hdr_len + n * 8 + sig_len ≤ length buf

parse_answer-of_AnswersTo :
    (buf : Bytes) (n : ℕ) (want : OpNums)
    → AnswersTo buf n want
    → parse_answer buf n want ≡ ok (read_counts n (drop hdr_len buf))
unfolding parse_answer
parse_answer-of_AnswersTo buf n want a = ground arith

-- Where its numbers fit their fields, its signature has 16 bytes and it is shorter than 64 KiB, an
-- answer that a server lays out for the client's transaction is read back as its counts.
pub parse_answer-encode_answer :
    (vers sender : ℕ) (nums want : OpNums) (counts : List AnswerCount) (sig : Bytes)
    → SameTransaction nums want
    → IsNums nums
    → All IsCount counts
    → length sig ≡ sig_len
    → hdr_len + length counts * 8 + sig_len < 65536
    → parse_answer (encode_answer vers sender nums counts sig) (length counts) want ≡ ok counts
unfolding put_u32 put_u16
parse_answer-encode_answer vers sender nums want counts sig (sh, sp, sr) (fh, fp, fr) hc hs hl =
    parse_answer-of_AnswersTo (encode_answer vers sender nums counts sig) (length counts) want
      (record {
        host = get_u32-put_u32 nums.h _ fh ∙ sh;
        process = get_u32-put_u32 nums.p _ fp ∙ sp;
        report = get_u32-put_u32 nums.r _ fr ∙ sr;
        op = refl;
        stated = get_u16-put_u16 (hdr_len + length counts * 8 + sig_len) _ hl;
        present =
            omega (arith, length-append (encode_counts counts) sig, length-encode_counts counts);
      })
    ∙ ap ok (read_counts-encode counts sig hc)

length-read_counts : (n : ℕ) (b : Bytes) → length (read_counts n b) ≡ n
unfolding read_counts
length-read_counts zero b = refl
length-read_counts (suc n) b = ap suc (length-read_counts n (drop 8 b))

parse_answer-AnswersTo :
    (buf : Bytes) (n : ℕ) (want : OpNums) (counts : List AnswerCount)
    → parse_answer buf n want ≡ ok counts
    → AnswersTo buf n want × (counts ≡ read_counts n (drop hdr_len buf))
unfolding parse_answer
parse_answer-AnswersTo buf n want counts e = (
  record {
    host = ground arith;
    process = ground arith;
    report = ground arith;
    op = ground arith;
    stated = ground arith;
    present = ground arith;
  },
  ground arith,
)

-- Each count has its two words at the position and 4 bytes behind it; the next count is 8 bytes on.
pub Laid : Bytes → ℕ → List AnswerCount → Type 0
Laid buf at_byte [] = Unit
Laid buf at_byte (c ∷ cs) =
    (c.cur ≡ get_u32 (drop at_byte buf))
    × (c.prev ≡ get_u32 (drop (at_byte + 4) buf))
    × Laid buf (at_byte + 8) cs

read_counts-Laid : (n i : ℕ) (buf : Bytes) → Laid buf i (read_counts n (drop i buf))
unfolding read_counts Laid
read_counts-Laid zero i buf = tt
read_counts-Laid (suc n) i buf = (
  refl,
  ap get_u32 (drop-drop i 4 buf),
  subst (λ (b : Bytes). Laid buf (i + 8) (read_counts n b)) (sym (drop-drop i 8 buf))
      (read_counts-Laid n (i + 8) buf),
)

Laid-read_counts :
    (i : ℕ) (buf : Bytes) (cs : List AnswerCount)
    → Laid buf i cs
    → cs ≡ read_counts (length cs) (drop i buf)
unfolding read_counts Laid
Laid-read_counts i buf [] h = refl
Laid-read_counts i buf (c ∷ cs) (hc, hp, hs) =
    ap₂ (λ (r : AnswerCount) (rs : List AnswerCount). r ∷ rs)
      (λ k. record { cur = hc k; prev = (hp ∙ sym (ap get_u32 (drop-drop i 4 buf))) k })
      (Laid-read_counts (i + 8) buf cs hs ∙ ap (read_counts (length cs)) (sym (drop-drop i 8 buf)))

-- Counts are returned only from a datagram that holds the whole answer to the transaction: the
-- header names the transaction, is an answer and states the length that `n` counts take, and the
-- datagram is at least that long. There are `n` counts then, each two words of the datagram, the
-- current and the previous count, one count behind the other from byte 24 on; every other datagram
-- is an error.
pub parse_answer-ok_iff :
    (buf : Bytes) (n : ℕ) (want : OpNums) (counts : List AnswerCount)
    → (parse_answer buf n want ≡ ok counts)
      ↔ (AnswersTo buf n want × (length counts ≡ n) × Laid buf 24 counts)
parse_answer-ok_iff buf n want counts = (
  (λ e.
      let (a, same) = parse_answer-AnswersTo buf n want counts e in
      (
        a,
        ap length same ∙ length-read_counts n (drop hdr_len buf),
        subst (Laid buf 24) (sym same) (read_counts-Laid n 24 buf),
      )),
  (λ (a, size, laid).
      parse_answer-of_AnswersTo buf n want a
      ∙ ap (λ (k : ℕ). ok (read_counts k (drop hdr_len buf))) (sym size)
      ∙ ap ok (sym (Laid-read_counts 24 buf counts laid))),
)
