-- ===== src/Proto.antt =====
-- dcc/proto.go: the packets of the client-server protocol.
pub mod Query
pub mod Answer
pub mod Sign
use gdcc.Base.{
  ℕ, zero, suc, ◌+◌, ◌-◌, ◌*◌, ◌%◌, ◌^◌, Bool, true, false, not, ◌&&◌, ◌||◌, List, [], ◌∷◌, ◌++◌,
  Bytes, ◌==◌, ltb, if◌then◌else◌, length, take, drop, get_or, replicate, bytes_eq, Result, ok, err,
}
use gdcc.Base.Words.{put_u16, put_u32, get_u16, get_u32}
use gdcc.Hash.{Digest, write, copy}
use gdcc.Sum.{Checksum}

abbrev pub dcc_pkt_vers : ℕ
dcc_pkt_vers = 12

abbrev pub dcc_id_anon : ℕ
dcc_id_anon = 1

abbrev pub hdr_len : ℕ
hdr_len = 24

abbrev pub ck_len : ℕ
ck_len = 18

abbrev pub sig_len : ℕ
sig_len = 16

abbrev pub op_nop : ℕ
op_nop = 1

abbrev pub op_report : ℕ
op_report = 2

abbrev pub op_query : ℕ
op_query = 3

abbrev pub op_answer : ℕ
op_answer = 4

abbrev pub op_error : ℕ
op_error = 7

-- `opNums`
pub record OpNums : Type 0 where
  pub h : ℕ
  pub p : ℕ
  pub r : ℕ
  pub t : ℕ

-- `signPacket`: the last 16 bytes are zero for an empty password, else the keyed digest.
unfoldable pub sign_packet : Digest → Bytes → Bytes → Bytes
sign_packet md5 buf passwd =
    let body = take (length buf - sig_len) buf in
    let sig = drop (length buf - sig_len) buf in
    if length passwd == 0
    then body ++ replicate (length sig) 0
    else body ++ copy sig (md5 (write (write [] passwd) body))

-- The checksums that are sent.
unfoldable pub reportable : List Checksum → List Checksum
reportable [] = []
reportable (c ∷ cs) = if c.report then c ∷ reportable cs else reportable cs

-- The loop over `reportable` that fills the buffer from offset 28 on.
unfoldable pub put_checksums : List Checksum → Bytes
put_checksums [] = []
put_checksums (c ∷ cs) = (c.type % 256) ∷ ck_len ∷ (copy (replicate 16 0) c.sum ++ put_checksums cs)

-- `buildQuery`. The buffer is written in the order of its offsets, with no gap: the header, the
-- targets, the checksums, and 16 bytes for the signature.
unfoldable pub build_query : Digest → ℕ → ℕ → OpNums → ℕ → List Checksum → Bytes → Bytes
build_query md5 op sender nums tgts cks passwd =
    let sent = reportable cks in
    let pkt_len = hdr_len + 4 + length sent * ck_len + sig_len in
    let header = put_u16 (pkt_len % 2 ^ 16) ++ (dcc_pkt_vers ∷ (op % 256) ∷ put_u32 sender) in
    let transaction = put_u32 nums.h ++ (put_u32 nums.p ++ (put_u32 nums.r ++ put_u32 nums.t)) in
    let buf =
      header ++ (transaction ++ (put_u32 tgts ++ (put_checksums sent ++ replicate sig_len 0))) in
    sign_packet md5 buf passwd

-- `verifyAnswerSig`
unfoldable pub verify_answer_sig : Digest → Bytes → Bytes → Bool
verify_answer_sig md5 buf passwd =
    if length passwd == 0
    then true
    else if ltb (length buf) sig_len
    then false
    else (let split = length buf - sig_len in
        bytes_eq (md5 (write (write [] passwd) (take split buf))) (drop split buf))

-- `passwd16`; nil is the empty list.
unfoldable pub passwd16 : Bytes → Bytes
passwd16 s = if length s == 0 then [] else copy (replicate sig_len 0) s

-- `answerCount`
pub record AnswerCount : Type 0 where
  pub cur : ℕ
  pub prev : ℕ

-- The errors of `parseAnswer`.
pub data AnswerError : Type 0 where
  short_answer : ℕ → AnswerError
  mismatch : AnswerError
  server_error : Bytes → AnswerError
  unexpected_op : ℕ → AnswerError
  bad_length : ℕ → ℕ → AnswerError

unfoldable pub trim_nul : Bytes → Bytes
trim_nul [] = []
trim_nul (c ∷ cs) = if c == 0 then [] else c ∷ trim_nul cs

-- The loop of `parseAnswer` over the `n` pairs that begin here.
unfoldable pub read_counts : ℕ → Bytes → List AnswerCount
read_counts zero b = []
read_counts (suc n) b =
    record { cur = get_u32 b; prev = get_u32 (drop 4 b) } ∷ read_counts n (drop 8 b)

unfoldable pub parse_answer : Bytes → ℕ → OpNums → Result AnswerError (List AnswerCount)
parse_answer buf n want_nums =
    let pkt_len = get_u16 buf in
    let op = get_or buf 3 0 in
    let want = hdr_len + n * 8 + sig_len in
    if ltb (length buf) hdr_len
    then err (short_answer (length buf))
    else if not (
        get_u32 (drop 8 buf) == want_nums.h
        && get_u32 (drop 12 buf) == want_nums.p
        && get_u32 (drop 16 buf) == want_nums.r)
    then err mismatch
    else if op == op_error
    then err (server_error (trim_nul (take 128 (drop hdr_len buf))))
    else if not (op == op_answer)
    then err (unexpected_op op)
    else if not (pkt_len == want) || ltb (length buf) want
    then err (bad_length pkt_len want)
    else ok (read_counts n (drop hdr_len buf))

-- `reportableCount`
unfoldable pub reportable_count : List Checksum → ℕ
reportable_count [] = 0
reportable_count (c ∷ cs) = if c.report then suc (reportable_count cs) else reportable_count cs
