-- ===== src/Client/Exchange.antt =====
-- dcc/client.go: `readAnswer`, `exchange`, `send` and `parallelQuery`.
use gdcc.Base.{
  ℕ, zero, suc, ◌+◌, ◌%◌, ◌^◌, Bool, true, false, not, ◌&&◌, Option, some, none, List, [], ◌∷◌,
  ◌++◌, Bytes, ◌==◌, ltb, if◌then◌else◌, length, take, drop, Result, ok, err,
}
use gdcc.Base.Words.{put_u32}
use gdcc.Hash.{Digest}
use gdcc.Sum.{Checksum}
use gdcc.Result.{CkCount}
use gdcc.Proto.{
  OpNums, AnswerCount, AnswerError, mismatch, op_query, op_report, build_query, sign_packet,
  parse_answer, verify_answer_sig, reportable_count,
}
use gdcc.Client.{Client, Ids, Server, servers, sender, ensure_ids, build_result}

-- The errors of the client's calls.
pub data ClientError : Type 0 where
  no_reportable no_servers stopped cancelled timed_out no_answer resolve_failed dial_failed
        send_failed recv_failed :
      ClientError
  answer_error : AnswerError → ClientError

abbrev pub Counts : Type 0
Counts = Result ClientError (List AnswerCount)

abbrev pub max_xmits : ℕ
max_xmits = 4

-- What `readAnswer` does with a parsed datagram, its signature's test and what reading on gives.
unfoldable pub judge : Result AnswerError (List AnswerCount) → Bool → Counts → Counts
judge (err mismatch) valid later = later
judge (err e) valid later = err (answer_error e)
judge (ok counts) valid later = if not valid then later else ok counts

-- `readAnswer`: the datagrams that are read, and the error that ends the wait behind them: a stop, a
-- cancelled context, the deadline or a failed read. A read cuts a datagram at the buffer's 2048 bytes.
unfoldable pub read_answer : Digest → ℕ → OpNums → Bytes → List Bytes → ClientError → Counts
unfolding judge
read_answer md5 n nums passwd [] ending = err ending
read_answer md5 n nums passwd (d ∷ ds) ending =
    let buf = take 2048 d in
    let later = read_answer md5 n nums passwd ds ending in
    judge (parse_answer buf n nums) (verify_answer_sig md5 buf passwd) later

-- One transmission: what the select before it finds, whether the write works, the datagrams and the
-- end of the wait, and whether the deadline has passed then.
pub record Xmit : Type 0 where
  pub before : Option ClientError
  pub written : Bool
  pub arrivals : List Bytes
  pub ending : ClientError
  pub late : Bool

-- `binary.BigEndian.PutUint32(pkt[20:24], t)`
unfoldable pub put_t : Bytes → ℕ → Bytes
put_t pkt t = take 20 pkt ++ (put_u32 t ++ drop 24 pkt)

-- The result of a call and the packets that it has sent.
abbrev pub Sent : Type 0
Sent = Counts × List Bytes

-- `err == errTimeout`
unfoldable pub is_timeout : ClientError → Bool
is_timeout timed_out = true
is_timeout e = false

-- The end of a round: the wait for `pkt` gave the counts, and another round gives `later`.
unfoldable pub after_wait : Counts → Bool → Bytes → Sent → Sent
after_wait (ok counts) late pkt later = (ok counts, pkt ∷ [])
after_wait (err e) late pkt later =
    if not (is_timeout e)
    then (err e, pkt ∷ [])
    else if late
    then (err no_answer, pkt ∷ [])
    else (later.0, pkt ∷ later.1)

-- A round of the loop of `exchange` with what is found before it; `send` is the rest of it.
unfoldable pub unless_ended : Option ClientError → Sent → Sent
unless_ended (some e) rest = (err e, [])
unless_ended none rest = rest

-- The loop of `exchange` with `left` rounds to go.
unfoldable pub xmit_loop : Digest → (ℕ → Xmit) → ℕ → Bytes → ℕ → OpNums → Bytes → Sent
unfolding put_t after_wait unless_ended read_answer
xmit_loop md5 env n passwd zero nums pkt = (err no_answer, [])
xmit_loop md5 env n passwd (suc left) nums pkt =
    let e = env nums.t in
    let nums' = record nums { t = nums.t + 1 } in
    let pkt' = sign_packet md5 (put_t pkt nums'.t) passwd in
    let later = xmit_loop md5 env n passwd left nums' pkt' in
    let counts = read_answer md5 n nums' passwd e.arrivals e.ending in
    unless_ended e.before
      (if not e.written then (err send_failed, []) else after_wait counts e.late pkt' later)

-- One server: whether its name resolves and the socket opens, and its transmissions.
pub record Attempt : Type 0 where
  pub in_time : Bool
  pub resolved : Bool
  pub dialed : Bool
  pub xmit : ℕ → Xmit
  pub cancelled_since : Bool

-- What the calls of `exchange` of one `send` share.
pub record Request : Type 0 where
  pub op : ℕ
  pub sender : ℕ
  pub nums : OpNums
  pub tgts : ℕ
  pub cks : List Checksum
  pub passwd : Bytes
  pub n : ℕ

unfoldable pub exchange : Digest → Attempt → Request → Sent
unfolding xmit_loop
exchange md5 a r =
    if not a.resolved
    then (err resolve_failed, [])
    else if not a.dialed
    then (err dial_failed, [])
    else xmit_loop md5 a.xmit r.n r.passwd max_xmits r.nums
        (build_query md5 r.op r.sender r.nums r.tgts r.cks r.passwd)

-- A result of `send`, with the checksums' counts.
abbrev pub Outcome : Type 0
Outcome = Result ClientError (List CkCount)

-- The loop of `send` over the servers and the outcomes of their exchanges, with the last error: an
-- answer ends it, the end of the time before a server and a context that is cancelled since.
unfoldable pub failover : ClientError → List Checksum → List (Attempt × Counts) → Outcome
failover last cks [] = err last
failover last cks ((a, ok answered) ∷ rest) =
    if not a.in_time then err last else ok (build_result cks answered)
failover last cks ((a, err e) ∷ rest) =
    let later = failover e cks rest in
    if not a.in_time then err last else if a.cancelled_since then err e else later

-- The loop of `parallelQuery` over the outcomes, in the order in which the servers finish.
unfoldable pub first_answer : ClientError → List Checksum → List Counts → Outcome
first_answer last cks [] = err last
first_answer last cks (ok counts ∷ rest) = ok (build_result cks counts)
first_answer last cks (err e ∷ rest) = first_answer e cks rest

-- The attempts at the servers of a list, by the server and its place.
unfoldable pub attempts : (ℕ → Server → Attempt) → ℕ → List Server → List Attempt
attempts env i [] = []
attempts env i (s ∷ ss) = env i s ∷ attempts env (i + 1) ss

unfoldable pub outcomes : Digest → Request → List Attempt → List (Attempt × Counts)
unfolding exchange
outcomes md5 r [] = []
outcomes md5 r (a ∷ more) = (a, (exchange md5 a r).0) ∷ outcomes md5 r more

abbrev pub counts_of : List (Attempt × Counts) → List Counts
counts_of [] = []
counts_of ((a, c) ∷ rest) = c ∷ counts_of rest

-- `send`: what the exchanges share.
unfoldable pub request : Client → Ids → ℕ → ℕ → List Checksum → Request
request c ids op tgts cks =
    let (id, passwd) = sender c in
    record {
      op = op;
      sender = id;
      nums = record { h = ids.hid; p = ids.pid; r = ids.rid; t = 0 };
      tgts = tgts;
      cks = cks;
      passwd = passwd;
      n = reportable_count cks;
    }

-- What a call of the client finds: the random bytes and the process id for its identifiers, its
-- servers, and the order in which the servers of a query finish.
pub record World : Type 0 where
  pub random : Bytes
  pub getpid : ℕ
  pub server : ℕ → Server → Attempt
  pub order : List Counts → List Counts

unfoldable pub send : Digest → Client → World → Ids → ℕ → ℕ → List Checksum → Outcome × Ids
unfolding request outcomes attempts failover first_answer
send md5 c w ids op tgts cks =
    let filled = ensure_ids w.random w.getpid ids in
    let ids' = record filled { rid = (filled.rid + 1) % 2 ^ 32 } in
    let tried = outcomes md5 (request c ids' op tgts cks) (attempts w.server 0 (servers c)) in
    if reportable_count cks == 0
    then (err no_reportable, ids)
    else if op == op_query && ltb 1 (length (servers c))
    then (first_answer no_servers cks (w.order (counts_of tried)), ids')
    else (failover no_servers cks tried, ids')

-- `CheckContext` and `ReportNContext`, with the checksums of the message.
unfoldable pub check : Digest → Client → World → Ids → List Checksum → Outcome × Ids
unfolding send
check md5 c w ids cks = send md5 c w ids op_query 0 cks

unfoldable pub report_n : Digest → Client → World → Ids → List Checksum → ℕ → Outcome × Ids
unfolding send
report_n md5 c w ids cks n = send md5 c w ids op_report (if n == 0 then 1 else n) cks
