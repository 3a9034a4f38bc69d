-- ===== src/Serve.antt =====
-- cmd/gdcc/serve.go, metrics.go and main.go: a request to the daemon, from its token to the answer.
pub mod Latency
pub mod Tally
pub mod Token
use gdcc.Base.{
  ℕ, ◌+◌, ◌*◌, ◌%◌, ◌^◌, Bool, true, false, not, ◌&&◌, List, [], ◌∷◌, map, Option, none, some,
  Bytes, codes, ◌==◌, ltb, if◌then◌else◌, length, take, drop, bytes_eq, Result, ok, err,
}
use gdcc.Message.{has_prefix}
use gdcc.CkType.Label.{label}
use gdcc.Result.{CkCount, action_string, verdict}
use gdcc.Client.Exchange.{Outcome}

-- The counters of `metrics`, all of them uint64; the histogram of the latencies is apart from them.
pub record Metrics : Type 0 where
  pub check_total : ℕ
  pub report_total : ℕ
  pub error_total : ℕ
  pub verdict_reject : ℕ
  pub verdict_accept : ℕ
  pub verdict_unknown : ℕ

abbrev pub new_metrics : Metrics
new_metrics = record {
  check_total = 0;
  report_total = 0;
  error_total = 0;
  verdict_reject = 0;
  verdict_accept = 0;
  verdict_unknown = 0;
}

-- `metrics.inc`
unfoldable pub inc : ℕ → ℕ
inc p = (p + 1) % 2 ^ 64

-- `metrics.verdictInc`
unfoldable pub verdict_inc : Bytes → Metrics → Metrics
unfolding inc
verdict_inc action m =
    if bytes_eq action (codes "reject")
    then record m { verdict_reject = inc m.verdict_reject }
    else if bytes_eq action (codes "accept")
    then record m { verdict_accept = inc m.verdict_accept }
    else record m { verdict_unknown = inc m.verdict_unknown }

-- `http.Request`: the first value of each header, or the empty string, the bytes of the body, and
-- whether reading fails behind them.
pub record Request : Type 0 where
  pub method : Bytes
  pub x_gdcc_token : Bytes
  pub authorization : Bytes
  pub body : Bytes
  pub fails : Bool

-- `countJSON`
pub record CountJson : Type 0 where
  pub label : Bytes
  pub cur : ℕ
  pub prev : ℕ

-- The bodies of the answers: text of `http.Error`, and the values that `writeJSON` encodes.
pub data Content : Type 0 where
  message : Bytes → Content
  busy : Content
  check_response : Bytes → Option ℕ → List CountJson → Content
  reported : Bool → Content

pub record Response : Type 0 where
  pub code : ℕ
  pub content : Content

abbrev pub max_stdin : ℕ
max_stdin = 16 * 2 ^ 20

pub data ReadError : Type 0 where
  too_large broken : ReadError

-- `readCapped`: `io.ReadAll` on a limit of `max` bytes and one more.
unfoldable pub read_capped : Bytes → Bool → ℕ → Result ReadError Bytes
read_capped bytes fails max =
    let b = take (max + 1) bytes in
    if fails && ltb (length b) (max + 1)
    then err broken
    else if ltb max (length b)
    then err too_large
    else ok b

-- The answers of `readBody` to an error.
unfoldable pub read_error : Result ReadError Bytes → Result Response Bytes
read_error (ok msg) = ok msg
read_error (err too_large) =
    err (record { code = 413; content = message (codes "message exceeds the maximum size") })
read_error (err broken) = err (record { code = 400; content = message (codes "read body") })

unfoldable pub read_body : Request → Result Response Bytes
unfolding read_capped read_error
read_body r =
    if not (bytes_eq r.method (codes "POST"))
    then err (record { code = 405; content = message (codes "POST required") })
    else read_error (read_capped r.body r.fails max_stdin)

-- The counts in the answer of `checkHandler`.
abbrev pub count_json : CkCount → CountJson
count_json ck = record { label = label ck.type; cur = ck.cur; prev = ck.prev }

-- What the handlers use of a `dcc.Client`.
pub record Backend (S : Type 0) : Type 0 where
  pub check : Bytes → S → Outcome × S
  pub report : Bytes → S → Outcome × S

-- A handler answers a request and changes the counters and the client.
abbrev pub Handler : Type 0 → Type 0
Handler S = Request → Metrics × S → Response × (Metrics × S)

-- `checkHandler` behind the call of `Check`.
unfoldable pub check_answer : Outcome → Metrics → Response × Metrics
unfolding inc verdict_inc action_string verdict
check_answer (err e) m = (
  record { code = 502; content = check_response (codes "unknown") none [] },
  record m { error_total = inc m.error_total },
)
check_answer (ok counts) m =
    let v = verdict counts in
    let action = action_string v.action in
    (
      record { code = 200; content = check_response action v.bulk (map count_json counts) },
      verdict_inc action m,
    )

-- `reportHandler` behind the call of `Report`.
unfoldable pub report_answer : Outcome → Metrics → Response × Metrics
unfolding inc
report_answer (err e) m =
    (record { code = 502; content = reported false }, record m { error_total = inc m.error_total })
report_answer (ok counts) m = (record { code = 200; content = reported true }, m)

module _ {S : Type 0} (b : Backend S) where
  unfoldable pub check_read : Result Response Bytes → Metrics × S → Response × (Metrics × S)
  unfolding check_answer inc
  check_read (err e) st = (e, st)
  check_read (ok msg) (m, s) =
      let counted = record m { check_total = inc m.check_total } in
      let (out, s') = b.check msg s in
      let (answer, m') = check_answer out counted in (answer, (m', s'))

  unfoldable pub check_handler : Handler S
  unfolding check_read read_body
  check_handler r st = check_read (read_body r) st

  unfoldable pub report_read : Result Response Bytes → Metrics × S → Response × (Metrics × S)
  unfolding report_answer inc
  report_read (err e) st = (e, st)
  report_read (ok msg) (m, s) =
      let counted = record m { report_total = inc m.report_total } in
      let (out, s') = b.report msg s in
      let (answer, m') = report_answer out counted in (answer, (m', s'))

  unfoldable pub report_handler : Handler S
  unfolding report_read read_body
  report_handler r st = report_read (read_body r) st

abbrev pub unauthorized : Response
unauthorized = record { code = 401; content = message (codes "unauthorized") }

abbrev pub unavailable : Response
unavailable = record { code = 503; content = busy }

-- The token that a request names, in `auth`.
unfoldable pub got_token : Request → Bytes
unfolding has_prefix
got_token r =
    if length r.x_gdcc_token == 0
    then (if has_prefix r.authorization (codes "Bearer ") then drop 7 r.authorization else [])
    else r.x_gdcc_token

module _ {S : Type 0} where
  -- `serveConfig.auth`
  unfoldable pub auth : Bytes → Handler S → Handler S
  unfolding got_token
  auth token next r st =
      if length token == 0
      then next r st
      else if not (bytes_eq (got_token r) token)
      then (unauthorized, st)
      else next r st

  -- `gate`, with the requests that are in flight.
  unfoldable pub gate : ℕ → ℕ → Handler S → Handler S
  gate max_conc in_flight next r st =
      if ltb in_flight max_conc then next r st else (unavailable, st)

-- The paths that `runServe` puts behind `auth` and `gate`.
pub data Endpoint : Type 0 where
  check_path report_path : Endpoint

-- A request to a path, with the requests that are in flight when it comes.
pub record Call : Type 0 where
  pub endpoint : Endpoint
  pub in_flight : ℕ
  pub request : Request

-- The settings of a `serveConfig` that the handlers use; the limit is 0 where it is not positive.
pub record ServeConfig : Type 0 where
  pub token : Bytes
  pub max_conc : ℕ

unfoldable pub conc : ServeConfig → ℕ
conc cfg = if ltb cfg.max_conc 1 then 8 else cfg.max_conc

module _ {S : Type 0} (b : Backend S) where
  abbrev pub handler_of : Endpoint → Handler S
  handler_of check_path = check_handler b
  handler_of report_path = report_handler b

module _ {S : Type 0} (b : Backend S) (cfg : ServeConfig) where
  -- The handlers of the two paths, as `runServe` composes them.
  unfoldable pub handle : Call → Metrics × S → Response × (Metrics × S)
  unfolding auth gate conc check_handler report_handler
  handle call st =
      auth cfg.token (gate (conc cfg) call.in_flight (handler_of b call.endpoint)) call.request st

  -- The answers to calls one behind the other, and the counters at their end.
  unfoldable pub handle_all : List Call → Metrics × S → List Response × (Metrics × S)
  unfolding handle
  handle_all [] st = ([], st)
  handle_all (call ∷ calls) st =
      let (answer, st') = handle call st in
      let (answers, ended) = handle_all calls st' in (answer ∷ answers, ended)
