-- ===== src/Serve/Tally.antt =====
-- The counters of cmd/gdcc/metrics.go against the answers that the daemon gave.
use gdcc.Base.{
  ℕ, ◌+◌, ◌%◌, ◌^◌, ◌≡◌, refl, sym, ap, ◌∙◌, subst, Bool, true, false, ◌&&◌, List, [], ◌∷◌, Option,
  Bytes, codes, map, ◌==◌, bytes_eq, not, ltb, length, Result, ok, err, pick_by, arith,
  if◌then◌else◌,
}
use gdcc.Result.{Action, unknown, accept, reject, action_string, verdict}
use gdcc.Client.Exchange.{Outcome}
use gdcc.Serve.{
  Metrics, new_metrics, inc, verdict_inc, Request, CountJson, count_json, Content, check_response,
  reported, Response, ReadError, too_large, broken, read_error, read_capped, read_body, max_stdin,
  Backend, check_answer, report_answer, check_read, check_handler, report_read, report_handler,
  unauthorized, unavailable, got_token, auth, gate, Endpoint, check_path, report_path, Call,
  ServeConfig, conc, handler_of, handle, handle_all,
}

abbrev pub count : (Response → Bool) → List Response → ℕ
count p [] = 0
count p (a ∷ answers) = (if p a then 1 else 0) + count p answers

-- An answer with a verdict, or with the failure of a check.
abbrev is_check : Content → Bool
is_check (check_response action bulk counts) = true
is_check _ = false

abbrev is_report : Content → Bool
is_report (reported done) = true
is_report _ = false

abbrev has_action : Bytes → Content → Bool
has_action action (check_response a bulk counts) = bytes_eq a action
has_action action _ = false

abbrev pub checks : Response → Bool
checks a = is_check a.content

abbrev pub reports : Response → Bool
reports a = is_report a.content

abbrev pub fails : Response → Bool
fails a = a.code == 502

-- An answer of a check that did not fail, with this action.
abbrev pub judges : Action → Response → Bool
judges action a = a.code == 200 && has_action (action_string action) a.content

-- The counters are the numbers of answers of each kind, in 64 bits.
pub record Told (answers : List Response) (m : Metrics) : Type 0 where
  pub check_total : m.check_total ≡ count checks answers % 2 ^ 64
  pub report_total : m.report_total ≡ count reports answers % 2 ^ 64
  pub error_total : m.error_total ≡ count fails answers % 2 ^ 64
  pub verdict_reject : m.verdict_reject ≡ count (judges reject) answers % 2 ^ 64
  pub verdict_accept : m.verdict_accept ≡ count (judges accept) answers % 2 ^ 64
  pub verdict_unknown : m.verdict_unknown ≡ count (judges unknown) answers % 2 ^ 64

abbrev bump : Bool → ℕ → ℕ
bump true n = inc n
bump false n = n

-- The counters behind an answer, by the answer alone.
abbrev tally : Response → Metrics → Metrics
tally a m = record {
  check_total = bump (checks a) m.check_total;
  report_total = bump (reports a) m.report_total;
  error_total = bump (fails a) m.error_total;
  verdict_reject = bump (judges reject a) m.verdict_reject;
  verdict_accept = bump (judges accept a) m.verdict_accept;
  verdict_unknown = bump (judges unknown a) m.verdict_unknown;
}

abbrev tally_all : List Response → Metrics → Metrics
tally_all [] m = m
tally_all (a ∷ answers) m = tally_all answers (tally a m)

verdict_inc-tally :
    (a : Action) (bulk : Option ℕ) (counts : List CountJson) (m : Metrics)
    → verdict_inc (action_string a) (record m { check_total = inc m.check_total })
      ≡ tally (record { code = 200; content = check_response (action_string a) bulk counts }) m
unfolding verdict_inc action_string
verdict_inc-tally unknown bulk counts m = refl
verdict_inc-tally accept bulk counts m = refl
verdict_inc-tally reject bulk counts m = refl

check_answer-tally :
    (out : Outcome) (m : Metrics)
    → let (a, m') = check_answer out (record m { check_total = inc m.check_total }) in
      m' ≡ tally a m
unfolding check_answer action_string
check_answer-tally (err e) m = refl
check_answer-tally (ok counts) m =
    verdict_inc-tally (verdict counts).action (verdict counts).bulk (map count_json counts) m

report_answer-tally :
    (out : Outcome) (m : Metrics)
    → let (a, m') = report_answer out (record m { report_total = inc m.report_total }) in
      m' ≡ tally a m
unfolding report_answer
report_answer-tally (err e) m = refl
report_answer-tally (ok counts) m = refl

module _ {S : Type 0} (b : Backend S) (cfg : ServeConfig) (m : Metrics) (s : S) where
  -- The counters that come with an answer are those that it stands for.
  abbrev Tallied : Response × (Metrics × S) → Type 0
  Tallied (a, (m', s')) = m' ≡ tally a m

  abbrev Refused : Result Response Bytes → Type 0
  Refused (ok msg) = Unit
  Refused (err a) = m ≡ tally a m

  read_body-Refused : (r : Request) → Refused (read_body r)
  unfolding read_body
  read_body-Refused r =
      pick_by Refused (not (bytes_eq r.method (codes "POST"))) (err _) _ refl
        (read_error-Refused (read_capped r.body r.fails max_stdin))
    where
      read_error-Refused : (x : Result ReadError Bytes) → Refused (read_error x)
      read_error-Refused (ok msg) = unfold read_error in tt
      read_error-Refused (err too_large) = unfold read_error in refl
      read_error-Refused (err broken) = unfold read_error in refl

  handler_of-Tallied : (e : Endpoint) (r : Request) → Tallied (handler_of b e r (m, s))
  unfolding check_handler report_handler
  handler_of-Tallied check_path r = check_read-Tallied (read_body r) (read_body-Refused r)
    where
      check_read-Tallied : (x : Result Response Bytes) → Refused x → Tallied (check_read b x (m, s))
      check_read-Tallied (err a) h = unfold check_read in h
      check_read-Tallied (ok msg) h = unfold check_read in check_answer-tally (b.check msg s).0 m
  handler_of-Tallied report_path r = report_read-Tallied (read_body r) (read_body-Refused r)
    where
      report_read-Tallied :
          (x : Result Response Bytes) → Refused x → Tallied (report_read b x (m, s))
      report_read-Tallied (err a) h = unfold report_read in h
      report_read-Tallied (ok msg) h =
          unfold report_read in report_answer-tally (b.report msg s).0 m

  handle-Tallied : (call : Call) → Tallied (handle b cfg call (m, s))
  unfolding handle auth gate
  handle-Tallied call =
      let r = call.request in
      let done = handler_of b call.endpoint r (m, s) in
      let room = ltb call.in_flight (conc cfg) in
      let gated =
        pick_by Tallied room done (unavailable, (m, s)) (handler_of-Tallied call.endpoint r) refl in
      pick_by Tallied (length cfg.token == 0) _ _ gated (
        pick_by Tallied (not (bytes_eq (got_token r) cfg.token)) (unauthorized, (m, s)) _ refl
          gated)

handle_all-tally :
    {S : Type 0} (b : Backend S) (cfg : ServeConfig) (calls : List Call) (m : Metrics) (s : S)
    → let (answers, (m', s')) = handle_all b cfg calls (m, s) in m' ≡ tally_all answers m
unfolding handle_all
handle_all-tally b cfg [] m s = refl
handle_all-tally b cfg (call ∷ calls) m s =
    let (a, (m', s')) = handle b cfg call (m, s) in
    let (answers, ended) = handle_all b cfg calls (m', s') in
    handle_all-tally b cfg calls m' s' ∙ ap (tally_all answers) (handle-Tallied b cfg m s call)

-- A counter that goes up on the answers with `p` ends at their number.
tally_all-count :
    (at_counter : Metrics → ℕ) (p : Response → Bool)
    → ((a : Response) (m : Metrics) → at_counter (tally a m) ≡ bump (p a) (at_counter m))
    → (answers : List Response) (m : Metrics) (n : ℕ) → at_counter m ≡ n % 2 ^ 64
    → at_counter (tally_all answers m) ≡ (n + count p answers) % 2 ^ 64
tally_all-count at_counter p h [] m n e = e ∙ ap (λ k. k % 2 ^ 64) (omega arith)
tally_all-count at_counter p h (a ∷ answers) m n e =
    tally_all-count at_counter p h answers (tally a m) (n + (if p a then 1 else 0))
      (h a m ∙ bumped (p a) (at_counter m) e)
    ∙ ap (λ k. k % 2 ^ 64) (omega arith)
  where
    bumped : (up : Bool) (k : ℕ) → k ≡ n % 2 ^ 64 → bump up k ≡ (n + (if up then 1 else 0)) % 2 ^ 64
    bumped true k e = unfold inc in omega (arith, e)
    bumped false k e = omega (arith, e)

new_metrics-count :
    (at_counter : Metrics → ℕ) (p : Response → Bool)
    → ((a : Response) (m : Metrics) → at_counter (tally a m) ≡ bump (p a) (at_counter m))
    → at_counter new_metrics ≡ 0
    → (answers : List Response)
    → at_counter (tally_all answers new_metrics) ≡ count p answers % 2 ^ 64
new_metrics-count at_counter p h e answers =
    tally_all-count at_counter p h answers new_metrics 0 e ∙ ap (λ k. k % 2 ^ 64) (omega arith)

tally_all-Told : (answers : List Response) → Told answers (tally_all answers new_metrics)
tally_all-Told answers = record {
  check_total = new_metrics-count (λ m. m.check_total) checks (λ a m. refl) refl answers;
  report_total = new_metrics-count (λ m. m.report_total) reports (λ a m. refl) refl answers;
  error_total = new_metrics-count (λ m. m.error_total) fails (λ a m. refl) refl answers;
  verdict_reject =
      new_metrics-count (λ m. m.verdict_reject) (judges reject) (λ a m. refl) refl answers;
  verdict_accept =
      new_metrics-count (λ m. m.verdict_accept) (judges accept) (λ a m. refl) refl answers;
  verdict_unknown =
      new_metrics-count (λ m. m.verdict_unknown) (judges unknown) (λ a m. refl) refl answers;
}

-- Whatever calls the daemon answers one behind the other, and whatever the client returns, its
-- counters tell of the answers: the checks and reports that were read, the answers with the status
-- 502, and the verdicts of each action, each in 64 bits. Refused calls change no counter.
pub handle_all-Told :
    {S : Type 0} (b : Backend S) (cfg : ServeConfig) (calls : List Call) (s : S)
    → let (answers, (m, s')) = handle_all b cfg calls (new_metrics, s) in Told answers m
handle_all-Told b cfg calls s =
    let (answers, ended) = handle_all b cfg calls (new_metrics, s) in
    subst (Told answers) (sym (handle_all-tally b cfg calls new_metrics s)) (tally_all-Told answers)
