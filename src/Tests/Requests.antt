-- ===== src/Tests/Requests.antt =====
-- cmd/gdcc/serve.go and cmd/gdcc/main.go at concrete inputs.
use gdcc.Base.{
  leb, ◌%◌, ◌^◌, map, ℕ, ◌+◌, ◌≡◌, ◌↔◌, refl, false, List, [], ◌∷◌, Bytes, codes, ◌==◌, length,
  if◌then◌else◌, ok, err,
}
use gdcc.CkType
use gdcc.Result.{
  action_string, verdict, verdict_threshold, body_count, whitelisted, is_body_type, is_white,
}
use gdcc.Client.Exchange.{Outcome, no_answer}
use gdcc.Message.{has_prefix}
use gdcc.Serve.{
  new_metrics, Request, unauthorized, Backend, Call, ServeConfig, check_path, report_path, auth,
  check_handler, handle_all,
}
use gdcc.Serve.Latency.{observe_all, new_histogram, within_bound, observe_all-counts}
use gdcc.Serve.Tally.{Told, handle_all-Told}
use gdcc.Serve.Token.{Carries, auth-Carries}
use gdcc.Command.{run_check}
use gdcc.Command.Exit.{IsBulk, run_check_iff}

-- A client that gives one body count, and no answer for an empty message.
abbrev counted : Bytes → Outcome
counted msg =
    if length msg == 0
    then err no_answer
    else ok ((record { type = CkType.body; cur = 0x00fffff0; prev = 7 }) ∷ [])

abbrev bulky : Backend ℕ
bulky = record { check = λ msg n. (counted msg, n + 1); report = λ msg n. (counted msg, n + 1) }

abbrev guarded : ServeConfig
guarded = record { token = codes "key"; max_conc = 2 }

abbrev post : Bytes → Bytes → Request
post authorization body = record {
  method = codes "POST";
  x_gdcc_token = [];
  authorization = authorization;
  body = body;
  fails = false;
}

abbrev calls : List Call
calls =
    (record {
      endpoint = check_path;
      in_flight = 0;
      request = post (codes "Bearer key") (codes "a");
    })
    ∷ (record {
      endpoint = check_path;
      in_flight = 0;
      request = post (codes "Bearer no") (codes "a");
    })
    ∷ (record {
      endpoint = check_path;
      in_flight = 2;
      request = post (codes "Bearer key") (codes "a");
    })
    ∷ (record { endpoint = report_path; in_flight = 1; request = post (codes "Bearer key") [] })
    ∷ []

-- A verdict, a refused token, a refusal of a full server and a report that failed.
counters : (handle_all bulky guarded calls (new_metrics, 0)).1 ≡ (
  record {
    check_total = 1;
    report_total = 1;
    error_total = 1;
    verdict_reject = 1;
    verdict_accept = 0;
    verdict_unknown = 0;
  },
  2,
)
unfolding handle_all action_string verdict verdict_threshold body_count whitelisted is_body_type
    is_white has_prefix
counters = refl

handle_all-Told_example :
    let (answers, (m, s)) = handle_all bulky guarded calls (new_metrics, 0) in Told answers m
handle_all-Told_example = handle_all-Told bulky guarded calls 0

auth-Carries_example :
    (Carries (codes "key") (post (codes "Bearer key") (codes "a"))
      → auth
          (codes "key")
          (check_handler bulky)
          (post (codes "Bearer key") (codes "a"))
          (new_metrics, 0)
        ≡ check_handler bulky (post (codes "Bearer key") (codes "a")) (new_metrics, 0))
    × (¬ Carries (codes "key") (post (codes "Bearer key") (codes "a"))
        → auth
            (codes "key")
            (check_handler bulky)
            (post (codes "Bearer key") (codes "a"))
            (new_metrics, 0)
          ≡ (unauthorized, (new_metrics, 0)))
auth-Carries_example =
    auth-Carries (codes "key") (check_handler bulky) (post (codes "Bearer key") (codes "a"))
      (new_metrics, 0) (λ e. cc)

run_check_iff_example :
    ((run_check bulky 0 (codes "a") false 0).code ≡ 0) ↔ IsBulk bulky 0 (codes "a") false 0
run_check_iff_example = run_check_iff bulky 0 (codes "a") false 0

bulk_exit : (run_check bulky 0 (codes "a") false 0).code ≡ 0
unfolding run_check verdict verdict_threshold body_count whitelisted is_body_type is_white
bulk_exit = refl

-- Latencies in milliseconds, against three bounds.
abbrev latencies : List ℕ
latencies = 4 ∷ 30 ∷ 2 ∷ 9000 ∷ []

abbrev bounds : List ℕ
bounds = 5 ∷ 10 ∷ 50 ∷ []

observe_all-counts_example :
    ((observe_all leb (λ a b. a + b) latencies (new_histogram bounds 0)).bcounts
      ≡ map (λ b. within_bound leb (λ a b. a + b) 0 latencies b % 2 ^ 64) bounds)
    × ((observe_all leb (λ a b. a + b) latencies (new_histogram bounds 0)).count
        ≡ length latencies % 2 ^ 64)
observe_all-counts_example = observe_all-counts leb (λ a b. a + b) latencies bounds 0

histogram :
    (observe_all leb (λ a b. a + b) latencies (new_histogram bounds 0)).bcounts ≡ 2 ∷ 2 ∷ 3 ∷ []
unfolding observe_all
histogram = refl
