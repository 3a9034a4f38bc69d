-- ===== src/Command.antt =====
-- cmd/gdcc/main.go: the commands that read a message, with what they print and their exit codes.
pub mod Exit
pub mod Register
use gdcc.Base.{
  ℕ, Bool, List, [], ◌∷◌, ◌++◌, map, Option, Bytes, ◌==◌, if◌then◌else◌, Result, ok, err,
}
use gdcc.Result.{
  Action, unknown, accept, reject, CkCount, Verdict, action_string, verdict, verdict_threshold,
}
use gdcc.Client.Exchange.{Outcome}
use gdcc.Serve.{CountJson, count_json, ReadError, read_capped, max_stdin, Backend}

-- The lines on standard output: a count, the verdict with its bulk count, and "reported".
pub data Line : Type 0 where
  count_line : CountJson → Line
  verdict_line : Bytes → Option ℕ → Line
  reported_line : Line

-- What a command prints and its exit code; errors are printed to the other stream.
pub record Done : Type 0 where
  pub printed : List Line
  pub code : ℕ

unfoldable pub verdict_at : List CkCount → ℕ → Verdict
unfolding verdict verdict_threshold
verdict_at counts threshold =
    if threshold == 0 then verdict counts else verdict_threshold counts threshold

abbrev pub action_code : Action → ℕ
action_code reject = 0
action_code unknown = 1
action_code accept = 1

unfoldable pub do_check : Outcome → ℕ → Done
unfolding verdict_at action_string
do_check (err e) threshold = record { printed = []; code = 2 }
do_check (ok counts) threshold =
    let v = verdict_at counts threshold in
    record {
      printed =
          map (λ ck. count_line (count_json ck)) counts
          ++ (verdict_line (action_string v.action) v.bulk ∷ []);
      code = action_code v.action;
    }

unfoldable pub do_report : Outcome → Done
do_report (err e) = record { printed = []; code = 1 }
do_report (ok counts) = record { printed = reported_line ∷ []; code = 0 }

module _ {S : Type 0} (b : Backend S) (s : S) where
  unfoldable pub check_message : Result ReadError Bytes → ℕ → Done
  unfolding do_check
  check_message (err e) threshold = record { printed = []; code = 2 }
  check_message (ok raw) threshold = do_check (b.check raw s).0 threshold

  -- `run` with the operation "check", the bytes of standard input and whether reading fails
  -- behind them.
  unfoldable pub run_check : Bytes → Bool → ℕ → Done
  unfolding check_message read_capped
  run_check stdin fails threshold = check_message (read_capped stdin fails max_stdin) threshold

  unfoldable pub report_message : Result ReadError Bytes → Done
  unfolding do_report
  report_message (err e) = record { printed = []; code = 2 }
  report_message (ok raw) = do_report (b.report raw s).0

  unfoldable pub run_report : Bytes → Bool → Done
  unfolding report_message read_capped
  run_report stdin fails = report_message (read_capped stdin fails max_stdin)
