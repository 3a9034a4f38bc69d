-- ===== src/Client/Failover.antt =====
-- Which server's answer a call returns, and how the counts are paired with the checksums.
use gdcc.Base.{
  ◌≡◌, ◌↔◌, refl, sym, ap, ◌∙◌, true, false, inl, inr, Bool-cases, List, [], ◌∷◌, ◌++◌, All, ok,
  err,
}
use gdcc.Sum.{Checksum}
use gdcc.Result.{CkCount}
use gdcc.Proto.{AnswerCount, reportable}
use gdcc.Client.{build_result}
use gdcc.Client.Exchange.{ClientError, Counts, Attempt, failover, first_answer, Outcome}

-- One checksum with one count.
pub pair_up : List Checksum → List AnswerCount → List CkCount
pair_up [] counts = []
pair_up (c ∷ cs) [] = []
pair_up (c ∷ cs) (a ∷ counts) =
    record { type = c.type; cur = a.cur; prev = a.prev } ∷ pair_up cs counts

build_result_empty : (cks : List Checksum) → build_result cks [] ≡ []
unfolding build_result
build_result_empty [] = refl
build_result_empty (c ∷ cks) = build_result_empty cks

pair_up_empty : (cks : List Checksum) → pair_up cks [] ≡ []
unfolding pair_up
pair_up_empty [] = refl
pair_up_empty (c ∷ cks) = refl

-- The counts of an answer are paired in order with the checksums that were sent, and with no others.
pub build_result-pair_up :
    (cks : List Checksum) (counts : List AnswerCount)
    → build_result cks counts ≡ pair_up (reportable cks) counts
unfolding build_result pair_up reportable
build_result-pair_up [] counts = refl
build_result-pair_up (c ∷ cks) [] =
    build_result_empty (c ∷ cks) ∙ sym (pair_up_empty (reportable (c ∷ cks)))
build_result-pair_up (c ∷ cks) (a ∷ counts) = elim (Bool-cases c.report) [
  | inl sent ↦ rw sent (
      ap (λ (r : List CkCount). record { type = c.type; cur = a.cur; prev = a.prev } ∷ r)
        (build_result-pair_up cks counts))
  | inr kept ↦ rw kept (build_result-pair_up cks (a ∷ counts))
]

pub IsFailed : Counts → Type 0
IsFailed c = (e : ClientError) × (c ≡ err e)

-- The first answer in a list of outcomes.
pub record FirstAnswer (cks : List Checksum) (rs : List Counts) (out : List CkCount) : Type 0 where
  pub failed : List Counts
  pub counts : List AnswerCount
  pub others : List Counts
  pub split : rs ≡ failed ++ (ok counts ∷ others)
  pub all_failed : All IsFailed failed
  pub paired : out ≡ build_result cks counts

first_answer-FirstAnswer :
    (last : ClientError) (cks : List Checksum) (rs : List Counts) (out : List CkCount)
    → first_answer last cks rs ≡ ok out
    → FirstAnswer cks rs out
unfolding first_answer IsFailed
first_answer-FirstAnswer last cks [] out h = absurd (cc)
first_answer-FirstAnswer last cks (ok counts ∷ rest) out h = record {
  failed = [];
  counts = counts;
  others = rest;
  split = refl;
  all_failed = tt;
  paired = cc;
}
first_answer-FirstAnswer last cks (err e ∷ rest) out h =
    let f = first_answer-FirstAnswer e cks rest out h in
    record {
      failed = err e ∷ f.failed;
      counts = f.counts;
      others = f.others;
      split = ap (λ (r : List Counts). err e ∷ r) f.split;
      all_failed = ((e, refl), f.all_failed);
      paired = f.paired;
    }

FirstAnswer-first_answer :
    (last : ClientError) (cks : List Checksum) (failed others : List Counts)
    (counts : List AnswerCount)
    → All IsFailed failed
    → first_answer last cks (failed ++ (ok counts ∷ others)) ≡ ok (build_result cks counts)
unfolding first_answer IsFailed
FirstAnswer-first_answer last cks [] others counts h = refl
FirstAnswer-first_answer last cks (ok c ∷ failed) others counts ((e, h), hs) = absurd (cc)
FirstAnswer-first_answer last cks (err x ∷ failed) others counts (h, hs) =
    FirstAnswer-first_answer x cks failed others counts hs

-- A query of several servers returns a result exactly where one of them answers, and then that of the
-- first to answer in the order in which they finish.
pub first_answer-ok_iff :
    (last : ClientError) (cks : List Checksum) (rs : List Counts) (out : List CkCount)
    → (first_answer last cks rs ≡ ok out) ↔ FirstAnswer cks rs out
first_answer-ok_iff last cks rs out = (
  first_answer-FirstAnswer last cks rs out,
  λ f.
      ap (first_answer last cks) f.split
      ∙ FirstAnswer-first_answer last cks f.failed f.others f.counts f.all_failed
      ∙ ap ok (sym f.paired),
)

-- A server that is asked in time, fails, and does not end the call.
pub record IsPassed (p : Attempt × Counts) : Type 0 where
  pub in_time : p.0.in_time ≡ true
  pub goes_on : p.0.cancelled_since ≡ false
  pub error : ClientError
  pub fails : p.1 ≡ err error

-- The first server that answers, in the order of the list.
pub record Answered (cks : List Checksum) (tried : List (Attempt × Counts)) (out : List CkCount)
    : Type 0 where
  pub passed : List (Attempt × Counts)
  pub attempt : Attempt
  pub counts : List AnswerCount
  pub others : List (Attempt × Counts)
  pub split : tried ≡ passed ++ ((attempt, ok counts) ∷ others)
  pub all_passed : All IsPassed passed
  pub in_time : attempt.in_time ≡ true
  pub paired : out ≡ pair_up (reportable cks) counts

out_of : {x y : List CkCount} → (let r : Outcome = ok x in r) ≡ ok y → y ≡ x
out_of e = cc

failover-Answered :
    (last : ClientError) (cks : List Checksum) (tried : List (Attempt × Counts))
    (out : List CkCount)
    → failover last cks tried ≡ ok out
    → Answered cks tried out
unfolding failover
failover-Answered last cks [] out h = absurd (cc)
failover-Answered last cks ((a, ok counts) ∷ rest) out h = elim (Bool-cases a.in_time) [
  | inl timely ↦
      (let e : ok (build_result cks counts) ≡ ok out = rw timely at h in
        record {
          passed = [];
          attempt = a;
          counts = counts;
          others = rest;
          split = refl;
          all_passed = tt;
          in_time = timely;
          paired = out_of e ∙ build_result-pair_up cks counts;
        })
  | inr late ↦ (let e : err last ≡ ok out = rw late at h in absurd (cc))
]
failover-Answered last cks ((a, err x) ∷ rest) out h = elim (Bool-cases a.in_time) [
  | inr late ↦ (let e : err last ≡ ok out = rw late at h in absurd (cc))
  | inl timely ↦ elim (Bool-cases a.cancelled_since) [
    | inl ended ↦ (let e : err x ≡ ok out = rw (timely, ended) at h in absurd (cc))
    | inr on ↦
        let f = failover-Answered x cks rest out (rw (timely, on) at h) in
        record {
          passed = (a, err x) ∷ f.passed;
          attempt = f.attempt;
          counts = f.counts;
          others = f.others;
          split = ap (λ (r : List (Attempt × Counts)). (a, err x) ∷ r) f.split;
          all_passed =
              (record { in_time = timely; goes_on = on; error = x; fails = refl }, f.all_passed);
          in_time = f.in_time;
          paired = f.paired;
        }
  ]
]

Answered-failover :
    (last : ClientError) (cks : List Checksum) (passed others : List (Attempt × Counts))
    (a : Attempt) (counts : List AnswerCount)
    → All IsPassed passed
    → a.in_time ≡ true
    → failover last cks (passed ++ ((a, ok counts) ∷ others)) ≡ ok (build_result cks counts)
unfolding failover
Answered-failover last cks [] others a counts h timely = rw timely refl
Answered-failover last cks ((b, ok c) ∷ passed) others a counts (p, h) timely =
    absurd (let e = p.fails in cc)
Answered-failover last cks ((b, err x) ∷ passed) others a counts (p, h) timely =
    rw (p.in_time, p.goes_on) (Answered-failover x cks passed others a counts h timely)

-- A report, and a query of one server, returns a result exactly where a server answers in time and
-- every server before it in the list was asked in time and failed, with any error, an
-- answer that is an error included, while the context was not cancelled; the result has that
-- server's counts, each with the checksum that was sent in its place.
pub failover-ok_iff :
    (last : ClientError) (cks : List Checksum) (tried : List (Attempt × Counts))
    (out : List CkCount)
    → (failover last cks tried ≡ ok out) ↔ Answered cks tried out
failover-ok_iff last cks tried out = (
  failover-Answered last cks tried out,
  λ f.
      ap (failover last cks) f.split
      ∙ Answered-failover last cks f.passed f.others f.attempt f.counts f.all_passed f.in_time
      ∙ ap ok (build_result-pair_up cks f.counts ∙ sym f.paired),
)
