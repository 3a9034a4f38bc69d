-- ===== src/Command/Exit.antt =====
-- cmd/gdcc/main.go: when the command "check" ends with the exit code of a bulk message.
use gdcc.Base.{
  ℕ, ◌+◌, ◌≤◌, ◌≡◌, refl, sym, ap, subst, ◌∙◌, ◌↔◌, inl, inr, Bool, true, false, List, [], ◌∷◌,
  Bytes, ◌==◌, ltb, leb, leb→le, and_false, ◌<◌, All, if◌then◌else◌, length, take, length-take,
  take-of_le, Result, ok, err, Bool-cases, arith,
}
use gdcc.Result.{CkCount, Verdict, verdict, verdict_threshold, dcc_tgts_too_many}
use gdcc.Result.Decision.{
  Some, IsBody, IsBodyWhite, IsBodyMax, Decides, accepts, rejects, abstains,
  verdict_threshold-Decides,
}
use gdcc.Client.Exchange.{Outcome}
use gdcc.Serve.{ReadError, too_large, broken, read_capped, max_stdin, Backend}
use gdcc.Command.{verdict_at, action_code, do_check, check_message, run_check}

-- The threshold that counts: 0 stands for "many".
abbrev pub bound : ℕ → ℕ
bound threshold = if threshold == 0 then dcc_tgts_too_many else threshold

-- The message was read whole and the servers' counts make it bulk.
pub record IsBulk {S : Type 0} (b : Backend S) (s : S) (stdin : Bytes) (fails : Bool)
    (threshold : ℕ) : Type 0 where
  pub whole : fails ≡ false
  pub fits : length stdin ≤ max_stdin
  pub counts : List CkCount
  pub answered : (b.check stdin s).0 ≡ ok counts
  pub uncertified : ¬ Some IsBodyWhite counts
  pub bulk : ℕ
  pub largest : IsBodyMax counts bulk
  pub reached : bound threshold ≤ bulk

ok-injective : {E A : Type 0} (x y : A) → (let r : Result E A = ok x in r) ≡ ok y → x ≡ y
ok-injective x y e = cc

read_capped-ok :
    (bytes : Bytes) (fails : Bool) (max : ℕ)
    → fails ≡ false
    → length bytes ≤ max
    → read_capped bytes fails max ≡ ok bytes
unfolding read_capped
read_capped-ok bytes fails max whole fits =
    let all = take-of_le (max + 1) bytes (omega (arith, fits)) in
    rw (whole, all) (ground (arith, fits))

verdict_at_lem :
    (counts : List CkCount) (threshold : ℕ)
    → verdict_at counts threshold ≡ verdict_threshold counts (bound threshold)
unfolding verdict_at verdict
verdict_at_lem counts threshold = elim (Bool-cases (threshold == 0)) [
  | inl z ↦ rw z refl
  | inr n ↦ rw n refl
]

-- What the read gives is the whole input, which is not too long.
record Whole (bytes : Bytes) (fails : Bool) (max : ℕ) (msg : Bytes) : Type 0 where
  whole : fails ≡ false
  fits : length bytes ≤ max
  same : bytes ≡ msg

read_capped-Whole :
    (bytes : Bytes) (fails : Bool) (max : ℕ) (msg : Bytes)
    → read_capped bytes fails max ≡ ok msg
    → Whole bytes fails max msg
unfolding read_capped
read_capped-Whole bytes fails max msg h =
    let n = length-take (max + 1) bytes in
    elim (Bool-cases (leb (length bytes) max)) [
      | inr long ↦
          let cut : length (take (max + 1) bytes) ≡ max + 1 = ground (arith, n, long) in
          let limit : ltb (max + 1) (max + 1) ≡ false = ground arith in
          let over : ltb max (max + 1) ≡ true = ground arith in
          let x : err too_large ≡ ok msg = rw (cut, limit, and_false fails, over) at h in
          absurd (cc x)
      | inl short ↦
          let fits = leb→le _ _ short in
          let all = take-of_le (max + 1) bytes (omega (arith, fits)) in
          let room : ltb (length bytes) (max + 1) ≡ true = ground (arith, fits) in
          let under : ltb max (length bytes) ≡ false = ground (arith, fits) in
          elim (Bool-cases fails) [
            | inl f ↦ (let x : err broken ≡ ok msg = rw (all, room, f) at h in absurd (cc x))
            | inr t ↦
                let x : ok bytes ≡ ok msg = rw (all, room, under, t) at h in
                record { whole = t; fits = fits; same = ok-injective {E = ReadError} bytes msg x }
          ]
    ]

-- The verdicts with the exit code 0.
Decides-bulk :
    (counts : List CkCount) (threshold : ℕ) (v : Verdict)
    → Decides counts threshold v
    → action_code v.action ≡ 0
    → ¬ Some IsBodyWhite counts × ((n : ℕ) × IsBodyMax counts n × (threshold ≤ n))
Decides-bulk counts threshold v (accepts white) h = absurd (omega (arith, h))
Decides-bulk counts threshold v (rejects n plain top reached) h = (plain, (n, top, reached))
Decides-bulk counts threshold v (abstains plain below) h = absurd (omega (arith, h))

Decides-reject :
    (counts : List CkCount) (threshold n : ℕ) (v : Verdict)
    → ¬ Some IsBodyWhite counts
    → IsBodyMax counts n
    → threshold ≤ n
    → Decides counts threshold v
    → action_code v.action ≡ 0
Decides-reject counts threshold n v plain top reached (accepts white) = absurd (plain white)
Decides-reject counts threshold n v plain top reached (rejects m p t r) = refl
Decides-reject counts threshold n v plain top reached (abstains p below) =
    absurd (Some-below counts top.0 below)
  where
    Some-below :
        (cs : List CkCount)
        → Some (λ c. IsBody c × (c.cur ≡ n)) cs
        → All (λ c. IsBody c → c.cur < threshold) cs
        → ⊥
    Some-below [] s a = s
    Some-below (c ∷ cs) (inl (body, e)) a = omega (arith, e, a.0 body, reached)
    Some-below (c ∷ cs) (inr s) a = Some-below cs s a.1

module _ {S : Type 0} (b : Backend S) (s : S) (stdin : Bytes) (fails : Bool) (threshold : ℕ) where
  answered-IsBulk :
      (o : Outcome)
      → (b.check stdin s).0 ≡ o
      → fails ≡ false
      → length stdin ≤ max_stdin
      → (do_check o threshold).code ≡ 0
      → IsBulk b s stdin fails threshold
  unfolding do_check
  answered-IsBulk (err e) answered whole fits h = absurd (omega (arith, h))
  answered-IsBulk (ok counts) answered whole fits h =
      let v = verdict_threshold counts (bound threshold) in
      let (plain, (n, top, reached)) =
        Decides-bulk counts (bound threshold) v (verdict_threshold-Decides counts (bound threshold))
          (ap (λ v. action_code v.action) (sym (verdict_at_lem counts threshold)) ∙ h) in
      record {
        whole = whole;
        fits = fits;
        counts = counts;
        answered = answered;
        uncertified = plain;
        bulk = n;
        largest = top;
        reached = reached;
      }

  read-IsBulk :
      (x : Result ReadError Bytes)
      → read_capped stdin fails max_stdin ≡ x
      → (check_message b s x threshold).code ≡ 0
      → IsBulk b s stdin fails threshold
  unfolding check_message
  read-IsBulk (err e) read h = absurd (omega (arith, h))
  read-IsBulk (ok raw) read h =
      let w = read_capped-Whole stdin fails max_stdin raw read in
      answered-IsBulk (b.check stdin s).0 refl w.whole w.fits
        (subst (λ raw. (do_check (b.check raw s).0 threshold).code ≡ 0) (sym w.same) h)

  IsBulk-code : IsBulk b s stdin fails threshold → (run_check b s stdin fails threshold).code ≡ 0
  unfolding run_check check_message do_check
  IsBulk-code k =
      let v = verdict_threshold k.counts (bound threshold) in
      ap (λ x. (check_message b s x threshold).code)
        (read_capped-ok stdin fails max_stdin k.whole k.fits)
      ∙ ap (λ o. (do_check o threshold).code) k.answered
      ∙ ap (λ v. action_code v.action) (verdict_at_lem k.counts threshold)
      ∙ Decides-reject k.counts (bound threshold) k.bulk v k.uncertified k.largest k.reached
          (verdict_threshold-Decides k.counts (bound threshold))

  -- The command "check" ends with the exit code 0 exactly where standard input is read to its end
  -- and has 16 MiB at most, the client returns counts for it, no body checksum among them is
  -- certified, and the largest body count reaches the threshold, or "many" where it is 0.
  pub run_check_iff :
      ((run_check b s stdin fails threshold).code ≡ 0) ↔ IsBulk b s stdin fails threshold
  unfolding run_check
  run_check_iff = (read-IsBulk (read_capped stdin fails max_stdin) refl, IsBulk-code)
