-- ===== src/Client/Authentic.antt =====
-- Where the counts of an exchange come from.
use gdcc.Base.{
  ℕ, zero, suc, ◌+◌, ◌≤◌, ◌<◌, ◌≡◌, ◌⊎◌, Bool, true, false, Option, some, none, inl, inr,
  Bool-cases, List, [], Bytes, arith, ok, err, not, if◌then◌else◌,
}
use gdcc.Hash.{Digest}
use gdcc.Proto.{OpNums, AnswerCount, sign_packet}
use gdcc.Client.Answers.{Found, read_answer-ok_iff}
use gdcc.Client.Exchange.{
  ClientError, no_answer, resolve_failed, dial_failed, send_failed, is_timeout, Counts, Sent, Xmit,
  Attempt, Request, put_t, after_wait, unless_ended, xmit_loop, exchange, read_answer, max_xmits,
}

-- An outcome of a round comes from its wait or from a later round.
after_wait-ok :
    (counts : Counts) (late : Bool) (pkt : Bytes) (later : Sent) (answer : List AnswerCount)
    → (after_wait counts late pkt later).0 ≡ ok answer
    → (counts ≡ ok answer) ⊎ (later.0 ≡ ok answer)
unfolding after_wait
after_wait-ok (ok c) late pkt later answer h = inl h
after_wait-ok (err e) late pkt later answer h = elim (Bool-cases (is_timeout e)) [
  | inr other ↦ (let x : err e ≡ ok answer = rw other at h in absurd (cc))
  | inl timeout ↦ elim (Bool-cases late) [
    | inl over ↦ (let x : err no_answer ≡ ok answer = rw (timeout, over) at h in absurd (cc))
    | inr early ↦ inr (rw (timeout, early) at h)
  ]
]

unless_ended-ok :
    (before : Option ClientError) (rest : Sent) (answer : List AnswerCount)
    → (unless_ended before rest).0 ≡ ok answer
    → rest.0 ≡ ok answer
unfolding unless_ended
unless_ended-ok (some e) rest answer h = absurd (cc)
unless_ended-ok none rest answer h = h

written-ok :
    (written : Bool) (rest : Sent) (answer : List AnswerCount)
    → (if not written then (err send_failed, []) else rest).0 ≡ ok answer
    → rest.0 ≡ ok answer
written-ok true rest answer h = h
written-ok false rest answer h = absurd (cc)

module _ (md5 : Digest) (env : ℕ → Xmit) (n : ℕ) (passwd : Bytes) where
  -- The answer is among the datagrams of a transmission.
  pub record Source (nums : OpNums) (left : ℕ) (answer : List AnswerCount) : Type 0 where
    pub t : ℕ
    pub first : nums.t ≤ t
    pub bounded : t < nums.t + left
    pub found : Found md5 n (record nums { t = t + 1 }) passwd (env t).arrivals answer

  xmit_loop-Source :
      (left : ℕ) (nums : OpNums) (pkt : Bytes) (answer : List AnswerCount)
      → (xmit_loop md5 env n passwd left nums pkt).0 ≡ ok answer
      → Source nums left answer
  unfolding xmit_loop
  xmit_loop-Source zero nums pkt answer h = absurd (cc)
  xmit_loop-Source (suc left) nums pkt answer h =
      let e = env nums.t in
      let nums' : OpNums = record nums { t = nums.t + 1 } in
      let pkt' = sign_packet md5 (put_t pkt nums'.t) passwd in
      let later = xmit_loop md5 env n passwd left nums' pkt' in
      let counts = read_answer md5 n nums' passwd e.arrivals e.ending in
      let waited = after_wait-ok counts e.late pkt' later answer (
        written-ok e.written (after_wait counts e.late pkt' later) answer
          (unless_ended-ok e.before _ answer h)) in
      elim waited [
        | inl here ↦ record {
          t = nums.t;
          first = omega arith;
          bounded = omega arith;
          found = (read_answer-ok_iff md5 n nums' passwd e.arrivals e.ending answer).0 here;
        }
        | inr further ↦
            let s = xmit_loop-Source left nums' pkt' answer further in
            record {
              t = s.t;
              first = omega (arith, s.first);
              bounded = omega (arith, s.bounded);
              found = s.found;
            }
      ]

-- The counts that an exchange returns are those of a datagram that was read behind one of the at most
-- 4 transmissions, is an answer to the request's transaction and verifies with its password; every
-- datagram read before it behind that transmission was a stray.
pub exchange-Source :
    (md5 : Digest) (a : Attempt) (r : Request) (answer : List AnswerCount)
    → (exchange md5 a r).0 ≡ ok answer
    → Source md5 a.xmit r.n r.passwd r.nums max_xmits answer
unfolding exchange
exchange-Source md5 a r answer h = elim (Bool-cases a.resolved) [
  | inr unresolved ↦ (let x : err resolve_failed ≡ ok answer = rw unresolved at h in absurd (cc))
  | inl resolved ↦ elim (Bool-cases a.dialed) [
    | inr undialed ↦
        (let x : err dial_failed ≡ ok answer = rw (resolved, undialed) at h in absurd (cc))
    | inl dialed ↦
        xmit_loop-Source md5 a.xmit r.n r.passwd max_xmits r.nums _ answer
          (rw (resolved, dialed) at h)
  ]
]
