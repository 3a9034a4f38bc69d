-- ===== src/Client/EndToEnd.antt =====
-- What a call of `send` returns, from its servers to the datagrams that they are read from.
use gdcc.Base.{
  ℕ, ◌+◌, ◌%◌, ◌^◌, ◌≡◌, refl, sym, ◌∙◌, subst, ◌&&◌, inl, inr, Bool-cases, List, [], ◌∷◌, ◌++◌,
  All, ok, err, length, ltb, ◌==◌,
}
use gdcc.Hash.{Digest}
use gdcc.Sum.{Checksum}
use gdcc.Result.{CkCount}
use gdcc.Proto.{AnswerCount, op_query, reportable_count}
use gdcc.Client.{Client, Ids, Server, servers, ensure_ids, build_result}
use gdcc.Client.Exchange.{
  no_servers, no_reportable, Counts, Attempt, Request, World, exchange, outcomes, attempts,
  counts_of, failover, first_answer, request, send, max_xmits,
}
use gdcc.Client.Failover.{build_result-pair_up, failover-ok_iff, first_answer-ok_iff}
use gdcc.Client.Authentic.{Source, exchange-Source}

All-inside : {A : Type 0} (P : A → Type 0) (xs ys : List A) (x : A) → All P (xs ++ (x ∷ ys)) → P x
All-inside P [] ys x h = h.0
All-inside P (y ∷ xs) ys x h = All-inside P xs ys x h.1

-- The identifiers with which a call sends.
abbrev pub sent_ids : World → Ids → Ids
sent_ids w ids =
    let filled = ensure_ids w.random w.getpid ids in
    record filled { rid = (filled.rid + 1) % 2 ^ 32 }

module _ (md5 : Digest) (c : Client) (w : World) (ids : Ids) (op tgts : ℕ)
    (cks : List Checksum) where
  abbrev asked : Request
  asked = request c (sent_ids w ids) op tgts cks

  abbrev tried : List (Attempt × Counts)
  tried = outcomes md5 asked (attempts w.server 0 (servers c))

  -- The result is made of the answer of one server, which was read as `Source` tells.
  pub record Answer (out : List CkCount) : Type 0 where
    pub place : ℕ
    pub server : Server
    pub counts : List AnswerCount
    pub paired : out ≡ build_result cks counts
    pub source :
        Source md5 (w.server place server).xmit asked.n asked.passwd asked.nums max_xmits counts

  -- The outcome of an exchange with a server.
  abbrev IsOutcome : Counts → Type 0
  IsOutcome r = (i : ℕ) × (s : Server) × ((exchange md5 (w.server i s) asked).0 ≡ r)

  outcomes-All :
      (i : ℕ) (ss : List Server)
      → All (λ p. IsOutcome p.1) (outcomes md5 asked (attempts w.server i ss))
  unfolding outcomes attempts
  outcomes-All i [] = tt
  outcomes-All i (s ∷ ss) = ((i, s, refl), outcomes-All (i + 1) ss)

  counts_of-All :
      (ps : List (Attempt × Counts)) → All (λ p. IsOutcome p.1) ps → All IsOutcome (counts_of ps)
  counts_of-All [] h = tt
  counts_of-All ((a, r) ∷ ps) h = (h.0, counts_of-All ps h.1)

  Answer-of :
      (counts : List AnswerCount) (out : List CkCount)
      → IsOutcome (ok counts)
      → out ≡ build_result cks counts
      → Answer out
  Answer-of counts out (i, s, e) p = record {
    place = i;
    server = s;
    counts = counts;
    paired = p;
    source = exchange-Source md5 (w.server i s) asked counts e;
  }

  failover-Answer : (out : List CkCount) → failover no_servers cks tried ≡ ok out → Answer out
  failover-Answer out h =
      let f = (failover-ok_iff no_servers cks tried out).0 h in
      Answer-of f.counts out
        (All-inside (λ p. IsOutcome p.1) f.passed f.others (f.attempt, ok f.counts)
          (subst (All (λ p. IsOutcome p.1)) f.split (outcomes-All 0 (servers c))))
        (f.paired ∙ sym (build_result-pair_up cks f.counts))

  first_answer-Answer :
      (out : List CkCount)
      → ((P : Counts → Type 0) (rs : List Counts) → All P rs → All P (w.order rs))
      → first_answer no_servers cks (w.order (counts_of tried)) ≡ ok out
      → Answer out
  first_answer-Answer out only h =
      let f = (first_answer-ok_iff no_servers cks (w.order (counts_of tried)) out).0 h in
      Answer-of f.counts out
        (All-inside IsOutcome f.failed f.others (ok f.counts) (
          subst (All IsOutcome) f.split
            (only IsOutcome (counts_of tried) (counts_of-All tried (outcomes-All 0 (servers c))))))
        f.paired

  -- Where the servers that finish are among those that were asked, a result of a query or a report is
  -- made of counts that one server's datagram holds, which is an answer to this call's transaction and
  -- verifies with the client's password.
  pub send-Answer :
      (out : List CkCount)
      → ((P : Counts → Type 0) (rs : List Counts) → All P rs → All P (w.order rs))
      → (send md5 c w ids op tgts cks).0 ≡ ok out
      → Answer out
  unfolding send
  send-Answer out only h = elim (Bool-cases (reportable_count cks == 0)) [
    | inl nothing ↦ (let x : err no_reportable ≡ ok out = rw nothing at h in absurd (cc))
    | inr some_there ↦ elim (Bool-cases (op == op_query && ltb 1 (length (servers c)))) [
      | inl raced ↦ first_answer-Answer out only (rw (some_there, raced) at h)
      | inr in_turn ↦ failover-Answer out (rw (some_there, in_turn) at h)
    ]
  ]
