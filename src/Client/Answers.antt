-- ===== src/Client/Answers.antt =====
-- Which datagram `readAnswer` takes for the answer.
use gdcc.Base.{
  ℕ, ◌≡◌, ◌≢◌, ◌↔◌, refl, ap, ◌∙◌, Bool, true, false, List, [], ◌∷◌, ◌++◌, Bytes, take, All, Result,
  ok, err,
}
use gdcc.Hash.{Digest}
use gdcc.Proto.{
  OpNums, AnswerCount, AnswerError, mismatch, server_error, bad_length, short_answer, unexpected_op,
  parse_answer, verify_answer_sig,
}
use gdcc.Client.Exchange.{ClientError, Counts, answer_error, judge, read_answer}

judge_err :
    (e : AnswerError) (valid : Bool) (later : Counts)
    → e ≢ mismatch
    → judge (err e) valid later ≡ err (answer_error e)
unfolding judge
judge_err mismatch valid later ne = absurd (ne refl)
judge_err (server_error m) valid later ne = refl
judge_err (short_answer k) valid later ne = refl
judge_err (unexpected_op k) valid later ne = refl
judge_err (bad_length k m) valid later ne = refl

module _ (md5 : Digest) (n : ℕ) (nums : OpNums) (passwd : Bytes) where
  -- A datagram of another transaction, or an answer that does not verify.
  pub data Stray (d : Bytes) : Type 0 where
    other : parse_answer (take 2048 d) n nums ≡ err mismatch → Stray d
    forged :
        (counts : List AnswerCount)
        → parse_answer (take 2048 d) n nums ≡ ok counts
        → verify_answer_sig md5 (take 2048 d) passwd ≡ false
        → Stray d

  -- An answer that verifies.
  pub record Genuine (d : Bytes) (counts : List AnswerCount) : Type 0 where
    pub parsed : parse_answer (take 2048 d) n nums ≡ ok counts
    pub valid : verify_answer_sig md5 (take 2048 d) passwd ≡ true

  skip-Stray :
      (d : Bytes) (ds : List Bytes) (ending : ClientError)
      → Stray d
      → read_answer md5 n nums passwd (d ∷ ds) ending ≡ read_answer md5 n nums passwd ds ending
  unfolding read_answer judge
  skip-Stray d ds ending (other e) = rw e refl
  skip-Stray d ds ending (forged counts e v) = rw (e, v) refl

  skip-All-Stray :
      (strays ds : List Bytes) (ending : ClientError)
      → All Stray strays
      → read_answer md5 n nums passwd (strays ++ ds) ending
        ≡ read_answer md5 n nums passwd ds ending
  skip-All-Stray [] ds ending h = refl
  skip-All-Stray (d ∷ strays) ds ending h =
      skip-Stray d (strays ++ ds) ending h.0 ∙ skip-All-Stray strays ds ending h.1

  -- Where an answer is among the datagrams.
  pub record Found (ds : List Bytes) (counts : List AnswerCount) : Type 0 where
    pub strays : List Bytes
    pub answer : Bytes
    pub later : List Bytes
    pub split : ds ≡ strays ++ (answer ∷ later)
    pub skipped : All Stray strays
    pub genuine : Genuine answer counts

  take-Genuine :
      (d : Bytes) (ds : List Bytes) (ending : ClientError) (counts : List AnswerCount)
      → Genuine d counts
      → read_answer md5 n nums passwd (d ∷ ds) ending ≡ ok counts
  unfolding read_answer judge
  take-Genuine d ds ending counts g = rw (g.parsed, g.valid) refl

  Found-later :
      (d : Bytes) (ds : List Bytes) (counts : List AnswerCount)
      → Stray d
      → Found ds counts
      → Found (d ∷ ds) counts
  Found-later d ds counts s f = record {
    strays = d ∷ f.strays;
    answer = f.answer;
    later = f.later;
    split = ap (λ (r : List Bytes). d ∷ r) f.split;
    skipped = (s, f.skipped);
    genuine = f.genuine;
  }

  -- The first datagram, by what it parses to and by its signature.
  judged :
      (d : Bytes) (ds : List Bytes) (counts : List AnswerCount) (later : Counts)
      (p : Result AnswerError (List AnswerCount)) (v : Bool)
      → parse_answer (take 2048 d) n nums ≡ p
      → verify_answer_sig md5 (take 2048 d) passwd ≡ v
      → (later ≡ ok counts → Found ds counts)
      → judge p v later ≡ ok counts
      → Found (d ∷ ds) counts
  unfolding judge
  judged d ds counts later (err mismatch) v pe ve ih h = Found-later d ds counts (other pe) (ih h)
  judged d ds counts later (ok c) false pe ve ih h = Found-later d ds counts (forged c pe ve) (ih h)
  judged d ds counts later (ok c) true pe ve ih h = record {
    strays = [];
    answer = d;
    later = ds;
    split = refl;
    skipped = tt;
    genuine = record { parsed = cc; valid = ve };
  }
  judged d ds counts later (err (server_error m)) v pe ve ih h = absurd (cc)
  judged d ds counts later (err (short_answer k)) v pe ve ih h = absurd (cc)
  judged d ds counts later (err (unexpected_op k)) v pe ve ih h = absurd (cc)
  judged d ds counts later (err (bad_length k m)) v pe ve ih h = absurd (cc)

  read_answer-Found :
      (ds : List Bytes) (ending : ClientError) (counts : List AnswerCount)
      → read_answer md5 n nums passwd ds ending ≡ ok counts
      → Found ds counts
  unfolding read_answer
  read_answer-Found [] ending counts h = absurd (cc)
  read_answer-Found (d ∷ ds) ending counts h =
      judged d ds counts (read_answer md5 n nums passwd ds ending)
        (parse_answer (take 2048 d) n nums) (verify_answer_sig md5 (take 2048 d) passwd) refl refl
        (read_answer-Found ds ending counts) h

  -- The client takes the counts of the first datagram that is an answer to its transaction and
  -- verifies with its password, exactly where every datagram before it is of another transaction or
  -- an answer that does not verify.
  pub read_answer-ok_iff :
      (ds : List Bytes) (ending : ClientError) (counts : List AnswerCount)
      → (read_answer md5 n nums passwd ds ending ≡ ok counts) ↔ Found ds counts
  read_answer-ok_iff ds ending counts = (
    read_answer-Found ds ending counts,
    λ f.
        ap (λ (r : List Bytes). read_answer md5 n nums passwd r ending) f.split
        ∙ skip-All-Stray f.strays (f.answer ∷ f.later) ending f.skipped
        ∙ take-Genuine f.answer f.later ending counts f.genuine,
  )

  take_error :
      (d : Bytes) (ds : List Bytes) (ending : ClientError) (e : AnswerError)
      → parse_answer (take 2048 d) n nums ≡ err e
      → e ≢ mismatch
      → read_answer md5 n nums passwd (d ∷ ds) ending ≡ err (answer_error e)
  unfolding read_answer judge
  take_error d ds ending e h ne = rw h (
      judge_err e (verify_answer_sig md5 (take 2048 d) passwd)
        (read_answer md5 n nums passwd ds ending) ne)

  -- A datagram with another error than a transaction that is not the client's ends the wait with that
  -- error, behind strays, whether or not it is signed and whatever the password is.
  pub read_answer-err :
      (strays ds : List Bytes) (d : Bytes) (ending : ClientError) (e : AnswerError)
      → All Stray strays
      → parse_answer (take 2048 d) n nums ≡ err e
      → e ≢ mismatch
      → read_answer md5 n nums passwd (strays ++ (d ∷ ds)) ending ≡ err (answer_error e)
  read_answer-err strays ds d ending e s h ne =
      skip-All-Stray strays (d ∷ ds) ending s ∙ take_error d ds ending e h ne
