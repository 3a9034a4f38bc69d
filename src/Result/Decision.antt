-- ===== src/Result/Decision.antt =====
-- The verdict against a description of it by the body counts in the answer.
use gdcc.Base.{
  ℕ, ◌≤◌, ◌<◌, ◌≡◌, refl, ◌⊎◌, inl, inr, Bool, true, false, List, [], ◌∷◌, none, some, ltb, leb,
  if◌then◌else◌, All, arith, Bool-cases, ltb→lt, leb→le, All-imp,
}
use gdcc.Result.{
  CkCount, Verdict, is_white, is_body_type, body_count_loop, body_count, whitelisted, unknown,
  accept, reject, verdict_threshold,
}

-- Some count of the answer satisfies `P`.
abbrev pub Some : (CkCount → Type 0) → List CkCount → Type 0
Some P [] = ⊥
Some P (c ∷ cs) = P c ⊎ Some P cs

abbrev pub IsBody : CkCount → Type 0
IsBody c = is_body_type c.type ≡ true

abbrev pub IsBodyWhite : CkCount → Type 0
IsBodyWhite c = IsBody c × (is_white c ≡ true)

-- `n` is the largest current count of a body checksum.
abbrev pub IsBodyMax : List CkCount → ℕ → Type 0
IsBodyMax cs n = Some (λ c. IsBody c × (c.cur ≡ n)) cs × All (λ c. IsBody c → c.cur ≤ n) cs

whitelisted-Some : (cs : List CkCount) → whitelisted cs ≡ true → Some IsBodyWhite cs
unfolding whitelisted
whitelisted-Some [] h = cc
whitelisted-Some (c ∷ cs) h = ground (arith, whitelisted-Some cs)

Some-whitelisted : (cs : List CkCount) → Some IsBodyWhite cs → whitelisted cs ≡ true
unfolding whitelisted
Some-whitelisted [] h = absurd h
Some-whitelisted (c ∷ cs) (inl h) = ground arith
Some-whitelisted (c ∷ cs) (inr h) = ground (arith, Some-whitelisted cs h)

-- What the loop of `BodyCount` has found, from the values `max` and `have` on.
record Counted (max : ℕ) (have : Bool) (cs : List CkCount) (r : ℕ × Bool) : Type 0 where
  grows : max ≤ r.0
  bounds : All (λ c. IsBody c → c.cur ≤ r.0) cs
  found : r.1 ≡ true → ((have ≡ true) × (r.0 ≡ max)) ⊎ Some (λ c. IsBody c × (c.cur ≡ r.0)) cs
  absent : r.1 ≡ false → (have ≡ false) × All (λ c. ¬ IsBody c) cs

abbrev larger : ℕ → ℕ → ℕ
larger m n = if ltb m n then n else m

larger_lem : (m n : ℕ) → (m ≤ larger m n) × (n ≤ larger m n) × ((larger m n ≡ m) ⊎ (larger m n ≡ n))
larger_lem m n = elim (Bool-cases (ltb m n)) [
  | inl h ↦ rw h (omega (arith, ltb→lt m n h), omega arith, inr refl)
  | inr h ↦ rw h (omega arith, ground arith, inl refl)
]

-- A body count meets the loop.
found_here :
    (c : CkCount) (cs : List CkCount) (max m : ℕ) (have : Bool)
    → IsBody c
    → (have ≡ false → max ≡ 0)
    → m ≡ larger max c.cur
    → ((have ≡ true) × (m ≡ max)) ⊎ Some (λ c. IsBody c × (c.cur ≡ m)) (c ∷ cs)
found_here c cs max m have b h e = elim (larger_lem max c.cur).2 [
  | inr new ↦ inr (inl (b, omega arith))
  | inl old ↦ elim (Bool-cases have) [
    | inl t ↦ inl (t, omega arith)
    | inr f ↦ inr (inl (b, omega (arith, h f, larger_lem max c.cur)))
  ]
]

body_count_loop-Counted :
    (cs : List CkCount) (max : ℕ) (have : Bool)
    → (have ≡ false → max ≡ 0)
    → Counted max have cs (body_count_loop max have cs)
unfolding body_count_loop
body_count_loop-Counted [] max have h = record {
  grows = omega arith;
  bounds = tt;
  found = λ e. inl (e, refl);
  absent = λ e. (e, tt);
}
body_count_loop-Counted (c ∷ cs) max have h = elim (Bool-cases (is_body_type c.type)) [
  | inr other ↦ rw other (
      let v = body_count_loop-Counted cs max have h in
      record {
        grows = v.grows;
        bounds = ((λ b. cc), v.bounds);
        found = λ e. elim (v.found e) [ inl p ↦ inl p | inr s ↦ inr (inr s) ];
        absent = λ e. ((v.absent e).0, ((λ b. cc), (v.absent e).1));
      })
  | inl body ↦ rw body (
      let top = larger max c.cur in
      let v = body_count_loop-Counted cs top true (λ e. cc) in
      record {
        grows = omega (arith, v.grows, larger_lem max c.cur);
        bounds = ((λ b. omega (arith, v.grows, larger_lem max c.cur)), v.bounds);
        found = λ e. elim (v.found e) [
          | inl (_, q) ↦ found_here c cs max _ have body h q
          | inr s ↦ inr (inr s)
        ];
        absent = λ e. cc ((v.absent e).0);
      })
]

-- The largest body count, or none.
body_count_lem :
    (cs : List CkCount)
    → (((body_count cs).1 ≡ true) × IsBodyMax cs (body_count cs).0)
      ⊎ (((body_count cs).1 ≡ false) × All (λ c. ¬ IsBody c) cs)
unfolding body_count
body_count_lem cs =
    let v = body_count_loop-Counted cs 0 false (λ _. refl) in
    elim (Bool-cases (body_count cs).1) [
      | inl t ↦ elim (v.found t) [ inl (f, _) ↦ absurd (cc f) | inr s ↦ inl (t, (s, v.bounds)) ]
      | inr f ↦ inr (f, (v.absent f).1)
    ]

-- The rule that the verdict applies.
pub data Decides (cs : List CkCount) (threshold : ℕ) : Verdict → Type 0 where
  accepts : Some IsBodyWhite cs → Decides cs threshold (record { action = accept; bulk = none })
  rejects :
      (n : ℕ)
      → ¬ Some IsBodyWhite cs
      → IsBodyMax cs n
      → threshold ≤ n
      → Decides cs threshold (record { action = reject; bulk = some n })
  abstains :
      ¬ Some IsBodyWhite cs
      → All (λ c. IsBody c → c.cur < threshold) cs
      → Decides cs threshold (record { action = unknown; bulk = none })

-- The verdict on every answer and threshold is the rule's: a certified body checksum accepts;
-- else the largest body count rejects, and is the bulk count, where it reaches the threshold;
-- else there is no opinion, and every body count is below the threshold.
pub verdict_threshold-Decides :
    (cs : List CkCount) (threshold : ℕ) → Decides cs threshold (verdict_threshold cs threshold)
unfolding verdict_threshold
verdict_threshold-Decides cs threshold = elim (Bool-cases (whitelisted cs)) [
  | inl w ↦ rw w (accepts (whitelisted-Some cs w))
  | inr w ↦
      let plain : ¬ Some IsBodyWhite cs = λ s. cc (Some-whitelisted cs s) in
      elim (body_count_lem cs) [
        | inr (f, none_body) ↦
            rw (w, f)
              (abstains plain (
                All-imp (λ c. ¬ IsBody c) (λ c. IsBody c → c.cur < threshold) cs
                  (λ c n b. absurd (n b)) none_body))
        | inl (t, top) ↦ elim (Bool-cases (leb threshold (body_count cs).0)) [
          | inl le ↦ rw (w, t, le) (rejects _ plain top (leb→le _ _ le))
          | inr lt ↦
              rw (w, t, lt)
                (abstains plain (
                  All-imp (λ c. IsBody c → c.cur ≤ (body_count cs).0)
                    (λ c. IsBody c → c.cur < threshold) cs (λ c n b. ground (arith, n b)) top.1))
        ]
      ]
]
