-- ===== src/Serve/Token.antt =====
-- cmd/gdcc/serve.go: the token that guards the endpoints.
use gdcc.Base.{
  ◌≡◌, ◌≢◌, refl, sym, ap, ap₂, ◌∙◌, ◌⊎◌, inl, inr, true, [], ◌∷◌, ◌++◌, Bytes, codes, ◌==◌, length,
  drop, bytes_eq, bytes_eq_iff, Bool-cases, if◌then◌else◌, arith, ==_refl, suc_eq_zero,
}
use gdcc.Message.{has_prefix}
use gdcc.Serve.{Metrics, Request, got_token, unauthorized, Handler, auth}

-- The header of gdcc names the token, or there is none and the credentials of a bearer do.
abbrev pub Carries : Bytes → Request → Type 0
Carries token r =
    (r.x_gdcc_token ≡ token)
    ⊎ ((r.x_gdcc_token ≡ []) × (r.authorization ≡ codes "Bearer " ++ token))

has_prefix-append : (p t : Bytes) → has_prefix (p ++ t) p ≡ true
unfolding has_prefix
has_prefix-append [] t = refl
has_prefix-append (c ∷ p) t = rw (==_refl c) (has_prefix-append p t)

has_prefix-drop : (b p : Bytes) → has_prefix b p ≡ true → b ≡ p ++ drop (length p) b
unfolding has_prefix
has_prefix-drop b [] h = refl
has_prefix-drop [] (p ∷ ps) h = absurd (cc)
has_prefix-drop (c ∷ cs) (p ∷ ps) h = ground (arith, has_prefix-drop cs ps)

length-zero : (b : Bytes) → (length b == 0) ≡ true → b ≡ []
length-zero [] h = refl
length-zero (c ∷ b) h = absurd (ground arith)

got_token-Carries :
    (token : Bytes) (r : Request) → token ≢ [] → got_token r ≡ token → Carries token r
unfolding got_token
got_token-Carries token r ne h = elim (Bool-cases (length r.x_gdcc_token == 0)) [
  | inr given ↦ inl (rw given at h)
  | inl absent ↦ elim (Bool-cases (has_prefix r.authorization (codes "Bearer "))) [
    | inl bearer ↦
        let e : drop 7 r.authorization ≡ token = rw (absent, bearer) at h in
        inr (
          length-zero r.x_gdcc_token absent,
          has_prefix-drop r.authorization (codes "Bearer ") bearer
              ∙ ap (λ t. codes "Bearer " ++ t) e,
        )
    | inr neither ↦ (let e : [] ≡ token = rw (absent, neither) at h in absurd (ne (sym e)))
  ]
]

Carries-got_token :
    (token : Bytes) (r : Request) → token ≢ [] → Carries token r → got_token r ≡ token
unfolding got_token
Carries-got_token token r ne (inl e) = elim (Bool-cases (length r.x_gdcc_token == 0)) [
  | inr given ↦ rw given e
  | inl absent ↦ absurd (ne (sym e ∙ length-zero r.x_gdcc_token absent))
]
Carries-got_token token r ne (inr (none_given, bearer)) =
    ap₂
      (λ x a.
        if length x == 0 then (if has_prefix a (codes "Bearer ") then drop 7 a else []) else x)
      none_given bearer
    ∙ ap (λ b. if b then token else []) (has_prefix-append (codes "Bearer ") token)

-- With a token, a request that carries it is handled as it is, and every other request is answered
-- that it is unauthorized, with the counters and the client as they were.
pub auth-Carries :
    {S : Type 0} (token : Bytes) (next : Handler S) (r : Request) (st : Metrics × S)
    → token ≢ []
    → (Carries token r → auth token next r st ≡ next r st)
      × (¬ Carries token r → auth token next r st ≡ (unauthorized, st))
unfolding auth
auth-Carries [] next r st ne = absurd (ne refl)
auth-Carries (c ∷ cs) next r st ne = (
  λ h.
      rw
        (
          suc_eq_zero (length cs),
          Carries-got_token (c ∷ cs) r ne h,
          (bytes_eq_iff (c ∷ cs) (c ∷ cs)).1 refl,
        )
        refl,
  λ h. elim (Bool-cases (bytes_eq (got_token r) (c ∷ cs))) [
    | inl same ↦ absurd (h (got_token-Carries (c ∷ cs) r ne ((bytes_eq_iff _ _).0 same)))
    | inr other ↦ rw (suc_eq_zero (length cs), other) refl
  ],
)
