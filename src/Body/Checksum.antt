-- ===== src/Body/Checksum.antt =====
-- The body checksum of a whole body, however it is cut into chunks.
use gdcc.Base.{
  concat, ℕ, zero, suc, ◌≤◌, ◌≡◌, refl, sym, ap, ◌∙◌, true, List, [], ◌∷◌, ◌++◌, Bytes, leb, length,
  arith, append-nil, take, ◌-◌,
}
use gdcc.Hash.{Digest, sum_of}
use gdcc.Body.{BodyState, body_step, body0, final, new_body_state, from_tail}
use gdcc.Body.Spec.{
  accepted, held, emitted, flushed-emitted, IsBodyState, body0_run, body0-append, run_chunks,
  run_chunks-concat,
}

-- The bytes `h` that the checksum of a body is taken of.
abbrev pub Summed : Digest → BodyState → Bytes → Type 0
Summed md5 b h = final md5 b ≡ (sum_of md5 h, leb 30 (length h))

final-emitted : (md5 : Digest) (b : BodyState) → IsBodyState b → Summed md5 b (emitted b)
unfolding final
final-emitted md5 b (h, t) = rw (flushed-emitted b) (rw t refl)

-- For every body, cut into chunks in any way, `final` returns the MD5 checksum of the bytes `h`,
-- and whether there are at least 30 of them, where `h` is the body without the '>' of each line
-- that begins with ">From" and without blanks, line ends and '=', up to the part of a last ">From"
-- that is still held back.
pub final-run_chunks :
    (md5 : Digest) (ps : List Bytes)
    → (h : Bytes) × (h ++ held (run_chunks new_body_state ps) ≡ accepted true (concat ps))
      × Summed md5 (run_chunks new_body_state ps) h
final-run_chunks md5 ps =
    let (v, e) = body0_run (concat ps) new_body_state (omega arith) in
    rw (run_chunks-concat ps new_body_state)
      (emitted (body0 new_body_state (concat ps)), e, final-emitted md5 _ v)

-- A newline ends a partial match.
newline_flen : (f : ℕ) (b : BodyState) → f ≤ 5 → (body_step (record b { flen = f }) b'\n').flen ≡ 1
unfolding body_step
newline_flen zero b h = refl
newline_flen (suc zero) b h = refl
newline_flen (suc (suc zero)) b h = refl
newline_flen (suc (suc (suc zero))) b h = refl
newline_flen (suc (suc (suc (suc zero)))) b h = refl
newline_flen (suc (suc (suc (suc (suc zero))))) b h = refl
newline_flen (suc (suc (suc (suc (suc (suc f)))))) b h = absurd (omega arith)

newline_held : (body : Bytes) → (body0 new_body_state (body ++ (b'\n' ∷ []))).flen ≡ 1
newline_held body =
    let (v, _) = body0_run body new_body_state (omega arith) in
    let b = body0 new_body_state body in
    rw (body0-append body (b'\n' ∷ []) new_body_state) (unfold body0 in newline_flen b.flen b v.0)

-- A body whose last byte is a newline is checksummed whole: in any chunks, the checksum is that of
-- all its accepted bytes, and it is valid where there are at least 30 of them.
pub final-line_end :
    (md5 : Digest) (ps : List Bytes) (body : Bytes)
    → concat ps ≡ body ++ (b'\n' ∷ [])
    → Summed md5 (run_chunks new_body_state ps) (accepted true (concat ps))
final-line_end md5 ps body e =
    let (h, split, s) = final-run_chunks md5 ps in
    let one : (run_chunks new_body_state ps).flen ≡ 1 =
      rw (run_chunks-concat ps new_body_state, e) (newline_held body) in
    let whole : h ≡ accepted true (concat ps) =
      sym (append-nil h) ∙ ap (λ (f : ℕ). h ++ take (f - 1) from_tail) (sym one) ∙ split in
    rw whole at s
