-- ===== src/Body/Spec.antt =====
-- What the body checksum is a checksum of, independently of chunks and of the partial match.
use gdcc.Base.{
  concat, ℕ, zero, suc, ◌+◌, ◌-◌, ◌≤◌, ◌≡◌, refl, sym, ap, ◌∙◌, Bool, false, not, ◌&&◌, ◌||◌, List,
  [], ◌∷◌, ◌++◌, Bytes, codes, ◌==◌, if◌then◌else◌, length, take, arith, keep, append_assoc,
  append-nil, length-append,
}
use gdcc.Body.{BodyState, from_tail, emit, body_step, body0, flushed}

-- The test on the next bytes.
abbrev pub starts_from : Bytes → Bool
starts_from (f ∷ r ∷ o ∷ m ∷ cs) = f == b'F' && (r == b'r' && (o == b'o' && m == b'm'))
starts_from _ = false

-- Without the '>' of each line that begins with ">From". The flag says that a line begins here.
unfoldable pub unquote : Bool → Bytes → Bytes
unquote bol [] = []
unquote bol (c ∷ cs) =
    if bol && (c == b'>' && starts_from cs)
    then unquote (c == b'\n') cs
    else c ∷ unquote (c == b'\n') cs

abbrev pub is_summed : ℕ → Bool
is_summed c = not (c == b' ' || c == b'\t' || c == b'\r' || c == b'\n' || c == b'=')

-- The bytes that count in a body.
abbrev pub accepted : Bool → Bytes → Bytes
accepted bol cs = keep is_summed (unquote bol cs)

-- What the partial match has consumed, and what of it is still to be emitted.
abbrev pub held : BodyState → Bytes
held b = take (b.flen - 1) from_tail

-- All bytes emitted so far, hashed or still in the buffer.
abbrev pub emitted : BodyState → Bytes
emitted b = b.md5 ++ b.buf

abbrev pub IsBodyState : BodyState → Type 0
IsBodyState b = (b.flen ≤ 5) × (b.total ≡ length (emitted b))

pub flushed-emitted : (b : BodyState) → flushed b ≡ emitted b
flushed-emitted b = go b.buf
  where
    go : (buf : Bytes) → (if not (length buf == 0) then b.md5 ++ buf else b.md5) ≡ b.md5 ++ buf
    go [] = sym (append-nil b.md5)
    go (x ∷ xs) = ground arith

emitted-emit : (b : BodyState) (p : Bytes) → emitted (emit b p) ≡ emitted b ++ p
unfolding emit
emitted-emit b p = ground (arith, append_assoc b.md5 b.buf p, append-nil (b.md5 ++ (b.buf ++ p)))

emit_counts : (b : BodyState) (p : Bytes) → (emit b p).total ≡ b.total + length p
unfolding emit
emit_counts b p = ground arith

-- What the rest of the body adds, read from a state with a partial match of `f` bytes.
abbrev rest_of : ℕ → Bytes → Bytes
rest_of f cs = accepted (not (f == 0)) (take (f - 1) from_tail ++ cs)

abbrev Advances : BodyState → ℕ → Bytes → BodyState → Type 0
Advances b c cs b' =
    (b'.flen ≤ 5)
    × (b'.total + length (emitted b) ≡ b.total + length (emitted b'))
    × (emitted b' ++ rest_of b'.flen cs ≡ emitted b ++ rest_of b.flen (c ∷ cs))

abbrev with_flen : BodyState → ℕ → BodyState
with_flen b f = record b { flen = f }

-- The emission of the bytes `p` in front of what the rest of the body adds.
emit_front :
    (b : BodyState) (p rest : Bytes)
    → (emitted (emit b p) ++ rest ≡ emitted b ++ (p ++ rest))
      × (length (emitted (emit b p)) ≡ length (emitted b) + length p)
      × ((emit b p).total ≡ b.total + length p)
      × ((emit b p).flen ≡ b.flen)
emit_front b p rest = (
  ap (λ e. e ++ rest) (emitted-emit b p) ∙ append_assoc (emitted b) p rest,
  ap length (emitted-emit b p) ∙ length-append (emitted b) p,
  emit_counts b p,
  unfold emit in ground arith,
)

-- One byte against a partial match of `f` bytes.
step-Advances :
    (f : ℕ) (b : BodyState) (c : ℕ) (cs : Bytes)
    → f ≤ 5
    → Advances (with_flen b f) c cs (body_step (with_flen b f) c)
unfolding body_step unquote
step-Advances zero b c cs h =
    ground (arith, emit_front (with_flen b 0) (c ∷ []) (accepted false cs))
step-Advances (suc zero) b c cs h =
    ground (arith, emit_front (with_flen b 0) (c ∷ []) (accepted false cs))
step-Advances (suc (suc zero)) b c cs h = ground (
  arith,
  emit_front (with_flen b 2) (codes ">") (accepted false (c ∷ cs)),
  emit_front (with_flen (emit (with_flen b 2) (codes ">")) 0) (c ∷ []) (accepted false cs),
)
step-Advances (suc (suc (suc zero))) b c cs h = ground (
  arith,
  emit_front (with_flen b 3) (codes ">F") (accepted false (c ∷ cs)),
  emit_front (with_flen (emit (with_flen b 3) (codes ">F")) 0) (c ∷ []) (accepted false cs),
)
step-Advances (suc (suc (suc (suc zero)))) b c cs h = ground (
  arith,
  emit_front (with_flen b 4) (codes ">Fr") (accepted false (c ∷ cs)),
  emit_front (with_flen (emit (with_flen b 4) (codes ">Fr")) 0) (c ∷ []) (accepted false cs),
)
step-Advances (suc (suc (suc (suc (suc zero))))) b c cs h = ground (
  arith,
  emit_front (with_flen b 5) (codes "From") (accepted false cs),
  emit_front (with_flen b 5) (codes ">Fro") (accepted false (c ∷ cs)),
  emit_front (with_flen (emit (with_flen b 5) (codes ">Fro")) 0) (c ∷ []) (accepted false cs),
)
step-Advances (suc (suc (suc (suc (suc (suc f)))))) b c cs h = absurd (omega arith)

rest_of-nil : (f : ℕ) → f ≤ 5 → rest_of f [] ≡ take (f - 1) from_tail
unfolding unquote
rest_of-nil zero h = refl
rest_of-nil (suc zero) h = refl
rest_of-nil (suc (suc zero)) h = refl
rest_of-nil (suc (suc (suc zero))) h = refl
rest_of-nil (suc (suc (suc (suc zero)))) h = refl
rest_of-nil (suc (suc (suc (suc (suc zero))))) h = refl
rest_of-nil (suc (suc (suc (suc (suc (suc f)))))) h = absurd (omega arith)

-- A whole run of `body0`.
pub body0_run :
    (cs : Bytes) (b : BodyState)
    → IsBodyState b
    → IsBodyState (body0 b cs)
      × (emitted (body0 b cs) ++ held (body0 b cs) ≡ emitted b ++ rest_of b.flen cs)
unfolding body0
body0_run [] b (h, t) = ((h, t), ap (λ r. emitted b ++ r) (sym (rest_of-nil b.flen h)))
body0_run (c ∷ cs) b (h, t) =
    let (h', t', e) = step-Advances b.flen b c cs h in
    let (ok, r) = body0_run cs (body_step b c) (h', omega arith) in (ok, r ∙ e)

pub body0-append : (xs ys : Bytes) (b : BodyState) → body0 b (xs ++ ys) ≡ body0 (body0 b xs) ys
unfolding body0
body0-append [] ys b = refl
body0-append (x ∷ xs) ys b = body0-append xs ys (body_step b x)

-- All chunks of a body, in order, as `decodeSum` hands them over.
abbrev pub run_chunks : BodyState → List Bytes → BodyState
run_chunks b [] = b
run_chunks b (p ∷ ps) = run_chunks (body0 b p) ps

pub run_chunks-concat : (ps : List Bytes) (b : BodyState) → run_chunks b ps ≡ body0 b (concat ps)
run_chunks-concat [] b = unfold body0 in refl
run_chunks-concat (p ∷ ps) b = run_chunks-concat ps (body0 b p) ∙ sym (body0-append p (concat ps) b)
