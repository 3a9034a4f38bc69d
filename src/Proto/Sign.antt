-- ===== src/Proto/Sign.antt =====
-- Signing a packet and verifying an answer are inverse.
use gdcc.Base.{
  ℕ, ◌-◌, ◌≤◌, ◌≡◌, ◌≢◌, ◌↔◌, refl, sym, ap, ◌∙◌, true, false, [], ◌∷◌, ◌++◌, Bytes, ltb,
  if◌then◌else◌, length, take, drop, replicate, bytes_eq, bytes_eq_iff, arith, length-append,
  length-take, length-drop, length-replicate, take-append-drop, take-length_append,
  drop-length_append, suc_eq_zero,
}
use gdcc.Hash.{Digest, copy, length-copy, copy_whole}
use gdcc.Proto.{sig_len, sign_packet, verify_answer_sig}

-- The part of a packet that the signature covers, and the signature.
abbrev pub unsigned : Bytes → Bytes
unsigned buf = take (length buf - sig_len) buf

abbrev pub signature : Bytes → Bytes
signature buf = drop (length buf - sig_len) buf

-- The packet with another signature.
abbrev pub resign : Digest → Bytes → Bytes → Bytes
resign md5 buf [] = replicate (length (signature buf)) 0
resign md5 buf (p ∷ ps) = copy (signature buf) (md5 ((p ∷ ps) ++ unsigned buf))

pub sign_packet_lem :
    (md5 : Digest) (buf passwd : Bytes)
    → sign_packet md5 buf passwd ≡ unsigned buf ++ resign md5 buf passwd
unfolding sign_packet
sign_packet_lem md5 buf [] = refl
sign_packet_lem md5 buf (p ∷ ps) = rw (suc_eq_zero (length ps))

length-resign :
    (md5 : Digest) (buf passwd : Bytes) → length (resign md5 buf passwd) ≡ length (signature buf)
length-resign md5 buf [] = length-replicate _ 0
length-resign md5 buf (p ∷ ps) = length-copy (signature buf) _

length-unsigned : (buf : Bytes) → length (unsigned buf) ≡ length buf - sig_len
length-unsigned buf = omega (arith, length-take (length buf - sig_len) buf)

pub length-sign_packet :
    (md5 : Digest) (buf passwd : Bytes) → length (sign_packet md5 buf passwd) ≡ length buf
length-sign_packet md5 buf passwd =
    ap length (sign_packet_lem md5 buf passwd)
    ∙ omega (
      arith,
      length-append (unsigned buf) (resign md5 buf passwd),
      length-resign md5 buf passwd,
      length-unsigned buf,
      length-drop (length buf - sig_len) buf,
    )

-- Signing changes the signature alone.
pub unsigned-sign_packet :
    (md5 : Digest) (buf passwd : Bytes) → unsigned (sign_packet md5 buf passwd) ≡ unsigned buf
unsigned-sign_packet md5 buf passwd = rw (length-sign_packet md5 buf passwd) (
    ap (take (length buf - sig_len)) (sign_packet_lem md5 buf passwd)
    ∙ take-length_append (unsigned buf) (resign md5 buf passwd) _ (length-unsigned buf))

pub signature-sign_packet :
    (md5 : Digest) (buf passwd : Bytes)
    → signature (sign_packet md5 buf passwd) ≡ resign md5 buf passwd
signature-sign_packet md5 buf passwd = rw (length-sign_packet md5 buf passwd) (
    ap (drop (length buf - sig_len)) (sign_packet_lem md5 buf passwd)
    ∙ drop-length_append (unsigned buf) (resign md5 buf passwd) _ (length-unsigned buf))

verify_lem :
    (md5 : Digest) (buf : Bytes) (p : ℕ) (ps : Bytes)
    → verify_answer_sig md5 buf (p ∷ ps) ≡ (
        if ltb (length buf) sig_len
        then false
        else bytes_eq (md5 ((p ∷ ps) ++ unsigned buf)) (signature buf))
unfolding verify_answer_sig
verify_lem md5 buf p ps = rw (suc_eq_zero (length ps))

-- An MD5 digest is 16 bytes long.
module _ (md5 : Digest) (md5-length : (b : Bytes) → length (md5 b) ≡ 16) where
  resign_digest :
      (buf : Bytes) (p : ℕ) (ps : Bytes)
      → sig_len ≤ length buf
      → resign md5 buf (p ∷ ps) ≡ md5 ((p ∷ ps) ++ unsigned buf)
  resign_digest buf p ps h =
      copy_whole (signature buf) _ (
        omega
          (arith, md5-length ((p ∷ ps) ++ unsigned buf), length-drop (length buf - sig_len) buf))

  accepted_is_signed :
      (buf : Bytes) (p : ℕ) (ps : Bytes)
      → verify_answer_sig md5 buf (p ∷ ps) ≡ true
      → (sig_len ≤ length buf) × (sign_packet md5 buf (p ∷ ps) ≡ buf)
  accepted_is_signed buf p ps e =
      let digest = md5 ((p ∷ ps) ++ unsigned buf) in
      let (long, same) = tests digest (sym (verify_lem md5 buf p ps) ∙ e) in
      (
        long,
        sign_packet_lem md5 buf (p ∷ ps)
            ∙ ap (λ (s : Bytes). unsigned buf ++ s)
                (resign_digest buf p ps long ∙ (bytes_eq_iff digest (signature buf)).0 same)
            ∙ take-append-drop (length buf - sig_len) buf,
      )
    where
      tests :
          (digest : Bytes)
          → (if ltb (length buf) sig_len then false else bytes_eq digest (signature buf)) ≡ true
          → (sig_len ≤ length buf) × (bytes_eq digest (signature buf) ≡ true)
      tests digest h = ground arith

  signed_is_accepted :
      (buf : Bytes) (p : ℕ) (ps : Bytes)
      → sig_len ≤ length buf
      → sign_packet md5 buf (p ∷ ps) ≡ buf
      → verify_answer_sig md5 buf (p ∷ ps) ≡ true
  signed_is_accepted buf p ps long e =
      let digest = md5 ((p ∷ ps) ++ unsigned buf) in
      let same : digest ≡ signature buf =
        sym (resign_digest buf p ps long)
        ∙ sym (signature-sign_packet md5 buf (p ∷ ps))
        ∙ ap signature e in
      verify_lem md5 buf p ps ∙ tests digest ((bytes_eq_iff digest (signature buf)).1 same)
    where
      tests :
          (digest : Bytes)
          → bytes_eq digest (signature buf) ≡ true
          → (if ltb (length buf) sig_len then false else bytes_eq digest (signature buf)) ≡ true
      tests digest h = ground arith

  -- With a password that is not empty and a digest of 16 bytes, an answer verifies exactly when it
  -- is long enough for a signature and is what the client itself would sign with that password.
  pub verify_answer_sig_iff :
      (buf passwd : Bytes)
      → passwd ≢ []
      → (verify_answer_sig md5 buf passwd ≡ true)
        ↔ ((sig_len ≤ length buf) × (sign_packet md5 buf passwd ≡ buf))
  verify_answer_sig_iff buf [] ne = absurd (ne refl)
  verify_answer_sig_iff buf (p ∷ ps) ne =
      (accepted_is_signed buf p ps, λ (long, e). signed_is_accepted buf p ps long e)
