-- ===== src/Mime/Headers/Boundary.antt =====
-- The boundary that a "Content-Type: multipart" header names.
use gdcc.Base.{
  and_false, ℕ, ◌+◌, ◌<◌, ◌≡◌, refl, sym, ap, subst, ◌∙◌, Bool, true, false, not, List, [], ◌∷◌,
  ◌++◌, Bytes, codes, ◌==◌, if◌then◌else◌, length, take, arith, All, append_assoc,
}
use gdcc.Cref.Steps.{length-set_at}
use gdcc.Header.{to_lower, is_white}
use gdcc.Cref.{set_at}
use gdcc.Mime.Context.{
  Mime, Bnd, mhdr_idle, mhdr_ce_ct, mhdr_ct, mhdr_ct_ws, mhdr_text, mhdr_multipart,
  mhdr_bnd_skip_param, mhdr_bnd_span_ws, mhdr_bnd, mhdr_bnd_value, bnd_at, mp_preamble,
}
use gdcc.Mime.Headers.{
  to_st, match_case, same, ct_ws_case, skip_case, begin_bnd, put_bnd, hdr_round, hdr_run,
  parse_mime_hdr, ck_mime_hdr, enter_body, is_mhdr_idle,
}
use gdcc.Mime.Headers.Room.{Sound, IsBnd}
use gdcc.Mime.Headers.Run.{lower, mh_match-lower, hdr_run-round}
use gdcc.Mime.Headers.Fields.{
  IsBlank, lower-split, lower-head, hdr_run-match, hdr_run-content, hdr_run-blank, ct_letter,
}
use gdcc.Mime.Headers.Value.{
  skip_param-named, Spells, write_at, take-write_at, reading, named, value-Reads, finish,
  finish-named,
}

-- A parameter without white space, up to its ';'.
abbrev pub IsParam : Bytes → Type 0
IsParam p = All (λ c. (is_white c ≡ false) × ((c == b';') ≡ false)) p

param_run :
    (i : Bool) (c : Mime) (p rest : Bytes)
    → IsParam p
    → hdr_run i (record c { mhdr_st = mhdr_bnd_skip_param }) (p ++ (b';' ∷ rest))
      ≡ hdr_run i (record c { mhdr_st = mhdr_bnd_span_ws }) rest
unfolding hdr_round skip_case
param_run i c [] rest h =
    let c0 = record c { mhdr_st = mhdr_bnd_skip_param } in
    hdr_run-round i c0 (record c { mhdr_st = mhdr_bnd_span_ws }) b';' rest rest
      (ap (skip_case mhdr_bnd_span_ws c0) (skip_param-named [] rest tt))
param_run i c (x ∷ p) rest h =
    let c0 = record c { mhdr_st = mhdr_bnd_skip_param } in
    hdr_run-round i c0 (record c { mhdr_st = mhdr_bnd_span_ws }) x (p ++ b';' ∷ rest) rest
      (ap (skip_case mhdr_bnd_span_ws c0) (skip_param-named (x ∷ p) rest h))

b_letter : (x : ℕ) → to_lower x ≡ b'b' → is_white x ≡ false
unfolding to_lower is_white
b_letter x h = ground arith

-- The parameter "boundary=", in any case.
boundary_run :
    (c : Mime) (ws name rest : Bytes)
    → IsBlank ws
    → lower name ≡ lower (codes "boundary=")
    → hdr_run true (record c { mhdr_st = mhdr_bnd_span_ws; mhdr_pos = 0 }) (ws ++ (name ++ rest))
      ≡ hdr_run true (begin_bnd true (record c { mhdr_st = mhdr_bnd_value; mhdr_pos = 0 })) rest
unfolding hdr_round to_lower skip_case
boundary_run c ws [] rest h e = absurd (cc)
boundary_run c ws (x ∷ name) rest h e =
    let c1 = record c { mhdr_st = mhdr_bnd_span_ws; mhdr_pos = 0 } in
    let c2 = record c { mhdr_st = mhdr_bnd; mhdr_pos = 0 } in
    hdr_run-blank true c1 c2 (λ r. skip_case mhdr_bnd c1 r) ws x (name ++ rest) (λ bp. refl) h
      (b_letter x (cc)) refl
    ∙ hdr_run-match true c2 (begin_bnd true) mhdr_bnd_value mhdr_bnd_skip_param (codes "boundary=")
        (x ∷ name) rest refl (sym e) (omega arith) (λ bp. refl)

m_letter :
    (c : Mime) (x : ℕ) (rest : Bytes)
    → to_lower x ≡ b'm'
    → (is_white x ≡ false)
      × (ct_ws_case true c (x ∷ rest) ≡ (record c { mhdr_st = mhdr_multipart }, x ∷ rest, false))
unfolding to_lower is_white ct_ws_case
m_letter c x rest h = ground arith

-- "multipart", in any case, behind white space.
multipart_run :
    (c : Mime) (ws name rest : Bytes)
    → IsBlank ws
    → lower name ≡ lower (codes "multipart")
    → hdr_run true (record c { mhdr_st = mhdr_ct_ws; mhdr_pos = 0 }) (ws ++ (name ++ rest))
      ≡ hdr_run true (record c { mhdr_st = mhdr_bnd_skip_param; mhdr_pos = 0 }) rest
unfolding hdr_round to_lower match_case
multipart_run c ws [] rest h e = absurd (cc)
multipart_run c ws (x ∷ name) rest h e =
    let c1 = record c { mhdr_st = mhdr_ct_ws; mhdr_pos = 0 } in
    let c2 = record c { mhdr_st = mhdr_multipart; mhdr_pos = 0 } in
    let (w, k) = m_letter c1 x (name ++ rest) (cc) in
    hdr_run-blank true c1 c2 (λ r. ct_ws_case true c1 r.0) ws x (name ++ rest) (λ bp. refl) h w k
    ∙ hdr_run-round true c2 (record c { mhdr_st = mhdr_bnd_skip_param; mhdr_pos = 0 }) x
        (name ++ rest) rest
        (ap (match_case same) (
          mh_match-lower mhdr_bnd_skip_param mhdr_idle (codes "multipart") (to_st mhdr_text c2)
            (x ∷ name) rest refl (sym e)))

-- "Content-Type:", in any case.
type_run :
    (c : Mime) (name rest : Bytes)
    → lower name ≡ lower (codes "Content-Type:")
    → hdr_run true (record c { mhdr_st = mhdr_ce_ct; mhdr_pos = 0 }) (name ++ rest)
      ≡ hdr_run true (record c { mhdr_st = mhdr_ct_ws; mhdr_pos = 0 }) rest
unfolding hdr_round to_lower
type_run c name rest e =
    let (n1, n2, split, e1, e2) =
      lower-split name (lower (codes "Content-T")) (lower (codes "ype:")) e in
    let (ch, t, cons, letter) = lower-head n2 b'y' (lower (codes "pe:")) e2 in
    let c0 = record c { mhdr_st = mhdr_ct_ws; mhdr_pos = 0 } in
    let c1 = record c { mhdr_st = mhdr_ct; mhdr_pos = 0 } in
    let first : hdr_run true (record c { mhdr_st = mhdr_ce_ct; mhdr_pos = 0 }) (n1 ++ (n2 ++ rest))
        ≡ hdr_run true c1 (n2 ++ rest) =
      rw cons (
        hdr_run-content true c mhdr_ct n1 ch (t ++ rest) (sym e1)
          (ct_letter c0 ch (t ++ rest) letter)) in
    ap (λ (b : Bytes). hdr_run true (record c { mhdr_st = mhdr_ce_ct; mhdr_pos = 0 }) b)
      (ap (λ (b : Bytes). b ++ rest) split ∙ append_assoc n1 n2 rest)
    ∙ first
    ∙ hdr_run-match true c1 same mhdr_ct_ws mhdr_idle (codes "ype:") n2 rest refl (sym e2)
        (omega arith) (λ bp. refl)

parse_in_hdrs : (c : Mime) (bp : Bytes) → parse_mime_hdr true c bp ≡ (hdr_run true c bp, false)
unfolding parse_mime_hdr
parse_in_hdrs c bp = rw (and_false c.bol) refl

enter_body-if :
    (b : Bool) (x y : Mime)
    → (if b then enter_body x else enter_body y) ≡ enter_body (if b then x else y)
enter_body-if true x y = refl
enter_body-if false x y = refl

-- `ckMimeHdr` is the loop on a header and on the newline that ends it.
pub ck_mime_hdr-finish :
    (c : Mime) (hdr : Bytes)
    → ck_mime_hdr c hdr
      ≡ enter_body (finish (hdr_run true (record c { mhdr_st = mhdr_ce_ct; mhdr_pos = 0 }) hdr))
unfolding ck_mime_hdr
ck_mime_hdr-finish c hdr =
    let c0 = record c { mhdr_st = mhdr_ce_ct; mhdr_pos = 0 } in
    let d = hdr_run true c0 hdr in
    let busy : Mime → Bool = λ d. not (is_mhdr_idle d.mhdr_st) in
    let nl = b'\n' ∷ [] in
    ap
      (λ (r : Mime × Bool).
        if busy r.0 then enter_body (parse_mime_hdr true r.0 nl).0 else enter_body r.0)
      (parse_in_hdrs c0 hdr)
    ∙ ap (λ (r : Mime × Bool). if busy d then enter_body r.0 else enter_body d) (parse_in_hdrs d nl)
    ∙ enter_body-if (busy d) (hdr_run true d nl) d

-- A context with the boundary "--" followed by `t` in its only container.
pub record IsMultipart (t : Bytes) (c : Mime) : Type 0 where
  pub nest : c.mime_nest ≡ 1
  pub matches : c.mime_bnd_matches ≡ 1
  pub preamble : c.mp_st ≡ mp_preamble
  pub bnd_len : (bnd_at c.mime_bnd 0).bnd_len ≡ 2 + length t
  pub cmp_len : (bnd_at c.mime_bnd 0).cmp_len ≡ 0
  pub bnd : take (2 + length t) (bnd_at c.mime_bnd 0).bnd ≡ codes "--" ++ t

dashes : (s : Bytes) → length s ≡ 96 → take 2 (set_at (set_at s 0 b'-') 1 b'-') ≡ codes "--"
unfolding set_at
dashes [] h = absurd (omega arith)
dashes (x ∷ []) h = absurd (omega arith)
dashes (x ∷ y ∷ s) h = refl

named-IsMultipart :
    (c : Mime) (bs : List Bnd) (s t : Bytes) (q : Bool)
    → length s ≡ 96
    → 2 + length t < 94
    → IsMultipart t (
        enter_body (
          named
            (record c { mime_bnd_matches = 1 })
            bs
            (write_at (set_at (set_at s 0 b'-') 1 b'-') 2 t)
            (2 + length t)
            q))
unfolding enter_body
named-IsMultipart c bs s t q h room =
    let two = set_at (set_at s 0 b'-') 1 b'-' in
    let len : length two ≡ 96 =
      length-set_at (set_at s 0 b'-') 1 b'-' ∙ length-set_at s 0 b'-' ∙ h in
    record {
      nest = refl;
      matches = refl;
      preamble = refl;
      bnd_len = refl;
      cmp_len = refl;
      bnd = take-write_at two 2 t (omega (arith, len)) ∙ ap (λ (x : Bytes). x ++ t) (dashes s h);
    }

-- A header of a message "Content-Type:", white space, "multipart", a parameter up to its ';', white
-- space and "boundary=", all in any case, with any spelling of a boundary of fewer than 92 bytes
-- behind, leaves one container whose boundary is "--" and these bytes, and the body in the preamble.
pub ck_mime_hdr-boundary :
    (c : Mime) (name ws mp p ws' par e t : Bytes)
    → Sound true c
    → lower name ≡ lower (codes "Content-Type:")
    → IsBlank ws
    → lower mp ≡ lower (codes "multipart")
    → IsParam p
    → IsBlank ws'
    → lower par ≡ lower (codes "boundary=")
    → Spells false e t
    → 2 + length t < 94
    → IsMultipart t (ck_mime_hdr c (name ++ (ws ++ (mp ++ (p ++ (b';' ∷ (ws' ++ (par ++ e))))))))
ck_mime_hdr-boundary c name ws mp p ws' par e t s hn hw hm hp hw' hb spelt room =
    read c.mime_bnd s.three s.bnds
  where
    read :
        (bnds : List Bnd)
        → length bnds ≡ 3
        → All IsBnd bnds
        → IsMultipart t (
            ck_mime_hdr
              (record c { mime_bnd = bnds })
              (name ++ (ws ++ (mp ++ (p ++ (b';' ∷ (ws' ++ (par ++ e))))))))
    read [] h all = absurd (omega arith)
    read (b ∷ bs) h all =
        unfold begin_bnd put_bnd in
        let c0 = record c { mime_bnd = b ∷ bs } in
        let s2 = set_at (set_at b.bnd 0 b'-') 1 b'-' in
        let c1 = record c0 { mime_bnd_matches = 1 } in
        let m = reading c1 bs (record b { bnd = s2 }) 2 false in
        let (q, last) =
          finish-named c1 bs m e (write_at s2 2 t) (2 + length t) refl
            (value-Reads c1 bs (record b { bnd = s2 }) 2 false spelt room) in
        let run =
          type_run c0 name (ws ++ (mp ++ (p ++ (b';' ∷ (ws' ++ (par ++ e)))))) hn
          ∙ multipart_run c0 ws mp (p ++ (b';' ∷ (ws' ++ (par ++ e)))) hw hm
          ∙ param_run true (record c0 { mhdr_pos = 0 }) p (ws' ++ (par ++ e)) hp
          ∙ boundary_run c0 ws' par e hw' hb in
        subst (IsMultipart t) (sym (ck_mime_hdr-finish c0 _ ∙ ap enter_body (ap finish run ∙ last)))
          (named-IsMultipart c0 bs b.bnd t q all.0.0 room)
