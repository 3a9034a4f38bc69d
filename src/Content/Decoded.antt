-- ===== src/Content/Decoded.antt =====
-- The checksums of an encoded text are those of the text.
use gdcc.Base.{
  suc, ◌+◌, ◌≡◌, refl, sym, ap, subst, not, if◌then◌else◌, ◌∙◌, Bool, true, false, List, [], ◌∷◌,
  Bytes, ◌==◌, length, arith, concat, keep, All,
}
use gdcc.Base.Words.{IsByte}
use gdcc.Body.{BodyState, body0}
use gdcc.Body.Spec.{body0-append}
use gdcc.Fuz2.{Fuz2State, Tbl, fuz2, fuz2_loop}
use gdcc.Fuz2.Stream.{fuz2-append}
use gdcc.Fuz2.Context.{IsText, fuz2-mime_cset, fuz2-IsText}
use gdcc.Mime.Context.{ce_ascii, ce_qp, ce_b64, mp_text}
use gdcc.Mime.Quoted
use gdcc.Mime.Quoted.{QpState, qp_chunks, qp_fuel}
use gdcc.Mime.Quoted.RoundTrip.{Encodes, qp_chunks-Encodes}
use gdcc.Mime.Base64.{b64_chunks}
use gdcc.Mime.Base64.RoundTrip.{is_digit, encode, b64_chunks-encode}
use gdcc.Content.{
  FuzzySum, Cks, body_sum, fz1_sum, fz2_sum, fz2_of, sum_chunk, sum_chunks, decode_text, decode_sum,
  tbuf_len, is_text,
}

module _ (tbls : List Tbl) {F : Type 0} (ops : FuzzySum F) where
  -- The body checksum and the second fuzzy checksum in `d` are those in `c` with the text `t` summed.
  pub record Sums (c d : Cks F) (t : Bytes) : Type 0 where
    pub body : d.body ≡ body0 c.body t
    pub fz2 : fz2_of tbls ops d ≡ fuz2 tbls (fz2_of tbls ops c) t
    pub text : IsText d.mime.mime_ct

  fuz2-nil : (f : Fuz2State) → fuz2 tbls f [] ≡ f
  unfolding fuz2 fuz2_loop
  fuz2-nil f = refl

  sum_chunk-Sums :
      (c : Cks F) (p : Bytes) → IsText c.mime.mime_ct → Sums c (sum_chunk tbls ops c p) p
  unfolding sum_chunk body_sum fz1_sum fz2_sum body0
  sum_chunk-Sums c [] t = record { body = refl; fz2 = sym (fuz2-nil (fz2_of tbls ops c)); text = t }
  sum_chunk-Sums c (x ∷ p) t =
      let f = fuz2 tbls (fz2_of tbls ops c) (x ∷ p) in
      let full : (suc (length p) == 0) ≡ false = ground arith in
      let cset : f.mime_cset ≡ c.mime.mime_cset = fuz2-mime_cset tbls (fz2_of tbls ops c) (x ∷ p) in
      rw (full, t)
        (record {
          body = refl;
          fz2 = ap (λ s. record f { mime_cset = s }) (sym cset);
          text = fuz2-IsText tbls (fz2_of tbls ops c) (x ∷ p) t;
        })

  sum_chunks-Sums :
      (c : Cks F) (ps : List Bytes)
      → IsText c.mime.mime_ct
      → Sums c (sum_chunks tbls ops c ps) (concat ps)
  unfolding sum_chunks body0
  sum_chunks-Sums c [] t = record {
    body = refl;
    fz2 = sym (fuz2-nil (fz2_of tbls ops c));
    text = t;
  }
  sum_chunks-Sums c (p ∷ ps) t =
      let d = sum_chunk tbls ops c p in
      let one = sum_chunk-Sums c p t in
      let more = sum_chunks-Sums d ps one.text in
      record {
        body =
            more.body
            ∙ ap (λ (b : BodyState). body0 b (concat ps)) one.body
            ∙ sym (body0-append p (concat ps) c.body);
        fz2 =
            more.fz2
            ∙ ap (λ (f : Fuz2State). fuz2 tbls f (concat ps)) one.fz2
            ∙ fuz2-append tbls (fz2_of tbls ops c) p (concat ps);
        text = more.text;
      }

  -- A chunk list, summed in a context that has the decoder's last state.
  decode_text-Sums :
      (c m : Cks F) (ps : List Bytes) (t : Bytes)
      → m.body ≡ c.body
      → fz2_of tbls ops m ≡ fz2_of tbls ops c
      → IsText m.mime.mime_ct
      → concat ps ≡ t
      → Sums c (sum_chunks tbls ops m ps) t
  decode_text-Sums c m ps t b f text e =
      let s = sum_chunks-Sums m ps text in
      record {
        body =
            s.body
            ∙ ap (λ (x : BodyState). body0 x (concat ps)) b
            ∙ ap (λ (x : Bytes). body0 c.body x) e;
        fz2 =
            s.fz2
            ∙ ap (λ (x : Fuz2State). fuz2 tbls x (concat ps)) f
            ∙ ap (λ (x : Bytes). fuz2 tbls (fz2_of tbls ops c) x) e;
        text = s.text;
      }

  -- The context of an entity whose text `t` the bytes `e` encode: as they are, quoted-printable, or
  -- base64 text cut into lines and mixed with other bytes.
  pub data Encoded (c : Cks F) : Bytes → Bytes → Type 0 where
    plain : {t : Bytes} → c.mime.mime_ce ≡ ce_ascii → Encoded c t t
    quoted_printable :
        {e t : Bytes}
        → c.mime.mime_ce ≡ ce_qp
        → c.mime.qp.phase ≡ Quoted.idle
        → Encodes e t
        → Encoded c e t
    base64 :
        {e t : Bytes}
        → c.mime.mime_ce ≡ ce_b64
        → c.mime.b64.quantum_cnt ≡ 0
        → All IsByte t
        → keep is_digit e ≡ encode t
        → Encoded c e t

  Encoded-Sums :
      (c : Cks F) {e t : Bytes}
      → IsText c.mime.mime_ct
      → Encoded c e t
      → Sums c (decode_text tbls ops c.mime.mime_ce c e) t
  unfolding decode_text
  Encoded-Sums c {e} text (plain p) =
      subst (λ enc. Sums c (decode_text tbls ops enc c e) e) (sym p) (sum_chunk-Sums c e text)
  Encoded-Sums c {e} {t} text (quoted_printable p i r) =
      let q = qp_chunks (qp_fuel e) tbuf_len c.mime.qp e in
      let idle : c.mime.qp ≡ record c.mime.qp { phase = Quoted.idle } =
        ap (λ s. record c.mime.qp { phase = s }) i in
      let whole =
        ap (λ (s : QpState). concat (qp_chunks (qp_fuel e) tbuf_len s e).0) idle
        ∙ (qp_chunks-Encodes tbuf_len c.mime.qp (omega arith) r).0 in
      subst (λ enc. Sums c (decode_text tbls ops enc c e) t) (sym p)
        (decode_text-Sums c (record c { mime = record c.mime { qp = q.1 } }) q.0 t refl refl text
          whole)
  Encoded-Sums c {e} {t} text (base64 p z bytes d) =
      let b = b64_chunks (length e + 1) tbuf_len c.mime.b64 e in
      subst (λ enc. Sums c (decode_text tbls ops enc c e) t) (sym p)
        (decode_text-Sums c (record c { mime = record c.mime { b64 = b.1 } }) b.0 t refl refl text
          (b64_chunks-encode (length e + 1) tbuf_len c.mime.b64 e t (omega arith) (omega arith) z
            bytes d))

  -- For text that is encoded in any of the three ways, `decodeSum` leaves the body checksum and the
  -- second fuzzy checksum where summing the text itself leaves them.
  pub decode_sum-Sums :
      (c : Cks F) {e t : Bytes}
      → c.mime.mp_st ≡ mp_text
      → IsText c.mime.mime_ct
      → Encoded c e t
      → Sums c (decode_sum tbls ops c e) t
  unfolding decode_sum
  decode_sum-Sums c {e} {t} p text enc =
      let is_part : not (is_text c.mime.mp_st) ≡ false = ap (λ st. not (is_text st)) p in
      otherwise (not (is_text c.mime.mp_st)) _ _ is_part (Encoded-Sums c text enc)
    where
      otherwise : (b : Bool) (x y : Cks F) → b ≡ false → Sums c y t → Sums c (if b then x else y) t
      otherwise true x y h s = absurd (cc)
      otherwise false x y h s = s
