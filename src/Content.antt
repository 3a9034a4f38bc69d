-- ===== src/Content.antt =====
-- dcc/cks.go, and `decodeSum` and `ckBody` of dcc/mime.go: the checksum context and the decoders that
-- feed the checksums of a body.
pub mod Multipart
pub mod Decoded
pub mod First
pub mod Message
use gdcc.Base.{
  ℕ, zero, suc, ◌+◌, ◌-◌, Bool, true, false, not, Option, List, [], ◌∷◌, ◌++◌, Bytes, ◌==◌,
  if◌then◌else◌, length,
}
use gdcc.Hash.{Digest}
use gdcc.Body.{BodyState, body0, new_body_state}
use gdcc.Body
use gdcc.Fuz2.{Fuz2State, Lang, Tbl, is_binary, fuz2, new_fuz2_state}
use gdcc.Fuz2.Final.{Hosts}
use gdcc.Fuz2.Final
use gdcc.Mime.Context.{
  Mime, MpSt, mp_preamble, mp_bnd, mp_hdrs, mp_text, mp_epilogue, TransferEncoding, ce_ascii, ce_qp,
  ce_b64, new_mime,
}
use gdcc.Mime.Quoted.{qp_chunks, qp_fuel}
use gdcc.Mime.Base64.{b64_chunks}

-- The first fuzzy checksum, as the context uses it: what it does with a chunk, given the words that
-- the second one has counted, its result, and the host names that it has found.
pub record FuzzySum (F : Type 0) : Type 0 where
  pub fuz1 : ℕ → F → Bytes → F
  pub final : F → Bytes × Bool
  pub url : F → Option Hosts
  pub new : F
  pub panicked : F → Bool

-- `cks`
pub record Cks (F : Type 0) : Type 0 where
  pub mime : Mime
  pub body : BodyState
  pub fz1 : F
  pub fz2 : Fuz2State

-- The results of `computeBody`: the three checksums, each with whether it is valid, or a panic of the
-- first fuzzy checksum.
pub record Computed : Type 0 where
  pub body : Bytes × Bool
  pub f1 : Bytes × Bool
  pub f2 : Bytes × Bool
  pub panicked : Bool

abbrev first_total : List Lang → ℕ
first_total [] = 0
first_total (lp ∷ langs) = lp.wtotal

abbrev pub is_text : MpSt → Bool
is_text mp_preamble = false
is_text mp_bnd = false
is_text mp_hdrs = false
is_text mp_text = true
is_text mp_epilogue = false

-- The length of `tbuf`.
abbrev pub tbuf_len : ℕ
tbuf_len = 1024

module _ (tbls : List Tbl) {F : Type 0} (ops : FuzzySum F) where
  -- `fz2WordCount`
  unfoldable pub fz2_word_count : Cks F → ℕ
  fz2_word_count c = first_total c.fz2.lang

  -- `newCks`
  abbrev pub new_cks : Cks F
  new_cks = record { mime = new_mime; body = new_body_state; fz1 = ops.new; fz2 = new_fuz2_state }

  -- `c.body.body0`, `c.fz1.fuz1` and `c.fz2.fuz2` in the context; the last one reads the content type
  -- and the table, and notes HTML.
  unfoldable pub body_sum : Cks F → Bytes → Cks F
  body_sum c bp = record c { body = body0 c.body bp }

  unfoldable pub fz1_sum : Cks F → Bytes → Cks F
  unfolding fz2_word_count
  fz1_sum c bp = record c { fz1 = ops.fuz1 (fz2_word_count c) c.fz1 bp }

  -- The state of `fuz2` with the fields of the context.
  abbrev pub fz2_of : Cks F → Fuz2State
  fz2_of c = record c.fz2 { mime_ct = c.mime.mime_ct; mime_cset = c.mime.mime_cset }

  unfoldable pub fz2_sum : Cks F → Bytes → Cks F
  fz2_sum c bp =
      let f = fuz2 tbls (fz2_of c) bp in
      record c { fz2 = f; mime = record c.mime { mime_ct = f.mime_ct } }

  -- A chunk of `decodeSum`.
  unfoldable pub sum_chunk : Cks F → Bytes → Cks F
  unfolding body_sum fz1_sum fz2_sum
  sum_chunk c chunk =
      let summed = fz1_sum (body_sum c chunk) chunk in
      if length chunk == 0
      then c
      else if is_binary summed.mime.mime_ct
      then summed
      else fz2_sum summed chunk

  unfoldable pub sum_chunks : Cks F → List Bytes → Cks F
  unfolding sum_chunk
  sum_chunks c [] = c
  sum_chunks c (p ∷ ps) = sum_chunks (sum_chunk c p) ps

  -- The loop of `decodeSum`, by the encoding, which does not change in it.
  unfoldable pub decode_text : TransferEncoding → Cks F → Bytes → Cks F
  unfolding sum_chunks sum_chunk
  decode_text ce_ascii c bp = sum_chunk c bp
  decode_text ce_qp c bp =
      let (chunks, last) = qp_chunks (qp_fuel bp) tbuf_len c.mime.qp bp in
      sum_chunks (record c { mime = record c.mime { qp = last } }) chunks
  decode_text ce_b64 c bp =
      let (chunks, last) = b64_chunks (length bp + 1) tbuf_len c.mime.b64 bp in
      sum_chunks (record c { mime = record c.mime { b64 = last } }) chunks

  -- `decodeSum`
  unfoldable pub decode_sum : Cks F → Bytes → Cks F
  unfolding decode_text body_sum fz1_sum fz2_sum
  decode_sum c bp =
      let line = b'\n' ∷ [] in
      let other = fz2_sum (fz1_sum (body_sum c bp) line) line in
      let decoded = decode_text c.mime.mime_ce c bp in
      if not (is_text c.mime.mp_st) then (if length bp == 0 then c else other) else decoded

  -- The end of `computeBody`.
  unfoldable pub cks_fin : Digest → Cks F → Computed
  unfolding fz1_sum fz2_sum
  cks_fin md5 c =
      let line = b'\n' ∷ [] in
      let d = fz2_sum (fz1_sum c line) line in
      record {
        body = Body.final md5 d.body;
        f1 = ops.final d.fz1;
        f2 = Final.final md5 d.fz2 (ops.url d.fz1);
        panicked = ops.panicked d.fz1;
      }
