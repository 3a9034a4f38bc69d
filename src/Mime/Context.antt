-- ===== src/Mime/Context.antt =====
-- dcc/cks.go: the MIME container state of the checksum context.
use gdcc.Base.{ℕ, zero, suc, ◌+◌, Bool, true, false, List, [], ◌∷◌, Bytes, replicate}
use gdcc.Fuz2.{ContentType, text}
use gdcc.Fuz2.Charset.{Cset, latin1}
use gdcc.Mime.Quoted.{QpState}
use gdcc.Mime.Quoted
use gdcc.Mime.Base64.{B64State}

abbrev pub ck_bnd_max : ℕ
ck_bnd_max = 94

abbrev pub ck_bnd_dim : ℕ
ck_bnd_dim = ck_bnd_max + 2

abbrev pub ck_bnd_miss : ℕ
ck_bnd_miss = ck_bnd_dim + 1

abbrev pub mime_bnd_num : ℕ
mime_bnd_num = 3

-- `DCC_CK_CE_*`
pub data TransferEncoding : Type 0 where
  ce_ascii ce_qp ce_b64 : TransferEncoding

-- `CK_MP_ST_*`
pub data MpSt : Type 0 where
  mp_preamble mp_bnd mp_hdrs mp_text mp_epilogue : MpSt

-- `CK_MHDR_ST_*`
pub data MhdrSt : Type 0 where
  mhdr_idle mhdr_ce_ct mhdr_ce mhdr_ce_ws mhdr_ct mhdr_ct_ws mhdr_qp mhdr_b64 : MhdrSt
  mhdr_text mhdr_html mhdr_cset_skip_param mhdr_cset_span_ws mhdr_cset : MhdrSt
  mhdr_cset_iso8859 mhdr_cset_isox mhdr_multipart mhdr_bnd_skip_param : MhdrSt
  mhdr_bnd_span_ws mhdr_bnd mhdr_bnd_value : MhdrSt

-- `ckBnd`
pub record Bnd : Type 0 where
  pub bnd_len : ℕ
  pub cmp_len : ℕ
  pub bnd : Bytes

-- The MIME fields of `cks`; `bol` and `quoted` are the bits of `flags`.
pub record Mime : Type 0 where
  pub mime_nest : ℕ
  pub mime_bnd : List Bnd
  pub mime_bnd_matches : ℕ
  pub mp_st : MpSt
  pub mhdr_st : MhdrSt
  pub mhdr_pos : ℕ
  pub qp : QpState
  pub b64 : B64State
  pub mime_ct : ContentType
  pub mime_cset : Cset
  pub mime_ce : TransferEncoding
  pub bol : Bool
  pub quoted : Bool

abbrev pub new_bnd : Bnd
new_bnd = record { bnd_len = 0; cmp_len = 0; bnd = replicate ck_bnd_dim 0 }

-- An entry of `mimeBnd`.
abbrev pub bnd_at : List Bnd → ℕ → Bnd
bnd_at [] i = new_bnd
bnd_at (b ∷ bs) zero = b
bnd_at (b ∷ bs) (suc i) = bnd_at bs i

abbrev pub set_bnd : List Bnd → ℕ → Bnd → List Bnd
set_bnd [] i x = []
set_bnd (b ∷ bs) zero x = x ∷ bs
set_bnd (b ∷ bs) (suc i) x = b ∷ set_bnd bs i x

-- `decodersInit`
unfoldable pub decoders_init : Mime → Mime
decoders_init c = record c {
  mime_bnd_matches = 0;
  bol = true;
  mime_ct = text;
  mime_cset = latin1;
  mime_ce = ce_ascii;
  qp = record c.qp { phase = Quoted.idle };
  b64 = record c.b64 { quantum_cnt = 0 };
}

-- The MIME state that `newCks` makes.
unfoldable pub new_mime : Mime
unfolding decoders_init
new_mime = decoders_init (record {
  mime_nest = 0;
  mime_bnd = new_bnd ∷ new_bnd ∷ new_bnd ∷ [];
  mime_bnd_matches = 0;
  mp_st = mp_text;
  mhdr_st = mhdr_idle;
  mhdr_pos = 0;
  qp = record { x = 0; y = 0; n = 0; phase = Quoted.idle };
  b64 = record { quantum = 0; quantum_cnt = 0 };
  mime_ct = text;
  mime_cset = latin1;
  mime_ce = ce_ascii;
  bol = false;
  quoted = false;
})
