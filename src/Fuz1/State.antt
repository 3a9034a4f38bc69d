-- ===== src/Fuz1/State.antt =====
-- dcc/fuz1.go: the state of the first fuzzy checksum and of the URLs in it.
use gdcc.Base.{
  ℕ, ◌+◌, ◌-◌, Bool, true, false, ◌||◌, Option, none, [], ◌++◌, Bytes, ◌==◌, ltb, leb,
  if◌then◌else◌, length, take, drop, replicate,
}
use gdcc.Hash.{write}
use gdcc.Cref.{Cref, clear, set_at}
use gdcc.Cref

abbrev pub fuz1_max_line : ℕ
fuz1_max_line = 78

abbrev pub fuz1_buf_max : ℕ
fuz1_buf_max = 312

abbrev pub https_len : ℕ
https_len = 5

abbrev pub fuz1_buf_size : ℕ
fuz1_buf_size = fuz1_buf_max + https_len

abbrev pub max_fuz1_len : ℕ
max_fuz1_len = 4096

abbrev pub url_host_max : ℕ
url_host_max = 256

abbrev pub url_label_max : ℕ
url_label_max = 63

abbrev pub url_host_max_save : ℕ
url_host_max_save = 1 + url_host_max

abbrev pub url_failsafe : ℕ
url_failsafe = 2000

abbrev pub doms_buf_size : ℕ
doms_buf_size = 514

-- `urlSt`
pub data UrlSt : Type 0 where
  url_idle url_quote url_qh url_t1 url_t2 url_p url_s url_colon url_slash1 : UrlSt
  url_slash2 url_slash3_start url_slash3 url_skipping_url : UrlSt

abbrev pub is_url_idle : UrlSt → Bool
is_url_idle url_idle = true
is_url_idle _ = false

-- `urlRes`
pub data UrlRes : Type 0 where
  url_res_fwd url_res_ck_space url_res_skip : UrlRes

-- The bits of `flags`.
pub record UrlFlags : Type 0 where
  pub too_long : Bool
  pub squoted : Bool
  pub dquoted : Bool
  pub idn : Bool
  pub dot : Bool
  pub username : Bool

abbrev pub no_flags : UrlFlags
no_flags = record {
  too_long = false;
  squoted = false;
  dquoted = false;
  idn = false;
  dot = false;
  username = false;
}

-- `urlQuoted`
abbrev pub is_quoted : UrlFlags → Bool
is_quoted flags = flags.squoted || flags.dquoted

-- `ckURL`; -1 in `start`, `tld` and `sld` is `none`.
pub record CkUrl : Type 0 where
  pub cref : Cref
  pub st : UrlSt
  pub start : Option ℕ
  pub tld : Option ℕ
  pub sld : Option ℕ
  pub url_total : ℕ
  pub dom_start : ℕ
  pub dom_end : ℕ
  pub dot2 : ℕ
  pub dot1 : ℕ
  pub label_start : ℕ
  pub punct : ℕ
  pub doms : ℕ
  pub flags : UrlFlags
  pub doms_buf : Bytes

-- `fuz1State` with the URL of its context. `md5` has the bytes written to the hash, -1 in `eol` is
-- `none`, and `panicked` is set where Go panics.
pub record Fuz1State : Type 0 where
  pub buf : Bytes
  pub cp : ℕ
  pub eol : Option ℕ
  pub total : ℕ
  pub md5 : Bytes
  pub url : CkUrl
  pub panicked : Bool

abbrev pub clear_buf : Bytes
clear_buf = replicate fuz1_buf_size 0

abbrev pub new_url : CkUrl
new_url = record {
  cref = record { st = Cref.idle; w = clear; length = 0; result = 0 };
  st = url_idle;
  start = none;
  tld = none;
  sld = none;
  url_total = 0;
  dom_start = 0;
  dom_end = 0;
  dot2 = 0;
  dot1 = 0;
  label_start = 0;
  punct = 0;
  doms = 0;
  flags = no_flags;
  doms_buf = replicate doms_buf_size 0;
}

-- `newFuz1State` in the context that `newCks` makes.
abbrev pub new_fuz1_state : Fuz1State
new_fuz1_state = record {
  buf = clear_buf;
  cp = 0;
  eol = none;
  total = 0;
  md5 = [];
  url = new_url;
  panicked = false;
}

-- `addSum`; no more than `maxFuz1Len` bytes are summed in all.
unfoldable pub add_sum : Fuz1State → ℕ → Fuz1State
add_sum f len =
    let n = if ltb max_fuz1_len (f.total + len) then max_fuz1_len - f.total else len in
    if len == 0
    then f
    else if n == 0
    then f
    else record f { md5 = write f.md5 (take n f.buf); total = f.total + n }

-- `resetDomsBuf`
unfoldable pub reset_doms_buf : Option ℕ → CkUrl → CkUrl
reset_doms_buf url_start u = record u {
  start = url_start;
  tld = none;
  sld = none;
  dom_end = u.dom_start;
  label_start = u.dom_start;
  punct = 0;
  dot1 = 0;
  dot2 = 0;
  url_total = 0;
  flags = record u.flags { idn = false; dot = false };
}

-- The start of `urlHostSave`: a host name that is too long is given up.
unfoldable pub limit_host : CkUrl → CkUrl
unfolding reset_doms_buf
limit_host u =
    let r = reset_doms_buf none u in
    if leb url_host_max (u.dom_end - u.dom_start)
    then record r { flags = record r.flags { too_long = true }; st = url_idle }
    else u

-- `urlHostSave`
unfoldable pub url_host_save : ℕ → CkUrl → CkUrl
unfolding limit_host set_at
url_host_save uc u =
    let v = limit_host u in
    if v.flags.too_long
    then v
    else record v { doms_buf = set_at v.doms_buf v.dom_end uc; dom_end = v.dom_end + 1 }

-- `copy` of the bytes `s` to the position `i`.
abbrev pub copy_at : ℕ → Bytes → Bytes → Bytes
copy_at i s buf = take i buf ++ (s ++ drop (i + length s) buf)

-- `buf[i:i+n]`
abbrev pub slice : ℕ → ℕ → Bytes → Bytes
slice i n buf = take n (drop i buf)
