-- ===== src/Result.antt =====
-- dcc/result.go: the server's answer, and the verdict on it.
pub mod Decision
use gdcc.Base.{
  ℕ, ◌+◌, ◌^◌, Bytes, codes, Bool, true, false, ◌&&◌, ◌||◌, List, [], ◌∷◌, Option, none, some, ltb,
  leb, ◌==◌, within, if◌then◌else◌,
}
use gdcc.CkType
use gdcc.CkType.{CkType}

-- dcc/proto.go: the sentinels among the counts
abbrev pub dcc_tgts_too_many : ℕ
dcc_tgts_too_many = 0x00fffff0

abbrev pub dcc_tgts_ok : ℕ
dcc_tgts_ok = 0x00fffff1

abbrev pub dcc_tgts_ok2 : ℕ
dcc_tgts_ok2 = 0x00fffff2

abbrev pub dcc_tgts_mask : ℕ
dcc_tgts_mask = 0x00ffffff

-- `CkCount`; `Label` is the label of its type.
pub record CkCount : Type 0 where
  pub type : CkType
  pub cur : ℕ
  pub prev : ℕ

unfoldable pub is_many : CkCount → Bool
is_many c = leb dcc_tgts_too_many c.cur && leb c.cur dcc_tgts_mask

unfoldable pub is_white : CkCount → Bool
is_white c = c.cur == dcc_tgts_ok || c.cur == dcc_tgts_ok2

unfoldable pub is_body_type : CkType → Bool
is_body_type t = leb CkType.body t && leb t CkType.fuz2

-- The loop of `BodyCount`, with its two variables.
unfoldable pub body_count_loop : ℕ → Bool → List CkCount → ℕ × Bool
body_count_loop max have [] = (max, have)
body_count_loop max have (c ∷ cs) =
    body_count_loop (if is_body_type c.type then (if ltb max c.cur then c.cur else max) else max)
      (if is_body_type c.type then true else have) cs

unfoldable pub body_count : List CkCount → ℕ × Bool
unfolding body_count_loop
body_count counts = body_count_loop 0 false counts

unfoldable pub whitelisted : List CkCount → Bool
whitelisted [] = false
whitelisted (c ∷ cs) = if is_body_type c.type && is_white c then true else whitelisted cs

pub data Action : Type 0 where
  unknown accept reject : Action

-- `Action.String`
unfoldable pub action_string : Action → Bytes
action_string unknown = codes "unknown"
action_string accept = codes "accept"
action_string reject = codes "reject"

-- `Verdict`; `Bulk` is nil but for a reject.
pub record Verdict : Type 0 where
  pub action : Action
  pub bulk : Option ℕ

unfoldable pub verdict_threshold : List CkCount → ℕ → Verdict
verdict_threshold counts threshold =
    if whitelisted counts
    then record { action = accept; bulk = none }
    else (let (count, have) = body_count counts in
        if have && leb threshold count
        then record { action = reject; bulk = some count }
        else record { action = unknown; bulk = none })

unfoldable pub verdict : List CkCount → Verdict
verdict counts = verdict_threshold counts dcc_tgts_too_many
