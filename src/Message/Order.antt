-- ===== src/Message/Order.antt =====
-- The order of the checksums of a message.
use gdcc.Base.{
  ℕ, ◌≤◌, ◌<◌, Bool, true, false, Option, some, none, List, [], ◌∷◌, ◌++◌, Bytes, arith,
}
use gdcc.Hash.{Digest}
use gdcc.Header.{str2ck}
use gdcc.CkType.{CkType}
use gdcc.Sum.{Checksum}
use gdcc.Message.{
  BodySums, Noticed, add, add_id, listed, checksums, map_option, notice_all, nothing_noticed,
  split_headers_body,
}

-- Every type is above the bound and the types before it.
pub data Ascending : ℕ → List Checksum → Type 0 where
  none_left : {n : ℕ} → Ascending n []
  next :
      {n : ℕ} {c : Checksum} {cs : List Checksum}
      → n < c.type
      → Ascending c.type cs
      → Ascending n (c ∷ cs)

Ascending-le : (m n : ℕ) {cs : List Checksum} → m ≤ n → Ascending n cs → Ascending m cs
Ascending-le m n h none_left = none_left
Ascending-le m n h (next lt a) = next (omega arith) a

add-Ascending :
    (n : ℕ) (t : CkType) (s : Option Bytes) (report : Bool) (cs : List Checksum)
    → n < t
    → Ascending t cs
    → Ascending n (add t s report ++ cs)
unfolding add
add-Ascending n t none report cs h a = Ascending-le n t (omega arith) a
add-Ascending n t (some s) report cs h a = next h a

add-Ascending_last :
    (n : ℕ) (t : CkType) (s : Option Bytes) (report : Bool) → n < t → Ascending n (add t s report)
unfolding add
add-Ascending_last n t none report h = none_left
add-Ascending_last n t (some s) report h = next h none_left

add_id-Ascending :
    (empty : Bytes) (id : Option Bytes) (cs : List Checksum)
    → Ascending 5 cs
    → Ascending 3 (add_id empty id ++ cs)
unfolding add_id
add_id-Ascending empty none cs a = add-Ascending 3 5 (some empty) false cs (omega arith) a
add_id-Ascending empty (some s) cs a = add-Ascending 3 5 (some s) true cs (omega arith) a

-- The list of one message.
pub listed-Ascending :
    (md5 : Digest) (n : Noticed) (sums : BodySums) → Ascending 1 (listed md5 n sums)
unfolding listed
listed-Ascending md5 n sums =
    add-Ascending 1 2 (map_option (str2ck md5 []) n.env_from) true _ (omega arith) (
      add-Ascending 2 3 n.from_sum true _ (omega arith) (
        add_id-Ascending (str2ck md5 [] []) n.msg_id_sum _ (
          add-Ascending 5 6 n.recv_sum true _ (omega arith) (
            add-Ascending 6 7 sums.body true _ (omega arith) (
              add-Ascending 7 8 sums.fuz1 true _ (omega arith)
                (add-Ascending_last 8 9 sums.fuz2 true (omega arith)))))))

-- The types of the checksums of a message ascend, so that there is at most one of each.
pub checksums-Ascending :
    (md5 : Digest) (compute_body : List Bytes → Bytes → BodySums) (msg : Bytes)
    → Ascending 1 (checksums md5 compute_body msg)
unfolding checksums
checksums-Ascending md5 compute_body msg =
    let (fields, content) = split_headers_body msg in
    listed-Ascending md5 (notice_all md5 true fields nothing_noticed) (compute_body fields content)
