-- ===== src/Client.antt =====
-- dcc/client.go: whom the client asks, as whom, and what it makes of the answers. The clock, the
-- sockets and the cancellation of a context are what the records `Xmit` and `Attempt` say of a call.
pub mod Exchange
pub mod Answers
pub mod Packets
pub mod Failover
pub mod Authentic
pub mod Cache
pub mod EndToEnd
use gdcc.Base.{
  ℕ, zero, suc, ◌+◌, ◌*◌, ◌%◌, ◌^◌, Bool, true, false, not, ◌&&◌, ◌||◌, List, [], ◌∷◌, Bytes, codes,
  ◌==◌, leb, if◌then◌else◌, length, get_or, take, drop,
}
use gdcc.Sum.{Checksum}
use gdcc.Result.{CkCount}
use gdcc.Proto.{AnswerCount, dcc_id_anon, passwd16}

-- `Server`
pub record Server : Type 0 where
  pub host : Bytes
  pub port : ℕ

abbrev pub dcc_srvr_port : ℕ
dcc_srvr_port = 6277

-- `Server.port`
unfoldable pub server_port : Server → ℕ
server_port s = if s.port == 0 then dcc_srvr_port else s.port

abbrev pub default_servers : List Server
default_servers =
    (record { host = codes "dcc1.dcc-servers.net"; port = 0 })
    ∷ (record { host = codes "dcc2.dcc-servers.net"; port = 0 })
    ∷ (record { host = codes "dcc3.dcc-servers.net"; port = 0 })
    ∷ (record { host = codes "dcc4.dcc-servers.net"; port = 0 })
    ∷ []

-- The settings of a `Client`; the timeout is in nanoseconds, 0 where it is not positive.
pub record Client : Type 0 where
  pub servers : List Server
  pub client_id : ℕ
  pub password : Bytes
  pub timeout : ℕ

-- The identifiers of a `Client`, and whether `once` has run.
pub record Ids : Type 0 where
  pub filled : Bool
  pub hid : ℕ
  pub pid : ℕ
  pub rid : ℕ

-- `Client.servers`
unfoldable pub servers : Client → List Server
servers c = if length c.servers == 0 then default_servers else c.servers

-- `Client.sender`: the client-id and the signing password.
unfoldable pub sender : Client → ℕ × Bytes
sender c =
    let id = if c.client_id == 0 then dcc_id_anon else c.client_id in
    if id == dcc_id_anon || length c.password == 0
    then (dcc_id_anon, [])
    else (id, passwd16 c.password)

-- `Client.timeout`
unfoldable pub timeout : Client → ℕ
timeout c = if c.timeout == 0 then 5 * 10 ^ 9 else c.timeout

-- `binary.LittleEndian.Uint32`
abbrev pub get_u32_le : Bytes → ℕ
get_u32_le b = get_or b 0 0 + get_or b 1 0 * 2 ^ 8 + get_or b 2 0 * 2 ^ 16 + get_or b 3 0 * 2 ^ 24

-- `ensureIDs`, with the 8 random bytes and the process id.
unfoldable pub ensure_ids : Bytes → ℕ → Ids → Ids
ensure_ids random getpid ids =
    let h = get_u32_le (take 4 random) in
    let p = get_u32_le (take 4 (drop 4 random)) in
    if ids.filled then ids else record ids {
      filled = true;
      hid = if h == 0 then 1 else h;
      pid = if p == 0 then getpid % 2 ^ 32 else p;
    }

-- The loop of `buildResult`, with the counts that are left.
unfoldable pub build_result : List Checksum → List AnswerCount → List CkCount
build_result [] counts = []
build_result (ck ∷ cks) [] = build_result cks []
build_result (ck ∷ cks) (a ∷ counts) =
    let skip = build_result cks (a ∷ counts) in
    let paired = record { type = ck.type; cur = a.cur; prev = a.prev } ∷ build_result cks counts in
    if not ck.report then skip else paired
