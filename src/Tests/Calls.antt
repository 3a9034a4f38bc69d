-- ===== src/Tests/Calls.antt =====
-- A whole query of dcc/client.go at concrete inputs.
use gdcc.Base.{ℕ, ◌≡◌, refl, true, List, [], ok}
use gdcc.Base.Words.{put_u16, put_u32, get_u16, get_u32}
use gdcc.Hash.{copy}
use gdcc.Proto.{
  op_query, passwd16, sign_packet, parse_answer, verify_answer_sig, read_counts, reportable_count,
}
use gdcc.Client.{Client, Ids, Server, servers, sender, ensure_ids, build_result}
use gdcc.Client.Exchange.{Counts, World, Attempt, is_timeout, send}
use gdcc.Client.EndToEnd.{Answer, send-Answer}
use gdcc.Tests.Data.{toy_md5}
use gdcc.Tests.Clients.{secret, sums, reached, paired}

-- A client with a password that asks the default servers.
abbrev client : Client
client = record { servers = []; client_id = 4; password = secret; timeout = 0 }

abbrev known_ids : Ids
known_ids = record { filled = true; hid = 77; pid = 88; rid = 98 }

abbrev in_turn : List Counts → List Counts
in_turn rs = rs

abbrev everywhere : ℕ → Server → Attempt
everywhere i s = reached

abbrev world : World
world = record { random = []; getpid = 1; server = everywhere; order = in_turn }

sent : (send toy_md5 client world known_ids op_query 0 sums).0 ≡ ok paired
unfolding send servers sender ensure_ids passwd16 build_result reportable_count parse_answer put_u16
    put_u32 get_u16 get_u32 read_counts verify_answer_sig sign_packet copy is_timeout
sent = refl

send-Answer_example : Answer toy_md5 client world known_ids op_query 0 sums paired
send-Answer_example =
    send-Answer toy_md5 client world known_ids op_query 0 sums paired (λ P rs h. h) sent
