-- ===== src/Tests/Addresses.antt =====
-- The address cache of dcc/client.go at concrete inputs.
use gdcc.Base.{ℕ, ◌^◌, ◌≡◌, refl, Option, some, none, [], Bytes, codes, arith}
use gdcc.Client.{Server, server_port}
use gdcc.Client.Cache.{resolve, find, fresh, invalidate_addr, resolve-resolve}

abbrev host : Server
host = record { host = codes "dcc.example"; port = 0 }

abbrev first_lookup : Bytes → ℕ → Option ℕ
first_lookup name port = some port

abbrev no_lookup : Bytes → ℕ → Option ℕ
no_lookup name port = none

resolve-resolve_example :
    let kept = (resolve first_lookup 100 host []).1 in
    ((resolve no_lookup (10 ^ 9) host kept).0 ≡ some 6277)
    × ((resolve no_lookup (10 ^ 9) host (invalidate_addr host kept)).0 ≡ none)
unfolding find fresh server_port
resolve-resolve_example =
    resolve-resolve first_lookup no_lookup 100 (10 ^ 9) host [] 6277 refl refl (omega arith)
