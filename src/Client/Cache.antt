-- ===== src/Client/Cache.antt =====
-- dcc/client.go: `resolve` and `invalidateAddr`, the cache of resolved addresses. The clock is in
-- nanoseconds, and the lookup of a name and a port is a parameter.
use gdcc.Base.{
  ℕ, ◌+◌, ◌*◌, ◌^◌, ◌<◌, ◌≡◌, refl, Bool, true, ◌&&◌, Option, some, none, inl, inr, Bool-cases,
  List, [], ◌∷◌, Bytes, ◌==◌, ==_iff, ltb, if◌then◌else◌, bytes_eq, bytes_eq_iff, arith,
}
use gdcc.Client.{Server, server_port}

-- `addrTTL`
abbrev pub addr_ttl : ℕ
addr_ttl = 30 * 10 ^ 9

-- `addrEntry`
pub record AddrEntry (A : Type 0) : Type 0 where
  pub addr : A
  pub exp : ℕ

-- The comparison of two keys of the map.
unfoldable pub same_server : Server → Server → Bool
same_server a b = bytes_eq a.host b.host && a.port == b.port

abbrev pub Cache : Type 0 → Type 0
Cache A = List (Server × AddrEntry A)

same_server_refl : (s : Server) → same_server s s ≡ true
unfolding same_server
same_server_refl s = rw ((bytes_eq_iff s.host s.host).1 refl, (==_iff s.port s.port).1 refl) refl

module _ {A : Type 0} where
  unfoldable pub find : Server → Cache A → Option (AddrEntry A)
  find srv [] = none
  find srv ((s, e) ∷ rest) =
      let later = find srv rest in if same_server s srv then some e else later

  -- `delete(c.addrCache, srv)`
  unfoldable pub invalidate_addr : Server → Cache A → Cache A
  invalidate_addr srv [] = []
  invalidate_addr srv ((s, e) ∷ rest) =
      let later = invalidate_addr srv rest in if same_server s srv then later else (s, e) ∷ later

  abbrev pub put : Server → AddrEntry A → Cache A → Cache A
  put srv e cache = (srv, e) ∷ invalidate_addr srv cache

  -- The address of an entry that has not expired.
  unfoldable pub fresh : ℕ → Option (AddrEntry A) → Option A
  fresh now none = none
  fresh now (some e) = if ltb now e.exp then some e.addr else none

  -- The end of `resolve`: an address that is looked up is kept.
  unfoldable pub keep_addr : ℕ → Server → Cache A → Option A → Option A × Cache A
  unfolding invalidate_addr
  keep_addr now srv cache none = (none, cache)
  keep_addr now srv cache (some addr) =
      (some addr, put srv (record { addr = addr; exp = now + addr_ttl }) cache)

  abbrev pub cached_or : Option A → Cache A → Option A × Cache A → Option A × Cache A
  cached_or (some addr) cache looked_up = (some addr, cache)
  cached_or none cache looked_up = looked_up

  -- `resolve` at a time, with what a lookup would give then.
  unfoldable pub resolve : (Bytes → ℕ → Option A) → ℕ → Server → Cache A → Option A × Cache A
  unfolding find fresh keep_addr
  resolve lookup now srv cache =
      cached_or (fresh now (find srv cache)) cache
        (keep_addr now srv cache (lookup srv.host (server_port srv)))

  find-invalidate_addr :
      (srv : Server) (cache : Cache A) → find srv (invalidate_addr srv cache) ≡ none
  unfolding find invalidate_addr
  find-invalidate_addr srv [] = refl
  find-invalidate_addr srv ((s, e) ∷ rest) = elim (Bool-cases (same_server s srv)) [
    | inl same ↦ rw same (find-invalidate_addr srv rest)
    | inr other ↦ rw (other, other) (find-invalidate_addr srv rest)
  ]

  keep_addr-looked_up :
      (now : ℕ) (srv : Server) (cache : Cache A) (o : Option A) → (keep_addr now srv cache o).0 ≡ o
  unfolding keep_addr
  keep_addr-looked_up now srv cache none = refl
  keep_addr-looked_up now srv cache (some addr) = refl

  -- Where the cache has no fresh entry for a server and the lookup finds an address, that address is
  -- returned without another lookup for 30 seconds; where the entry is dropped before, the next call
  -- looks the name up again.
  pub resolve-resolve :
      (lookup later : Bytes → ℕ → Option A) (now now' : ℕ) (srv : Server) (cache : Cache A)
      (addr : A)
      → fresh now (find srv cache) ≡ none
      → lookup srv.host (server_port srv) ≡ some addr
      → now' < now + addr_ttl
      → let kept = (resolve lookup now srv cache).1 in
        ((resolve later now' srv kept).0 ≡ some addr)
        × ((resolve later now' srv (invalidate_addr srv kept)).0 ≡ later srv.host (server_port srv))
  unfolding resolve
  resolve-resolve lookup later now now' srv cache addr stale found soon =
      let in_time : ltb now' (now + addr_ttl) ≡ true = ground arith in
      (
        rw (stale, found, same_server_refl srv, in_time) refl,
        rw
            (
              stale,
              found,
              same_server_refl srv,
              find-invalidate_addr srv (invalidate_addr srv cache),
            )
            (keep_addr-looked_up now' srv (invalidate_addr srv (invalidate_addr srv cache))
              (later srv.host (server_port srv))),
      )
