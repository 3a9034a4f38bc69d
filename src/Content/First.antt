-- ===== src/Content/First.antt =====
-- dcc/fuz1.go in the checksum context of dcc/cks.go.
use gdcc.Base.{Option, some}
use gdcc.Hash.{Digest}
use gdcc.Fuz1.State.{Fuz1State, new_fuz1_state}
use gdcc.Fuz1.{fuz1}
use gdcc.Fuz1
use gdcc.Fuz2.Final.{Hosts}
use gdcc.Content.{FuzzySum}

-- The host names that `computeBody` passes on with `&c.url`.
abbrev pub hosts_of : Fuz1State → Option Hosts
hosts_of f =
    some (record { doms = f.url.doms; dom_start = f.url.dom_start; doms_buf = f.url.doms_buf })

-- The first fuzzy checksum of the context that `newCks` makes.
abbrev pub first_sum : Digest → FuzzySum Fuz1State
first_sum md5 = record {
  fuz1 = λ words f bp. fuz1 words f bp;
  final = λ f. Fuz1.final md5 f;
  url = λ f. hosts_of f;
  new = new_fuz1_state;
  panicked = λ f. f.panicked;
}
