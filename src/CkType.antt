-- ===== src/CkType.antt =====
-- dcc/sum.go: `CkType`, a `uint8` with named values.
pub mod Label
use gdcc.Base.{ℕ}

abbrev pub CkType : Type 0
CkType = ℕ

abbrev pub ip : CkType
ip = 1

abbrev pub env_from : CkType
env_from = 2

abbrev pub from : CkType
from = 3

abbrev pub env_to : CkType
env_to = 4

abbrev pub message_id : CkType
message_id = 5

abbrev pub received : CkType
received = 6

abbrev pub body : CkType
body = 7

abbrev pub fuz1 : CkType
fuz1 = 8

abbrev pub fuz2 : CkType
fuz2 = 9

abbrev pub sub : CkType
sub = 10
