-- ===== src/Fuz1/Bounds.antt =====
-- dcc/fuz1.go: the bounds of the buffer and of the bytes that are summed.
use gdcc.Base.{refl, arith}
use gdcc.Cref.{Cref}
use gdcc.Cref
use gdcc.Fuz1.State.{new_fuz1_state}
use gdcc.Fuz1.Hosts.{Sound}

pub new_fuz1_state-Sound : Sound new_fuz1_state
new_fuz1_state-Sound = record {
  buf_317 = refl;
  cp_le = omega arith;
  eol_le = omega arith;
  start_le = omega arith;
  counted = refl;
  total_le = omega arith;
}
