-- ===== src/Tests/References.antt =====
-- dcc/cref.go at concrete inputs.
use gdcc.Base.{ℕ, ◌≡◌, refl, ◌∷◌, ◌++◌, codes, some, arith}
use gdcc.Cref.{Cref, idle, name, clear, step, lookup_cref}
use gdcc.Cref.Lookup.{lookup_cref-some, padded}
use gdcc.Cref.Steps.{Fits, run, decimal, numbered, run-decimal, step-Fits}

abbrev fresh : Cref
fresh = record { st = idle; w = clear; length = 0; result = 0 }

run-decimal_example :
    run fresh (codes "&#" ++ (codes "300" ++ (b';' ∷ codes "x")))
    ≡ numbered fresh (decimal 0 (codes "300")) (codes "x")
run-decimal_example = run-decimal fresh b'3' (codes "00") (codes "x") (refl, (refl, (refl, tt)))

abbrev reading : Cref
reading = record { st = name; w = padded (codes "amp"); length = 3; result = 0 }

reading-Fits : Fits reading
unfolding padded
reading-Fits = omega arith

step-Fits_example : Fits (step reading b';').0
step-Fits_example = step-Fits reading b';' (omega arith) reading-Fits

copy_found : (c : ℕ) × (lookup_cref (padded (codes "copy")) 4 ≡ some c)
copy_found = lookup_cref-some (padded (codes "copy")) 4
