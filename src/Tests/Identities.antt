-- ===== src/Tests/Identities.antt =====
-- dcc/identity.go at concrete inputs.
use gdcc.Base.{◌≡◌, refl, some, none, Bytes, codes, true, arith, ok, trim_right}
use gdcc.Identity.{Identity, parse_identity, line_entry, split_lines, first_usable}
use gdcc.Identity.Decimal.{decimal}
use gdcc.Command.Register.{IsSaved, run_register, run_register-IsSaved}
use gdcc.Identity.Write.{Plain, kept_lines, write_identity, parse_identity-write_identity}

abbrev registered : Identity
registered = record { client_id = 3207; password = codes "se,cret" }

abbrev old_file : Bytes
old_file = codes "# ids\n1 anon\n3207,rpt=1 stale\r\n\n"

renewed : write_identity (some old_file) registered ≡ ok (codes "# ids\n1 anon\n3207 se,cret\n")
unfolding write_identity line_entry split_lines trim_right decimal
renewed = refl

registered-Plain : Plain registered
registered-Plain = ground arith

alone : first_usable (kept_lines (some old_file) registered) ≡ none
unfolding kept_lines first_usable line_entry split_lines trim_right
alone = refl

saved_file :
    (content : Bytes) × (write_identity (some old_file) registered ≡ ok content)
    × (parse_identity content ≡ some registered)
unfolding kept_lines line_entry split_lines trim_right decimal
saved_file =
    parse_identity-write_identity (some old_file) registered (omega arith) (omega arith)
      registered-Plain alone (refl, (refl, (refl, tt)))

run_register-IsSaved_example : IsSaved registered (run_register (some old_file) true registered)
unfolding kept_lines line_entry split_lines trim_right decimal
run_register-IsSaved_example =
    run_register-IsSaved (some old_file) registered (omega arith) (omega arith) registered-Plain
      alone (refl, (refl, (refl, tt)))
