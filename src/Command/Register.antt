-- ===== src/Command/Register.antt =====
-- cmd/gdcc/register.go: the command that saves an identity in the ids file.
use gdcc.Base.{
  ℕ, ◌<◌, ◌≡◌, refl, Bool, true, false, List, [], ◌∷◌, ◌++◌, Option, some, none, Bytes, codes, ◌==◌,
  leb, if◌then◌else◌, length, All, Result, ok, err, arith,
}
use gdcc.Proto.{dcc_id_anon}
use gdcc.Identity.{Identity, first_usable, parse_identity, max_token}
use gdcc.Identity.Decimal.{decimal}
use gdcc.Identity.Write.{
  WriteError, Plain, own_line, kept_lines, write_identity, parse_identity-write_identity,
}

-- `--out`, else the variable DCC_IDS, else the default.
unfoldable pub register_path : Bytes → Bytes → Bytes
register_path out dcc_ids =
    if length out == 0 then (if length dcc_ids == 0 then codes "/var/dcc/ids" else dcc_ids) else out

-- What the command leaves: its exit code, the ids file, and the lines with the variables.
pub record Registered : Type 0 where
  pub code : ℕ
  pub file : Option Bytes
  pub printed : List Bytes

abbrev pub variables : Identity → List Bytes
variables id =
    (codes "GDCC_CLIENT_ID=" ++ decimal id.client_id)
    ∷ (codes "GDCC_CLIENT_PASSWD=" ++ id.password)
    ∷ []

-- `WriteIdentityFile` has given the content, and the file can be read and replaced, or not.
unfoldable pub saved : Option Bytes → Bool → Identity → Result WriteError Bytes → Registered
saved file writable id (err e) = record { code = 1; file = file; printed = [] }
saved file false id (ok content) = record { code = 1; file = file; printed = [] }
saved file true id (ok content) = record { code = 0; file = some content; printed = variables id }

-- `runRegister`
unfoldable pub run_register : Option Bytes → Bool → Identity → Registered
unfolding saved write_identity
run_register file writable id =
    if leb id.client_id dcc_id_anon
    then record { code = 2; file = file; printed = [] }
    else if length id.password == 0
    then record { code = 2; file = file; printed = [] }
    else saved file writable id (write_identity file id)

-- The command has succeeded, and a client that reads the file has this identity.
pub record IsSaved (id : Identity) (r : Registered) : Type 0 where
  pub succeeded : r.code ≡ 0
  pub content : Bytes
  pub written : r.file ≡ some content
  pub read_back : parse_identity content ≡ some id
  pub told : r.printed ≡ variables id

saved-IsSaved :
    (file : Option Bytes) (id : Identity) (content : Bytes) (r : Result WriteError Bytes)
    → r ≡ ok content
    → parse_identity content ≡ some id
    → IsSaved id (saved file true id r)
unfolding saved
saved-IsSaved file id content (err e) bad p = absurd (cc bad)
saved-IsSaved file id content (ok c) same p = record {
  succeeded = refl;
  content = content;
  written = cc same;
  read_back = p;
  told = refl;
}

else_by :
    (P : Registered → Type 0) (b : Bool) (x y : Registered)
    → b ≡ false
    → P y
    → P (if b then x else y)
else_by P true x y e p = absurd (cc e)
else_by P false x y e p = p

-- Where the ids file can be replaced, "register" ends with the exit code 0 for an identity that is not
-- anonymous, with a password without spaces and '#' that is not empty, and the file that it leaves
-- is read back as that identity, where no other line of the file is a usable identity and every line
-- is shorter than the scanner's 64 KiB.
pub run_register-IsSaved :
    (file : Option Bytes) (id : Identity)
    → dcc_id_anon < id.client_id
    → 0 < length id.password
    → Plain id
    → first_usable (kept_lines file id) ≡ none
    → All (λ l. leb max_token (length l) ≡ false) (kept_lines file id ++ (own_line id ∷ []))
    → IsSaved id (run_register file true id)
unfolding run_register
run_register-IsSaved file id named ne p alone fits =
    let named_b : leb id.client_id dcc_id_anon ≡ false = ground arith in
    let ne_b : (length id.password == 0) ≡ false = ground arith in
    let (content, w, back) = parse_identity-write_identity file id named ne p alone fits in
    else_by (IsSaved id) (leb id.client_id dcc_id_anon) _ _ named_b (
      else_by (IsSaved id) (length id.password == 0) _ _ ne_b
        (saved-IsSaved file id content (write_identity file id) w back))
