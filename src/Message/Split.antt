-- ===== src/Message/Split.antt =====
-- The split of a message into its header and its body.
use gdcc.Base.{ℕ, ◌≡◌, ◌≢◌, All, List, [], ◌∷◌, ◌++◌, Bytes, concat}

-- What stands between the fields and the body: an empty line, or nothing where there is no body.
pub data Separator : Bytes → Bytes → Type 0 where
  line_feed : {body : Bytes} → Separator (b'\n' ∷ []) body
  crlf : {body : Bytes} → Separator (b'\r' ∷ b'\n' ∷ []) body
  no_body : Separator [] []

-- A line has a newline at its end or nowhere.
pub data OneLine : Bytes → Type 0 where
  stop : OneLine []
  newline : OneLine (b'\n' ∷ [])
  char : {c : ℕ} {cs : Bytes} → c ≢ b'\n' → OneLine cs → OneLine (c ∷ cs)

-- A line of the header is not empty: neither LF nor CRLF.
pub record TextLine (line : Bytes) : Type 0 where
  pub one : OneLine line
  pub not_lf : line ≢ b'\n' ∷ []
  pub not_crlf : line ≢ b'\r' ∷ b'\n' ∷ []

-- A line that goes on with the field before it.
pub data Continues : Bytes → Type 0 where
  space : {cs : Bytes} → Continues (b' ' ∷ cs)
  tab : {cs : Bytes} → Continues (b'\t' ∷ cs)

-- The fields that lines make up: the first line and each one that does not begin with a blank begin a
-- field, the others go on with the last one.
pub data Unfolds : List Bytes → List Bytes → Type 0 where
  no_field : Unfolds [] []
  first_field : {l : Bytes} → Unfolds (l ∷ []) (l ∷ [])
  next_field :
      {f l : Bytes} {fs ls : List Bytes}
      → Unfolds (f ∷ fs) ls
      → ¬ Continues l
      → Unfolds ((f ∷ fs) ++ (l ∷ [])) (ls ++ (l ∷ []))
  same_field :
      (fs : List Bytes) (f : Bytes) {l : Bytes} {ls : List Bytes}
      → Unfolds (fs ++ (f ∷ [])) ls
      → Continues l
      → Unfolds (fs ++ ((f ++ l) ∷ [])) (ls ++ (l ∷ []))

-- The message is the lines of its header, which are those of the fields and of which none is empty,
-- then an empty line and the body, or nothing.
pub record IsSplit (fields : List Bytes) (body msg : Bytes) : Type 0 where
  pub lines : List Bytes
  pub sep : Bytes
  pub whole : concat lines ++ (sep ++ body) ≡ msg
  pub text : All TextLine lines
  pub joined : Unfolds fields lines
  pub separator : Separator sep body

-- The rest of a message behind the fields that have been read.
record Rest (done later : List Bytes) (body msg : Bytes) : Type 0 where
  lines : List Bytes
  sep : Bytes
  whole : concat lines ++ (sep ++ body) ≡ msg
  text : All TextLine lines
  joined : Unfolds later (done ++ lines)
  separator : Separator sep body
