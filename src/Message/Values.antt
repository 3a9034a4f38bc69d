-- ===== src/Message/Values.antt =====
-- The value of a Return-Path field.
use gdcc.Base.{
  ℕ, ◌≡◌, refl, sym, ap, ◌∙◌, Bool, true, false, some, [], ◌∷◌, ◌++◌, Bytes, ==_iff, length, drop,
  All, arith, append-nil, append_assoc, trim_right, drop_while, trim_right-concat_dropped,
  trim_right-concat_kept, drop-length_append,
}
use gdcc.Header.{to_lower}
use gdcc.Message.{has_prefix_fold, is_blank, is_line_end, return_path_name, parse_return_path}

-- Two texts that differ only in letter case.
pub data SameFold : Bytes → Bytes → Type 0 where
  nil : SameFold [] []
  fold : {c d : ℕ} {s t : Bytes} → to_lower c ≡ to_lower d → SameFold s t → SameFold (c ∷ s) (d ∷ t)

has_prefix_fold-SameFold :
    {n p : Bytes} (v : Bytes) → SameFold n p → has_prefix_fold (n ++ v) p ≡ true
unfolding has_prefix_fold
has_prefix_fold-SameFold v nil = refl
has_prefix_fold-SameFold v (fold {c} {d} h r) =
    rw ((==_iff (to_lower c) (to_lower d)).1 h) (has_prefix_fold-SameFold v r)

length-SameFold : {n p : Bytes} → SameFold n p → length n ≡ length p
length-SameFold nil = refl
length-SameFold (fold h r) = omega (arith, length-SameFold r)

drop_while-append :
    (p : ℕ → Bool) (bs v : Bytes)
    → All (λ b. p b ≡ true) bs
    → drop_while p (bs ++ v) ≡ drop_while p v
drop_while-append p [] v h = refl
drop_while-append p (b ∷ bs) v h = rw (h.0) (drop_while-append p bs v h.1)

trim_right-append :
    (p : ℕ → Bool) (v es : Bytes)
    → All (λ e. p e ≡ true) es
    → trim_right p (v ++ es) ≡ trim_right p v
trim_right-append p v [] h = ap (trim_right p) (append-nil v)
trim_right-append p v (e ∷ es) h =
    ap (trim_right p) (sym (append_assoc v (e ∷ []) es))
    ∙ trim_right-append p (v ++ (e ∷ [])) es h.1
    ∙ trim_right-concat_dropped p v e h.0

-- In a field whose name is "Return-Path:" in any letter case, the value is found between the blanks
-- before it and the line ends behind it, where it begins with no blank and ends in no line end.
pub parse_return_path-some :
    {name : Bytes} (blanks mid ends : Bytes) (first last : ℕ)
    → SameFold name return_path_name
    → All (λ b. is_blank b ≡ true) blanks
    → All (λ e. is_line_end e ≡ true) ends
    → is_blank first ≡ false
    → is_line_end last ≡ false
    → parse_return_path (name ++ (blanks ++ ((first ∷ mid) ++ ((last ∷ []) ++ ends))))
      ≡ some ((first ∷ mid) ++ (last ∷ []))
unfolding parse_return_path
parse_return_path-some {name} blanks mid ends first last named before behind f l =
    let text = (first ∷ mid) ++ ((last ∷ []) ++ ends) in
    let value : drop (length return_path_name) (name ++ (blanks ++ text)) ≡ blanks ++ text =
      drop-length_append name (blanks ++ text) (length return_path_name) (length-SameFold named) in
    let front : drop_while is_blank (blanks ++ text) ≡ text =
      drop_while-append is_blank blanks text before ∙ rw f refl in
    let back : trim_right is_line_end text ≡ (first ∷ mid) ++ (last ∷ []) =
      ap (trim_right is_line_end) (sym (append_assoc (first ∷ mid) (last ∷ []) ends))
      ∙ trim_right-append is_line_end ((first ∷ mid) ++ (last ∷ [])) ends behind
      ∙ trim_right-concat_kept is_line_end (first ∷ mid) last l in
    rw (has_prefix_fold-SameFold (blanks ++ text) named, value, front, back) (ground arith)
