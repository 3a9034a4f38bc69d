-- ===== src/Base/Filter.antt =====
-- Filtering by a Boolean test, and the loops that trim a slice at one of its ends.
use Prim.Native.Nat.{ℕ}
use mathlib.Core.Path.{◌≡◌, refl, ap, sym, ◌∙◌}
use mathlib.Core.List.{List, [], ◌∷◌, ◌++◌, reverse, reverse-append, reverse-reverse}
use mathlib.Core.Bool.{Bool, true, false}
use native.Mathlib.Omega.{arith}
use gdcc.Base.Tests.{if◌then◌else◌}

module _ {ℓ} {A : Type ℓ} (p : A → Bool) where
  -- The elements that pass the test.
  abbrev pub keep : List A → List A
  keep [] = []
  keep (x ∷ xs) = if p x then x ∷ keep xs else keep xs

  pub keep-append : (xs ys : List A) → keep (xs ++ ys) ≡ keep xs ++ keep ys
  keep-append [] ys = refl
  keep-append (x ∷ xs) ys = ground (arith, keep-append xs ys)

-- A loop that drops the last byte while it passes the test.
module _ (p : ℕ → Bool) where
  abbrev pub drop_while : List ℕ → List ℕ
  drop_while [] = []
  drop_while (x ∷ xs) = if p x then drop_while xs else x ∷ xs

  unfoldable pub trim_right : List ℕ → List ℕ
  trim_right xs = reverse (drop_while (reverse xs))

  -- Where a list ends in an element that passes the test, that element goes.
  pub trim_right-concat_dropped :
      (xs : List ℕ) (x : ℕ) → p x ≡ true → trim_right (xs ++ (x ∷ [])) ≡ trim_right xs
  unfolding trim_right
  trim_right-concat_dropped xs x h = rw (reverse-append xs (x ∷ [])) (rw h refl)

  -- Else the list is left alone.
  pub trim_right-concat_kept :
      (xs : List ℕ) (x : ℕ) → p x ≡ false → trim_right (xs ++ (x ∷ [])) ≡ xs ++ (x ∷ [])
  unfolding trim_right
  trim_right-concat_kept xs x h =
      rw (reverse-append xs (x ∷ []))
        (rw h (ap reverse (sym (reverse-append xs (x ∷ []))) ∙ reverse-reverse (xs ++ (x ∷ []))))
