-- ===== src/Common/Lists.antt =====
-- Searches over a slice, as the source's `for` loops make them: each acts at the first element that
-- passes its test.
use mathlib.Core.Path.{◌≡◌, refl}
use mathlib.Core.Bool.{Bool, true, false, ◌||◌}
use mathlib.Core.Option.{Option, none, some}
use mathlib.Core.List.{List, [], ◌∷◌, ◌++◌}
use native.Mathlib.Omega.{arith}
use cofidectl.Common.Tests.{if◌then◌else◌}

module _ {ℓ} {A : Type ℓ} where
  -- The first element that passes the test.
  unfoldable pub find_first : (A → Bool) → List A → Option A
  find_first p [] = none
  find_first p (x ∷ xs) = if p x then some x else find_first p xs

  -- The slice without the first element that passes: `append(s[:i], s[i+1:]...)`.
  unfoldable pub remove_first : (A → Bool) → List A → List A
  remove_first p [] = []
  remove_first p (x ∷ xs) = if p x then xs else x ∷ remove_first p xs

  -- The slice with the first element that passes replaced: `s[i] = y`.
  unfoldable pub replace_first : (A → Bool) → A → List A → List A
  replace_first p y [] = []
  replace_first p y (x ∷ xs) = if p x then y ∷ xs else x ∷ replace_first p y xs

  -- The elements that pass, in order.
  unfoldable pub filter : (A → Bool) → List A → List A
  filter p [] = []
  filter p (x ∷ xs) = let rest = filter p xs in if p x then x ∷ rest else rest

  unfoldable pub any : (A → Bool) → List A → Bool
  any p [] = false
  any p (x ∷ xs) = p x || any p xs

  abbrev pub is_empty : List A → Bool
  is_empty [] = true
  is_empty (x ∷ xs) = false

  pub find_first-passes :
      (p : A → Bool) (xs : List A) (x : A) → find_first p xs ≡ some x → p x ≡ true
  unfolding find_first
  find_first-passes p [] x h = ground arith
  find_first-passes p (y ∷ xs) x h = ground (arith, find_first-passes p xs x)

  -- Appending an element that was not there: the search finds it, and old finds are kept.
  pub find_first-append :
      (p : A → Bool) (xs ys : List A)
      → find_first p (xs ++ ys)
        ≡ elim (find_first p xs) [ none ↦ find_first p ys | some x ↦ some x ]
  unfolding find_first
  find_first-append p [] ys = refl
  find_first-append p (x ∷ xs) ys = ground (arith, find_first-append p xs ys)

  pub any-find_first :
      (p : A → Bool) (xs : List A)
      → any p xs ≡ elim (find_first p xs) [ none ↦ false | some x ↦ true ]
  unfolding any find_first
  any-find_first p [] = refl
  any-find_first p (x ∷ xs) = ground (arith, any-find_first p xs)

  -- The replacement is what the search then finds, if it passes the test itself.
  pub find_first-replace_first :
      (p : A → Bool) (y x : A) (xs : List A)
      → p y ≡ true
      → find_first p xs ≡ some x
      → find_first p (replace_first p y xs) ≡ some y
  unfolding find_first replace_first
  find_first-replace_first p y x [] py h = ground arith
  find_first-replace_first p y x (z ∷ xs) py h = ground (arith, find_first-replace_first p y x xs)

  -- A slice that the search misses is not shortened.
  pub remove_first_absent :
      (p : A → Bool) (xs : List A) → find_first p xs ≡ none → remove_first p xs ≡ xs
  unfolding find_first remove_first
  remove_first_absent p [] h = refl
  remove_first_absent p (x ∷ xs) h = ground (arith, remove_first_absent p xs)

  -- A filter that everything passes changes nothing, and one that nothing passes leaves nothing.
  pub filter-none : (p : A → Bool) (xs : List A) → find_first p xs ≡ none → filter p xs ≡ []
  unfolding find_first filter
  filter-none p [] h = refl
  filter-none p (x ∷ xs) h = ground (arith, filter-none p xs)

  pub find_first-remove_first_other :
      (p q : A → Bool) (xs : List A)
      → ((x : A) → q x ≡ true → p x ≡ false)
      → find_first q (remove_first p xs) ≡ find_first q xs
  unfolding find_first remove_first
  find_first-remove_first_other p q [] h = refl
  find_first-remove_first_other p q (x ∷ xs) h =
      ground (arith, h x, find_first-remove_first_other p q xs h)

  pub find_first-replace_first_other :
      (p q : A → Bool) (y : A) (xs : List A)
      → ((x : A) → q x ≡ true → p x ≡ false)
      → q y ≡ false
      → find_first q (replace_first p y xs) ≡ find_first q xs
  unfolding find_first replace_first
  find_first-replace_first_other p q y [] h k = refl
  find_first-replace_first_other p q y (x ∷ xs) h k =
      ground (arith, h x, find_first-replace_first_other p q y xs h k)

  pub any_last : (p : A → Bool) (xs : List A) (y : A) → p y ≡ true → any p (xs ++ y ∷ []) ≡ true
  unfolding any
  any_last p [] y h = ground arith
  any_last p (x ∷ xs) y h = ground (arith, any_last p xs y h)
