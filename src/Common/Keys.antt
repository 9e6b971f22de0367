-- ===== src/Common/Keys.antt =====
-- Predicates over slices: every element has a property, no two elements share a key.
use Prim.Native.String.{String}
use mathlib.Core.Path.{◌≡◌, refl, sym, ◌∙◌}
use mathlib.Core.Logic.{◌≢◌, inl, inr}
use mathlib.Core.Bool.{Bool, true, false}
use mathlib.Core.Option.{none, some}
use mathlib.Core.List.{List, [], ◌∷◌, ◌++◌}
use native.Mathlib.Omega.{arith}
use text.Mathlib.Text.{◌==◌}
use text.Mathlib.TextEquality.{eq_iff}
use cofidectl.Common.Tests.{Bool-cases, eq_of_test, ne_of_test, test_of_ne, is_some}
use cofidectl.Common.Lists.{find_first, remove_first, replace_first, filter, any}

abbrev pub All {ℓ κ} : {A : Type ℓ} → (A → Type κ) → List A → Type κ
All P [] = Unit
All P (x ∷ xs) = P x × All P xs

abbrev pub Unique {ℓ κ} : {A : Type ℓ} {K : Type κ} → (A → K) → List A → Type κ
Unique key [] = Unit
Unique key (x ∷ xs) = All (λ y. key x ≢ key y) xs × Unique key xs

module _ {ℓ κ} {A : Type ℓ} where
  pub All-append : (P : A → Type κ) (xs ys : List A) → All P xs → All P ys → All P (xs ++ ys)
  All-append P [] ys h k = k
  All-append P (x ∷ xs) ys h k = (h.0, All-append P xs ys h.1 k)

  pub All-filter : (P : A → Type κ) (p : A → Bool) (xs : List A) → All P xs → All P (filter p xs)
  unfolding filter
  All-filter P p [] h = tt
  All-filter P p (x ∷ xs) h = elim (Bool-cases (p x)) [
    | inl e ↦ rw e (h.0, All-filter P p xs h.1)
    | inr e ↦ rw e (All-filter P p xs h.1)
  ]

  pub All-remove_first :
      (P : A → Type κ) (p : A → Bool) (xs : List A) → All P xs → All P (remove_first p xs)
  unfolding remove_first
  All-remove_first P p [] h = tt
  All-remove_first P p (x ∷ xs) h = elim (Bool-cases (p x)) [
    | inl e ↦ rw e h.1
    | inr e ↦ rw e (h.0, All-remove_first P p xs h.1)
  ]

  pub All-replace_first :
      (P : A → Type κ) (p : A → Bool) (y : A) (xs : List A)
      → P y
      → All P xs
      → All P (replace_first p y xs)
  unfolding replace_first
  All-replace_first P p y [] py h = tt
  All-replace_first P p y (x ∷ xs) py h = elim (Bool-cases (p x)) [
    | inl e ↦ rw e (py, h.1)
    | inr e ↦ rw e (h.0, All-replace_first P p y xs py h.1)
  ]

  pub All-find_first :
      (P : A → Type κ) (p : A → Bool) (xs : List A) (x : A)
      → All P xs
      → find_first p xs ≡ some x
      → P x
  unfolding find_first
  All-find_first P p [] x h e = cc
  All-find_first P p (y ∷ xs) x h e = elim (Bool-cases (p y)) [
    | inl t ↦ let same : some y ≡ some x = rw t at e in ground (arith, h.0)
    | inr t ↦ All-find_first P p xs x h.1 (rw t at e)
  ]

  pub All-map :
      {Q : A → Type κ} (P : A → Type κ) (f : (x : A) → P x → Q x) (xs : List A)
      → All P xs
      → All Q xs
  All-map P f [] h = tt
  All-map P f (x ∷ xs) h = (f x h.0, All-map P f xs h.1)

  pub All-both :
      {Q R : A → Type κ} {P : A → Type κ} (f : (x : A) → P x → Q x → R x) (xs : List A)
      → All P xs
      → All Q xs
      → All R xs
  All-both f [] h k = tt
  All-both f (x ∷ xs) h k = (f x h.0 k.0, All-both f xs h.1 k.1)

module _ {ℓ} {A : Type ℓ} where
  pub All-none : (p : A → Bool) (xs : List A) → find_first p xs ≡ none → All (λ x. p x ≡ false) xs
  unfolding find_first
  All-none p [] h = tt
  All-none p (x ∷ xs) h = elim (Bool-cases (p x)) [
    | inl e ↦ let absurd_case : some x ≡ none = rw e at h in cc
    | inr e ↦ (e, All-none p xs (rw e at h))
  ]

  pub All-not_any : (p : A → Bool) (xs : List A) → any p xs ≡ false → All (λ x. p x ≡ false) xs
  unfolding any
  All-not_any p [] h = tt
  All-not_any p (x ∷ xs) h = (ground arith, All-not_any p xs (ground arith))

  -- What a filter keeps passes its test.
  pub All-filter_test : (p : A → Bool) (xs : List A) → All (λ x. p x ≡ true) (filter p xs)
  unfolding filter
  All-filter_test p [] = tt
  All-filter_test p (x ∷ xs) = elim (Bool-cases (p x)) [
    | inl e ↦ rw e (e, All-filter_test p xs)
    | inr e ↦ rw e (All-filter_test p xs)
  ]

module _ {ℓ κ} {A : Type ℓ} {K : Type κ} (key : A → K) where
  pub Unique-append :
      (xs : List A) (y : A)
      → Unique key xs
      → All (λ x. key x ≢ key y) xs
      → Unique key (xs ++ y ∷ [])
  Unique-append [] y u h = (tt, tt)
  Unique-append (x ∷ xs) y u h =
      (All-append (λ z. key x ≢ key z) xs (y ∷ []) u.0 (h.0, tt), Unique-append xs y u.1 h.1)

  pub Unique-filter : (p : A → Bool) (xs : List A) → Unique key xs → Unique key (filter p xs)
  unfolding filter
  Unique-filter p [] u = tt
  Unique-filter p (x ∷ xs) u = elim (Bool-cases (p x)) [
    | inl e ↦ rw e (All-filter (λ y. key x ≢ key y) p xs u.0, Unique-filter p xs u.1)
    | inr e ↦ rw e (Unique-filter p xs u.1)
  ]

  pub Unique-remove_first :
      (p : A → Bool) (xs : List A) → Unique key xs → Unique key (remove_first p xs)
  unfolding remove_first
  Unique-remove_first p [] u = tt
  Unique-remove_first p (x ∷ xs) u = elim (Bool-cases (p x)) [
    | inl e ↦ rw e u.1
    | inr e ↦ rw e (All-remove_first (λ y. key x ≢ key y) p xs u.0, Unique-remove_first p xs u.1)
  ]

  -- A replacement that keeps the key keeps the keys distinct.
  pub Unique-replace_first :
      (p : A → Bool) (y x : A) (xs : List A)
      → find_first p xs ≡ some x
      → key y ≡ key x
      → Unique key xs
      → Unique key (replace_first p y xs)
  unfolding find_first replace_first
  Unique-replace_first p y x [] h e u = tt
  Unique-replace_first p y x (z ∷ xs) h e u = elim (Bool-cases (p z)) [
    | inl t ↦
        let same : some z ≡ some x = rw t at h in
        let key_same : key y ≡ key z = cc in
        rw t (All-map (λ w. key z ≢ key w) (λ w n q. n (sym key_same ∙ q)) xs u.0, u.1)
    | inr t ↦
        let later : find_first p xs ≡ some x = rw t at h in
        let apart : key z ≢ key y =
          λ q. All-find_first (λ w. key z ≢ key w) p xs x u.0 later (q ∙ e) in
        rw t (
          All-replace_first (λ w. key z ≢ key w) p y xs apart u.0,
          Unique-replace_first p y x xs later e u.1,
        )
  ]

module _ {ℓ} {A : Type ℓ} (key : A → String) where
  pub find_first-none :
      (k : String) (xs : List A) → All (λ x. key x ≢ k) xs → find_first (λ x. key x == k) xs ≡ none
  unfolding find_first
  find_first-none k [] h = refl
  find_first-none k (x ∷ xs) h = rw (test_of_ne (key x) k h.0) (find_first-none k xs h.1)

  -- With distinct keys, an element that was removed is gone.
  pub find_first-remove_first :
      (k : String) (xs : List A)
      → Unique key xs
      → find_first (λ x. key x == k) (remove_first (λ x. key x == k) xs) ≡ none
  unfolding find_first remove_first
  find_first-remove_first k [] u = refl
  find_first-remove_first k (x ∷ xs) u = elim (Bool-cases (key x == k)) [
    | inl e ↦ rw e (
        find_first-none k xs
          (All-map (λ y. key x ≢ key y) (λ y n q. n (eq_of_test (key x) k e ∙ sym q)) xs u.0))
    | inr e ↦ rw (e, find_first) (rw e (find_first-remove_first k xs u.1))
  ]

  -- A failed search is a statement about every key.
  pub All-ne_of_none :
      (k : String) (xs : List A) → find_first (λ x. key x == k) xs ≡ none → All (λ x. key x ≢ k) xs
  All-ne_of_none k xs h = All-map _ (λ x t. ne_of_test (key x) k t) xs (All-none _ xs h)

  -- Removing one key leaves the search for another alone.
  pub find_first-remove_first_ne :
      (k j : String) (xs : List A)
      → j ≢ k
      → find_first (λ x. key x == j) (remove_first (λ x. key x == k) xs)
        ≡ find_first (λ x. key x == j) xs
  unfolding find_first remove_first
  find_first-remove_first_ne k j [] h = refl
  find_first-remove_first_ne k j (x ∷ xs) h =
      ground (arith, eq_iff (key x) k, eq_iff (key x) j, find_first-remove_first_ne k j xs h)

  -- A replacement under its own key keeps every key found.
  pub find_first-replace_first_key :
      (k j : String) (y : A) (xs : List A)
      → key y ≡ k
      → is_some (find_first (λ x. key x == j) (replace_first (λ x. key x == k) y xs))
        ≡ is_some (find_first (λ x. key x == j) xs)
  unfolding find_first replace_first
  find_first-replace_first_key k j y [] h = refl
  find_first-replace_first_key k j y (x ∷ xs) h = ground (
    arith,
    eq_iff (key x) k,
    eq_iff (key x) j,
    eq_iff (key y) j,
    find_first-replace_first_key k j y xs h,
  )

module _ {ℓ} {A : Type ℓ} where
  pub filter-All : (p : A → Bool) (xs : List A) → All (λ x. p x ≡ true) xs → filter p xs ≡ xs
  unfolding filter
  filter-All p [] h = refl
  filter-All p (x ∷ xs) h = rw (h.0, filter-All p xs h.1)
