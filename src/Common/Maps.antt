-- ===== src/Common/Maps.antt =====
-- Go maps with text keys, as the lists of their entries.
use Prim.Native.Nat.{ℕ, zero, suc}
use Prim.Native.String.{String}
use mathlib.Core.Path.{◌≡◌, refl}
use mathlib.Core.Bool.{Bool, true, false, ◌&&◌}
use mathlib.Core.Option.{Option, none, some}
use mathlib.Core.List.{List, [], ◌∷◌}
use native.Mathlib.Omega.{arith}
use text.Mathlib.Text.{◌==◌}
use text.Mathlib.TextEquality.{eq_iff}
use cofidectl.Common.Tests.{if◌then◌else◌}

-- `m[k]`
unfoldable pub lookup : {V : Type 0} → String → List (String × V) → Option V
lookup k [] = none
lookup k ((j, v) ∷ m) = if j == k then some v else lookup k m

-- `m[k] = v`
unfoldable pub assign : {V : Type 0} → String → V → List (String × V) → List (String × V)
assign k v [] = (k, v) ∷ []
assign k v ((j, w) ∷ m) = if j == k then (k, v) ∷ m else (j, w) ∷ assign k v m

unfoldable pub length : {V : Type 0} → List V → ℕ
length [] = zero
length (x ∷ xs) = suc (length xs)

abbrev pub holds : {V : Type 0} → (V → V → Bool) → V → Option V → Bool
holds eq v none = false
holds eq v (some w) = eq v w

unfoldable pub entries_in :
    {V : Type 0} → (V → V → Bool) → List (String × V) → List (String × V) → Bool
entries_in eq [] n = true
entries_in eq ((k, v) ∷ m) n = holds eq v (lookup k n) && entries_in eq m n

abbrev same_length : ℕ → ℕ → Bool
same_length zero zero = true
same_length zero (suc n) = false
same_length (suc m) zero = false
same_length (suc m) (suc n) = same_length m n

-- `maps.EqualFunc`
unfoldable pub equal_func :
    {V : Type 0} → (V → V → Bool) → List (String × V) → List (String × V) → Bool
unfolding length entries_in
equal_func eq m n = same_length (length m) (length n) && entries_in eq m n

pub lookup-assign :
    {V : Type 0} (k j : String) (v : V) (m : List (String × V))
    → lookup j (assign k v m) ≡ (if k == j then some v else lookup j m)
unfolding lookup assign
lookup-assign k j v [] = refl
lookup-assign k j v ((i, w) ∷ m) =
    ground (arith, eq_iff k j, eq_iff i k, eq_iff i j, lookup-assign k j v m)

pub same_length_refl : (n : ℕ) → same_length n n ≡ true
same_length_refl zero = refl
same_length_refl (suc n) = same_length_refl n

-- No key stands twice.
abbrev pub IsMap : {V : Type 0} → List (String × V) → Type 0
IsMap [] = Unit
IsMap ((k, v) ∷ m) = (lookup k m ≡ none) × IsMap m

-- The entries of a map are in each map that has them under their keys.
pub entries_in_lem :
    {V : Type 0} (eq : V → V → Bool) (m n : List (String × V))
    → ((v : V) → eq v v ≡ true)
    → IsMap m
    → ((k : String) (v : V) → lookup k m ≡ some v → lookup k n ≡ some v)
    → entries_in eq m n ≡ true
unfolding lookup entries_in
entries_in_lem eq [] n r u h = refl
entries_in_lem {V} eq ((k, v) ∷ m) n r u h =
    let here : lookup k n ≡ some v = h k v (ground (arith, eq_iff k k)) in
    let later : (j : String) (w : V) → lookup j m ≡ some w → lookup j n ≡ some w =
      λ j w e. h j w (ground (arith, eq_iff k j, u.0)) in
    rw (here, r v) (entries_in_lem eq m n r u.1 later)

pub equal_func_refl :
    {V : Type 0} (eq : V → V → Bool) (m : List (String × V))
    → ((v : V) → eq v v ≡ true)
    → IsMap m
    → equal_func eq m m ≡ true
unfolding equal_func
equal_func_refl eq m r u = rw (same_length_refl (length m), entries_in_lem eq m m r u (λ k v e. e))
