-- ===== src/Helm/Maps/Merging.antt =====
-- pkg/provider/helm/values.go: what it is for one map to be merged into another, said key by key and
-- without the code that merges.
use cofidectl.Common.{
  ◌≡◌, refl, String, ◌==◌, Bool, true, false, ◌&&◌, Option, none, some, if◌then◌else◌, arith,
  eq_iff, Bool-cases, inl, inr, eq_of_test,
}
use cofidectl.Common.Errors.{Result, ok, bind-eq-ok}
use cofidectl.Values
use cofidectl.Values.{Value, Fields, null, object, no_fields, field, bool, num, text, list}
use cofidectl.Helm.Maps.{get, put, merge_fields, merge_value}

pub get-put :
    (k j : String) (v : Value) (m : Fields)
    → get j (put k v m) ≡ (if k == j then some v else get j m)
unfolding get put
get-put k j v no_fields = refl
get-put k j v (field i w m) = ground (arith, eq_iff k j, eq_iff i k, eq_iff i j, get-put k j v m)

abbrev is_map : Value → Bool
is_map (object m) = true
is_map Values.nil_map = true
is_map _ = false

abbrev both_maps : Option Value → Value → Bool
both_maps none v = false
both_maps (some old) v = is_map old && is_map v

-- What stands under a key before a merge, in the source, and after it: a key that the source does not
-- have keeps its value, a value of the source replaces one unless both are maps, and two maps are
-- merged in the same way, at every depth.
pub data Merged : Option Value → Option Value → Option Value → Type 0 where
  kept : (old : Option Value) → Merged old none old
  replaced :
      (old : Option Value) (v : Value) → both_maps old v ≡ false → Merged old (some v) (some v)
  nested :
      (dest src m : Fields)
      → ((k : String) → Merged (get k dest) (get k src) (get k m))
      → Merged (some (object dest)) (some (object src)) (some (object m))

-- No key stands twice, neither in a map nor in the maps in it.
unfoldable mutual
  pub IsGoValue : Value → Type 0
  IsGoValue (object m) = IsGoMap m
  IsGoValue _ = Unit {0}

  pub IsGoMap : Fields → Type 0
  IsGoMap no_fields = Unit {0}
  IsGoMap (field k v m) = (get k m ≡ none) × (IsGoValue v × IsGoMap m)

replaced_by :
    (old : Option Value) (v r : Value)
    → both_maps old v ≡ false
    → ◌≡◌ {A = Result Value} (ok v) (ok r)
    → Merged old (some v) (some r)
replaced_by old v r b h = let same : v ≡ r = cc in rw (← same) (replaced old v b)

-- A key that the source does not have keeps its value.
unchanged :
    {old source result : Option Value} → Merged old source result → source ≡ none → result ≡ old
unchanged (kept old) h = refl
unchanged (replaced old v b) h = cc
unchanged (nested dest src m f) h = cc

-- What a merge makes is what merging is, if no key of the source stands twice.
mutual
  unfolding merge_fields get IsGoValue

  pub merge_fields-Merged :
      (dest src m : Fields)
      → IsGoMap src
      → merge_fields dest src ≡ ok m
      → (k : String) → Merged (get k dest) (get k src) (get k m)
  merge_fields-Merged dest no_fields m u h k =
      let same : dest ≡ m = cc in rw (← same) (kept (get k dest))
  merge_fields-Merged dest (field j v src) m u h k =
      let (r, e, rest) =
        bind-eq-ok (merge_value (get j dest) v) (λ r. merge_fields (put j r dest) src) h in
      let here = merge_value-Merged (get j dest) v r u.1.0 e in
      let ih = merge_fields-Merged (put j r dest) src m u.1.1 rest k in
      elim (Bool-cases (j == k)) [
        | inl t ↦
            let same = eq_of_test j k t in
            let absent : get k src ≡ none = rw same at u.0 in
            let left : get k m ≡ some r = rw (get-put, t) at (unchanged ih absent) in
            rw (t, left) (rw same at here)
        | inr t ↦ rw t (rw (get-put, t) at ih)
      ]

  merge_value-Merged :
      (old : Option Value) (v r : Value)
      → IsGoValue v
      → merge_value old v ≡ ok r
      → Merged old (some v) (some r)
  merge_value-Merged (some (object dest)) (object src) r u h =
      let (m, e, same) = bind-eq-ok (merge_fields dest src) (λ merged. ok (object merged)) h in
      let whole : object m ≡ r = cc in
      rw (← whole) (nested dest src m (λ k. merge_fields-Merged dest src m u e k))
  merge_value-Merged (some Values.nil_map) (object src) r u h = cc
  merge_value-Merged (some (object dest)) Values.nil_map r u h = cc
  merge_value-Merged (some Values.nil_map) Values.nil_map r u h = cc
  merge_value-Merged old v r u h = replaced_by old v r refl h
