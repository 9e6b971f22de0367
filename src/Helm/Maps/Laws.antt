-- ===== src/Helm/Maps/Laws.antt =====
-- pkg/provider/helm/values.go: what the functions on nested maps promise, key by key.
use cofidectl.Common.{
  List, [], ◌∷◌, ◌++◌, ◌≢◌, ◌≡◌, refl, String, ◌==◌, Option, none, some, arith, eq_iff, Bool-cases,
  inl, inr, eq_of_test,
}
use cofidectl.Common.Errors.{ok, bind-eq-ok}
use cofidectl.Values
use cofidectl.Values.{Value, Items, Fields, null, object, no_fields, field, bool, num, text, list}
use cofidectl.Helm.Maps.Merging.{get-put, Merged, IsGoMap, merge_fields-Merged}
use cofidectl.Helm.Maps.{
  fresh_map, get_or_create_nested_map, shallow_merge, put_all, put_maps, as_sub_map, get, put,
  merge_fields, merge_maps, merge_value,
}

-- No key of a Go map stands twice.
abbrev pub IsMap : Fields → Type 0
IsMap no_fields = Unit
IsMap (field k v m) = (get k m ≡ none) × IsMap m

-- A map without the key keeps what is there, and one with it merges its value in.
abbrev pub MergedAt : Option Value → Option Value → Option Value → Type 0
MergedAt old none result = result ≡ old
MergedAt old (some v) result = (r : Value) × (merge_value old v ≡ ok r) × (result ≡ some r)

-- Merging goes key by key: a key that only the destination has keeps its value, and a key of the
-- source gets its own merge with what the destination had, whatever the order of the entries.
pub get-merge_fields :
    (k : String) (dest src m : Fields)
    → IsMap src
    → merge_fields dest src ≡ ok m
    → MergedAt (get k dest) (get k src) (get k m)
unfolding merge_fields get
get-merge_fields k dest no_fields m u h = ground arith
get-merge_fields k dest (field j v src) m u h =
    let (r, e, rest) =
      bind-eq-ok (merge_value (get j dest) v) (λ r. merge_fields (put j r dest) src) h in
    let ih = get-merge_fields k (put j r dest) src m u.1 rest in
    elim (Bool-cases (j == k)) [
      | inl t ↦
          let same = eq_of_test j k t in
          let absent : get k src ≡ none = rw same at u.0 in
          let found : get k m ≡ some r = rw (get-put, t, absent) at ih in
          rw t (r, rw same at e, found)
      | inr t ↦ rw t (rw (get-put, t) at ih)
    ]

-- A value with no nil map in it.
unfoldable mutual
  pub NoNil : Value → Type 0
  NoNil Values.nil_map = ⊥
  NoNil (object m) = NoNilFields m
  NoNil _ = Unit {0}

  pub NoNilFields : Fields → Type 0
  NoNilFields no_fields = Unit {0}
  NoNilFields (field k v m) = NoNil v × NoNilFields m

abbrev NoNilAt : Option Value → Type 0
NoNilAt none = Unit {0}
NoNilAt (some v) = NoNil v

get-NoNil : (k : String) (m : Fields) → NoNilFields m → NoNilAt (get k m)
unfolding get NoNil
get-NoNil k no_fields h = tt
get-NoNil k (field j v m) h = elim (Bool-cases (j == k)) [
  | inl t ↦ rw t h.0
  | inr t ↦ rw t (get-NoNil k m h.1)
]

put-NoNil :
    (k : String) (v : Value) (m : Fields) → NoNil v → NoNilFields m → NoNilFields (put k v m)
unfolding put NoNil
put-NoNil k v no_fields hv h = (hv, tt)
put-NoNil k v (field j w m) hv h = elim (Bool-cases (j == k)) [
  | inl t ↦ rw t (hv, h.1)
  | inr t ↦ rw t (h.0, put-NoNil k v m hv h.1)
]

-- Without nil maps a merge succeeds, and makes none.
mutual
  unfolding merge_fields NoNil

  merge_fields_total :
      (dest src : Fields)
      → NoNilFields dest
      → NoNilFields src
      → (m : Fields) × (merge_fields dest src ≡ ok m) × NoNilFields m
  merge_fields_total dest no_fields hd hs = (dest, refl, hd)
  merge_fields_total dest (field k v src) hd hs =
      let (r, e, hr) = merge_value_total (get k dest) v (get-NoNil k dest hd) hs.0 in
      let (m, e', hm) = merge_fields_total (put k r dest) src (put-NoNil k r dest hr hd) hs.1 in
      (m, rw e e', hm)

  merge_value_total :
      (old : Option Value) (v : Value)
      → NoNilAt old
      → NoNil v
      → (r : Value) × (merge_value old v ≡ ok r) × NoNil r
  merge_value_total (some (object dest)) (object src) hd hs =
      let (m, e, hm) = merge_fields_total dest src hd hs in (object m, rw e, hm)
  merge_value_total (some Values.nil_map) v hd hs = elim hd [ ]
  merge_value_total old Values.nil_map hd hs = elim hs [ ]
  merge_value_total old v hd hs = (v, refl, hs)

-- Merging a map, in which and in whose maps no key stands twice, into another, neither of them nil or
-- with a nil map in it, succeeds. A key that only the destination has keeps its value, a value of the
-- source replaces one unless both are maps, and two maps are merged in the same way, at every depth.
pub merge_maps_total :
    (dest src : Fields)
    → NoNilFields dest
    → NoNilFields src
    → IsGoMap src
    → (m : Fields) × (merge_maps (some dest) (some src) ≡ ok m)
      × ((k : String) → Merged (get k dest) (get k src) (get k m))
unfolding merge_maps
merge_maps_total dest src hd hs u =
    let (m, e, h) = merge_fields_total dest src hd hs in (m, e, merge_fields-Merged dest src m u e)

fresh_map-get :
    (m m' sub : Fields) (key : String)
    → fresh_map m key ≡ ok (m', some sub)
    → (get key m' ≡ some (object sub)) × ((k : String) → k ≢ key → get k m' ≡ get k m)
fresh_map-get m m' sub key h =
    let same : put key (object no_fields) m ≡ m' = ground arith in
    let same_sub : no_fields ≡ sub = ground arith in
    (
      rw (← same, ← same_sub)
          (ground (arith, get-put key key (object no_fields) m, eq_iff key key)),
      λ k n. rw (← same) (ground (arith, get-put key k (object no_fields) m, eq_iff key k)),
    )

as_sub_map-get :
    (m m' sub : Fields) (key : String) (old : Option Value)
    → get key m ≡ old
    → as_sub_map m key old ≡ ok (m', some sub)
    → (get key m' ≡ some (object sub)) × ((k : String) → k ≢ key → get k m' ≡ get k m)
as_sub_map-get m m' sub key none found h = fresh_map-get m m' sub key h
as_sub_map-get m m' sub key (some null) found h = fresh_map-get m m' sub key h
as_sub_map-get m m' sub key (some (object old)) found h =
    let same : m ≡ m' = ground arith in
    let same_sub : old ≡ sub = ground arith in
    (rw (← same, ← same_sub) found, λ k n. rw (← same) refl)
as_sub_map-get m m' sub key (some Values.nil_map) found h = ground arith
as_sub_map-get m m' sub key (some (bool b)) found h = ground arith
as_sub_map-get m m' sub key (some (num n)) found h = ground arith
as_sub_map-get m m' sub key (some (text t)) found h = ground arith
as_sub_map-get m m' sub key (some (list l)) found h = ground arith

-- A nested map that is returned is the one that stands at its key after the call, and no other key is
-- touched.
get_or_create_nested_map-get :
    (m m' sub : Fields) (key : String)
    → get_or_create_nested_map (some m) key ≡ ok (m', some sub)
    → (get key m' ≡ some (object sub)) × ((k : String) → k ≢ key → get k m' ≡ get k m)
unfolding get_or_create_nested_map
get_or_create_nested_map-get m m' sub key h =
    as_sub_map-get m m' sub key (get key m) refl (ground arith)

get-put_all :
    (k : String) (dest src : Fields)
    → IsMap src
    → get k (put_all dest src) ≡ elim (get k src) [ none ↦ get k dest | some v ↦ some v ]
unfolding put_all get
get-put_all k dest no_fields u = refl
get-put_all k dest (field j v src) u =
    ground (arith, eq_iff j k, u.0, get-put_all k (put j v dest) src u.1, get-put j k v dest)

put_maps-append :
    (dest m : Fields) (ms : List Fields)
    → put_maps dest (ms ++ m ∷ []) ≡ put_all (put_maps dest ms) m
put_maps-append dest m [] = refl
put_maps-append dest m (x ∷ ms) = put_maps-append (put_all dest x) m ms

-- In a shallow merge the last map, in which no key stands twice, decides the value of each key that
-- it has, and the merge of the others that of each further key.
get-shallow_merge :
    (k : String) (ms : List Fields) (m : Fields)
    → IsMap m
    → get k (shallow_merge (ms ++ m ∷ []))
      ≡ elim (get k m) [ none ↦ get k (shallow_merge ms) | some v ↦ some v ]
unfolding shallow_merge
get-shallow_merge k ms m u =
    rw (put_maps-append no_fields m ms) (get-put_all k (put_maps no_fields ms) m u)
