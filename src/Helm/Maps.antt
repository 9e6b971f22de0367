-- ===== src/Helm/Maps.antt =====
-- pkg/provider/helm/values.go: the functions on nested maps. A `map[string]any` is the list of its
-- entries, and a Go map that may be nil an `Option` of that. A map that the source changes in place
-- is returned.
pub mod Merging
pub mod Laws
use cofidectl.Common.{
  String, ◌==◌, Bool, true, false, Option, none, some, List, [], ◌∷◌, if◌then◌else◌,
}
use cofidectl.Common.Errors.{
  Error, Result, ok, err, ◌>>=◌, nil_map, empty_key, not_a_map, nil_source, nil_destination,
}
use cofidectl.Values
use cofidectl.Values.{Value, Fields, null, object, no_fields, field}

-- `m[key]`
unfoldable pub get : String → Fields → Option Value
get k no_fields = none
get k (field j v fs) = if j == k then some v else get k fs

-- `m[key] = value`
unfoldable pub put : String → Value → Fields → Fields
put k v no_fields = field k v no_fields
put k v (field j w fs) = if j == k then field k v fs else field j w (put k v fs)

-- The sub-map at `key` after an assignment of an empty map to it.
abbrev pub fresh_map : Fields → String → Result (Fields × Option Fields)
fresh_map m key = ok (put key (object no_fields) m, some no_fields)

abbrev pub as_sub_map : Fields → String → Option Value → Result (Fields × Option Fields)
as_sub_map m key none = fresh_map m key
as_sub_map m key (some null) = fresh_map m key
as_sub_map m key (some (object sub)) = ok (m, some sub)
as_sub_map m key (some Values.nil_map) = ok (m, none)
as_sub_map m key (some _) = err (not_a_map key)

-- `getOrCreateNestedMap`: the map after the call, and the map that it returns. The latter is the one
-- at `key`, so a caller that writes to it puts it back.
unfoldable pub get_or_create_nested_map : Option Fields → String → Result (Fields × Option Fields)
get_or_create_nested_map none key = err nil_map
get_or_create_nested_map (some m) key =
    if key == "" then err empty_key else as_sub_map m key (get key m)

-- `MergeMaps` on maps that are not nil, and the value that it assigns to one key.
unfoldable mutual
  pub merge_fields : Fields → Fields → Result Fields
  merge_fields dest no_fields = ok dest
  merge_fields dest (field key value src) =
      merge_value (get key dest) value >>= λ merged. merge_fields (put key merged dest) src

  pub merge_value : Option Value → Value → Result Value
  merge_value (some (object dest)) (object src) =
      merge_fields dest src >>= λ merged. ok (object merged)
  merge_value (some Values.nil_map) (object src) = err nil_destination
  merge_value (some (object dest)) Values.nil_map = err nil_source
  merge_value (some Values.nil_map) Values.nil_map = err nil_source
  merge_value _ value = ok value

-- `MergeMaps`
unfoldable pub merge_maps : Option Fields → Option Fields → Result Fields
unfolding merge_fields
merge_maps dest none = err nil_source
merge_maps none (some src) = err nil_destination
merge_maps (some dest) (some src) = merge_fields dest src

-- The entries of a map assigned one by one.
unfoldable pub put_all : Fields → Fields → Fields
put_all dest no_fields = dest
put_all dest (field key value src) = put_all (put key value dest) src

abbrev pub put_maps : Fields → List Fields → Fields
put_maps flattened [] = flattened
put_maps flattened (m ∷ ms) = put_maps (put_all flattened m) ms

-- `shallowMerge`
unfoldable pub shallow_merge : List Fields → Fields
unfolding put_all
shallow_merge maps = put_maps no_fields maps
