-- ===== src/Examples/Helm.antt =====
-- Two maps of Helm values, each with a map under the same key.
use cofidectl.Common.{◌≡◌, refl, String, some}
use cofidectl.Common.Errors.{ok}
use cofidectl.Values.{Fields, num, text, object, no_fields, field}
use cofidectl.Helm.Maps.{get, merge_maps}
use cofidectl.Helm.Maps.Merging.{Merged, IsGoValue}
use cofidectl.Helm.Maps.Laws.{NoNil, merge_maps_total}

abbrev dest : Fields
dest =
    field "spire" (object (field "replicas" (num 1) (field "port" (num 80) no_fields)))
      (field "log" (object no_fields) no_fields)

abbrev src : Fields
src =
    field "spire" (object (field "port" (num 8081) no_fields))
      (field "log" (text "debug") no_fields)

merge_maps_total_example :
    (m : Fields) × (merge_maps (some dest) (some src) ≡ ok m)
    × ((k : String) → Merged (get k dest) (get k src) (get k m))
unfolding NoNil IsGoValue get
merge_maps_total_example =
    merge_maps_total dest src ((tt, (tt, tt)), (tt, tt)) ((tt, tt), (tt, tt))
      (refl, ((refl, (tt, tt)), (refl, (tt, tt))))
