-- ===== src/Examples/Clusters.antt =====
-- The theorems on the cluster methods at the small configuration.
use cofidectl.Common.{◌≡◌, ◌≢◌, refl, String, none, some, find_first, remove_first}
use cofidectl.Common.Errors.{err, cluster_kind, not_found}
use cofidectl.Config.{get_cluster_by_id}
use cofidectl.Config.Messages.{Cluster}
use cofidectl.Local.{update_data_file}
use cofidectl.Examples.Data.{
  copying, copying-IsProtoLib, keeping, cluster_one, small, small-WellFormed, opened,
}
use cofidectl.Local.Clusters.{destroy_cluster, get_cluster}
use cofidectl.Local.Clusters.Laws.{destroy_cluster_done}

abbrev cluster_two : Cluster
cluster_two = record cluster_one { id = none; name = some "two"; profile = some "istio" }

abbrev new_cluster : Cluster
new_cluster = record cluster_two { id = some "n" }

destroy_cluster_done_example :
    let after = (destroy_cluster copying keeping "c" opened).1 in
    (get_cluster copying keeping "c" after ≡ (err (not_found cluster_kind "c"), after))
    × ((j : String) → j ≢ "c" → get_cluster_by_id after.config j ≡ get_cluster_by_id small j)
unfolding destroy_cluster update_data_file find_first remove_first get_cluster_by_id
destroy_cluster_done_example =
    destroy_cluster_done copying copying-IsProtoLib keeping "c" opened small-WellFormed refl
