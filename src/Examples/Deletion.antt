-- ===== src/Examples/Deletion.antt =====
-- The theorems on the trust zone commands at the small configuration.
use cofidectl.Common.{
  ◌≡◌, ◌≢◌, ◌⊎◌, refl, true, false, some, [], ◌∷◌, get_text, ne_of_test, find_first, filter,
  remove_first,
}
use cofidectl.Common.Keys.{All}
use cofidectl.Common.Errors.{ok, err, zone_kind, not_found}
use cofidectl.Config.{get_trust_zone_by_name, get_clusters_by_trust_zone}
use cofidectl.Config.Messages.{TrustZone}
use cofidectl.Proto.{clone_trust_zone, clone_cluster}
use cofidectl.Local.{clone_all, update_data_file}
use cofidectl.Examples.Data.{
  copying, copying-IsProtoLib, keeping, cluster_one, small, small-WellFormed, opened, uuids, source,
}
use cofidectl.Local.Zones.{get_trust_zone, get_trust_zone_named, destroy_trust_zone}
use cofidectl.Local.Clusters.{listed_clusters, list_clusters, destroy_cluster}
use cofidectl.Local.Source.{local_source}
use cofidectl.TrustZone.{check_deployed, rollback, delete_trust_zone, destroy_clusters}
use cofidectl.TrustZone.Laws.{rollback_adds_nothing, delete_trust_zone_done}

rollback_adds_nothing_example :
    (rollback (local_source copying keeping uuids) (cluster_one ∷ []) source).lds ≡ opened
rollback_adds_nothing_example =
    rollback_adds_nothing copying copying-IsProtoLib keeping uuids (cluster_one ∷ []) source
      (ne_of_test "c" "" refl, tt)

delete_trust_zone_done_example :
    let after =
      (delete_trust_zone
        (local_source copying keeping uuids)
        (λ x. ok false)
        false
        "beta"
        source).1.lds in
    (tz : TrustZone) × (get_trust_zone_by_name small "beta" ≡ some tz)
    × ((false ≡ true)
        ⊎ All
            (λ x. ok false ≡ ok false)
            (listed_clusters small (some (record { trust_zone_id = some (get_text tz.id) }))))
    × (get_trust_zone copying keeping (get_text tz.id) after
        ≡ (err (not_found zone_kind (get_text tz.id)), after))
    × (All (λ b. get_text b.trust_zone_id ≢ get_text tz.id) after.config.ap_bindings)
    × (All
        (λ f.
          (get_text f.trust_zone_id ≢ get_text tz.id)
          × (get_text f.remote_trust_zone_id ≢ get_text tz.id))
        after.config.federations)
unfolding delete_trust_zone local_source get_trust_zone_named destroy_trust_zone destroy_clusters
    list_clusters destroy_cluster update_data_file check_deployed clone_all clone_cluster
    clone_trust_zone get_trust_zone_by_name get_clusters_by_trust_zone find_first filter
    remove_first
delete_trust_zone_done_example =
    delete_trust_zone_done copying copying-IsProtoLib keeping uuids (λ x. ok false) false "beta"
      source small-WellFormed refl
