-- ===== src/Examples/Commands.antt =====
-- The commands at the small configuration.
use cofidectl.Common.{
  ◌≡◌, refl, String, Bool, true, false, Option, none, some, List, [], ◌∷◌, get_text, filter,
}
use cofidectl.Common.Errors.{ok, err, library}
use cofidectl.Common.Action.{Action}
use cofidectl.Config.Messages.{TrustZone, Cluster}
use cofidectl.Helm.Entries.{format_selectors}
use cofidectl.Commands.Selectors.{
  parse_selectors, parse_selector, split_once, format_selectors-parse_selectors,
}
use cofidectl.Commands.Clusters.{delete_cluster}
use cofidectl.Commands.Clusters.Deletion.{delete_cluster_down}
use cofidectl.Commands.Rollout.{trust_zone_ids, up, down}
use cofidectl.Commands.Rollout.Outcome.{up-Agrees, down-Agrees, up_unreported}
use cofidectl.Local.Source.{local_source}
use cofidectl.Provision.Tells.{Agrees}
use cofidectl.Provision.Spire.{tear_down, list_trust_zone_clusters}
use cofidectl.Provision.Spire.Deploy.{deploy}
use cofidectl.Examples.Data.{source}
use cofidectl.Examples.Provision.{
  World, text, text-named, factory, factory-BuildsTelling, apis, local, local-lists, plugin, broken,
}

format_selectors-parse_selectors_example :
    format_selectors (record { type_name = "k8s"; value = "ns:default" } ∷ [])
    ≡ ok ("k8s:ns:default" ∷ [])
unfolding parse_selectors parse_selector split_once
format_selectors-parse_selectors_example =
    format_selectors-parse_selectors ("k8s:ns:default" ∷ [])
      (record { type_name = "k8s"; value = "ns:default" } ∷ []) refl

down-Agrees_example :
    Agrees text
      (tear_down text factory local
        (record { kube_cfg_file = "config"; trust_zone_ids = "b" ∷ [] })
        (record { sent = []; world = source })).0
      (down local plugin "config" ("beta" ∷ []) source).0
unfolding local_source trust_zone_ids cofidectl.Commands.zone_named
    cofidectl.Local.Zones.list_trust_zones cofidectl.Local.clone_all
    cofidectl.Proto.clone_trust_zone
down-Agrees_example =
    down-Agrees text text-named none factory factory-BuildsTelling apis local "config" ("beta" ∷ [])
      source refl refl

up-Agrees_example :
    Agrees text
      (deploy text none factory apis local
        (record { kube_cfg_file = "config"; trust_zone_ids = "b" ∷ []; skip_wait = false })
        (record { sent = []; world = source })).0
      (up local plugin "config" (record { skip_wait = false; trust_zones = "beta" ∷ [] }) source).0
unfolding local_source trust_zone_ids cofidectl.Commands.zone_named
    cofidectl.Local.Zones.list_trust_zones cofidectl.Local.clone_all
    cofidectl.Proto.clone_trust_zone
up-Agrees_example =
    up-Agrees text text-named none factory factory-BuildsTelling apis local "config" local-lists
      (record { skip_wait = false; trust_zones = "beta" ∷ [] }) source refl refl

up_unreported_example :
    (deploy text none factory apis broken
        (record { kube_cfg_file = "config"; trust_zone_ids = "b" ∷ []; skip_wait = false })
        (record { sent = []; world = source })
      ≡ (err (library "down"), record { sent = []; world = source }))
    × (up broken plugin "config" (record { skip_wait = false; trust_zones = "beta" ∷ [] }) source
        ≡ (ok tt, source))
unfolding local_source trust_zone_ids cofidectl.Commands.zone_named list_trust_zone_clusters
    cofidectl.Local.Zones.list_trust_zones cofidectl.Local.clone_all
    cofidectl.Proto.clone_trust_zone cofidectl.Local.Clusters.list_clusters
    cofidectl.Config.get_clusters_by_trust_zone filter cofidectl.Proto.clone_cluster
    cofidectl.Local.Zones.get_trust_zone cofidectl.Config.get_trust_zone_by_id
    cofidectl.Common.find_first
up_unreported_example =
    up_unreported text none factory apis broken "config"
      (record { skip_wait = false; trust_zones = "beta" ∷ [] }) source refl refl refl refl

-- No cluster is up.
abbrev none_up : Cluster → Action World Bool
none_up c w = (ok false, w)

abbrev after : World
after = (delete_cluster local none_up "one" "beta" false source).1

delete_cluster_down_example :
    (tz : TrustZone) × (cluster : Cluster) × (w1 : World) × (w2 : World) × (w3 : World)
    × (local.get_trust_zone_named "beta" source ≡ (ok tz, w1))
    × (local.get_cluster_named "one" (get_text tz.id) w1 ≡ (ok cluster, w2))
    × (none_up cluster w2 ≡ (ok false, w3))
    × (local.destroy_cluster (get_text cluster.id) w3 ≡ (ok tt, after))
unfolding delete_cluster local_source cofidectl.Local.Zones.get_trust_zone_named
    cofidectl.Config.get_trust_zone_by_name cofidectl.Common.find_first
    cofidectl.Proto.clone_trust_zone cofidectl.Local.Clusters.get_cluster_named
    cofidectl.Config.get_cluster_by_name cofidectl.Proto.clone_cluster
    cofidectl.Local.Clusters.destroy_cluster
delete_cluster_down_example = delete_cluster_down local none_up "one" "beta" source after refl
