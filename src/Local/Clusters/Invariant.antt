-- ===== src/Local/Clusters/Invariant.antt =====
-- pkg/plugin/local/local.go: the cluster methods keep a configuration well-formed.
use mathlib.Core.Path.{subst}
use cofidectl.Common.{
  ◌≡◌, ◌≢◌, sym, ap, ◌⊎◌, inl, inr, String, ◌==◌, ◌&&◌, false, none, some, [], ◌∷◌, ◌++◌, arith,
  eq_iff, get_text, eq_of_test, find_first, find_first-passes, remove_first, replace_first,
}
use cofidectl.Common.Errors.{Result, ok}
use cofidectl.Common.Keys.{
  All, All-map, All-none, Unique-append, Unique-replace_first, Unique-remove_first,
}
use cofidectl.Config.{cluster_has_id, get_cluster_by_name}
use cofidectl.Config.Messages.{Cluster}
use cofidectl.Config.WellFormed.{WellFormed, cluster_id, cluster_name}
use cofidectl.Config.WellFormed.Changes.{set_clusters}
use cofidectl.Config.Loader.{Loader}
use cofidectl.Proto.{ProtoLib, IsProtoLib, clone_cluster_lem}
use cofidectl.Local.{LocalDataSource}
use cofidectl.Local.Clusters.{add_cluster, destroy_cluster, update_cluster, validate_cluster_update}

module _ {S : Type 0} (lib : ProtoLib) (laws : IsProtoLib lib) (loader : Loader S) where
  add_cluster_outcome :
      (uid : Result String) (cluster : Cluster) (lds : LocalDataSource S)
      → let c = lds.config in
        let c' = (add_cluster lib loader uid cluster lds).1.config in
        (c' ≡ c)
        ⊎ ((id : String) × (uid ≡ ok id)
            × (get_cluster_by_name c (get_text cluster.name) (get_text cluster.trust_zone_id)
                ≡ none)
            × (c' ≡ record c { clusters = c.clusters ++ record cluster { id = some id } ∷ [] }))
  unfolding add_cluster
  add_cluster_outcome uid cluster lds = ground (arith, clone_cluster_lem lib laws cluster)

  destroy_cluster_outcome :
      (id : String) (lds : LocalDataSource S)
      → let c = lds.config in
        let c' = (destroy_cluster lib loader id lds).1.config in
        (c' ≡ c) ⊎ (c' ≡ record c { clusters = remove_first (cluster_has_id id) c.clusters })
  unfolding destroy_cluster
  destroy_cluster_outcome id lds = ground arith

  update_cluster_outcome :
      (cluster : Cluster) (lds : LocalDataSource S)
      → let c = lds.config in
        let id = get_text cluster.id in
        let c' = (update_cluster lib loader cluster lds).1.config in
        (c' ≡ c)
        ⊎ ((current : Cluster) × (find_first (cluster_has_id id) c.clusters ≡ some current)
            × (validate_cluster_update current cluster ≡ ok tt)
            × (c' ≡ record c { clusters = replace_first (cluster_has_id id) cluster c.clusters }))
  unfolding update_cluster
  update_cluster_outcome cluster lds = ground (arith, clone_cluster_lem lib laws cluster)

other_name :
    (name zone : String) (x : Cluster)
    → (get_text x.name == name && get_text x.trust_zone_id == zone) ≡ false
    → cluster_name x ≢ (name, zone)
other_name name zone x h e = ground (
  arith,
  eq_iff (get_text x.name) name,
  eq_iff (get_text x.trust_zone_id) zone,
  ap (λ (p : String × String). p.0) e,
  ap (λ (p : String × String). p.1) e,
)

validated :
    (current new : Cluster)
    → validate_cluster_update current new ≡ ok tt
    → (get_text new.name ≡ get_text current.name)
      × (get_text new.trust_zone_id ≡ get_text current.trust_zone_id)
unfolding validate_cluster_update
validated current new h = ground (
  arith,
  eq_iff (get_text new.name) (get_text current.name),
  eq_iff (get_text new.trust_zone_id) (get_text current.trust_zone_id),
)

module _ {S : Type 0} (lib : ProtoLib) (laws : IsProtoLib lib) (loader : Loader S) where
  -- Adding a cluster keeps the configuration in memory well-formed, whether the call succeeds or
  -- fails, if the new UUID is no cluster's id yet.
  pub add_cluster-WellFormed :
      (uid : Result String) (cluster : Cluster) (lds : LocalDataSource S)
      → ((id : String) → uid ≡ ok id → All (λ x. cluster_id x ≢ id) lds.config.clusters)
      → WellFormed lds.config
      → WellFormed (add_cluster lib loader uid cluster lds).1.config
  unfolding get_cluster_by_name
  add_cluster-WellFormed uid cluster lds fresh w =
      elim (add_cluster_outcome lib laws loader uid cluster lds) [
        | inl same ↦ subst WellFormed (sym same) w
        | inr (id, made, named, e) ↦ subst WellFormed (sym e) (
            set_clusters w _ (record {
              ids = Unique-append cluster_id _ _ w.clusters.ids (fresh id made);
              names =
                  Unique-append cluster_name _ _ w.clusters.names
                    (All-map _ (λ x t. other_name _ _ x t) _ (All-none _ _ named));
            }))
      ]

  -- Destroying a cluster keeps the configuration in memory well-formed, whether the call succeeds
  -- or fails.
  pub destroy_cluster-WellFormed :
      (id : String) (lds : LocalDataSource S)
      → WellFormed lds.config
      → WellFormed (destroy_cluster lib loader id lds).1.config
  destroy_cluster-WellFormed id lds w = elim (destroy_cluster_outcome lib laws loader id lds) [
    | inl same ↦ subst WellFormed (sym same) w
    | inr e ↦ subst WellFormed (sym e) (
        set_clusters w _ (record {
          ids = Unique-remove_first cluster_id _ _ w.clusters.ids;
          names = Unique-remove_first cluster_name _ _ w.clusters.names;
        }))
  ]

  -- Updating a cluster keeps the configuration in memory well-formed, whether the call succeeds or
  -- fails.
  pub update_cluster-WellFormed :
      (cluster : Cluster) (lds : LocalDataSource S)
      → WellFormed lds.config
      → WellFormed (update_cluster lib loader cluster lds).1.config
  update_cluster-WellFormed cluster lds w =
      elim (update_cluster_outcome lib laws loader cluster lds) [
        | inl same ↦ subst WellFormed (sym same) w
        | inr (current, found, valid, e) ↦ subst WellFormed (sym e) (
            set_clusters w _ (record {
              ids =
                  Unique-replace_first cluster_id _ _ current _ found
                    (sym (eq_of_test _ _ (find_first-passes _ _ current found))) w.clusters.ids;
              names =
                  Unique-replace_first cluster_name _ _ current _ found
                    (let same = validated current cluster valid in λ i. (same.0 i, same.1 i))
                    w.clusters.names;
            }))
      ]
