-- ===== src/Local/Clusters/Laws.antt =====
-- pkg/plugin/local/local.go: what the cluster methods promise.
use cofidectl.Common.{
  ◌≡◌, ◌≢◌, ◌↔◌, String, ◌==◌, ◌&&◌, Option, none, some, List, [], ◌∷◌, ◌++◌, arith, eq_iff,
  get_text, find_first, find_first-append, remove_first,
}
use cofidectl.Common.Errors.{ok, err, not_found, cluster_kind, clusters_exist}
use cofidectl.Common.Keys.{
  All, find_first-none, find_first-remove_first_ne, find_first-remove_first,
}
use cofidectl.Config.{
  cluster_has_id, get_cluster_by_name, get_cluster_by_id, get_clusters_by_trust_zone,
}
use cofidectl.Config.Messages.{ClusterFilter, Cluster, TrustProvider}
use cofidectl.Config.WellFormed.{WellFormed, cluster_id}
use cofidectl.Config.Loader.{Loader}
use cofidectl.Proto.{ProtoLib, IsProtoLib, clone_cluster_lem}
use cofidectl.Local.{LocalDataSource, clone_all_lem}
use cofidectl.Local.Zones.{destroy_trust_zone}
use cofidectl.Local.Clusters.{
  add_cluster, destroy_cluster, get_cluster, get_cluster_named, list_clusters, listed_clusters,
  validate_cluster_update, validate_trust_provider_update,
}

-- Both clusters have a trust provider, of one kind.
abbrev pub SameProviderKind : Option TrustProvider → Option TrustProvider → Type 0
SameProviderKind none new = ⊥
SameProviderKind (some current) none = ⊥
SameProviderKind (some current) (some new) = get_text new.kind ≡ get_text current.kind

provider_iff :
    (cluster tz : String) (current new : Option TrustProvider)
    → (validate_trust_provider_update cluster tz current new ≡ ok tt) ↔ SameProviderKind current new
unfolding validate_trust_provider_update
provider_iff cluster tz none new = ((λ h. cc), λ h. elim h [ ])
provider_iff cluster tz (some current) none = ((λ h. cc), λ h. elim h [ ])
provider_iff cluster tz (some current) (some new) =
    ground (arith, eq_iff (get_text new.kind) (get_text current.kind))

-- An update of a cluster is accepted exactly when it keeps the id, the name, the trust zone and the
-- profile, and both have a trust provider of one kind.
validate_cluster_update_iff :
    (current new : Cluster)
    → (validate_cluster_update current new ≡ ok tt) ↔ (
        (get_text new.id ≡ get_text current.id)
        × (get_text new.name ≡ get_text current.name)
        × (get_text new.trust_zone_id ≡ get_text current.trust_zone_id)
        × (get_text new.profile ≡ get_text current.profile)
        × SameProviderKind current.trust_provider new.trust_provider)
unfolding validate_cluster_update
validate_cluster_update_iff current new =
    let provider =
      provider_iff (get_text current.id) (get_text current.trust_zone_id) current.trust_provider
        new.trust_provider in
    ground (
      arith,
      provider,
      eq_iff (get_text new.id) (get_text current.id),
      eq_iff (get_text new.name) (get_text current.name),
      eq_iff (get_text new.trust_zone_id) (get_text current.trust_zone_id),
      eq_iff (get_text new.profile) (get_text current.profile),
    )

module _ {S : Type 0} (lib : ProtoLib) (laws : IsProtoLib lib) (loader : Loader S) where
  added :
      (id : String) (x new : Cluster) (lds : LocalDataSource S)
      → (add_cluster lib loader (ok id) x lds).0 ≡ ok new
      → (new ≡ record x { id = some id })
        × (get_cluster_by_name lds.config (get_text x.name) (get_text x.trust_zone_id) ≡ none)
        × ((add_cluster lib loader (ok id) x lds).1.config.clusters
            ≡ lds.config.clusters ++ record x { id = some id } ∷ [])
  unfolding add_cluster
  added id x new lds h =
      ground (
        arith,
        clone_cluster_lem lib laws x,
        clone_cluster_lem lib laws (record x { id = some id }),
      )

  -- A cluster that was added under an unused id is what both lookups then return.
  get-add_cluster :
      (id : String) (x new : Cluster) (lds : LocalDataSource S)
      → All (λ y. cluster_id y ≢ id) lds.config.clusters
      → (add_cluster lib loader (ok id) x lds).0 ≡ ok new
      → let after = (add_cluster lib loader (ok id) x lds).1 in
        (new ≡ record x { id = some id })
        × ((get_cluster lib loader id after).0 ≡ ok new)
        × ((get_cluster_named lib loader (get_text x.name) (get_text x.trust_zone_id) after).0
            ≡ ok new)
  unfolding get_cluster get_cluster_named get_cluster_by_id get_cluster_by_name find_first
  get-add_cluster id x new lds fresh h =
      let (made, named, appended) = added id x new lds h in
      let absent = find_first-none cluster_id id lds.config.clusters fresh in
      let x' : Cluster = record x { id = some id } in
      ground (
        arith,
        appended,
        absent,
        find_first-append (cluster_has_id id) lds.config.clusters (x' ∷ []),
        find_first-append
            (λ y.
              get_text y.name == get_text x.name
              && get_text y.trust_zone_id == get_text x.trust_zone_id)
            lds.config.clusters (x' ∷ []),
        eq_iff id id,
        eq_iff (get_text x.name) (get_text x.name),
        eq_iff (get_text x.trust_zone_id) (get_text x.trust_zone_id),
        clone_cluster_lem lib laws x',
      )

  -- A listing by a trust zone's id, which is not empty, returns the clusters of that trust zone, and
  -- a listing with no filter or an empty one returns all of them.
  pub list_clusters_lem :
      (f : Option ClusterFilter) (lds : LocalDataSource S)
      → list_clusters lib loader f lds ≡ (ok (listed_clusters lds.config f), lds)
  unfolding list_clusters
  list_clusters_lem f lds =
      ground (arith, clone_all_lem _ (clone_cluster_lem lib laws) (listed_clusters lds.config f))

  -- A trust zone can be destroyed only when a listing of its clusters is empty: while the listing shows
  -- one, the call fails with that reason.
  listed_clusters_block :
      (id : String) (x : Cluster) (xs : List Cluster) (lds : LocalDataSource S)
      → id ≢ ""
      → list_clusters lib loader (some (record { trust_zone_id = some id })) lds
        ≡ (ok (x ∷ xs), lds)
      → destroy_trust_zone lib loader id lds ≡ (err (clusters_exist id), lds)
  unfolding list_clusters destroy_trust_zone
  listed_clusters_block id x xs lds named listed = ground (
    arith,
    eq_iff id "",
    clone_all_lem _ (clone_cluster_lem lib laws) (get_clusters_by_trust_zone lds.config id),
  )

  destroyed :
      (id : String) (lds : LocalDataSource S)
      → (destroy_cluster lib loader id lds).0 ≡ ok tt
      → (destroy_cluster lib loader id lds).1.config.clusters
        ≡ remove_first (cluster_has_id id) lds.config.clusters
  unfolding destroy_cluster
  destroyed id lds h = ground arith

  -- From a well-formed configuration, a cluster that was destroyed is not found by its id any
  -- more, and every other id leads to what it led to before.
  pub destroy_cluster_done :
      (id : String) (lds : LocalDataSource S)
      → WellFormed lds.config
      → (destroy_cluster lib loader id lds).0 ≡ ok tt
      → let after = (destroy_cluster lib loader id lds).1 in
        (get_cluster lib loader id after ≡ (err (not_found cluster_kind id), after))
        × ((j : String)
            → j ≢ id
            → get_cluster_by_id after.config j ≡ get_cluster_by_id lds.config j)
  unfolding get_cluster get_cluster_by_id
  destroy_cluster_done id lds w h =
      let removed = destroyed id lds h in
      (
        ground (
          arith,
          removed,
          find_first-remove_first cluster_id id lds.config.clusters w.clusters.ids,
        ),
        λ j n. rw removed (find_first-remove_first_ne cluster_id id j lds.config.clusters n),
      )
