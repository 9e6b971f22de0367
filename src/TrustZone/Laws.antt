-- ===== src/TrustZone/Laws.antt =====
-- cmd/cofidectl/cmd/trustzone/trustzone.go over the local data source: what deleting a trust zone
-- does, and what its rollback does not.
use cofidectl.Common.{
  ℕ, ◌≡◌, ◌≢◌, ◌↔◌, ◌⊎◌, refl, ◌∙◌, inl, inr, Option-cases, String, Bool, true, false, some, List,
  [], ◌∷◌, ◌++◌, get_text, arith, eq_iff,
}
use cofidectl.Common.Errors.{Result, ok, err, not_found, zone_kind, Result-cases}
use cofidectl.Common.Keys.{All}
use cofidectl.Config.{Config, get_trust_zone_by_name, get_clusters_by_trust_zone}
use cofidectl.Config.WellFormed.{WellFormed}
use cofidectl.Config.Messages.{TrustZone, Cluster}
use cofidectl.Config.Loader.{Loader}
use cofidectl.Proto.{ProtoLib, IsProtoLib, clone_trust_zone_lem, clone_cluster_lem}
use cofidectl.Local.{clone_all_lem}
use cofidectl.Local.Zones
use cofidectl.Local.Zones.Laws.{destroy_trust_zone_done}
use cofidectl.Local.Clusters
use cofidectl.Local.Clusters.{listed_clusters}
use cofidectl.Local.Clusters.Invariant.{destroy_cluster-WellFormed}
use cofidectl.Local.Source.{SourceState, local_source}
use cofidectl.TrustZone.{
  check_deployed, resolve_cluster, rollback, destroy_clusters, delete_trust_zone,
}

-- A pre-delete check passes exactly when every cluster is known to be down.
check_deployed_iff :
    (deployed : Cluster → Result Bool) (xs : List Cluster)
    → (check_deployed deployed xs ≡ ok tt) ↔ All (λ x. deployed x ≡ ok false) xs
unfolding check_deployed
check_deployed_iff deployed [] = ((λ h. tt), λ h. refl)
check_deployed_iff deployed (x ∷ xs) = ground (arith, check_deployed_iff deployed xs)

abbrev zone_clusters : Config → String → List Cluster
zone_clusters c id = listed_clusters c (some (record { trust_zone_id = some id }))

module _ {S : Type 0} (lib : ProtoLib) (laws : IsProtoLib lib) (loader : Loader S)
    (uuids : ℕ → Result String) where
  -- Over the local data source the rollback of a failed deletion leaves the data source as it
  -- was: the clusters that it adds again still have their ids, and with one they are refused.
  pub rollback_adds_nothing :
      (xs : List Cluster) (d : SourceState S)
      → All (λ x. get_text x.id ≢ "") xs
      → (rollback (local_source lib loader uuids) xs d).lds ≡ d.lds
  unfolding rollback local_source Clusters.add_cluster
  rollback_adds_nothing [] d h = refl
  rollback_adds_nothing (x ∷ xs) d h =
      let next = ((local_source lib loader uuids).add_cluster x d).1 in
      rollback_adds_nothing xs next h.1 ∙ ground (arith, eq_iff (get_text x.id) "")

  destroy_clusters-WellFormed :
      (done xs : List Cluster) (d : SourceState S)
      → WellFormed d.lds.config
      → (destroy_clusters (local_source lib loader uuids) done xs d).0 ≡ ok tt
      → WellFormed (destroy_clusters (local_source lib loader uuids) done xs d).1.lds.config
  unfolding destroy_clusters local_source
  destroy_clusters-WellFormed done [] d w h = w
  destroy_clusters-WellFormed done (x ∷ xs) d w h =
      let next = ((local_source lib loader uuids).destroy_cluster (get_text x.id) d).1 in
      let w' = destroy_cluster-WellFormed lib laws loader (get_text x.id) d.lds w in
      elim (Result-cases (Clusters.destroy_cluster lib loader (get_text x.id) d.lds).0) [
        | inl (u, e) ↦
            rw (e, destroy_clusters)
              (destroy_clusters-WellFormed (done ++ x ∷ []) xs next w'
                (rw (e, destroy_clusters) at h))
        | inr other ↦ ground arith
      ]

  -- The parts of a deletion that succeeded.
  delete_parts :
      (deployed : Cluster → Result Bool) (force : Bool) (name : String) (d : SourceState S)
      → let ds = local_source lib loader uuids in
        let c = d.lds.config in
        (delete_trust_zone ds deployed force name d).0 ≡ ok tt
        → (tz : TrustZone) × (get_trust_zone_by_name c name ≡ some tz)
          × ((force ≡ true) ⊎ (check_deployed deployed (zone_clusters c (get_text tz.id)) ≡ ok tt))
          × ((destroy_clusters ds [] (zone_clusters c (get_text tz.id)) d).0 ≡ ok tt)
          × ((Zones.destroy_trust_zone lib loader
                (get_text tz.id)
                (destroy_clusters ds [] (zone_clusters c (get_text tz.id)) d).1.lds).0
              ≡ ok tt)
          × ((delete_trust_zone ds deployed force name d).1.lds
              ≡ (Zones.destroy_trust_zone lib loader
                  (get_text tz.id)
                  (destroy_clusters ds [] (zone_clusters c (get_text tz.id)) d).1.lds).1)
  unfolding delete_trust_zone local_source Zones.get_trust_zone_named Clusters.list_clusters
  delete_parts deployed force name d h =
      elim (Option-cases (get_trust_zone_by_name d.lds.config name)) [
        | inl missing ↦ ground arith
        | inr (tz, found) ↦
            let listed =
              clone_all_lem _ (clone_cluster_lem lib laws)
                (zone_clusters d.lds.config (get_text tz.id)) in
            let copied = clone_trust_zone_lem lib laws tz in
            (
              tz,
              found,
              ground (arith, listed, copied),
              ground (arith, listed, copied),
              ground (arith, listed, copied),
              ground (arith, listed, copied),
            )
      ]

  -- Deleting a trust zone without `--force` succeeds only if each of its clusters is known to be down.
  -- After a successful deletion from a well-formed configuration the trust zone is not found by the id
  -- that it had, and no binding and no federation names it.
  pub delete_trust_zone_done :
      (deployed : Cluster → Result Bool) (force : Bool) (name : String) (d : SourceState S)
      → WellFormed d.lds.config
      → (delete_trust_zone (local_source lib loader uuids) deployed force name d).0 ≡ ok tt
      → let after =
          (delete_trust_zone (local_source lib loader uuids) deployed force name d).1.lds in
        (tz : TrustZone) × (get_trust_zone_by_name d.lds.config name ≡ some tz)
        × ((force ≡ true)
            ⊎ All (λ x. deployed x ≡ ok false) (zone_clusters d.lds.config (get_text tz.id)))
        × (Zones.get_trust_zone lib loader (get_text tz.id) after
            ≡ (err (not_found zone_kind (get_text tz.id)), after))
        × (All (λ b. get_text b.trust_zone_id ≢ get_text tz.id) after.config.ap_bindings)
        × (All
            (λ f.
              (get_text f.trust_zone_id ≢ get_text tz.id)
              × (get_text f.remote_trust_zone_id ≢ get_text tz.id))
            after.config.federations)
  delete_trust_zone_done deployed force name d w h =
      let (tz, found, checked, emptied, destroyed, same) = delete_parts deployed force name d h in
      let w' =
        destroy_clusters-WellFormed [] (zone_clusters d.lds.config (get_text tz.id)) d w emptied in
      let (gone, bindings, federations) =
        destroy_trust_zone_done lib laws loader (get_text tz.id) _ w' destroyed in
      (
        tz,
        found,
        elim checked [
          | inl forced ↦ inl forced
          | inr passed ↦
              inr (
                (check_deployed_iff deployed (zone_clusters d.lds.config (get_text tz.id))).0
                  passed)
        ],
        rw same gone,
        rw same bindings,
        rw same federations,
      )

  -- Over the local data source, with a trust zone that has an id, a cluster name that is left out
  -- is resolved to a cluster without a change exactly when it is the only cluster of the trust
  -- zone.
  resolve_cluster_unnamed :
      (tz : TrustZone) (x : Cluster) (d : SourceState S)
      → get_text tz.id ≢ ""
      → (resolve_cluster (local_source lib loader uuids) tz "" d ≡ (ok x, d))
        ↔ (get_clusters_by_trust_zone d.lds.config (get_text tz.id) ≡ x ∷ [])
  unfolding resolve_cluster local_source Clusters.list_clusters
  resolve_cluster_unnamed tz x d named = ground (
    arith,
    eq_iff (get_text tz.id) "",
    clone_all_lem _ (clone_cluster_lem lib laws)
        (get_clusters_by_trust_zone d.lds.config (get_text tz.id)),
  )
