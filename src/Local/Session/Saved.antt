-- ===== src/Local/Session/Saved.antt =====
-- pkg/plugin/local/local.go: what a call that succeeds has stored, and what a new process reads back.
use cofidectl.Common.{◌≡◌, String, arith}
use cofidectl.Common.Errors.{Result, ok}
use cofidectl.Common.Action.{Action}
use cofidectl.Config.{Config}
use cofidectl.Config.Messages.{TrustZone, Cluster, AttestationPolicy, ApBinding, Federation}
use cofidectl.Config.Loader.{Loader}
use cofidectl.Config.Loader.Persistence.{Persists}
use cofidectl.Proto.{ProtoLib}
use cofidectl.Local.{LocalDataSource, new_local_data_source}
use cofidectl.Local.Zones.{add_trust_zone, destroy_trust_zone, update_trust_zone}
use cofidectl.Local.Clusters.{add_cluster, destroy_cluster, update_cluster}
use cofidectl.Local.Policies.{add_attestation_policy, destroy_attestation_policy}
use cofidectl.Local.Bindings.{add_ap_binding, destroy_ap_binding, update_ap_binding}
use cofidectl.Local.Federations.{add_federation, destroy_federation}
use cofidectl.Local.Session.{
  Call, adds_zone, destroys_zone, updates_zone, adds_cluster, destroys_cluster, updates_cluster,
  adds_policy, destroys_policy, adds_binding, destroys_binding, updates_binding, adds_federation,
  destroys_federation, discard, discard_state, call,
}

-- The store of `lds'` is what `write` made of the store of `lds` and the configuration of `lds'`.
abbrev Wrote : {S : Type 0} → Loader S → LocalDataSource S → LocalDataSource S → Type 0
Wrote loader lds lds' = loader.write lds'.config lds.store ≡ (ok tt, lds'.store)

discard_ok :
    {S A : Type 0} (m : Action S A) (s : S) → (discard m s).0 ≡ ok tt → (a : A) × ((m s).0 ≡ ok a)
unfolding discard
discard_ok m s h = ground arith

module _ {S : Type 0} (lib : ProtoLib) (loader : Loader S) where
  add_trust_zone_writes :
      (uid : Result String) (x : TrustZone) (a : TrustZone) (lds : LocalDataSource S)
      → (add_trust_zone lib loader uid x lds).0 ≡ ok a
      → Wrote loader lds (add_trust_zone lib loader uid x lds).1
  unfolding add_trust_zone
  add_trust_zone_writes uid x a lds h = ground arith

  destroy_trust_zone_writes :
      (id : String) (lds : LocalDataSource S)
      → (destroy_trust_zone lib loader id lds).0 ≡ ok tt
      → Wrote loader lds (destroy_trust_zone lib loader id lds).1
  unfolding destroy_trust_zone
  destroy_trust_zone_writes id lds h = ground arith

  update_trust_zone_writes :
      (x : TrustZone) (a : TrustZone) (lds : LocalDataSource S)
      → (update_trust_zone lib loader x lds).0 ≡ ok a
      → Wrote loader lds (update_trust_zone lib loader x lds).1
  unfolding update_trust_zone
  update_trust_zone_writes x a lds h = ground arith

  add_cluster_writes :
      (uid : Result String) (x : Cluster) (a : Cluster) (lds : LocalDataSource S)
      → (add_cluster lib loader uid x lds).0 ≡ ok a
      → Wrote loader lds (add_cluster lib loader uid x lds).1
  unfolding add_cluster
  add_cluster_writes uid x a lds h = ground arith

  destroy_cluster_writes :
      (id : String) (lds : LocalDataSource S)
      → (destroy_cluster lib loader id lds).0 ≡ ok tt
      → Wrote loader lds (destroy_cluster lib loader id lds).1
  unfolding destroy_cluster
  destroy_cluster_writes id lds h = ground arith

  update_cluster_writes :
      (x : Cluster) (a : Cluster) (lds : LocalDataSource S)
      → (update_cluster lib loader x lds).0 ≡ ok a
      → Wrote loader lds (update_cluster lib loader x lds).1
  unfolding update_cluster
  update_cluster_writes x a lds h = ground arith

  add_attestation_policy_writes :
      (uid : Result String) (x : AttestationPolicy) (a : AttestationPolicy)
      (lds : LocalDataSource S)
      → (add_attestation_policy lib loader uid x lds).0 ≡ ok a
      → Wrote loader lds (add_attestation_policy lib loader uid x lds).1
  unfolding add_attestation_policy
  add_attestation_policy_writes uid x a lds h = ground arith

  destroy_attestation_policy_writes :
      (id : String) (lds : LocalDataSource S)
      → (destroy_attestation_policy lib loader id lds).0 ≡ ok tt
      → Wrote loader lds (destroy_attestation_policy lib loader id lds).1
  unfolding destroy_attestation_policy
  destroy_attestation_policy_writes id lds h = ground arith

  add_ap_binding_writes :
      (uid : Result String) (x : ApBinding) (a : ApBinding) (lds : LocalDataSource S)
      → (add_ap_binding lib loader uid x lds).0 ≡ ok a
      → Wrote loader lds (add_ap_binding lib loader uid x lds).1
  unfolding add_ap_binding
  add_ap_binding_writes uid x a lds h = ground arith

  destroy_ap_binding_writes :
      (id : String) (lds : LocalDataSource S)
      → (destroy_ap_binding lib loader id lds).0 ≡ ok tt
      → Wrote loader lds (destroy_ap_binding lib loader id lds).1
  unfolding destroy_ap_binding
  destroy_ap_binding_writes id lds h = ground arith

  update_ap_binding_writes :
      (x : ApBinding) (a : ApBinding) (lds : LocalDataSource S)
      → (update_ap_binding lib loader x lds).0 ≡ ok a
      → Wrote loader lds (update_ap_binding lib loader x lds).1
  unfolding update_ap_binding
  update_ap_binding_writes x a lds h = ground arith

  add_federation_writes :
      (uid : Result String) (x : Federation) (a : Federation) (lds : LocalDataSource S)
      → (add_federation lib loader uid x lds).0 ≡ ok a
      → Wrote loader lds (add_federation lib loader uid x lds).1
  unfolding add_federation
  add_federation_writes uid x a lds h = ground arith

  destroy_federation_writes :
      (id : String) (lds : LocalDataSource S)
      → (destroy_federation lib loader id lds).0 ≡ ok tt
      → Wrote loader lds (destroy_federation lib loader id lds).1
  unfolding destroy_federation
  destroy_federation_writes id lds h = ground arith

  -- The last thing that a successful call did was to write the configuration that it left in memory.
  call_writes :
      (k : Call) (lds : LocalDataSource S)
      → (call lib loader k lds).0 ≡ ok tt
      → Wrote loader lds (call lib loader k lds).1
  unfolding call
  call_writes (adds_zone uid x) lds h =
      let (a, e) = discard_ok (add_trust_zone lib loader uid x) lds h in
      rw discard_state (add_trust_zone_writes uid x a lds e)
  call_writes (destroys_zone id) lds h = destroy_trust_zone_writes id lds h
  call_writes (updates_zone x) lds h =
      let (a, e) = discard_ok (update_trust_zone lib loader x) lds h in
      rw discard_state (update_trust_zone_writes x a lds e)
  call_writes (adds_cluster uid x) lds h =
      let (a, e) = discard_ok (add_cluster lib loader uid x) lds h in
      rw discard_state (add_cluster_writes uid x a lds e)
  call_writes (destroys_cluster id) lds h = destroy_cluster_writes id lds h
  call_writes (updates_cluster x) lds h =
      let (a, e) = discard_ok (update_cluster lib loader x) lds h in
      rw discard_state (update_cluster_writes x a lds e)
  call_writes (adds_policy uid x) lds h =
      let (a, e) = discard_ok (add_attestation_policy lib loader uid x) lds h in
      rw discard_state (add_attestation_policy_writes uid x a lds e)
  call_writes (destroys_policy id) lds h = destroy_attestation_policy_writes id lds h
  call_writes (adds_binding uid x) lds h =
      let (a, e) = discard_ok (add_ap_binding lib loader uid x) lds h in
      rw discard_state (add_ap_binding_writes uid x a lds e)
  call_writes (destroys_binding id) lds h = destroy_ap_binding_writes id lds h
  call_writes (updates_binding x) lds h =
      let (a, e) = discard_ok (update_ap_binding lib loader x) lds h in
      rw discard_state (update_ap_binding_writes x a lds e)
  call_writes (adds_federation uid x) lds h =
      let (a, e) = discard_ok (add_federation lib loader uid x) lds h in
      rw discard_state (add_federation_writes uid x a lds e)
  call_writes (destroys_federation id) lds h = destroy_federation_writes id lds h

  -- Once a call has succeeded, a new data source over the same store starts from exactly the
  -- configuration that the call left in memory, with a loader that keeps what it writes and a
  -- configuration that can be stored.
  pub call_then_restart :
      (Storable : Config → Type 0) (k : Call) (lds : LocalDataSource S)
      → Persists Storable loader
      → (call lib loader k lds).0 ≡ ok tt
      → Storable (call lib loader k lds).1.config
      → new_local_data_source loader (call lib loader k lds).1.store ≡ ok (call lib loader k lds).1
  unfolding new_local_data_source
  call_then_restart Storable k lds persists done storable =
      let (there, back) =
        persists.stored _ lds.store (call lib loader k lds).1.store storable
          (call_writes k lds done) in
      ground (arith, there, back)
