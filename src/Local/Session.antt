-- ===== src/Local/Session.antt =====
-- pkg/plugin/local/local.go: the data source over its life, as a sequence of the calls that change it.
pub mod Invariant
pub mod Saved
use cofidectl.Common.{◌≡◌, arith, String, ◌≢◌, List, [], ◌∷◌}
use cofidectl.Common.Errors.{Result, ok, err, panic}
use cofidectl.Common.Action.{Action, pure, ◌>>=◌}
use cofidectl.Common.Keys.{All}
use cofidectl.Config.{Config}
use cofidectl.Config.Messages.{TrustZone, Cluster, AttestationPolicy, ApBinding, Federation}
use cofidectl.Config.WellFormed.{zone_id, cluster_id, binding_id, federation_id}
use cofidectl.Config.Loader.{Loader}
use cofidectl.Proto.{ProtoLib}
use cofidectl.Local.{LocalDataSource}
use cofidectl.Local.Zones.{add_trust_zone, destroy_trust_zone, update_trust_zone}
use cofidectl.Local.Clusters.{add_cluster, destroy_cluster, update_cluster}
use cofidectl.Local.Policies.{add_attestation_policy, destroy_attestation_policy}
use cofidectl.Local.Bindings.{add_ap_binding, destroy_ap_binding, update_ap_binding}
use cofidectl.Local.Federations.{add_federation, destroy_federation}

-- The methods that change the configuration; those that add are given the outcome of their UUID.
pub data Call : Type 0 where
  adds_zone : Result String → TrustZone → Call
  destroys_zone : String → Call
  updates_zone : TrustZone → Call
  adds_cluster : Result String → Cluster → Call
  destroys_cluster : String → Call
  updates_cluster : Cluster → Call
  adds_policy : Result String → AttestationPolicy → Call
  destroys_policy : String → Call
  adds_binding : Result String → ApBinding → Call
  destroys_binding : String → Call
  updates_binding : ApBinding → Call
  adds_federation : Result String → Federation → Call
  destroys_federation : String → Call

-- A new UUID is no id of the collection that it is made for.
abbrev pub IsFresh : Config → Call → Type 0
IsFresh c (adds_zone uid tz) = (id : String) → uid ≡ ok id → All (λ z. zone_id z ≢ id) c.trust_zones
IsFresh c (adds_cluster uid x) =
    (id : String) → uid ≡ ok id → All (λ x. cluster_id x ≢ id) c.clusters
IsFresh c (adds_binding uid x) =
    (id : String) → uid ≡ ok id → All (λ x. binding_id x ≢ id) c.ap_bindings
IsFresh c (adds_federation uid x) =
    (id : String) → uid ≡ ok id → All (λ x. federation_id x ≢ id) c.federations
IsFresh c _ = Unit

unfoldable pub discard : {S A : Type 0} → Action S A → Action S (Unit {0})
discard m = m >>= λ _. pure tt

-- Discarding a result changes no state.
pub discard_state : {S A : Type 0} (m : Action S A) (s : S) → (discard m s).1 ≡ (m s).1
unfolding discard
discard_state m s = ground arith

module _ {S : Type 0} (lib : ProtoLib) (loader : Loader S) where
  unfoldable pub call : Call → Action (LocalDataSource S) (Unit {0})
  call (adds_zone uid tz) = discard (add_trust_zone lib loader uid tz)
  call (destroys_zone id) = destroy_trust_zone lib loader id
  call (updates_zone tz) = discard (update_trust_zone lib loader tz)
  call (adds_cluster uid cluster) = discard (add_cluster lib loader uid cluster)
  call (destroys_cluster id) = destroy_cluster lib loader id
  call (updates_cluster cluster) = discard (update_cluster lib loader cluster)
  call (adds_policy uid policy) = discard (add_attestation_policy lib loader uid policy)
  call (destroys_policy id) = destroy_attestation_policy lib loader id
  call (adds_binding uid binding) = discard (add_ap_binding lib loader uid binding)
  call (destroys_binding id) = destroy_ap_binding lib loader id
  call (updates_binding binding) = discard (update_ap_binding lib loader binding)
  call (adds_federation uid federation) = discard (add_federation lib loader uid federation)
  call (destroys_federation id) = destroy_federation lib loader id

  -- A call that fails leaves what it had changed; the next call goes on from there.
  unfoldable pub run : List Call → LocalDataSource S → LocalDataSource S
  run [] lds = lds
  run (k ∷ ks) lds = run ks (call k lds).1

  abbrev pub AllFresh : List Call → LocalDataSource S → Type 0
  AllFresh [] lds = Unit {0}
  AllFresh (k ∷ ks) lds = IsFresh lds.config k × AllFresh ks (call k lds).1
