-- ===== src/Local/Session/Invariant.antt =====
-- pkg/plugin/local/local.go: every history of calls keeps the configuration well-formed.
use cofidectl.Common.{List, [], ◌∷◌}
use cofidectl.Config.{new_config}
use cofidectl.Config.WellFormed.{WellFormed}
use cofidectl.Config.Loader.{Loader}
use cofidectl.Proto.{ProtoLib, IsProtoLib}
use cofidectl.Local.{LocalDataSource}
use cofidectl.Local.Zones.Invariant.{
  add_trust_zone-WellFormed, destroy_trust_zone-WellFormed, update_trust_zone-WellFormed,
}
use cofidectl.Local.Clusters.Invariant.{
  add_cluster-WellFormed, destroy_cluster-WellFormed, update_cluster-WellFormed,
}
use cofidectl.Local.Policies.Invariant.{
  add_attestation_policy-WellFormed, destroy_attestation_policy-WellFormed,
}
use cofidectl.Local.Bindings.Invariant.{
  add_ap_binding-WellFormed, destroy_ap_binding-WellFormed, update_ap_binding-WellFormed,
}
use cofidectl.Local.Federations.Invariant.{add_federation-WellFormed, destroy_federation-WellFormed}
use cofidectl.Local.Session.{
  Call, adds_zone, destroys_zone, updates_zone, adds_cluster, destroys_cluster, updates_cluster,
  adds_policy, destroys_policy, adds_binding, destroys_binding, updates_binding, adds_federation,
  destroys_federation, IsFresh, AllFresh, discard_state, call, run,
}

module _ {S : Type 0} (lib : ProtoLib) (laws : IsProtoLib lib) (loader : Loader S) where
  pub call-WellFormed :
      (k : Call) (lds : LocalDataSource S)
      → IsFresh lds.config k
      → WellFormed lds.config
      → WellFormed (call lib loader k lds).1.config
  unfolding call
  call-WellFormed (adds_zone uid tz) lds f w =
      rw discard_state (add_trust_zone-WellFormed lib laws loader uid tz lds f w)
  call-WellFormed (destroys_zone id) lds f w =
      destroy_trust_zone-WellFormed lib laws loader id lds w
  call-WellFormed (updates_zone tz) lds f w =
      rw discard_state (update_trust_zone-WellFormed lib laws loader tz lds w)
  call-WellFormed (adds_cluster uid x) lds f w =
      rw discard_state (add_cluster-WellFormed lib laws loader uid x lds f w)
  call-WellFormed (destroys_cluster id) lds f w =
      destroy_cluster-WellFormed lib laws loader id lds w
  call-WellFormed (updates_cluster x) lds f w =
      rw discard_state (update_cluster-WellFormed lib laws loader x lds w)
  call-WellFormed (adds_policy uid x) lds f w =
      rw discard_state (add_attestation_policy-WellFormed lib laws loader uid x lds w)
  call-WellFormed (destroys_policy id) lds f w =
      destroy_attestation_policy-WellFormed lib laws loader id lds w
  call-WellFormed (adds_binding uid x) lds f w =
      rw discard_state (add_ap_binding-WellFormed lib laws loader uid x lds f w)
  call-WellFormed (destroys_binding id) lds f w =
      destroy_ap_binding-WellFormed lib laws loader id lds w
  call-WellFormed (updates_binding x) lds f w =
      rw discard_state (update_ap_binding-WellFormed lib laws loader x lds w)
  call-WellFormed (adds_federation uid x) lds f w =
      rw discard_state (add_federation-WellFormed lib laws loader uid x lds f w)
  call-WellFormed (destroys_federation id) lds f w =
      destroy_federation-WellFormed lib laws loader id lds w

  -- After any sequence of calls, failed ones included, a configuration that was well-formed still
  -- is: ids and names stay distinct, each binding joins an existing policy to an existing trust zone,
  -- and each federation joins two different existing trust zones. Each new UUID must be unused.
  pub run-WellFormed :
      (ks : List Call) (lds : LocalDataSource S)
      → AllFresh lib loader ks lds
      → WellFormed lds.config
      → WellFormed (run lib loader ks lds).config
  unfolding run
  run-WellFormed [] lds f w = w
  run-WellFormed (k ∷ ks) lds f w =
      run-WellFormed ks (call lib loader k lds).1 f.1 (call-WellFormed k lds f.0 w)

pub new_config-WellFormed : WellFormed new_config
unfolding new_config
new_config-WellFormed = record {
  zones = record { ids = tt; names = tt };
  clusters = record { ids = tt; names = tt };
  policies = record { ids = tt; names = tt };
  bindings = record { ids = tt; pairs = tt; bound = tt };
  federations = record { ids = tt; pairs = tt; joined = tt };
}
