-- ===== src/Config/WellFormed.antt =====
-- internal/pkg/config/config.go: the invariant of a configuration, and the changes that keep it.
pub mod Changes
use cofidectl.Common.{
  ◌≡◌, ◌≢◌, refl, sym, ◌∙◌, ap, String, ◌==◌, Bool, true, false, not, ◌&&◌, ◌||◌, Option, none,
  some, List, [], ◌∷◌, ◌++◌, arith, eq_iff, get_text, is_some, find_first, find_first-append,
  remove_first, replace_first, filter, Bool-cases, inl, inr, test_of_ne, eq_of_test, ne_of_test,
  test_of_eq,
}
use cofidectl.Common.Keys.{
  All, Unique, All-append, All-filter, All-filter_test, All-map, All-none, All-remove_first,
  All-replace_first, All-find_first, All-ne_of_none, Unique-append, Unique-filter,
  Unique-remove_first, Unique-replace_first, find_first-remove_first_ne,
  find_first-replace_first_key,
}
use cofidectl.Config.{Config, zone_has_id, policy_has_id}
use cofidectl.Config.Messages.{TrustZone, Cluster, AttestationPolicy, ApBinding, Federation}

-- The keys under which each collection has no two elements.
abbrev pub zone_id : TrustZone → String
zone_id tz = get_text tz.id

abbrev pub zone_name : TrustZone → String
zone_name tz = tz.name

abbrev pub cluster_id : Cluster → String
cluster_id cluster = get_text cluster.id

abbrev pub cluster_name : Cluster → String × String
cluster_name cluster = (get_text cluster.name, get_text cluster.trust_zone_id)

abbrev pub policy_id : AttestationPolicy → String
policy_id policy = get_text policy.id

abbrev pub policy_name : AttestationPolicy → String
policy_name policy = policy.name

abbrev pub binding_id : ApBinding → String
binding_id binding = get_text binding.id

abbrev pub binding_pair : ApBinding → String × String
binding_pair binding = (get_text binding.policy_id, get_text binding.trust_zone_id)

abbrev pub federation_id : Federation → String
federation_id federation = get_text federation.id

abbrev pub federation_pair : Federation → String × String
federation_pair federation =
    (get_text federation.trust_zone_id, get_text federation.remote_trust_zone_id)

abbrev pub HasZone : List TrustZone → String → Type 0
HasZone zones id = is_some (find_first (zone_has_id id) zones) ≡ true

abbrev pub HasPolicy : List AttestationPolicy → String → Type 0
HasPolicy policies id = is_some (find_first (policy_has_id id) policies) ≡ true

-- A binding of an existing policy to an existing trust zone.
abbrev pub IsBound : List TrustZone → List AttestationPolicy → ApBinding → Type 0
IsBound zones policies binding =
    HasZone zones (get_text binding.trust_zone_id) × HasPolicy policies (get_text binding.policy_id)

-- A federation between two different, existing trust zones.
abbrev pub IsJoined : List TrustZone → Federation → Type 0
IsJoined zones federation =
    HasZone zones (get_text federation.trust_zone_id)
    × HasZone zones (get_text federation.remote_trust_zone_id)
    × (get_text federation.trust_zone_id ≢ get_text federation.remote_trust_zone_id)

pub record DistinctZones (zones : List TrustZone) : Type 0 where
  pub ids : Unique zone_id zones
  pub names : Unique zone_name zones

pub record DistinctClusters (clusters : List Cluster) : Type 0 where
  pub ids : Unique cluster_id clusters
  pub names : Unique cluster_name clusters

pub record DistinctPolicies (policies : List AttestationPolicy) : Type 0 where
  pub ids : Unique policy_id policies
  pub names : Unique policy_name policies

pub record SoundBindings (zones : List TrustZone) (policies : List AttestationPolicy)
    (bindings : List ApBinding) : Type 0 where
  pub ids : Unique binding_id bindings
  pub pairs : Unique binding_pair bindings
  pub bound : All (IsBound zones policies) bindings

pub record SoundFederations (zones : List TrustZone) (federations : List Federation) : Type 0 where
  pub ids : Unique federation_id federations
  pub pairs : Unique federation_pair federations
  pub joined : All (IsJoined zones) federations

pub record WellFormed (c : Config) : Type 0 where
  pub zones : DistinctZones c.trust_zones
  pub clusters : DistinctClusters c.clusters
  pub policies : DistinctPolicies c.attestation_policies
  pub bindings : SoundBindings c.trust_zones c.attestation_policies c.ap_bindings
  pub federations : SoundFederations c.trust_zones c.federations

-- References seen from a longer, a shorter or an updated list.
pub HasZone-append :
    (zones : List TrustZone) (tz : TrustZone) (id : String)
    → HasZone zones id
    → HasZone (zones ++ tz ∷ []) id
HasZone-append zones tz id h = rw find_first-append (ground arith)

pub HasPolicy-append :
    (ps : List AttestationPolicy) (p : AttestationPolicy) (id : String)
    → HasPolicy ps id
    → HasPolicy (ps ++ p ∷ []) id
HasPolicy-append ps p id h = rw find_first-append (ground arith)

pub HasZone-remove :
    (zones : List TrustZone) (k id : String)
    → id ≢ k
    → HasZone zones id
    → HasZone (remove_first (zone_has_id k) zones) id
HasZone-remove zones k id n h = ap is_some (find_first-remove_first_ne zone_id k id zones n) ∙ h

pub HasPolicy-remove :
    (ps : List AttestationPolicy) (k id : String)
    → id ≢ k
    → HasPolicy ps id
    → HasPolicy (remove_first (policy_has_id k) ps) id
HasPolicy-remove ps k id n h = ap is_some (find_first-remove_first_ne policy_id k id ps n) ∙ h

pub HasZone-replace :
    (zones : List TrustZone) (k id : String) (tz : TrustZone)
    → zone_id tz ≡ k
    → HasZone zones id
    → HasZone (replace_first (zone_has_id k) tz zones) id
HasZone-replace zones k id tz e h = find_first-replace_first_key zone_id k id tz zones e ∙ h
