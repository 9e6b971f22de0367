-- ===== src/Proto.antt =====
-- internal/pkg/proto/proto.go: copies of messages. `proto.Clone` and `proto.Equal` are parameters.
use cofidectl.Common.{◌≡◌, ◌↔◌, Bool, true, false, Option, none, some}
use cofidectl.Common.Errors.{
  Kind, zone_kind, cluster_kind, policy_kind, binding_kind, federation_kind, plugins_kind,
  struct_kind, Result, ok, err, clone_type, clone_same,
}
use cofidectl.Values.{Fields}
use cofidectl.Config.Messages.{
  TrustZone, Cluster, AttestationPolicy, ApBinding, Federation, Plugins,
}

-- `proto.Clone` followed by the type assertion: `none` if the assertion fails, and otherwise the copy
-- with the answer whether it has the address of the original.
abbrev pub RawClone : Type 0 → Type 0
RawClone A = A → Option (A × Bool)

-- The functions of the protobuf library that the program calls.
pub record ProtoLib : Type 0 where
  pub zone : RawClone TrustZone
  pub cluster : RawClone Cluster
  pub policy : RawClone AttestationPolicy
  pub binding : RawClone ApBinding
  pub federation : RawClone Federation
  pub plugins : RawClone Plugins
  pub struct : RawClone Fields
  pub equal_structs : Fields → Fields → Bool

-- Their documented behaviour: a deep copy at an address of its own, and equality of the contents.
abbrev pub Copies : {A : Type 0} → RawClone A → Type 0
Copies {A} raw = (a : A) → raw a ≡ some (a, false)

pub record IsProtoLib (lib : ProtoLib) : Type 0 where
  pub zone : Copies lib.zone
  pub cluster : Copies lib.cluster
  pub policy : Copies lib.policy
  pub binding : Copies lib.binding
  pub federation : Copies lib.federation
  pub plugins : Copies lib.plugins
  pub struct : Copies lib.struct
  pub equal_structs : (s t : Fields) → (lib.equal_structs s t ≡ true) ↔ (s ≡ t)

-- The body that the clone functions share.
abbrev checked : {A : Type 0} → Kind → Option (A × Bool) → Result A
checked kind none = err (clone_type kind)
checked kind (some (copy, true)) = err (clone_same kind)
checked kind (some (copy, false)) = ok copy

module _ (lib : ProtoLib) where
  unfoldable pub clone_trust_zone : TrustZone → Result TrustZone
  clone_trust_zone tz = checked zone_kind (lib.zone tz)

  unfoldable pub clone_cluster : Cluster → Result Cluster
  clone_cluster cluster = checked cluster_kind (lib.cluster cluster)

  unfoldable pub clone_attestation_policy : AttestationPolicy → Result AttestationPolicy
  clone_attestation_policy policy = checked policy_kind (lib.policy policy)

  unfoldable pub clone_ap_binding : ApBinding → Result ApBinding
  clone_ap_binding binding = checked binding_kind (lib.binding binding)

  unfoldable pub clone_federation : Federation → Result Federation
  clone_federation federation = checked federation_kind (lib.federation federation)

  unfoldable pub clone_plugins : Plugins → Result Plugins
  clone_plugins plugins = checked plugins_kind (lib.plugins plugins)

  unfoldable pub clone_struct : Fields → Result Fields
  clone_struct struct = checked struct_kind (lib.struct struct)

  unfoldable pub structs_equal : Fields → Fields → Bool
  structs_equal = lib.equal_structs

-- With the library as documented no clone fails.
module _ (lib : ProtoLib) (laws : IsProtoLib lib) where
  pub clone_trust_zone_lem : (tz : TrustZone) → clone_trust_zone lib tz ≡ ok tz
  unfolding clone_trust_zone
  clone_trust_zone_lem tz = rw (laws.zone tz)

  pub clone_cluster_lem : (cluster : Cluster) → clone_cluster lib cluster ≡ ok cluster
  unfolding clone_cluster
  clone_cluster_lem cluster = rw (laws.cluster cluster)

  pub clone_attestation_policy_lem :
      (policy : AttestationPolicy) → clone_attestation_policy lib policy ≡ ok policy
  unfolding clone_attestation_policy
  clone_attestation_policy_lem policy = rw (laws.policy policy)

  pub clone_ap_binding_lem : (binding : ApBinding) → clone_ap_binding lib binding ≡ ok binding
  unfolding clone_ap_binding
  clone_ap_binding_lem binding = rw (laws.binding binding)

  pub clone_federation_lem :
      (federation : Federation) → clone_federation lib federation ≡ ok federation
  unfolding clone_federation
  clone_federation_lem federation = rw (laws.federation federation)

  pub clone_plugins_lem : (plugins : Plugins) → clone_plugins lib plugins ≡ ok plugins
  unfolding clone_plugins
  clone_plugins_lem plugins = rw (laws.plugins plugins)

  pub clone_struct_lem : (struct : Fields) → clone_struct lib struct ≡ ok struct
  unfolding clone_struct
  clone_struct_lem struct = rw (laws.struct struct)
