-- ===== src/DataSource/Grpc.antt =====
-- pkg/plugin/datasource/plugin.go: a data source behind gRPC. The generated stubs of the service are a
-- parameter; the requests and responses are given by their shapes. A scalar that a request carries is
-- optional and read by its getter; the message that a request or response carries is always set by
-- the code of this package.
pub mod Laws
use cofidectl.Common.{String, Bool, Option, none, some, List, get_text}
use cofidectl.Common.Errors.{Result, ok, err, panic}
use cofidectl.Common.Action.{Action, pure, ◌>>=◌}
use cofidectl.Config.Messages.{
  TrustZone, Cluster, AttestationPolicy, ApBinding, Federation, ClusterFilter, BindingFilter,
  FederationFilter,
}
use cofidectl.DataSource.{DataSource}

-- A request or response with nothing in it.
pub record Empty : Type 0 where

pub record IdRequest : Type 0 where
  pub id : Option String

pub record NameRequest : Type 0 where
  pub name : Option String

pub record NamedInRequest : Type 0 where
  pub name : Option String
  pub trust_zone_id : Option String

-- A request or response around one message, around a filter and around a list of messages.
pub record Payload (A : Type 0) : Type 0 where
  pub message : A

pub record Filtered (F : Type 0) : Type 0 where
  pub filter : Option F

pub record Listed (A : Type 0) : Type 0 where
  pub messages : List A

-- `DataSourcePluginService`: what the generated client calls and the generated server dispatches to.
pub record Service (D : Type 0) : Type 0 where
  pub validate : Empty → Action D Empty
  pub add_trust_zone : Payload TrustZone → Action D (Payload TrustZone)
  pub destroy_trust_zone : IdRequest → Action D Empty
  pub get_trust_zone : IdRequest → Action D (Payload TrustZone)
  pub get_trust_zone_named : NameRequest → Action D (Payload TrustZone)
  pub list_trust_zones : Empty → Action D (Listed TrustZone)
  pub update_trust_zone : Payload TrustZone → Action D (Payload TrustZone)
  pub add_cluster : Payload Cluster → Action D (Payload Cluster)
  pub destroy_cluster : IdRequest → Action D Empty
  pub get_cluster : IdRequest → Action D (Payload Cluster)
  pub get_cluster_named : NamedInRequest → Action D (Payload Cluster)
  pub list_clusters : Filtered ClusterFilter → Action D (Listed Cluster)
  pub update_cluster : Payload Cluster → Action D (Payload Cluster)
  pub add_attestation_policy : Payload AttestationPolicy → Action D (Payload AttestationPolicy)
  pub destroy_attestation_policy : IdRequest → Action D Empty
  pub get_attestation_policy : IdRequest → Action D (Payload AttestationPolicy)
  pub get_attestation_policy_named : NameRequest → Action D (Payload AttestationPolicy)
  pub list_attestation_policies : Empty → Action D (Listed AttestationPolicy)
  pub add_ap_binding : Payload ApBinding → Action D (Payload ApBinding)
  pub destroy_ap_binding : IdRequest → Action D Empty
  pub list_ap_bindings : Filtered BindingFilter → Action D (Listed ApBinding)
  pub update_ap_binding : Payload ApBinding → Action D (Payload ApBinding)
  pub add_federation : Payload Federation → Action D (Payload Federation)
  pub destroy_federation : IdRequest → Action D Empty
  pub list_federations : Filtered FederationFilter → Action D (Listed Federation)

-- `resp, err := call; if err != nil { return nil, err }; return resp.X, nil`
abbrev pub responded : {D R A : Type 0} → (R → A) → Result R × D → Result A × D
responded field (ok resp, d) = (ok (field resp), d)
responded field (err e, d) = (err e, d)
responded field (panic, d) = (panic, d)

abbrev pub received : {D R A : Type 0} → (R → A) → Action D R → Action D A
received field call d = responded field (call d)

abbrev pub nothing : Empty → Unit {0}
nothing resp = tt

abbrev pub empty : Unit {0} → Empty
empty u = record {}

abbrev pub payload : {A : Type 0} → A → Payload A
payload a = record { message = a }

abbrev pub listed : {A : Type 0} → List A → Listed A
listed xs = record { messages = xs }

-- `DataSourcePluginClientGRPC`
unfoldable pub grpc_client : {D : Type 0} → Service D → DataSource D
grpc_client service = record {
  validate = received nothing (service.validate (empty tt));
  add_trust_zone = λ x. received (λ resp. resp.message) (service.add_trust_zone (payload x));
  destroy_trust_zone =
      λ id. received nothing (service.destroy_trust_zone (record { id = some id }));
  get_trust_zone =
      λ id. received (λ resp. resp.message) (service.get_trust_zone (record { id = some id }));
  get_trust_zone_named = λ name.
      received (λ resp. resp.message) (service.get_trust_zone_named (record { name = some name }));
  list_trust_zones = received (λ resp. resp.messages) (service.list_trust_zones (empty tt));
  update_trust_zone = λ x. received (λ resp. resp.message) (service.update_trust_zone (payload x));
  add_cluster = λ x. received (λ resp. resp.message) (service.add_cluster (payload x));
  destroy_cluster = λ id. received nothing (service.destroy_cluster (record { id = some id }));
  get_cluster =
      λ id. received (λ resp. resp.message) (service.get_cluster (record { id = some id }));
  get_cluster_named = λ name zone_id.
      received (λ resp. resp.message)
        (service.get_cluster_named (record { name = some name; trust_zone_id = some zone_id }));
  list_clusters =
      λ f. received (λ resp. resp.messages) (service.list_clusters (record { filter = f }));
  update_cluster = λ x. received (λ resp. resp.message) (service.update_cluster (payload x));
  add_attestation_policy =
      λ x. received (λ resp. resp.message) (service.add_attestation_policy (payload x));
  destroy_attestation_policy =
      λ id. received nothing (service.destroy_attestation_policy (record { id = some id }));
  get_attestation_policy = λ id.
      received (λ resp. resp.message) (service.get_attestation_policy (record { id = some id }));
  get_attestation_policy_named = λ name.
      received (λ resp. resp.message)
        (service.get_attestation_policy_named (record { name = some name }));
  list_attestation_policies =
      received (λ resp. resp.messages) (service.list_attestation_policies (empty tt));
  add_ap_binding = λ x. received (λ resp. resp.message) (service.add_ap_binding (payload x));
  destroy_ap_binding =
      λ id. received nothing (service.destroy_ap_binding (record { id = some id }));
  list_ap_bindings =
      λ f. received (λ resp. resp.messages) (service.list_ap_bindings (record { filter = f }));
  update_ap_binding = λ x. received (λ resp. resp.message) (service.update_ap_binding (payload x));
  add_federation = λ x. received (λ resp. resp.message) (service.add_federation (payload x));
  destroy_federation =
      λ id. received nothing (service.destroy_federation (record { id = some id }));
  list_federations =
      λ f. received (λ resp. resp.messages) (service.list_federations (record { filter = f }));
}

-- `GRPCServer`
unfoldable pub grpc_server : {D : Type 0} → DataSource D → Service D
grpc_server impl = record {
  validate = λ req. received empty impl.validate;
  add_trust_zone = λ req. received payload (impl.add_trust_zone req.message);
  destroy_trust_zone = λ req. received empty (impl.destroy_trust_zone (get_text req.id));
  get_trust_zone = λ req. received payload (impl.get_trust_zone (get_text req.id));
  get_trust_zone_named = λ req. received payload (impl.get_trust_zone_named (get_text req.name));
  list_trust_zones = λ req. received listed impl.list_trust_zones;
  update_trust_zone = λ req. received payload (impl.update_trust_zone req.message);
  add_cluster = λ req. received payload (impl.add_cluster req.message);
  destroy_cluster = λ req. received empty (impl.destroy_cluster (get_text req.id));
  get_cluster = λ req. received payload (impl.get_cluster (get_text req.id));
  get_cluster_named = λ req.
      received payload (impl.get_cluster_named (get_text req.name) (get_text req.trust_zone_id));
  list_clusters = λ req. received listed (impl.list_clusters req.filter);
  update_cluster = λ req. received payload (impl.update_cluster req.message);
  add_attestation_policy = λ req. received payload (impl.add_attestation_policy req.message);
  destroy_attestation_policy =
      λ req. received empty (impl.destroy_attestation_policy (get_text req.id));
  get_attestation_policy = λ req. received payload (impl.get_attestation_policy (get_text req.id));
  get_attestation_policy_named =
      λ req. received payload (impl.get_attestation_policy_named (get_text req.name));
  list_attestation_policies = λ req. received listed impl.list_attestation_policies;
  add_ap_binding = λ req. received payload (impl.add_ap_binding req.message);
  destroy_ap_binding = λ req. received empty (impl.destroy_ap_binding (get_text req.id));
  list_ap_bindings = λ req. received listed (impl.list_ap_bindings req.filter);
  update_ap_binding = λ req. received payload (impl.update_ap_binding req.message);
  add_federation = λ req. received payload (impl.add_federation req.message);
  destroy_federation = λ req. received empty (impl.destroy_federation (get_text req.id));
  list_federations = λ req. received listed (impl.list_federations req.filter);
}
