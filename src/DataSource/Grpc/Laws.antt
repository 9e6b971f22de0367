-- ===== src/DataSource/Grpc/Laws.antt =====
-- pkg/plugin/datasource/plugin.go: a data source keeps its behaviour behind gRPC.
use cofidectl.Common.{◌≡◌, refl, ap, ◌∙◌, String, Option, some}
use cofidectl.Common.Errors.{Error, Result, ok, err, panic, wrap}
use cofidectl.Common.Action.{Action}
use cofidectl.Config.Messages.{
  TrustZone, Cluster, AttestationPolicy, ApBinding, Federation, ClusterFilter, BindingFilter,
  FederationFilter,
}
use cofidectl.DataSource.{DataSource}
use cofidectl.DataSource.Grpc.{
  Empty, IdRequest, NameRequest, NamedInRequest, Payload, Filtered, Service, received, responded,
  nothing, empty, payload, listed, grpc_client, grpc_server,
}

-- An outcome whose error, if there is one, has been converted: gRPC carries a status in its place.
abbrev pub converted : {D A : Type 0} → (Error → Error) → Result A × D → Result A × D
converted convert (r, d) = (wrap convert r, d)

-- The documented behaviour of gRPC between a client's stub and a server: requests and responses
-- arrive as they were sent, and an error arrives as a status.
pub record Delivers {D : Type 0} (convert : Error → Error) (server stub : Service D) : Type 0 where
  pub validate :
      (req : Empty) (d : D) → stub.validate req d ≡ converted convert (server.validate req d)
  pub add_trust_zone :
      (req : Payload TrustZone) (d : D)
      → stub.add_trust_zone req d ≡ converted convert (server.add_trust_zone req d)
  pub destroy_trust_zone :
      (req : IdRequest) (d : D)
      → stub.destroy_trust_zone req d ≡ converted convert (server.destroy_trust_zone req d)
  pub get_trust_zone :
      (req : IdRequest) (d : D)
      → stub.get_trust_zone req d ≡ converted convert (server.get_trust_zone req d)
  pub get_trust_zone_named :
      (req : NameRequest) (d : D)
      → stub.get_trust_zone_named req d ≡ converted convert (server.get_trust_zone_named req d)
  pub list_trust_zones :
      (req : Empty) (d : D)
      → stub.list_trust_zones req d ≡ converted convert (server.list_trust_zones req d)
  pub update_trust_zone :
      (req : Payload TrustZone) (d : D)
      → stub.update_trust_zone req d ≡ converted convert (server.update_trust_zone req d)
  pub add_cluster :
      (req : Payload Cluster) (d : D)
      → stub.add_cluster req d ≡ converted convert (server.add_cluster req d)
  pub destroy_cluster :
      (req : IdRequest) (d : D)
      → stub.destroy_cluster req d ≡ converted convert (server.destroy_cluster req d)
  pub get_cluster :
      (req : IdRequest) (d : D)
      → stub.get_cluster req d ≡ converted convert (server.get_cluster req d)
  pub get_cluster_named :
      (req : NamedInRequest) (d : D)
      → stub.get_cluster_named req d ≡ converted convert (server.get_cluster_named req d)
  pub list_clusters :
      (req : Filtered ClusterFilter) (d : D)
      → stub.list_clusters req d ≡ converted convert (server.list_clusters req d)
  pub update_cluster :
      (req : Payload Cluster) (d : D)
      → stub.update_cluster req d ≡ converted convert (server.update_cluster req d)
  pub add_attestation_policy :
      (req : Payload AttestationPolicy) (d : D)
      → stub.add_attestation_policy req d ≡ converted convert (server.add_attestation_policy req d)
  pub destroy_attestation_policy :
      (req : IdRequest) (d : D)
      → stub.destroy_attestation_policy req d
        ≡ converted convert (server.destroy_attestation_policy req d)
  pub get_attestation_policy :
      (req : IdRequest) (d : D)
      → stub.get_attestation_policy req d ≡ converted convert (server.get_attestation_policy req d)
  pub get_attestation_policy_named :
      (req : NameRequest) (d : D)
      → stub.get_attestation_policy_named req d
        ≡ converted convert (server.get_attestation_policy_named req d)
  pub list_attestation_policies :
      (req : Empty) (d : D)
      → stub.list_attestation_policies req d
        ≡ converted convert (server.list_attestation_policies req d)
  pub add_ap_binding :
      (req : Payload ApBinding) (d : D)
      → stub.add_ap_binding req d ≡ converted convert (server.add_ap_binding req d)
  pub destroy_ap_binding :
      (req : IdRequest) (d : D)
      → stub.destroy_ap_binding req d ≡ converted convert (server.destroy_ap_binding req d)
  pub list_ap_bindings :
      (req : Filtered BindingFilter) (d : D)
      → stub.list_ap_bindings req d ≡ converted convert (server.list_ap_bindings req d)
  pub update_ap_binding :
      (req : Payload ApBinding) (d : D)
      → stub.update_ap_binding req d ≡ converted convert (server.update_ap_binding req d)
  pub add_federation :
      (req : Payload Federation) (d : D)
      → stub.add_federation req d ≡ converted convert (server.add_federation req d)
  pub destroy_federation :
      (req : IdRequest) (d : D)
      → stub.destroy_federation req d ≡ converted convert (server.destroy_federation req d)
  pub list_federations :
      (req : Filtered FederationFilter) (d : D)
      → stub.list_federations req d ≡ converted convert (server.list_federations req d)

-- A data source that answers and changes the state as another one does, up to the form of its errors.
pub record Implements {D : Type 0} (convert : Error → Error) (spec impl : DataSource D)
    : Type 0 where
  pub validate : (d : D) → impl.validate d ≡ converted convert (spec.validate d)
  pub add_trust_zone :
      (x : TrustZone) (d : D)
      → impl.add_trust_zone x d ≡ converted convert (spec.add_trust_zone x d)
  pub destroy_trust_zone :
      (id : String) (d : D)
      → impl.destroy_trust_zone id d ≡ converted convert (spec.destroy_trust_zone id d)
  pub get_trust_zone :
      (id : String) (d : D)
      → impl.get_trust_zone id d ≡ converted convert (spec.get_trust_zone id d)
  pub get_trust_zone_named :
      (name : String) (d : D)
      → impl.get_trust_zone_named name d ≡ converted convert (spec.get_trust_zone_named name d)
  pub list_trust_zones :
      (d : D) → impl.list_trust_zones d ≡ converted convert (spec.list_trust_zones d)
  pub update_trust_zone :
      (x : TrustZone) (d : D)
      → impl.update_trust_zone x d ≡ converted convert (spec.update_trust_zone x d)
  pub add_cluster :
      (x : Cluster) (d : D) → impl.add_cluster x d ≡ converted convert (spec.add_cluster x d)
  pub destroy_cluster :
      (id : String) (d : D)
      → impl.destroy_cluster id d ≡ converted convert (spec.destroy_cluster id d)
  pub get_cluster :
      (id : String) (d : D) → impl.get_cluster id d ≡ converted convert (spec.get_cluster id d)
  pub get_cluster_named :
      (name zone_id : String) (d : D)
      → impl.get_cluster_named name zone_id d
        ≡ converted convert (spec.get_cluster_named name zone_id d)
  pub list_clusters :
      (f : Option ClusterFilter) (d : D)
      → impl.list_clusters f d ≡ converted convert (spec.list_clusters f d)
  pub update_cluster :
      (x : Cluster) (d : D) → impl.update_cluster x d ≡ converted convert (spec.update_cluster x d)
  pub add_attestation_policy :
      (x : AttestationPolicy) (d : D)
      → impl.add_attestation_policy x d ≡ converted convert (spec.add_attestation_policy x d)
  pub destroy_attestation_policy :
      (id : String) (d : D)
      → impl.destroy_attestation_policy id d
        ≡ converted convert (spec.destroy_attestation_policy id d)
  pub get_attestation_policy :
      (id : String) (d : D)
      → impl.get_attestation_policy id d ≡ converted convert (spec.get_attestation_policy id d)
  pub get_attestation_policy_named :
      (name : String) (d : D)
      → impl.get_attestation_policy_named name d
        ≡ converted convert (spec.get_attestation_policy_named name d)
  pub list_attestation_policies :
      (d : D)
      → impl.list_attestation_policies d ≡ converted convert (spec.list_attestation_policies d)
  pub add_ap_binding :
      (x : ApBinding) (d : D)
      → impl.add_ap_binding x d ≡ converted convert (spec.add_ap_binding x d)
  pub destroy_ap_binding :
      (id : String) (d : D)
      → impl.destroy_ap_binding id d ≡ converted convert (spec.destroy_ap_binding id d)
  pub list_ap_bindings :
      (f : Option BindingFilter) (d : D)
      → impl.list_ap_bindings f d ≡ converted convert (spec.list_ap_bindings f d)
  pub update_ap_binding :
      (x : ApBinding) (d : D)
      → impl.update_ap_binding x d ≡ converted convert (spec.update_ap_binding x d)
  pub add_federation :
      (x : Federation) (d : D)
      → impl.add_federation x d ≡ converted convert (spec.add_federation x d)
  pub destroy_federation :
      (id : String) (d : D)
      → impl.destroy_federation id d ≡ converted convert (spec.destroy_federation id d)
  pub list_federations :
      (f : Option FederationFilter) (d : D)
      → impl.list_federations f d ≡ converted convert (spec.list_federations f d)

carried :
    {D R A : Type 0} (convert : Error → Error) (make : A → R) (field : R → A)
    → ((a : A) → field (make a) ≡ a)
    → (o : Result A × D)
    → responded field (converted convert (responded make o)) ≡ converted convert o
carried convert make field same (ok a, d) = rw (same a) refl
carried convert make field same (err e, d) = refl
carried convert make field same (panic, d) = refl

-- A response that the server makes of a result and the client takes apart again.
passed :
    {D R A : Type 0} (convert : Error → Error) (make : A → R) (field : R → A)
    → ((a : A) → field (make a) ≡ a)
    → (m : Action D A) (call : Action D R) (d : D) → call d ≡ converted convert (received make m d)
    → received field call d ≡ converted convert (m d)
passed convert make field same m call d h =
    ap (responded field) h ∙ carried convert make field same (m d)

-- A client that gRPC connects to a server is a data source that implements the one behind the
-- server: each method makes the same change and has the same result, and an error arrives as the
-- status that gRPC makes of it.
pub grpc_client-Implements :
    {D : Type 0} (convert : Error → Error) (impl : DataSource D) (stub : Service D)
    → Delivers convert (grpc_server impl) stub
    → Implements convert impl (grpc_client stub)
unfolding grpc_client grpc_server
grpc_client-Implements convert impl stub h = record {
  validate = λ d.
      passed convert empty nothing (λ a. refl) (impl.validate) (stub.validate (empty tt)) d
        (h.validate (empty tt) d);
  add_trust_zone = λ x d.
      passed convert payload (λ resp. resp.message) (λ a. refl) (impl.add_trust_zone x)
        (stub.add_trust_zone (payload x)) d (h.add_trust_zone (payload x) d);
  destroy_trust_zone = λ id d.
      passed convert empty nothing (λ a. refl) (impl.destroy_trust_zone id)
        (stub.destroy_trust_zone (record { id = some id })) d
        (h.destroy_trust_zone (record { id = some id }) d);
  get_trust_zone = λ id d.
      passed convert payload (λ resp. resp.message) (λ a. refl) (impl.get_trust_zone id)
        (stub.get_trust_zone (record { id = some id })) d
        (h.get_trust_zone (record { id = some id }) d);
  get_trust_zone_named = λ name d.
      passed convert payload (λ resp. resp.message) (λ a. refl) (impl.get_trust_zone_named name)
        (stub.get_trust_zone_named (record { name = some name })) d
        (h.get_trust_zone_named (record { name = some name }) d);
  list_trust_zones = λ d.
      passed convert listed (λ resp. resp.messages) (λ a. refl) (impl.list_trust_zones)
        (stub.list_trust_zones (empty tt)) d (h.list_trust_zones (empty tt) d);
  update_trust_zone = λ x d.
      passed convert payload (λ resp. resp.message) (λ a. refl) (impl.update_trust_zone x)
        (stub.update_trust_zone (payload x)) d (h.update_trust_zone (payload x) d);
  add_cluster = λ x d.
      passed convert payload (λ resp. resp.message) (λ a. refl) (impl.add_cluster x)
        (stub.add_cluster (payload x)) d (h.add_cluster (payload x) d);
  destroy_cluster = λ id d.
      passed convert empty nothing (λ a. refl) (impl.destroy_cluster id)
        (stub.destroy_cluster (record { id = some id })) d
        (h.destroy_cluster (record { id = some id }) d);
  get_cluster = λ id d.
      passed convert payload (λ resp. resp.message) (λ a. refl) (impl.get_cluster id)
        (stub.get_cluster (record { id = some id })) d (h.get_cluster (record { id = some id }) d);
  get_cluster_named = λ name zone_id d.
      passed convert payload (λ resp. resp.message) (λ a. refl)
        (impl.get_cluster_named name zone_id)
        (stub.get_cluster_named (record { name = some name; trust_zone_id = some zone_id })) d
        (h.get_cluster_named (record { name = some name; trust_zone_id = some zone_id }) d);
  list_clusters = λ f d.
      passed convert listed (λ resp. resp.messages) (λ a. refl) (impl.list_clusters f)
        (stub.list_clusters (record { filter = f })) d (h.list_clusters (record { filter = f }) d);
  update_cluster = λ x d.
      passed convert payload (λ resp. resp.message) (λ a. refl) (impl.update_cluster x)
        (stub.update_cluster (payload x)) d (h.update_cluster (payload x) d);
  add_attestation_policy = λ x d.
      passed convert payload (λ resp. resp.message) (λ a. refl) (impl.add_attestation_policy x)
        (stub.add_attestation_policy (payload x)) d (h.add_attestation_policy (payload x) d);
  destroy_attestation_policy = λ id d.
      passed convert empty nothing (λ a. refl) (impl.destroy_attestation_policy id)
        (stub.destroy_attestation_policy (record { id = some id })) d
        (h.destroy_attestation_policy (record { id = some id }) d);
  get_attestation_policy = λ id d.
      passed convert payload (λ resp. resp.message) (λ a. refl) (impl.get_attestation_policy id)
        (stub.get_attestation_policy (record { id = some id })) d
        (h.get_attestation_policy (record { id = some id }) d);
  get_attestation_policy_named = λ name d.
      passed convert payload (λ resp. resp.message) (λ a. refl)
        (impl.get_attestation_policy_named name)
        (stub.get_attestation_policy_named (record { name = some name })) d
        (h.get_attestation_policy_named (record { name = some name }) d);
  list_attestation_policies = λ d.
      passed convert listed (λ resp. resp.messages) (λ a. refl) (impl.list_attestation_policies)
        (stub.list_attestation_policies (empty tt)) d (h.list_attestation_policies (empty tt) d);
  add_ap_binding = λ x d.
      passed convert payload (λ resp. resp.message) (λ a. refl) (impl.add_ap_binding x)
        (stub.add_ap_binding (payload x)) d (h.add_ap_binding (payload x) d);
  destroy_ap_binding = λ id d.
      passed convert empty nothing (λ a. refl) (impl.destroy_ap_binding id)
        (stub.destroy_ap_binding (record { id = some id })) d
        (h.destroy_ap_binding (record { id = some id }) d);
  list_ap_bindings = λ f d.
      passed convert listed (λ resp. resp.messages) (λ a. refl) (impl.list_ap_bindings f)
        (stub.list_ap_bindings (record { filter = f })) d
        (h.list_ap_bindings (record { filter = f }) d);
  update_ap_binding = λ x d.
      passed convert payload (λ resp. resp.message) (λ a. refl) (impl.update_ap_binding x)
        (stub.update_ap_binding (payload x)) d (h.update_ap_binding (payload x) d);
  add_federation = λ x d.
      passed convert payload (λ resp. resp.message) (λ a. refl) (impl.add_federation x)
        (stub.add_federation (payload x)) d (h.add_federation (payload x) d);
  destroy_federation = λ id d.
      passed convert empty nothing (λ a. refl) (impl.destroy_federation id)
        (stub.destroy_federation (record { id = some id })) d
        (h.destroy_federation (record { id = some id }) d);
  list_federations = λ f d.
      passed convert listed (λ resp. resp.messages) (λ a. refl) (impl.list_federations f)
        (stub.list_federations (record { filter = f })) d
        (h.list_federations (record { filter = f }) d);
}
