-- ===== src/Config/Messages.antt =====
-- The protobuf messages of the Cofide SDK, by the fields that cofidectl reads or writes. An optional
-- field is an `Option`; the getter `GetX` of an optional text is `get_text`.
use cofidectl.Common.{ℕ, String, Bool, List, Option}
use cofidectl.Values.{Fields}

pub data BundleEndpointProfile : Type 0 where
  profile_unspecified profile_https_spiffe profile_https_web : BundleEndpointProfile

-- The trust bundle of a trust domain, by its encoded form.
pub record Bundle : Type 0 where
  pub trust_domain : String
  pub encoded : List ℕ

pub record TrustZone : Type 0 where
  pub id : Option String
  pub name : String
  pub trust_domain : String
  pub bundle_endpoint_url : Option String
  pub bundle : Option Bundle
  pub jwt_issuer : Option String
  pub bundle_endpoint_profile : Option BundleEndpointProfile

pub record TrustProvider : Type 0 where
  pub name : Option String
  pub kind : Option String

pub record Cluster : Type 0 where
  pub id : Option String
  pub name : Option String
  pub trust_zone_id : Option String
  pub kubernetes_context : Option String
  pub trust_provider : Option TrustProvider
  pub profile : Option String
  pub extra_helm_values : Option Fields
  pub external_server : Option Bool
  pub oidc_issuer_url : Option String
  pub oidc_issuer_ca_cert : Option (List ℕ)

pub record MatchExpression : Type 0 where
  pub key : String
  pub operator : String
  pub values : List String

pub record LabelSelector : Type 0 where
  pub match_labels : List (String × String)
  pub match_expressions : List MatchExpression

pub record Kubernetes : Type 0 where
  pub namespace_selector : Option LabelSelector
  pub pod_selector : Option LabelSelector
  pub spiffe_id_path_template : Option String
  pub dns_name_templates : List String

pub record Selector : Type 0 where
  pub type_name : String
  pub value : String

pub record Static : Type 0 where
  pub spiffe_id_path : Option String
  pub parent_id_path : Option String
  pub selectors : List Selector
  pub dns_names : List String

pub record TpmNode : Type 0 where
  pub ek_hash : Option String
  pub selector_values : List String

-- The `oneof` of an attestation policy.
pub data PolicySpec : Type 0 where
  unset : PolicySpec
  kubernetes : Kubernetes → PolicySpec
  static : Static → PolicySpec
  tpm_node : TpmNode → PolicySpec

pub record AttestationPolicy : Type 0 where
  pub id : Option String
  pub name : String
  pub spec : PolicySpec

pub record ApBindingFederation : Type 0 where
  pub trust_zone_id : Option String

pub record ApBinding : Type 0 where
  pub id : Option String
  pub trust_zone_id : Option String
  pub policy_id : Option String
  pub federations : List ApBindingFederation

pub record Federation : Type 0 where
  pub id : Option String
  pub trust_zone_id : Option String
  pub remote_trust_zone_id : Option String

pub record Plugins : Type 0 where
  pub data_source : Option String
  pub provision : Option String

-- The filters of the data source's listings. A nil filter is `none` where it is used.
pub record ClusterFilter : Type 0 where
  pub trust_zone_id : Option String

pub record BindingFilter : Type 0 where
  pub trust_zone_id : Option String
  pub policy_id : Option String

pub record FederationFilter : Type 0 where
  pub trust_zone_id : Option String
