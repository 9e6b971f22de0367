-- ===== src/Helm/Providers.antt =====
-- internal/pkg/trustprovider/trustprovider.go and internal/pkg/federation/federation.go: the Helm
-- values of a trust provider and of a federation. `spiffe.GetSPIFFETrustBundle` followed by `Marshal`, with
-- the wrapping of their errors, is a parameter.
pub mod Laws
use Prim.Native.String.{◌++◌}
use cofidectl.Common.{
  String, ◌==◌, Bool, true, false, ◌||◌, Option, none, some, if◌then◌else◌, get_text,
}
use cofidectl.Common.Errors.{
  Result, ok, err, ◌>>=◌, unknown_provider, invalid_profile, nil_trust_provider, unexpected_profile,
}
use cofidectl.Values.{Fields, bool, text, list, object, no_items, item, no_fields, field}
use cofidectl.Config.Messages.{
  TrustZone, TrustProvider, Bundle, BundleEndpointProfile, profile_unspecified,
  profile_https_spiffe, profile_https_web,
}

pub record AgentConfig : Type 0 where
  pub workload_attestor : String
  pub workload_attestor_config : Fields
  pub node_attestor : String

pub record ServerConfig : Type 0 where
  pub node_attestor : String
  pub node_attestor_config : Fields
  pub prune_attested_nodes_expired_for : String
  pub prune_tofu_nodes : Bool

-- `TrustProvider` of the package, with its values.
pub record ProviderValues : Type 0 where
  pub kind : String
  pub agent_config : AgentConfig
  pub server_config : ServerConfig

-- `getValues`
unfoldable pub get_values : String → Result ProviderValues
get_values kind =
    if kind == "kubernetes"
    then ok (record {
      kind = kind;
      agent_config = record {
        workload_attestor = "k8s";
        workload_attestor_config =
            field "enabled" (bool true) (field "disableContainerSelectors" (bool true) no_fields);
        node_attestor = "k8sPSAT";
      };
      server_config = record {
        node_attestor = "k8sPSAT";
        node_attestor_config =
            field "enabled" (bool true)
              (field "audience" (list (item (text "spire-server") no_items)) no_fields);
        prune_attested_nodes_expired_for = "24h";
        prune_tofu_nodes = false;
      };
    })
    else err (unknown_provider kind)

-- `NewTrustProvider`
unfoldable pub new_trust_provider : Option TrustProvider → Result ProviderValues
unfolding get_values
new_trust_provider none = err nil_trust_provider
new_trust_provider (some provider) = get_values (get_text provider.kind)

unfoldable pub get_trust_provider_kind_from_profile : String → Result String
get_trust_provider_kind_from_profile profile =
    if profile == "istio" || profile == "kubernetes"
    then ok "kubernetes"
    else err (invalid_profile profile)

abbrev profile_of : Option BundleEndpointProfile → BundleEndpointProfile
profile_of none = profile_unspecified
profile_of (some profile) = profile

-- `GetHelmConfig` of a federation
unfoldable pub get_helm_config : (Option Bundle → Result String) → TrustZone → Result Fields
get_helm_config marshal_bundle tz = elim (profile_of tz.bundle_endpoint_profile) [
  | profile_https_spiffe ↦ marshal_bundle tz.bundle >>= λ bundle_json. ok (
      field "bundleEndpointURL" (text (get_text tz.bundle_endpoint_url)) (
        field "bundleEndpointProfile"
          (object (
            field "type" (text "https_spiffe") (
              field "endpointSPIFFEID" (text ("spiffe://" ++ tz.trust_domain ++ "/spire/server"))
                no_fields)))
          (field "trustDomain" (text tz.trust_domain)
            (field "trustDomainBundle" (text bundle_json) no_fields))))
  | profile_https_web ↦ ok (
      field "bundleEndpointURL" (text (get_text tz.bundle_endpoint_url)) (
        field "bundleEndpointProfile" (object (field "type" (text "https_web") no_fields))
          (field "trustDomain" (text tz.trust_domain) no_fields)))
  | profile_unspecified ↦ err unexpected_profile
]
