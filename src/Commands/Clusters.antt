-- ===== src/Commands/Clusters.antt =====
-- cmd/cofidectl/cmd/cluster/cluster.go: the commands that add, update and delete a cluster. Reading a file,
-- the parser of URLs and the answer of `IsClusterDeployed` are parameters.
pub mod Deletion
use cofidectl.Common.{
  ◌≡◌, ◌≢◌, refl, sym, ap, ◌∙◌, ℕ, String, ◌==◌, Bool, true, false, not, ◌&&◌, ◌||◌, Option, none,
  some, List, [], ◌∷◌, ◌++◌, map, if◌then◌else◌, get_text, is_empty, Bool-cases, inl, inr, arith,
}
use cofidectl.Common.Errors.{
  Error, Result, ok, err, panic, wrap, get_failed, zone_kind, cluster_up, ca_cert_failed,
  issuer_invalid, issuer_malformed, issuer_scheme, issuer_no_host, issuer_query, issuer_fragment,
}
use cofidectl.Common.Errors
use cofidectl.Common.Action.{Action, pure, lift, fail_if, in_context, ◌>>=◌, ◌>>◌}
use cofidectl.Config.Messages.{Cluster, TrustProvider}
use cofidectl.DataSource.{DataSource}
use cofidectl.Helm.Providers.{get_trust_provider_kind_from_profile}
use cofidectl.Provision.Helm.Charts.{trim_right_slashes}

pub record AddOpts : Type 0 where
  pub name : String
  pub trust_zone : String
  pub kubernetes_cluster_oidc_issuer_url : String
  pub kubernetes_cluster_ca_cert : String
  pub context : String
  pub profile : String
  pub external_server : Bool

-- The flags that were given.
pub record UpdateOpts : Type 0 where
  pub trust_zone : String
  pub kubernetes_cluster_oidc_issuer_url : Option String
  pub kubernetes_cluster_ca_cert : Option String
  pub context : Option String
  pub external_server : Option Bool

-- `url.URL`, by the fields in use, and the functions on it.
pub record Url : Type 0 where
  pub scheme : String
  pub host : String
  pub raw_query : String
  pub fragment : String
  pub path : String

pub record UrlLib : Type 0 where
  pub parse_request_uri : String → Result Url
  pub to_string : Url → String

-- The checks on a parsed URL, and the URL without the slashes at its end.
abbrev normalised : UrlLib → Url → Result String
normalised lib u =
    if not (u.scheme == "https")
    then err (issuer_scheme u.scheme)
    else if u.host == ""
    then err issuer_no_host
    else if not (u.raw_query == "")
    then err issuer_query
    else if not (u.fragment == "")
    then err issuer_fragment
    else ok (lib.to_string (record u { path = trim_right_slashes u.path }))

-- `validateAndParseOIDCIssuerURL`
unfoldable pub validate_and_parse_oidc_issuer_url : UrlLib → String → Result String
unfolding trim_right_slashes
validate_and_parse_oidc_issuer_url lib issuer =
    if issuer == ""
    then ok ""
    else Errors.◌>>=◌ (wrap issuer_malformed (lib.parse_request_uri issuer)) λ u. normalised lib u

-- `validateOpts`: the options are passed by value, so the normalised URL is not kept.
unfoldable pub validate_opts : UrlLib → AddOpts → Result (Unit {0})
unfolding validate_and_parse_oidc_issuer_url
validate_opts lib opts =
    Errors.◌>>=◌
      (wrap issuer_invalid
        (validate_and_parse_oidc_issuer_url lib opts.kubernetes_cluster_oidc_issuer_url))
      λ url. ok tt

-- The `PreRunE` of `update`
unfoldable pub normalise_update : UrlLib → UpdateOpts → Result UpdateOpts
unfolding validate_and_parse_oidc_issuer_url
normalise_update lib opts = elim opts.kubernetes_cluster_oidc_issuer_url [
  | none ↦ ok opts
  | some issuer ↦
      Errors.◌>>=◌ (wrap issuer_invalid (validate_and_parse_oidc_issuer_url lib issuer))
        λ url. ok (record opts { kubernetes_cluster_oidc_issuer_url = some url })
]

abbrev is_given : {A : Type 0} → Option A → Bool
is_given none = false
is_given (some a) = true

abbrev or_kept : {A : Type 0} → Option A → Option A → Option A
or_kept none old = old
or_kept (some a) old = some a

module _ {W : Type 0} (ds : DataSource W) (read_file : String → Action W (List ℕ)) where
  abbrev ca_cert : String → Action W (Option (List ℕ))
  ca_cert path =
      if not (path == "")
      then (in_context ca_cert_failed (read_file path) >>= λ bytes. pure (some bytes))
      else pure none

  -- `addCluster`
  unfoldable pub add_cluster : AddOpts → Action W (Unit {0})
  add_cluster opts = do
    tz ← in_context (get_failed zone_kind) (ds.get_trust_zone_named opts.trust_zone)
    kind ← lift (get_trust_provider_kind_from_profile opts.profile)
    bytes ← ca_cert opts.kubernetes_cluster_ca_cert
    ds.add_cluster (record {
      id = none;
      name = some opts.name;
      trust_zone_id = tz.id;
      kubernetes_context = some opts.context;
      trust_provider = some (record { name = none; kind = some kind });
      profile = some opts.profile;
      extra_helm_values = none;
      external_server = some opts.external_server;
      oidc_issuer_url = some opts.kubernetes_cluster_oidc_issuer_url;
      oidc_issuer_ca_cert = bytes;
    })
    pure tt

  abbrev new_ca_cert : Option String → Option (List ℕ) → Action W (Option (List ℕ))
  new_ca_cert none old = pure old
  new_ca_cert (some path) old =
      in_context ca_cert_failed (read_file path) >>= λ bytes. pure (some bytes)

  abbrev update_found : String → UpdateOpts → Action W (Unit {0})
  update_found name opts = do
    tz ← in_context (get_failed zone_kind) (ds.get_trust_zone_named opts.trust_zone)
    cluster ← ds.get_cluster_named name (get_text tz.id)
    bytes ← new_ca_cert opts.kubernetes_cluster_ca_cert cluster.oidc_issuer_ca_cert
    ds.update_cluster (record cluster {
      kubernetes_context = or_kept opts.context cluster.kubernetes_context;
      external_server = or_kept opts.external_server cluster.external_server;
      oidc_issuer_url = or_kept opts.kubernetes_cluster_oidc_issuer_url cluster.oidc_issuer_url;
      oidc_issuer_ca_cert = bytes;
    })
    pure tt

  -- `updateCluster`
  unfoldable pub update_cluster : String → UpdateOpts → Action W (Unit {0})
  update_cluster name opts =
      if is_given opts.context
        || is_given opts.external_server
        || is_given opts.kubernetes_cluster_oidc_issuer_url
        || is_given opts.kubernetes_cluster_ca_cert
      then update_found name opts
      else pure tt

module _ {W : Type 0} (ds : DataSource W) (is_cluster_deployed : Cluster → Action W Bool) where
  -- The check before a cluster is deleted, which force skips.
  abbrev pub check_down : Bool → Cluster → String → Action W (Unit {0})
  check_down true cluster name = pure tt
  check_down false cluster name =
      is_cluster_deployed cluster >>= λ deployed. fail_if deployed (cluster_up name)

  -- `deleteCluster`
  unfoldable pub delete_cluster : String → String → Bool → Action W (Unit {0})
  delete_cluster name trust_zone_name force = do
    tz ← in_context (get_failed zone_kind) (ds.get_trust_zone_named trust_zone_name)
    cluster ← ds.get_cluster_named name (get_text tz.id)
    check_down force cluster name
    ds.destroy_cluster (get_text cluster.id)
