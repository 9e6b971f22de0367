-- ===== src/Examples/Data.antt =====
-- A small configuration, a protobuf library that copies, and a loader that keeps the last
-- configuration written.
use native.Mathlib.Decide.{ℕ_discrete}
use cofidectl.Common.{
  ◌≡◌, refl, ◌↔◌, ℕ, String, ◌==◌, Bool, true, false, Option, none, some, [], ◌∷◌, arith,
  Bool-cases, inl, inr, eq_of_test, ne_of_test, find_first,
}
use cofidectl.Common.Errors.{Result, ok, err, config_missing}
use cofidectl.Values.{Fields}
use cofidectl.Config.{Config, empty_plugins}
use cofidectl.Config.Messages.{
  TrustZone, Cluster, TrustProvider, AttestationPolicy, ApBinding, Federation, unset,
}
use cofidectl.Config.Loader.{Loader}
use cofidectl.Config.Loader.Persistence.{Persists}
use cofidectl.Config.WellFormed.{WellFormed}
use cofidectl.Proto.{ProtoLib, IsProtoLib}
use cofidectl.Local.{LocalDataSource}
use cofidectl.Local.Source.{SourceState}

pub String_discrete : Discrete String
String_discrete s t = elim (Bool-cases (s == t)) [
  | inl e ↦ yes (eq_of_test s t e)
  | inr e ↦ no (ne_of_test s t e)
]

pub Fields_discrete : Discrete Fields
Fields_discrete = hlevel (ℕ_discrete, String_discrete)

abbrev is_yes : {A : Type 0} → Dec A → Bool
is_yes (yes a) = true
is_yes (no n) = false

is_yes_iff : {A : Type 0} (d : Dec A) → (is_yes d ≡ true) ↔ A
is_yes_iff (yes a) = ((λ e. a), λ a. refl)
is_yes_iff (no n) = ((λ e. cc), λ a. elim (n a) [ ])

abbrev pub copying : ProtoLib
copying = record {
  zone = λ a. some (a, false);
  cluster = λ a. some (a, false);
  policy = λ a. some (a, false);
  binding = λ a. some (a, false);
  federation = λ a. some (a, false);
  plugins = λ a. some (a, false);
  struct = λ a. some (a, false);
  equal_structs = λ s t. is_yes (Fields_discrete s t);
}

pub copying-IsProtoLib : IsProtoLib copying
copying-IsProtoLib = record {
  zone = λ a. refl;
  cluster = λ a. refl;
  policy = λ a. refl;
  binding = λ a. refl;
  federation = λ a. refl;
  plugins = λ a. refl;
  struct = λ a. refl;
  equal_structs = λ s t. is_yes_iff (Fields_discrete s t);
}

abbrev read_kept : Option Config → Result Config
read_kept none = err config_missing
read_kept (some c) = ok c

abbrev is_kept : Option Config → Result Bool
is_kept none = ok false
is_kept (some c) = ok true

abbrev pub keeping : Loader (Option Config)
keeping = record { exists = is_kept; read = read_kept; write = λ c s. (ok tt, some c) }

pub keeping-Persists : {Storable : Config → Type 0} → Persists Storable keeping
keeping-Persists = record { stored = λ c s s' h w. ground arith }

abbrev pub alpha : TrustZone
alpha = record {
  id = some "a";
  name = "alpha";
  trust_domain = "alpha.test";
  bundle_endpoint_url = none;
  bundle = none;
  jwt_issuer = none;
  bundle_endpoint_profile = none;
}

abbrev pub beta : TrustZone
beta = record alpha { id = some "b"; name = "beta"; trust_domain = "beta.test" }

-- A trust zone as a command makes it, without an id.
abbrev pub gamma : TrustZone
gamma = record alpha { id = none; name = "gamma"; trust_domain = "gamma.test" }

abbrev pub kubernetes_provider : TrustProvider
kubernetes_provider = record { name = none; kind = some "kubernetes" }

abbrev pub cluster_one : Cluster
cluster_one = record {
  id = some "c";
  name = some "one";
  trust_zone_id = some "b";
  kubernetes_context = none;
  trust_provider = some kubernetes_provider;
  profile = some "kubernetes";
  extra_helm_values = none;
  external_server = none;
  oidc_issuer_url = none;
  oidc_issuer_ca_cert = none;
}

abbrev pub policy : AttestationPolicy
policy = record { id = some "p"; name = "everything"; spec = unset }

abbrev pub binding : ApBinding
binding = record {
  id = some "x";
  trust_zone_id = some "a";
  policy_id = some "p";
  federations = record { trust_zone_id = some "b" } ∷ [];
}

abbrev pub federation : Federation
federation = record { id = some "f"; trust_zone_id = some "a"; remote_trust_zone_id = some "b" }

-- Two federated trust zones, a cluster in the second and a policy bound to the first.
abbrev pub small : Config
small = record {
  trust_zones = alpha ∷ beta ∷ [];
  clusters = cluster_one ∷ [];
  attestation_policies = policy ∷ [];
  ap_bindings = binding ∷ [];
  federations = federation ∷ [];
  plugin_config = some [];
  plugins = some empty_plugins;
}

pub small-WellFormed : WellFormed small
unfolding find_first
small-WellFormed = record {
  zones = record {
    ids = ((ne_of_test "a" "b" refl, tt), (tt, tt));
    names = ((ne_of_test "alpha" "beta" refl, tt), (tt, tt));
  };
  clusters = record { ids = (tt, tt); names = (tt, tt) };
  policies = record { ids = (tt, tt); names = (tt, tt) };
  bindings = record { ids = (tt, tt); pairs = (tt, tt); bound = ((refl, refl), tt) };
  federations = record {
    ids = (tt, tt);
    pairs = (tt, tt);
    joined = ((refl, refl, ne_of_test "a" "b" refl), tt);
  };
}

abbrev pub opened : LocalDataSource (Option Config)
opened = record { config = small; store = none }

-- A UUID that nothing has yet.
abbrev pub uuids : ℕ → Result String
uuids n = ok "n"

abbrev pub source : SourceState (Option Config)
source = record { lds = opened; uuids_used = 0 }
