-- ===== src/Common/Errors.antt =====
-- The errors that the program returns, one constructor for each kind of message that it formats,
-- with the names and ids by which a reader tells the failures apart. A panic is an outcome of its own.
use Prim.Native.String.{String}
use mathlib.Core.Path.{◌≡◌, refl}
use mathlib.Core.Logic.{◌⊎◌, inl, inr}

-- The kind of message that an error speaks of.
pub data Kind : Type 0 where
  zone_kind cluster_kind policy_kind binding_kind federation_kind plugins_kind struct_kind
        source_kind provision_kind :
      Kind

pub data Error : Type 0 where
  library : String → Error
  config_missing memory_missing : Error
  schema_failed invalid_config uuid_error : Error → Error
  read_failed write_failed marshal_failed unmarshal_failed : Error → Error
  clone_type clone_same : Kind → Error
  id_set : Kind → String → Error
  uuid_failed : Kind → Error → Error
  already_exists not_found : Kind → String → Error
  already_exists_in not_found_in : Kind → String → String → Error
  immutable : Kind → String → String → Error
  immutable_in : Kind → String → String → String → Error
  no_trust_provider trust_provider_removed : String → String → Error
  clusters_exist : String → Error
  policy_bound already_bound : String → String → Error
  federates_with_self federates_unknown : String → String → Error
  federates_unfederated : String → String → String → Error
  federation_self : String → Error
  federation_exists : String → String → Error
  add_failed remove_failed update_failed list_failed get_failed : Kind → Error → Error
  no_clusters multiple_clusters : Error
  cluster_up : String → Error
  plugin_mismatch : Kind → String → String → Error
  plugin_config_mismatch : Error
  already_loaded empty_plugin_name : Kind → Error
  no_plugin_config wrong_interface unknown_provider invalid_profile : String → Error
  invalid_selector : String → String → Error
  nil_trust_provider unexpected_profile : Error
  client_failed ping_failed home_failed : Error → Error
  dispense_failed : String → Error → Error
  nil_source nil_destination nil_map empty_key : Error
  not_a_map : String → Error
  not_installed : String → Error
  chart_status_failed mkdir_failed lock_failed repo_create_failed repo_load_failed chart_repo_failed
        index_failed repo_write_failed :
      Error → Error
  empty_chart_name empty_repo_path empty_repo_name : Error
  value_empty : String → Error
  sub_map_failed : String → Error → Error
  selector_malformed policy_still_bound issuer_scheme : String → Error
  label_invalid : String → Error → Error
  issuer_invalid issuer_malformed ca_cert_failed rollback_failed : Error → Error
  issuer_no_host issuer_query issuer_fragment : Error
  no_binding multiple_bindings no_federation conflicting_flags : Error
  pod_watcher_closed service_watcher_closed wait_timeout no_ingress : Error
  no_reachable_cluster : String → Error
  no_trust_zones skip_wait_with_federations trust_zone_unnamed : Error

pub data Result {ℓ} (A : Type ℓ) : Type ℓ where
  ok : A → Result A
  err : Error → Result A
  panic : Result A

infixl 5 ◌>>=◌
abbrev pub ◌>>=◌ {ℓ κ} : {A : Type ℓ} {B : Type κ} → Result A → (A → Result B) → Result B
ok a >>= f = f a
err e >>= f = err e
panic >>= f = panic

-- `fmt.Errorf("…: %w", err)`: an error is passed on inside another.
abbrev pub wrap {ℓ} : {A : Type ℓ} → (Error → Error) → Result A → Result A
wrap f (ok a) = ok a
wrap f (err e) = err (f e)
wrap f panic = panic

pub Result-cases {ℓ} :
    {A : Type ℓ} (r : Result A)
    → ((a : A) × (r ≡ ok a)) ⊎ (((e : Error) × (r ≡ err e)) ⊎ (r ≡ panic))
Result-cases (ok a) = inl (a, refl)
Result-cases (err e) = inr (inl (e, refl))
Result-cases panic = inr (inr refl)

pub bind-eq-ok {ℓ κ} :
    {A : Type ℓ} {B : Type κ} (r : Result A) (f : A → Result B) {b : B}
    → (r >>= f) ≡ ok b
    → (a : A) × (r ≡ ok a) × (f a ≡ ok b)
bind-eq-ok (ok a) f h = (a, refl, h)
bind-eq-ok (err e) f h = cc
bind-eq-ok panic f h = cc
