-- ===== src/Local/Policies.antt =====
-- pkg/plugin/local/local.go: the attestation policy methods of the local data source.
pub mod Invariant
pub mod Laws
use cofidectl.Common.{
  String, ◌==◌, Bool, true, false, not, ◌&&◌, ◌||◌, Option, none, some, List, [], ◌∷◌, ◌++◌,
  if◌then◌else◌, get_text, find_first, filter, any, remove_first, replace_first, is_some, is_empty,
}
use cofidectl.Common.Errors.{
  policy_kind, Error, Result, ok, err, panic, id_set, already_exists, not_found, policy_bound,
  add_failed, remove_failed,
}
use cofidectl.Common.Action.{Action, lift, gets, fail_if, ◌>>=◌, ◌>>◌}
use cofidectl.Config.{
  Config, policy_has_id, get_attestation_policy_by_name, get_attestation_policy_by_id,
}
use cofidectl.Config.Messages.{AttestationPolicy, ApBinding}
use cofidectl.Config.Loader.{Loader}
use cofidectl.Proto.{ProtoLib, clone_attestation_policy}
use cofidectl.Local.{LocalDataSource, generate_id, or_fail, clone_all, change, update_data_file}

abbrev pub binding_of_policy : String → ApBinding → Bool
binding_of_policy id binding = get_text binding.policy_id == id

-- The loop over the bindings fails at the first that binds the policy; its message dereferences the
-- trust zone id, which panics if there is none.
abbrev bound_error : String → Option ApBinding → Result (Unit {0})
bound_error id none = ok tt
bound_error id (some binding) = elim binding.trust_zone_id [
  | none ↦ panic
  | some zone_id ↦ err (policy_bound id zone_id)
]

module _ {S : Type 0} (lib : ProtoLib) (loader : Loader S) where
  unfoldable pub add_attestation_policy :
      Result String → AttestationPolicy → Action (LocalDataSource S) AttestationPolicy
  unfolding generate_id update_data_file
  add_attestation_policy uid policy = do
    fail_if (not (get_text policy.id == "")) (id_set policy_kind (get_text policy.id))
    copy ← lift (clone_attestation_policy lib policy)
    id ← lift (generate_id policy_kind uid)
    let new = record copy { id = some id }
    same_id ← gets (λ lds. get_attestation_policy_by_id lds.config id)
    fail_if (is_some same_id) (already_exists policy_kind id)
    same_name ← gets (λ lds. get_attestation_policy_by_name lds.config new.name)
    fail_if (is_some same_name) (already_exists policy_kind new.name)
    change (λ c. record c { attestation_policies = c.attestation_policies ++ new ∷ [] })
    update_data_file loader (add_failed policy_kind)
    lift (clone_attestation_policy lib new)

  unfoldable pub destroy_attestation_policy : String → Action (LocalDataSource S) (Unit {0})
  unfolding update_data_file
  destroy_attestation_policy id = do
    bound ← gets (λ lds. find_first (binding_of_policy id) lds.config.ap_bindings)
    lift (bound_error id bound)
    found ← gets (λ lds. find_first (policy_has_id id) lds.config.attestation_policies)
    or_fail (not_found policy_kind id) found
    change (λ c. record c {
      attestation_policies = remove_first (policy_has_id id) c.attestation_policies;
    })
    update_data_file loader (remove_failed policy_kind)

  unfoldable pub get_attestation_policy : String → Action (LocalDataSource S) AttestationPolicy
  get_attestation_policy id = do
    found ← gets (λ lds. get_attestation_policy_by_id lds.config id)
    policy ← or_fail (not_found policy_kind id) found
    lift (clone_attestation_policy lib policy)

  unfoldable pub get_attestation_policy_named :
      String → Action (LocalDataSource S) AttestationPolicy
  get_attestation_policy_named name = do
    found ← gets (λ lds. get_attestation_policy_by_name lds.config name)
    policy ← or_fail (not_found policy_kind name) found
    lift (clone_attestation_policy lib policy)

  unfoldable pub list_attestation_policies : Action (LocalDataSource S) (List AttestationPolicy)
  list_attestation_policies lds =
      (clone_all (clone_attestation_policy lib) lds.config.attestation_policies, lds)
