-- ===== src/Local/Bindings.antt =====
-- pkg/plugin/local/local.go: the attestation policy binding methods of the local data source.
pub mod Invariant
pub mod Laws
use cofidectl.Common.{
  String, ◌==◌, Bool, true, false, not, ◌&&◌, ◌||◌, Option, none, some, List, [], ◌∷◌, ◌++◌,
  if◌then◌else◌, get_text, find_first, filter, any, remove_first, replace_first, is_some, is_empty,
}
use cofidectl.Common.Errors.{
  binding_kind, zone_kind, policy_kind, Error, Result, ok, err, panic, id_set, not_found,
  already_bound, immutable, federates_with_self, federates_unknown, federates_unfederated,
  add_failed, remove_failed, update_failed,
}
use cofidectl.Common.Action.{Action, lift, gets, fail_if, ◌>>=◌, ◌>>◌}
use cofidectl.Config.{Config, get_trust_zone_by_id, get_attestation_policy_by_id}
use cofidectl.Config.Messages.{BindingFilter, ApBinding, ApBindingFederation, Federation}
use cofidectl.Config.Loader.{Loader}
use cofidectl.Proto.{ProtoLib, clone_ap_binding}
use cofidectl.Local.{LocalDataSource, generate_id, or_fail, clone_all, change, update_data_file}

abbrev pub binding_has_id : String → ApBinding → Bool
binding_has_id id binding = get_text binding.id == id

-- Two bindings of one policy to one trust zone.
abbrev pub same_binding : ApBinding → ApBinding → Bool
same_binding new binding =
    get_text binding.policy_id == get_text new.policy_id
    && get_text binding.trust_zone_id == get_text new.trust_zone_id

-- The membership test in the set `remoteTzs` of the trust zones that `local` federates with.
unfoldable pub federates_with : Config → String → String → Bool
federates_with c local remote =
    any
      (λ (federation : Federation).
        get_text federation.trust_zone_id == local
        && get_text federation.remote_trust_zone_id == remote)
      c.federations

-- The loop over `binding.Federations`, which stops at the first that is refused.
unfoldable pub check_federations :
    Config → String → String → List ApBindingFederation → Result (Unit {0})
check_federations c id local [] = ok tt
check_federations c id local (remote ∷ rest) =
    let others = check_federations c id local rest in
    let remote_id = get_text remote.trust_zone_id in
    if remote_id == local
    then err (federates_with_self id local)
    else if federates_with c local remote_id
    then others
    else if is_some (get_trust_zone_by_id c remote_id)
    then err (federates_unfederated id remote_id local)
    else err (federates_unknown id remote_id)

unfoldable pub validate_ap_binding_update : ApBinding → ApBinding → Result (Unit {0})
validate_ap_binding_update current new =
    let id = get_text current.id in
    if not (get_text new.id == get_text current.id)
    then err (immutable binding_kind "id" id)
    else if not (get_text new.trust_zone_id == get_text current.trust_zone_id)
    then err (immutable binding_kind "trust zone" id)
    else if not (get_text new.policy_id == get_text current.policy_id)
    then err (immutable binding_kind "attestation policy" id)
    else ok tt

-- An unset or empty text in a filter lets everything through.
abbrev pub lets_through : Option String → Option String → Bool
lets_through wanted value = get_text wanted == "" || get_text value == get_text wanted

abbrev pub binding_passes : Option BindingFilter → ApBinding → Bool
binding_passes none binding = true
binding_passes (some f) binding =
    lets_through f.policy_id binding.policy_id && lets_through f.trust_zone_id binding.trust_zone_id

-- `ListAPBindings` refuses a filter by a trust zone that does not exist.
abbrev pub unknown_zone : Config → Option BindingFilter → Bool
unknown_zone c none = false
unknown_zone c (some f) =
    not (get_text f.trust_zone_id == "")
    && not (is_some (get_trust_zone_by_id c (get_text f.trust_zone_id)))

abbrev filter_zone : Option BindingFilter → String
filter_zone none = ""
filter_zone (some f) = get_text f.trust_zone_id

module _ {S : Type 0} (lib : ProtoLib) (loader : Loader S) where
  unfoldable pub add_ap_binding : Result String → ApBinding → Action (LocalDataSource S) ApBinding
  unfolding generate_id update_data_file
  add_ap_binding uid binding = do
    fail_if (not (get_text binding.id == "")) (id_set binding_kind (get_text binding.id))
    copy ← lift (clone_ap_binding lib binding)
    id ← lift (generate_id binding_kind uid)
    let new = record copy { id = some id }
    let zone_id = get_text new.trust_zone_id
    let policy_id = get_text new.policy_id
    zone ← gets (λ lds. get_trust_zone_by_id lds.config zone_id)
    fail_if (not (is_some zone)) (not_found zone_kind zone_id)
    policy ← gets (λ lds. get_attestation_policy_by_id lds.config policy_id)
    fail_if (not (is_some policy)) (not_found policy_kind policy_id)
    bound ← gets (λ lds. any (same_binding new) lds.config.ap_bindings)
    fail_if bound (already_bound policy_id zone_id)
    checked ← gets (λ lds. check_federations lds.config id zone_id new.federations)
    lift checked
    change (λ c. record c { ap_bindings = c.ap_bindings ++ new ∷ [] })
    update_data_file loader (add_failed binding_kind)
    lift (clone_ap_binding lib new)

  unfoldable pub destroy_ap_binding : String → Action (LocalDataSource S) (Unit {0})
  unfolding update_data_file
  destroy_ap_binding id = do
    found ← gets (λ lds. find_first (binding_has_id id) lds.config.ap_bindings)
    or_fail (not_found binding_kind id) found
    change (λ c. record c { ap_bindings = remove_first (binding_has_id id) c.ap_bindings })
    update_data_file loader (remove_failed binding_kind)

  unfoldable pub list_ap_bindings :
      Option BindingFilter → Action (LocalDataSource S) (List ApBinding)
  list_ap_bindings f = do
    unknown ← gets (λ lds. unknown_zone lds.config f)
    fail_if unknown (not_found zone_kind (filter_zone f))
    bindings ← gets (λ lds. filter (binding_passes f) lds.config.ap_bindings)
    lift (clone_all (clone_ap_binding lib) bindings)

  unfoldable pub update_ap_binding : ApBinding → Action (LocalDataSource S) ApBinding
  unfolding update_data_file
  update_ap_binding binding = do
    let id = get_text binding.id
    found ← gets (λ lds. find_first (binding_has_id id) lds.config.ap_bindings)
    current ← or_fail (not_found binding_kind id) found
    lift (validate_ap_binding_update current binding)
    checked ← gets (λ lds.
        check_federations lds.config id (get_text binding.trust_zone_id) binding.federations)
    lift checked
    copy ← lift (clone_ap_binding lib binding)
    change (λ c. record c { ap_bindings = replace_first (binding_has_id id) copy c.ap_bindings })
    update_data_file loader (update_failed binding_kind)
    lift (clone_ap_binding lib copy)
