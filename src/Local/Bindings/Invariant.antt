-- ===== src/Local/Bindings/Invariant.antt =====
-- pkg/plugin/local/local.go: the binding methods keep a configuration well-formed.
use mathlib.Core.Path.{subst}
use cofidectl.Common.{
  ◌≡◌, ◌≢◌, sym, ap, ◌⊎◌, inl, inr, String, true, false, some, [], ◌∷◌, ◌++◌, arith, eq_iff,
  get_text, eq_of_test, is_some, find_first, find_first-passes, any, remove_first, replace_first,
}
use cofidectl.Common.Errors.{Result, ok}
use cofidectl.Common.Keys.{
  All, All-map, All-not_any, All-append, All-remove_first, All-replace_first, All-find_first,
  Unique-append, Unique-replace_first, Unique-remove_first,
}
use cofidectl.Config.{get_trust_zone_by_id, get_attestation_policy_by_id}
use cofidectl.Config.Messages.{ApBinding}
use cofidectl.Config.WellFormed.{WellFormed, binding_id, binding_pair}
use cofidectl.Config.WellFormed.Changes.{set_bindings}
use cofidectl.Config.Loader.{Loader}
use cofidectl.Proto.{ProtoLib, IsProtoLib, clone_ap_binding_lem}
use cofidectl.Local.{LocalDataSource}
use cofidectl.Local.Bindings.{
  add_ap_binding, destroy_ap_binding, update_ap_binding, binding_has_id, same_binding,
  validate_ap_binding_update,
}

module _ {S : Type 0} (lib : ProtoLib) (laws : IsProtoLib lib) (loader : Loader S) where
  add_ap_binding_outcome :
      (uid : Result String) (binding : ApBinding) (lds : LocalDataSource S)
      → let c = lds.config in
        let c' = (add_ap_binding lib loader uid binding lds).1.config in
        (c' ≡ c)
        ⊎ ((id : String) × (uid ≡ ok id)
            × (is_some (get_trust_zone_by_id c (get_text binding.trust_zone_id)) ≡ true)
            × (is_some (get_attestation_policy_by_id c (get_text binding.policy_id)) ≡ true)
            × (any (same_binding binding) c.ap_bindings ≡ false)
            × (c'
                ≡ record c { ap_bindings = c.ap_bindings ++ record binding { id = some id } ∷ [] }))
  unfolding add_ap_binding
  add_ap_binding_outcome uid binding lds = ground (arith, clone_ap_binding_lem lib laws binding)

  destroy_ap_binding_outcome :
      (id : String) (lds : LocalDataSource S)
      → let c = lds.config in
        let c' = (destroy_ap_binding lib loader id lds).1.config in
        (c' ≡ c) ⊎ (c' ≡ record c { ap_bindings = remove_first (binding_has_id id) c.ap_bindings })
  unfolding destroy_ap_binding
  destroy_ap_binding_outcome id lds = ground arith

  update_ap_binding_outcome :
      (binding : ApBinding) (lds : LocalDataSource S)
      → let c = lds.config in
        let id = get_text binding.id in
        let c' = (update_ap_binding lib loader binding lds).1.config in
        (c' ≡ c)
        ⊎ ((current : ApBinding) × (find_first (binding_has_id id) c.ap_bindings ≡ some current)
            × (validate_ap_binding_update current binding ≡ ok tt)
            × (c' ≡ record c {
              ap_bindings = replace_first (binding_has_id id) binding c.ap_bindings;
            }))
  unfolding update_ap_binding
  update_ap_binding_outcome binding lds = ground (arith, clone_ap_binding_lem lib laws binding)

other_pair : (new x : ApBinding) → same_binding new x ≡ false → binding_pair x ≢ binding_pair new
other_pair new x h e = ground (
  arith,
  eq_iff (get_text x.policy_id) (get_text new.policy_id),
  eq_iff (get_text x.trust_zone_id) (get_text new.trust_zone_id),
  ap (λ (p : String × String). p.0) e,
  ap (λ (p : String × String). p.1) e,
)

validated :
    (current new : ApBinding)
    → validate_ap_binding_update current new ≡ ok tt
    → (get_text new.policy_id ≡ get_text current.policy_id)
      × (get_text new.trust_zone_id ≡ get_text current.trust_zone_id)
unfolding validate_ap_binding_update
validated current new h = ground (
  arith,
  eq_iff (get_text new.policy_id) (get_text current.policy_id),
  eq_iff (get_text new.trust_zone_id) (get_text current.trust_zone_id),
)

module _ {S : Type 0} (lib : ProtoLib) (laws : IsProtoLib lib) (loader : Loader S) where
  -- Adding a binding keeps the configuration in memory well-formed, whether the call succeeds or
  -- fails, if the new UUID is no binding's id yet.
  pub add_ap_binding-WellFormed :
      (uid : Result String) (binding : ApBinding) (lds : LocalDataSource S)
      → ((id : String) → uid ≡ ok id → All (λ x. binding_id x ≢ id) lds.config.ap_bindings)
      → WellFormed lds.config
      → WellFormed (add_ap_binding lib loader uid binding lds).1.config
  unfolding get_trust_zone_by_id get_attestation_policy_by_id
  add_ap_binding-WellFormed uid binding lds fresh w =
      elim (add_ap_binding_outcome lib laws loader uid binding lds) [
        | inl same ↦ subst WellFormed (sym same) w
        | inr (id, made, zone, policy, unbound, e) ↦ subst WellFormed (sym e) (
            set_bindings w _ (record {
              ids = Unique-append binding_id _ _ w.bindings.ids (fresh id made);
              pairs =
                  Unique-append binding_pair _ _ w.bindings.pairs
                    (All-map _ (λ x t. other_pair binding x t) _ (All-not_any _ _ unbound));
              bound = All-append _ _ _ w.bindings.bound ((zone, policy), tt);
            }))
      ]

  -- Destroying a binding keeps the configuration in memory well-formed, whether the call succeeds
  -- or fails.
  pub destroy_ap_binding-WellFormed :
      (id : String) (lds : LocalDataSource S)
      → WellFormed lds.config
      → WellFormed (destroy_ap_binding lib loader id lds).1.config
  destroy_ap_binding-WellFormed id lds w =
      elim (destroy_ap_binding_outcome lib laws loader id lds) [
        | inl same ↦ subst WellFormed (sym same) w
        | inr e ↦ subst WellFormed (sym e) (
            set_bindings w _ (record {
              ids = Unique-remove_first binding_id _ _ w.bindings.ids;
              pairs = Unique-remove_first binding_pair _ _ w.bindings.pairs;
              bound = All-remove_first _ _ _ w.bindings.bound;
            }))
      ]

  -- Updating a binding keeps the configuration in memory well-formed, whether the call succeeds or
  -- fails.
  pub update_ap_binding-WellFormed :
      (binding : ApBinding) (lds : LocalDataSource S)
      → WellFormed lds.config
      → WellFormed (update_ap_binding lib loader binding lds).1.config
  update_ap_binding-WellFormed binding lds w =
      elim (update_ap_binding_outcome lib laws loader binding lds) [
        | inl same ↦ subst WellFormed (sym same) w
        | inr (current, found, valid, e) ↦
            let same = validated current binding valid in
            let old = All-find_first _ _ _ current w.bindings.bound found in
            subst WellFormed (sym e) (
              set_bindings w _ (record {
                ids =
                    Unique-replace_first binding_id _ _ current _ found
                      (sym (eq_of_test _ _ (find_first-passes _ _ current found))) w.bindings.ids;
                pairs =
                    Unique-replace_first binding_pair _ _ current _ found
                      (λ i. (same.0 i, same.1 i)) w.bindings.pairs;
                bound = All-replace_first _ _ _ _ (rw (same.0, same.1) old) w.bindings.bound;
              }))
      ]
