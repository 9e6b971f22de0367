-- ===== src/Local/Policies/Invariant.antt =====
-- pkg/plugin/local/local.go: the attestation policy methods keep a configuration well-formed.
use mathlib.Core.Path.{subst}
use cofidectl.Common.{
  ◌≡◌, sym, ◌⊎◌, inl, inr, String, none, some, [], ◌∷◌, ◌++◌, arith, ne_of_test, find_first,
  remove_first,
}
use cofidectl.Common.Errors.{Result, ok}
use cofidectl.Common.Keys.{
  All-map, All-none, All-both, All-ne_of_none, Unique-append, Unique-remove_first,
}
use cofidectl.Config.{policy_has_id, get_attestation_policy_by_name, get_attestation_policy_by_id}
use cofidectl.Config.Messages.{AttestationPolicy}
use cofidectl.Config.WellFormed.{
  WellFormed, HasPolicy-append, HasPolicy-remove, policy_id, policy_name,
}
use cofidectl.Config.WellFormed.Changes.{set_policies}
use cofidectl.Config.Loader.{Loader}
use cofidectl.Proto.{ProtoLib, IsProtoLib, clone_attestation_policy_lem}
use cofidectl.Local.{LocalDataSource}
use cofidectl.Local.Policies.{add_attestation_policy, destroy_attestation_policy, binding_of_policy}

module _ {S : Type 0} (lib : ProtoLib) (laws : IsProtoLib lib) (loader : Loader S) where
  add_attestation_policy_outcome :
      (uid : Result String) (policy : AttestationPolicy) (lds : LocalDataSource S)
      → let c = lds.config in
        let c' = (add_attestation_policy lib loader uid policy lds).1.config in
        (c' ≡ c)
        ⊎ ((id : String) × (uid ≡ ok id)
            × (get_attestation_policy_by_id c id ≡ none)
            × (get_attestation_policy_by_name c policy.name ≡ none)
            × (c' ≡ record c {
              attestation_policies = c.attestation_policies ++ record policy { id = some id } ∷ [];
            }))
  unfolding add_attestation_policy
  add_attestation_policy_outcome uid policy lds =
      ground (arith, clone_attestation_policy_lem lib laws policy)

  destroy_attestation_policy_outcome :
      (id : String) (lds : LocalDataSource S)
      → let c = lds.config in
        let c' = (destroy_attestation_policy lib loader id lds).1.config in
        (c' ≡ c)
        ⊎ (find_first (binding_of_policy id) c.ap_bindings ≡ none)
          × (c' ≡ record c {
            attestation_policies = remove_first (policy_has_id id) c.attestation_policies;
          })
  unfolding destroy_attestation_policy
  destroy_attestation_policy_outcome id lds = ground arith

  -- Adding an attestation policy keeps the configuration in memory well-formed, whether the call
  -- succeeds or fails: it checks both the new id and the name.
  pub add_attestation_policy-WellFormed :
      (uid : Result String) (policy : AttestationPolicy) (lds : LocalDataSource S)
      → WellFormed lds.config
      → WellFormed (add_attestation_policy lib loader uid policy lds).1.config
  unfolding get_attestation_policy_by_id get_attestation_policy_by_name
  add_attestation_policy-WellFormed uid policy lds w =
      elim (add_attestation_policy_outcome uid policy lds) [
        | inl same ↦ subst WellFormed (sym same) w
        | inr (id, _, fresh, named, e) ↦ subst WellFormed (sym e) (
            set_policies w _
              (record {
                ids =
                    Unique-append policy_id _ _ w.policies.ids
                      (All-ne_of_none policy_id id _ fresh);
                names =
                    Unique-append policy_name _ _ w.policies.names
                      (All-ne_of_none policy_name policy.name _ named);
              })
              (All-map _ (λ b h. HasPolicy-append _ _ _ h.1) _ w.bindings.bound))
      ]

  -- Destroying an attestation policy keeps the configuration in memory well-formed, whether the call
  -- succeeds or fails: no binding is left without its policy.
  pub destroy_attestation_policy-WellFormed :
      (id : String) (lds : LocalDataSource S)
      → WellFormed lds.config
      → WellFormed (destroy_attestation_policy lib loader id lds).1.config
  destroy_attestation_policy-WellFormed id lds w =
      elim (destroy_attestation_policy_outcome id lds) [
        | inl same ↦ subst WellFormed (sym same) w
        | inr (unbound, e) ↦ subst WellFormed (sym e) (
            set_policies w _
              (record {
                ids = Unique-remove_first policy_id _ _ w.policies.ids;
                names = Unique-remove_first policy_name _ _ w.policies.names;
              })
              (All-both (λ b h t. HasPolicy-remove _ id _ (ne_of_test _ _ t) h.1) _ w.bindings.bound
                (All-none _ _ unbound)))
      ]
