-- ===== src/Examples/Policies.antt =====
-- The theorems on the attestation policy methods at the small configuration.
use cofidectl.Common.{
  ◌≡◌, ◌≢◌, refl, String, Option, none, some, [], ◌∷◌, get_text, find_first, remove_first,
}
use cofidectl.Common.Keys.{All}
use cofidectl.Common.Errors.{ok, err, policy_kind, not_found}
use cofidectl.Config.{
  Config, get_attestation_policy_by_id, get_attestation_policy_by_name, new_config,
}
use cofidectl.Config.Messages.{AttestationPolicy}
use cofidectl.Config.WellFormed.{WellFormed}
use cofidectl.Proto.{clone_attestation_policy}
use cofidectl.Local.{LocalDataSource, generate_id, update_data_file}
use cofidectl.Examples.Data.{copying, copying-IsProtoLib, keeping, policy, opened}
use cofidectl.Local.Policies.{
  add_attestation_policy, destroy_attestation_policy, get_attestation_policy,
  get_attestation_policy_named,
}
use cofidectl.Local.Policies.Laws.{get-add_attestation_policy, destroy_attestation_policy_done}

abbrev other_policy : AttestationPolicy
other_policy = record policy { id = none; name = "nothing" }

abbrev new_policy : AttestationPolicy
new_policy = record other_policy { id = some "n" }

get-add_attestation_policy_example :
    let after = (add_attestation_policy copying keeping (ok "n") other_policy opened).1 in
    (new_policy ≡ record other_policy { id = some "n" })
    × ((get_attestation_policy copying keeping "n" after).0 ≡ ok new_policy)
    × ((get_attestation_policy_named copying keeping "nothing" after).0 ≡ ok new_policy)
unfolding add_attestation_policy generate_id update_data_file clone_attestation_policy find_first
    get_attestation_policy_by_id get_attestation_policy_by_name
get-add_attestation_policy_example =
    get-add_attestation_policy copying copying-IsProtoLib keeping "n" other_policy new_policy opened
      refl

abbrev unbound : LocalDataSource (Option Config)
unbound = record { config = record new_config { attestation_policies = policy ∷ [] }; store = none }

unbound-WellFormed : WellFormed unbound.config
unfolding new_config
unbound-WellFormed = record {
  zones = record { ids = tt; names = tt };
  clusters = record { ids = tt; names = tt };
  policies = record { ids = (tt, tt); names = (tt, tt) };
  bindings = record { ids = tt; pairs = tt; bound = tt };
  federations = record { ids = tt; pairs = tt; joined = tt };
}

destroy_attestation_policy_done_example :
    let after = (destroy_attestation_policy copying keeping "p" unbound).1 in
    (get_attestation_policy copying keeping "p" after ≡ (err (not_found policy_kind "p"), after))
    × (All (λ b. get_text b.policy_id ≢ "p") after.config.ap_bindings)
    × ((j : String)
        → j ≢ "p"
        → get_attestation_policy_by_id after.config j
          ≡ get_attestation_policy_by_id unbound.config j)
unfolding destroy_attestation_policy update_data_file find_first remove_first new_config
destroy_attestation_policy_done_example =
    destroy_attestation_policy_done copying copying-IsProtoLib keeping "p" unbound
      unbound-WellFormed refl
