-- ===== src/Examples/Federations.antt =====
-- The theorems on the federation methods at the small configuration.
use cofidectl.Common.{◌≡◌, ◌≢◌, ◌↔◌, refl, none, some, [], ◌∷◌, find_first, remove_first, any}
use cofidectl.Common.Errors.{ok}
use cofidectl.Config.Messages.{Federation, ApBinding}
use cofidectl.Local.{update_data_file}
use cofidectl.Examples.Data.{
  copying, copying-IsProtoLib, keeping, binding, federation, small, small-WellFormed, opened,
}
use cofidectl.Local.Bindings.{check_federations}
use cofidectl.Local.Federations.{add_federation, destroy_federation}
use cofidectl.Local.Federations.Laws.{CanFederate, add_federation_iff, destroy_federation_dangles}

-- The opposite direction, as a request and as it is made.
abbrev back : Federation
back = record { id = none; trust_zone_id = some "b"; remote_trust_zone_id = some "a" }

abbrev made : Federation
made = record back { id = some "n" }

add_federation_iff_example :
    ((add_federation copying keeping (ok "n") back opened).0 ≡ ok made) ↔ CanFederate small back
add_federation_iff_example =
    add_federation_iff copying copying-IsProtoLib keeping "n" back opened
      (some (record small { federations = federation ∷ made ∷ [] })) refl

-- A binding whose second federation is the one that is destroyed.
abbrev twice : ApBinding
twice = record binding {
  federations = record { trust_zone_id = some "g" } ∷ record { trust_zone_id = some "b" } ∷ [];
}

destroy_federation_dangles_example :
    let after = (destroy_federation copying keeping "f" opened).1.config in
    (after.ap_bindings ≡ small.ap_bindings)
    × (check_federations after "x" "a" twice.federations ≢ ok tt)
unfolding destroy_federation update_data_file find_first remove_first any
destroy_federation_dangles_example =
    destroy_federation_dangles copying copying-IsProtoLib keeping "f" federation twice opened
      small-WellFormed refl refl refl refl
