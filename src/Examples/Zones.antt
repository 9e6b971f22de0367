-- ===== src/Examples/Zones.antt =====
-- The theorems on the trust zone methods at the small configuration.
use cofidectl.Common.{
  ◌≡◌, ◌≢◌, refl, inl, String, Option, none, some, [], ◌∷◌, get_text, ne_of_test, find_first,
  filter, remove_first, replace_first,
}
use cofidectl.Common.Keys.{All}
use cofidectl.Common.Errors.{ok, err, panic, zone_kind, not_found}
use cofidectl.Config.{
  Config, get_trust_zone_by_id, get_trust_zone_by_name, get_clusters_by_trust_zone, new_config,
}
use cofidectl.Config.Messages.{TrustZone}
use cofidectl.Proto.{clone_trust_zone}
use cofidectl.Local.{LocalDataSource, generate_id, update_data_file}
use cofidectl.Examples.Data.{
  copying, copying-IsProtoLib, keeping, alpha, gamma, small, small-WellFormed, opened,
}
use cofidectl.Local.Zones.{
  validate_trust_zone_update, add_trust_zone, destroy_trust_zone, update_trust_zone, get_trust_zone,
  get_trust_zone_named,
}
use cofidectl.Local.Zones.Laws.{
  get-add_trust_zone, destroy_trust_zone_done, update_trust_zone_done, update_trust_zone_panics,
}

abbrev new_gamma : TrustZone
new_gamma = record gamma { id = some "n" }

get-add_trust_zone_example :
    let after = (add_trust_zone copying keeping (ok "n") gamma opened).1 in
    (new_gamma ≡ record gamma { id = some "n" })
    × ((get_trust_zone copying keeping "n" after).0 ≡ ok new_gamma)
    × ((get_trust_zone_named copying keeping "gamma" after).0 ≡ ok new_gamma)
unfolding add_trust_zone generate_id update_data_file clone_trust_zone get_trust_zone_by_name
    find_first
get-add_trust_zone_example =
    get-add_trust_zone copying copying-IsProtoLib keeping "n" gamma new_gamma opened
      (ne_of_test "a" "n" refl, (ne_of_test "b" "n" refl, tt)) refl

destroy_trust_zone_done_example :
    let after = (destroy_trust_zone copying keeping "a" opened).1 in
    (get_trust_zone copying keeping "a" after ≡ (err (not_found zone_kind "a"), after))
    × (All (λ b. get_text b.trust_zone_id ≢ "a") after.config.ap_bindings)
    × (All
        (λ f. (get_text f.trust_zone_id ≢ "a") × (get_text f.remote_trust_zone_id ≢ "a"))
        after.config.federations)
unfolding destroy_trust_zone update_data_file get_clusters_by_trust_zone find_first filter
    remove_first
destroy_trust_zone_done_example =
    destroy_trust_zone_done copying copying-IsProtoLib keeping "a" opened small-WellFormed refl

abbrev moved_alpha : TrustZone
moved_alpha = record alpha { bundle_endpoint_url = some "https://alpha.test" }

update_trust_zone_done_example :
    let after = (update_trust_zone copying keeping moved_alpha opened).1 in
    (moved_alpha ≡ moved_alpha)
    × (get_trust_zone_by_id after.config "a" ≡ some moved_alpha)
    × ((j : String) → j ≢ "a" → get_trust_zone_by_id after.config j ≡ get_trust_zone_by_id small j)
unfolding update_trust_zone update_data_file clone_trust_zone validate_trust_zone_update find_first
    replace_first get_trust_zone_by_id
update_trust_zone_done_example =
    update_trust_zone_done copying copying-IsProtoLib keeping moved_alpha moved_alpha opened refl

-- A trust zone of a hand-written file, with no id.
abbrev unnumbered : LocalDataSource (Option Config)
unnumbered = record { config = record new_config { trust_zones = gamma ∷ [] }; store = none }

abbrev renamed : TrustZone
renamed = record gamma { name = "delta" }

update_trust_zone_panics_example :
    update_trust_zone copying keeping renamed unnumbered ≡ (panic, unnumbered)
unfolding get_trust_zone_by_id find_first
update_trust_zone_panics_example =
    update_trust_zone_panics copying copying-IsProtoLib keeping renamed gamma unnumbered refl refl
      (inl (ne_of_test "delta" "gamma" refl))
