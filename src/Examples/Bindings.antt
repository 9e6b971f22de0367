-- ===== src/Examples/Bindings.antt =====
-- The theorems on the binding methods at the small configuration.
use cofidectl.Common.{◌≡◌, ◌↔◌, refl, Option, none, some, [], ◌∷◌}
use cofidectl.Common.Errors.{ok}
use cofidectl.Config.{Config}
use cofidectl.Config.Messages.{ApBinding}
use cofidectl.Local.{LocalDataSource}
use cofidectl.Examples.Data.{copying, copying-IsProtoLib, keeping, binding, small}
use cofidectl.Config.Messages.{BindingFilter}
use cofidectl.Local.Bindings.{add_ap_binding}
use cofidectl.Local.Bindings.Laws.{CanBind, add_ap_binding_iff}

-- The binding before it was made.
abbrev request : ApBinding
request = record binding { id = none }

abbrev made : ApBinding
made = record binding { id = some "n" }

abbrev unbound : LocalDataSource (Option Config)
unbound = record { config = record small { ap_bindings = [] }; store = none }

add_ap_binding_iff_example :
    ((add_ap_binding copying keeping (ok "n") request unbound).0 ≡ ok made)
    ↔ CanBind unbound.config request
add_ap_binding_iff_example =
    add_ap_binding_iff copying copying-IsProtoLib keeping "n" request unbound
      (some (record small { ap_bindings = made ∷ [] })) refl

abbrev in_alpha : Option BindingFilter
in_alpha = some (record { trust_zone_id = some "a"; policy_id = none })
