-- ===== src/Commands.antt =====
-- cmd/cofidectl/cmd: what the commands do with the data source and the provision plugin that they get from
-- the plugin manager. The flags are given by the options that they set.
pub mod Selectors
pub mod Policies
pub mod Bindings
pub mod Federations
pub mod Clusters
pub mod Rollout
pub mod Overrides
use cofidectl.Common.{
  String, Option, none, some, List, [], ◌∷◌, ◌==◌, Bool, true, false, if◌then◌else◌,
}
use cofidectl.Common.Errors.{
  Error, Result, ok, err, panic, no_binding, multiple_bindings, not_found, zone_kind,
}
use cofidectl.Common.Action.{Action, pure, raise, ◌>>=◌}
use cofidectl.Config.Messages.{TrustZone, ApBinding}

-- The first trust zone with a name.
unfoldable pub zone_named : String → List TrustZone → Option TrustZone
zone_named name [] = none
zone_named name (tz ∷ tzs) = if tz.name == name then some tz else zone_named name tzs

-- The case analysis on a list of bindings that must hold exactly one.
abbrev pub the_binding : {W : Type 0} → List ApBinding → Action W ApBinding
the_binding [] = raise no_binding
the_binding (b ∷ []) = pure b
the_binding (b ∷ c ∷ bs) = raise multiple_bindings
