-- ===== src/Commands/Federations.antt =====
-- cmd/cofidectl/cmd/federation/federation.go: the commands that add and delete a federation.
pub mod Health
use cofidectl.Common.{String, ◌==◌, none, some, List, [], ◌∷◌, if◌then◌else◌, get_text, is_empty}
use cofidectl.Common.Errors.{get_failed, no_federation, zone_kind}
use cofidectl.Common.Action.{Action, pure, raise, in_context, ◌>>=◌, ◌>>◌}
use cofidectl.Config.Messages.{Federation}
use cofidectl.DataSource.{DataSource}

pub record Opts : Type 0 where
  pub trust_zone : String
  pub remote_trust_zone : String

module _ {W : Type 0} (ds : DataSource W) where
  -- The `RunE` of `add`, once it has the data source
  unfoldable pub add_federation : Opts → Action W (Unit {0})
  add_federation opts = do
    tz ← in_context (get_failed zone_kind) (ds.get_trust_zone_named opts.trust_zone)
    remote ← in_context (get_failed zone_kind) (ds.get_trust_zone_named opts.remote_trust_zone)
    ds.add_federation (record {
      id = none;
      trust_zone_id = some (get_text tz.id);
      remote_trust_zone_id = some (get_text remote.id);
    })
    pure tt

  -- The loop that destroys the first federation with the remote trust zone.
  unfoldable pub destroy_first : String → List Federation → Action W (Unit {0})
  destroy_first remote_id [] = raise no_federation
  destroy_first remote_id (f ∷ fs) =
      let rest = destroy_first remote_id fs in
      if get_text f.remote_trust_zone_id == remote_id
      then ds.destroy_federation (get_text f.id)
      else rest

  -- `deleteFederation`
  unfoldable pub delete_federation : Opts → Action W (Unit {0})
  unfolding destroy_first
  delete_federation opts = do
    tz ← in_context (get_failed zone_kind) (ds.get_trust_zone_named opts.trust_zone)
    remote ← in_context (get_failed zone_kind) (ds.get_trust_zone_named opts.remote_trust_zone)
    federations ← ds.list_federations (some (record { trust_zone_id = some (get_text tz.id) }))
    if is_empty federations
        then raise no_federation
        else destroy_first (get_text remote.id) federations
