-- ===== src/Commands/Rollout.antt =====
-- cmd/cofidectl/cmd/up.go and down.go: the commands that deploy and remove, given the data source and the
-- provision plugin.
pub mod Outcome
use cofidectl.Common.{
  ◌≡◌, ◌≢◌, refl, sym, ap, ◌∙◌, ℕ, String, ◌==◌, Bool, true, false, not, ◌&&◌, ◌||◌, Option, none,
  some, List, [], ◌∷◌, ◌++◌, map, if◌then◌else◌, get_text, is_empty, Bool-cases, inl, inr, arith,
}
use cofidectl.Common.Errors.{Error, Result, ok, err, panic, not_found, zone_kind}
use cofidectl.Common.Errors
use cofidectl.Common.Action.{Action, pure, lift, ◌>>=◌, ◌>>◌}
use cofidectl.Config.Messages.{TrustZone}
use cofidectl.DataSource.{DataSource}
use cofidectl.Provision.{watch_provision_status}
use cofidectl.Provision.Interface.{DeployOpts, TearDownOpts, Provision}
use cofidectl.Commands.{zone_named}

pub record UpOpts : Type 0 where
  pub skip_wait : Bool
  pub trust_zones : List String

abbrev id_of : Option TrustZone → String
id_of none = ""
id_of (some tz) = get_text tz.id

-- The loop over the names of `--trust-zone`.
unfoldable pub trust_zone_ids : List TrustZone → List String → Result (List String)
unfolding zone_named
trust_zone_ids tzs [] = ok []
trust_zone_ids tzs (name ∷ names) =
    let id = id_of (zone_named name tzs) in
    Errors.◌>>=◌ (if id == "" then err (not_found zone_kind name) else ok id)
      λ found. Errors.◌>>=◌ (trust_zone_ids tzs names) λ ids. ok (found ∷ ids)

module _ {W : Type 0} (ds : DataSource W) (provision : Provision W) (kube_cfg_file : String) where
  -- The `RunE` of `up`
  unfoldable pub up : UpOpts → Action W (Unit {0})
  unfolding trust_zone_ids
  up opts = do
    tzs ← ds.list_trust_zones
    ids ← lift (trust_zone_ids tzs opts.trust_zones)
    statuses ←
        provision.deploy ds (record {
          kube_cfg_file = kube_cfg_file;
          trust_zone_ids = ids;
          skip_wait = opts.skip_wait;
        })
    lift (watch_provision_status statuses)

  -- The `RunE` of `down`, with the names of its trust zones
  unfoldable pub down : List String → Action W (Unit {0})
  unfolding trust_zone_ids
  down trust_zones = do
    tzs ← ds.list_trust_zones
    ids ← lift (trust_zone_ids tzs trust_zones)
    statuses ←
        provision.tear_down ds (record { kube_cfg_file = kube_cfg_file; trust_zone_ids = ids })
    lift (watch_provision_status statuses)
