-- ===== src/Provision.antt =====
-- pkg/plugin/provision: the deployment of the configuration to the clusters, which reports on a channel.
-- cmd/cofidectl/cmd/statusspinner/statusspinner.go: the command that waits for the reports.
pub mod Messages
pub mod Helm
pub mod Tells
pub mod Interface
pub mod Grpc
pub mod Spire
use cofidectl.Common.{
  String, ◌==◌, Bool, true, false, not, Option, none, some, List, [], ◌∷◌, ◌++◌, if◌then◌else◌,
  get_text,
}
use cofidectl.Common.Errors.{Error, Result, ok, err, panic, library}
use cofidectl.Common.Action.{Action}
use cofidectl.Provision.Messages.{Status}

-- What a deployment runs in: the messages it has sent on its channel, and the world.
pub record Sending (W : Type 0) : Type 0 where
  pub sent : List Status
  pub world : W

module _ {W : Type 0} where
  -- `statusCh <- status`
  unfoldable pub send : Status → Action (Sending W) (Unit {0})
  send status s = (ok tt, record s { sent = s.sent ++ status ∷ [] })

module _ {W A : Type 0} where
  -- A step that sends nothing.
  abbrev pub silent : Action W A → Action (Sending W) A
  silent m s = let (r, w) = m s.world in (r, record s { world = w })

  abbrev reported : (Error → Status) → List Status → Result A → W → Result A × Sending W
  reported status sent (ok a) w = (ok a, record { sent = sent; world = w })
  reported status sent (err e) w = (err e, record { sent = sent ++ status e ∷ []; world = w })
  reported status sent panic w = (panic, record { sent = sent; world = w })

  -- `x, err := m; if err != nil { statusCh <- status(err); return err }`
  unfoldable pub or_report : (Error → Status) → Action W A → Action (Sending W) A
  or_report status m s = let (r, w) = m s.world in reported status s.sent r w

-- `WatchProvisionStatus` on the messages of a channel that is closed after them; the spinner only
-- draws, and the context is not cancelled. The first message with an error ends it.
unfoldable pub watch_provision_status : List Status → Result (Unit {0})
watch_provision_status [] = ok tt
watch_provision_status (s ∷ ss) =
    let rest = watch_provision_status ss in
    if not (get_text s.error == "") then err (library (get_text s.error)) else rest
