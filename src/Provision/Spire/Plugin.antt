-- ===== src/Provision/Spire/Plugin.antt =====
-- pkg/plugin/provision/spirehelm/spirehelm.go: `SpireHelm` as a provision plugin. The goroutine that sends the
-- messages is run to its end.
use cofidectl.Common.{String, Option, List, []}
use cofidectl.Common.Errors.{Error, Result, ok, err, panic}
use cofidectl.Common.Action.{pure}
use cofidectl.Provision.Messages.{Status}
use cofidectl.Provision.{Sending}
use cofidectl.Provision.Interface.{Provision}
use cofidectl.Provision.Spire.Api.{ProviderFactory, SpireApiFactory}
use cofidectl.Provision.Spire.{tear_down, get_helm_values}
use cofidectl.Provision.Spire.Deploy.{deploy}

-- The channel of a goroutine whose error is ignored. A panic in it ends the program.
abbrev pub channel : {W A : Type 0} → Result A × Sending W → Result (List Status) × W
channel (ok a, s) = (ok s.sent, s.world)
channel (err e, s) = (ok s.sent, s.world)
channel (panic, s) = (panic, s.world)

abbrev started : {W : Type 0} → W → Sending W
started w = record { sent = []; world = w }

-- `SpireHelm`, with the methods of the interface
unfoldable pub spire_helm :
    {W : Type 0}
    → (Error → String)
    → Option String
    → ProviderFactory W
    → SpireApiFactory W
    → Provision W
unfolding deploy tear_down get_helm_values
spire_helm error_text repo_path providers apis = record {
  validate = pure tt;
  deploy = λ ds opts w. channel (deploy error_text repo_path providers apis ds opts (started w));
  tear_down = λ ds opts w. channel (tear_down error_text providers ds opts (started w));
  get_helm_values = λ ds id. get_helm_values error_text providers ds id;
}
