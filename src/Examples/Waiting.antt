-- ===== src/Examples/Waiting.antt =====
-- A wait in which the service has its address before the pod is ready.
use cofidectl.Common.{◌≡◌, ◌≢◌, refl, String, ◌==◌, true, some, List, [], ◌∷◌}
use cofidectl.Common.Errors.{ok}
use cofidectl.Spire.{Pod, Service, is_pod_ready, get_service_external_ip}
use cofidectl.Spire.Wait.{
  Event, pod_event, service_event, modified, added, step, wait, wait_for_server_ip,
}
use cofidectl.Spire.Wait.Laws.{
  any_event, reports_ready, reported_ip, wait_for_server_ip-returns, wait_for_server_ip_sound,
}

abbrev address : String
address = "10.0.0.1"

abbrev service : Service
service = record { name = "spire-server"; ingress = record { hostname = ""; ip = address } ∷ [] }

abbrev pod : Pod
pod = record {
  name = "spire-server-0";
  conditions = record { kind = "Ready"; status = "True" } ∷ [];
  container_statuses = [];
}

abbrev events : List Event
events =
    pod_event added (record pod { conditions = [] })
    ∷ service_event added service
    ∷ pod_event modified pod
    ∷ []

wait_for_server_ip-returns_example :
    (ip : String) × (wait_for_server_ip (ok tt) (ok tt) events ≡ some (ok ip))
unfolding any_event is_pod_ready get_service_external_ip
wait_for_server_ip-returns_example = wait_for_server_ip-returns events refl refl refl

wait_for_server_ip_sound_example :
    (address ≢ "")
    × (any_event reports_ready events ≡ true)
    × (any_event (λ e. reported_ip e == address) events ≡ true)
unfolding wait_for_server_ip wait step is_pod_ready get_service_external_ip
wait_for_server_ip_sound_example = wait_for_server_ip_sound (ok tt) (ok tt) events address refl
