-- ===== src/Spire/Wait.antt =====
-- pkg/spire/spire.go: `WaitForServerIP`, a loop over the events of two watchers and a timer. The order in
-- which `select` takes the events is the order of a list.
pub mod Laws
use cofidectl.Common.{
  String, ◌==◌, Bool, true, false, not, ◌&&◌, ◌||◌, Option, none, some, List, [], ◌∷◌,
  if◌then◌else◌,
}
use cofidectl.Common.Errors.{
  Error, Result, ok, err, panic, pod_watcher_closed, service_watcher_closed, wait_timeout,
}
use cofidectl.Spire.{Pod, Service, is_pod_ready, get_service_external_ip}

-- `watch.EventType`
pub data Change : Type 0 where
  added modified deleted bookmark failed : Change

-- What `select` takes: an event of a watcher, its closed channel, or the end of the timer.
pub data Event : Type 0 where
  pod_event : Change → Pod → Event
  service_event : Change → Service → Event
  pod_channel_closed service_channel_closed timed_out : Event

pub record Progress : Type 0 where
  pub pod_ready : Bool
  pub service_ip : String

abbrev pub is_upsert : Change → Bool
is_upsert added = true
is_upsert modified = true
is_upsert _ = false

abbrev pub or_last : String → Result String → String
or_last old (ok ip) = ip
or_last old (err e) = old
or_last old panic = old

-- One round of the loop, before the test at its end.
unfoldable pub step : Progress → Event → Result Progress
step p (pod_event change pod) =
    if is_upsert change && pod.name == "spire-server-0" && is_pod_ready pod.conditions
    then ok (record p { pod_ready = true })
    else ok p
step p (service_event change service) =
    if is_upsert change && service.name == "spire-server"
    then ok
        (record p { service_ip = or_last p.service_ip (get_service_external_ip service.ingress) })
    else ok p
step p pod_channel_closed = err pod_watcher_closed
step p service_channel_closed = err service_watcher_closed
step p timed_out = err wait_timeout

abbrev pub is_done : Progress → Bool
is_done p = p.pod_ready && not (p.service_ip == "")

-- The test at the end of a round, before the events that follow.
abbrev pub after : Result Progress → (Progress → Option (Result String)) → Option (Result String)
after (ok p) rest = if is_done p then some (ok p.service_ip) else rest p
after (err e) rest = some (err e)
after panic rest = some panic

-- The loop: nothing while it still waits after the events.
unfoldable pub wait : Progress → List Event → Option (Result String)
unfolding step
wait p [] = none
wait p (e ∷ es) = after (step p e) (λ p'. wait p' es)

-- `WaitForServerIP`, given whether the watcher of the pods and that of the services could be made
unfoldable pub wait_for_server_ip :
    Result (Unit {0}) → Result (Unit {0}) → List Event → Option (Result String)
unfolding wait
wait_for_server_ip (ok u) (ok v) es = wait (record { pod_ready = false; service_ip = "" }) es
wait_for_server_ip (ok u) (err e) es = some (err e)
wait_for_server_ip (ok u) panic es = some panic
wait_for_server_ip (err e) services es = some (err e)
wait_for_server_ip panic services es = some panic
