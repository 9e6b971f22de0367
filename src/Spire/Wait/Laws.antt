-- ===== src/Spire/Wait/Laws.antt =====
-- pkg/spire/spire.go: when `WaitForServerIP` returns, and what.
use mathlib.Core.Path.{subst}
use cofidectl.Common.{
  ◌≡◌, ◌≢◌, refl, String, ◌==◌, Bool, true, false, not, ◌&&◌, ◌||◌, some, List, [], ◌∷◌,
  if◌then◌else◌, Bool-cases, inl, inr, arith, eq_iff,
}
use cofidectl.Common.Errors.{Error, Result, ok, err, panic}
use cofidectl.Spire.{Ingress, is_pod_ready, get_service_external_ip}
use cofidectl.Spire.Wait.{
  Event, pod_event, service_event, pod_channel_closed, service_channel_closed, timed_out, Progress,
  is_upsert, or_last, step, is_done, wait, wait_for_server_ip,
}

-- An event that ends the wait with an error.
abbrev pub is_end : Event → Bool
is_end (pod_event change pod) = false
is_end (service_event change service) = false
is_end _ = true

-- The pod of the server is ready.
abbrev pub reports_ready : Event → Bool
reports_ready (pod_event change pod) =
    is_upsert change && pod.name == "spire-server-0" && is_pod_ready pod.conditions
reports_ready _ = false

-- The address at which the service of the server is reached.
abbrev pub reported_ip : Event → String
reported_ip (service_event change service) =
    if is_upsert change && service.name == "spire-server"
    then or_last "" (get_service_external_ip service.ingress)
    else ""
reported_ip _ = ""

abbrev pub reports_ip : Event → Bool
reports_ip e = not (reported_ip e == "")

unfoldable pub any_event : (Event → Bool) → List Event → Bool
any_event f [] = false
any_event f (e ∷ es) = f e || any_event f es

-- What the events that do not end the wait do to its progress.
abbrev advanced : Progress → Event → Progress
advanced p e = record {
  pod_ready = p.pod_ready || reports_ready e;
  service_ip = if reported_ip e == "" then p.service_ip else reported_ip e;
}

ip_or_old :
    (old : String) (ingress : List Ingress)
    → (if or_last "" (get_service_external_ip ingress) == ""
        then old
        else or_last "" (get_service_external_ip ingress))
      ≡ or_last old (get_service_external_ip ingress)
unfolding get_service_external_ip
ip_or_old old [] = refl
ip_or_old old (i ∷ j ∷ is) = refl
ip_or_old old (i ∷ []) = elim (Bool-cases (i.hostname == "")) [
  | inl e ↦ elim (Bool-cases (i.ip == "")) [ inl f ↦ rw (e, f) refl | inr f ↦ rw (e, f, f) refl ]
  | inr e ↦ rw (e, e) refl
]

or_false : (b : Bool) → (b || false) ≡ b
or_false true = refl
or_false false = refl

service-advanced :
    (b : Bool) (p : Progress) (ingress : List Ingress)
    → (if b
        then ok (record p { service_ip = or_last p.service_ip (get_service_external_ip ingress) })
        else ok p)
      ≡ ok (record {
        pod_ready = p.pod_ready || false;
        service_ip =
            if (if b then or_last "" (get_service_external_ip ingress) else "") == ""
            then p.service_ip
            else if b
            then or_last "" (get_service_external_ip ingress)
            else "";
      })
service-advanced true p ingress = rw (or_false p.pod_ready, ip_or_old p.service_ip ingress) refl
service-advanced false p ingress = rw (or_false p.pod_ready) refl

step-advanced : (p : Progress) (e : Event) → is_end e ≡ false → step p e ≡ ok (advanced p e)
unfolding step
step-advanced p (pod_event change pod) h = ground arith
step-advanced p (service_event change service) h =
    service-advanced (is_upsert change && service.name == "spire-server") p service.ingress
step-advanced p pod_channel_closed h = cc
step-advanced p service_channel_closed h = cc
step-advanced p timed_out h = cc

abbrev Ready : Progress → List Event → Type 0
Ready p es = (p.pod_ready || any_event reports_ready es) ≡ true

abbrev Reached : Progress → List Event → Type 0
Reached p es = (not (p.service_ip == "") || any_event reports_ip es) ≡ true

Ready-advanced :
    (p : Progress) (e : Event) (es : List Event) → Ready p (e ∷ es) → Ready (advanced p e) es
unfolding any_event
Ready-advanced p e es h = ground arith

Reached-advanced :
    (p : Progress) (e : Event) (es : List Event) → Reached p (e ∷ es) → Reached (advanced p e) es
unfolding any_event
Reached-advanced p e es h = ground arith

or_eq_false : (b c : Bool) → (b || c) ≡ false → (b ≡ false) × (c ≡ false)
or_eq_false true c h = cc
or_eq_false false c h = (refl, h)

wait-returns :
    (p : Progress) (es : List Event)
    → is_done p ≡ false
    → any_event is_end es ≡ false
    → Ready p es
    → Reached p es
    → (ip : String) × (wait p es ≡ some (ok ip))
unfolding wait any_event
wait-returns p [] d n r i = ground arith
wait-returns p (e ∷ es) d n r i =
    let (here, later) = or_eq_false (is_end e) (any_event is_end es) n in
    elim (Bool-cases (is_done (advanced p e))) [
      | inl t ↦ ((advanced p e).service_ip, rw (step-advanced p e here, t) refl)
      | inr t ↦
          let (ip, w) =
            wait-returns (advanced p e) es t later (Ready-advanced p e es r)
              (Reached-advanced p e es i) in
          (ip, rw (step-advanced p e here, t) w)
    ]

-- If both watchers could be made, neither closes its channel and the timer does not end, and among the
-- events, in whatever order, one reports that the pod of the server is ready and one an address of its service, then the
-- wait returns an address.
pub wait_for_server_ip-returns :
    (es : List Event)
    → any_event is_end es ≡ false
    → any_event reports_ready es ≡ true
    → any_event reports_ip es ≡ true
    → (ip : String) × (wait_for_server_ip (ok tt) (ok tt) es ≡ some (ok ip))
unfolding wait_for_server_ip
wait_for_server_ip-returns es n r i =
    wait-returns (record { pod_ready = false; service_ip = "" }) es refl n r i

abbrev Named : Progress → List Event → String → Type 0
Named p es ip = (p.service_ip == ip || any_event (λ e. reported_ip e == ip) es) ≡ true

done_sound :
    (p : Progress) (e : Event) (es : List Event)
    → is_done (advanced p e) ≡ true
    → Ready p (e ∷ es)
      × Named p (e ∷ es) (advanced p e).service_ip
      × ((advanced p e).service_ip ≢ "")
unfolding any_event
done_sound p e es d = (
  ground arith,
  ground (arith, eq_iff p.service_ip p.service_ip, eq_iff (reported_ip e) (reported_ip e)),
  λ empty. ground (arith, eq_iff (advanced p e).service_ip ""),
)

-- What held with the event among those to come held before it.
Ready-before :
    (p : Progress) (e : Event) (es : List Event) → Ready (advanced p e) es → Ready p (e ∷ es)
unfolding any_event
Ready-before p e es h = ground arith

Named-before :
    (p : Progress) (e : Event) (es : List Event) (ip : String)
    → Named (advanced p e) es ip
    → Named p (e ∷ es) ip
unfolding any_event
Named-before p e es ip h = ground arith

step-end : (p : Progress) (e : Event) → is_end e ≡ true → (x : Error) × (step p e ≡ err x)
unfolding step
step-end p (pod_event change pod) h = cc
step-end p (service_event change service) h = cc
step-end p pod_channel_closed h = (_, refl)
step-end p service_channel_closed h = (_, refl)
step-end p timed_out h = (_, refl)

wait_sound :
    (p : Progress) (es : List Event) (ip : String)
    → wait p es ≡ some (ok ip)
    → Ready p es × Named p es ip × (ip ≢ "")
unfolding wait
wait_sound p [] ip h = cc
wait_sound p (e ∷ es) ip h = elim (Bool-cases (is_end e)) [
  | inl t ↦ let (x, f) = step-end p e t in let k = rw f at h in cc
  | inr t ↦ elim (Bool-cases (is_done (advanced p e))) [
    | inl d ↦
        let k : some (ok (advanced p e).service_ip) ≡ some (ok ip) =
          rw (step-advanced p e t, d) at h in
        let same : (advanced p e).service_ip ≡ ip = cc in
        subst (λ (x : String). Ready p (e ∷ es) × Named p (e ∷ es) x × (x ≢ "")) same
          (done_sound p e es d)
    | inr d ↦
        let k : wait (advanced p e) es ≡ some (ok ip) = rw (step-advanced p e t, d) at h in
        let (r, n, ne) = wait_sound (advanced p e) es ip k in
        (Ready-before p e es r, Named-before p e es ip n, ne)
  ]
]

-- An address that the wait returns is not empty, one of the events reported it for the service of the
-- server, and one reported that the pod of the server is ready.
pub wait_for_server_ip_sound :
    (pods services : Result (Unit {0})) (es : List Event) (ip : String)
    → wait_for_server_ip pods services es ≡ some (ok ip)
    → (ip ≢ "")
      × (any_event reports_ready es ≡ true)
      × (any_event (λ e. reported_ip e == ip) es ≡ true)
unfolding wait_for_server_ip
wait_for_server_ip_sound (ok u) (ok v) es ip h =
    let (r, n, ne) = wait_sound (record { pod_ready = false; service_ip = "" }) es ip h in
    (ne, r, ground (arith, eq_iff "" ip))
wait_for_server_ip_sound (ok u) (err e) es ip h = cc
wait_for_server_ip_sound (ok u) panic es ip h = cc
wait_for_server_ip_sound (err e) services es ip h = cc
wait_for_server_ip_sound panic services es ip h = cc
