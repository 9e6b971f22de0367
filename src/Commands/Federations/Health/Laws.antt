-- ===== src/Commands/Federations/Health/Laws.antt =====
-- cmd/cofidectl/cmd/federation/federation.go: which federations `list` calls healthy.
use cofidectl.Common.{
  ◌≡◌, ◌≢◌, refl, ap, ◌∙◌, String, ◌==◌, eq_iff, arith, Bool, true, false, Option, none, some,
  get_text, ne_of_test, if◌then◌else◌,
}
use cofidectl.Common.Maps.{lookup}
use cofidectl.Common.Errors.{Result, ok, err, panic}
use cofidectl.Common.Action.{Action, pure, continue-eq-ok}
use cofidectl.Config.Messages.{TrustZone, Cluster}
use cofidectl.DataSource.{DataSource}
use cofidectl.Commands.Federations.Health.{
  Bundles, healthy, Probe, stop, found, ClusterAccess, compare_bundles, compare_entry, or_unusable,
  select_usable_cluster, read_cluster, if_deployed, probe_cluster, probe, then_compared,
  after_first, check_federation_status,
}

pair_eq : {A W : Type 0} (o : Result A × W) {a : A} → o.0 ≡ ok a → o ≡ (ok a, o.1)
pair_eq (r, w) h = rw h refl

pure_eq : {A W : Type 0} {x y : A} {s t : W} → pure {S = W} x s ≡ (ok y, t) → (x ≡ y) × (s ≡ t)
pure_eq h = (cc, cc)

compare_entry_healthy : (o : Option String) (t : String) → compare_entry o t ≡ healthy → o ≡ some t
compare_entry_healthy none t h = cc
compare_entry_healthy (some s) t h = ground (arith, eq_iff s t)

compare_bundles_healthy :
    (remote : TrustZone) (a b : Bundles)
    → compare_bundles remote a b ≡ healthy
    → lookup remote.trust_domain a.federated_bundles ≡ some b.server_ca_bundle
unfolding compare_bundles
compare_bundles_healthy remote a b h = compare_entry_healthy _ b.server_ca_bundle h

if_false :
    {A W : Type 0} (b : Bool) (x y : Action W A) {w : W} {z : Result A × W}
    → (if b then x else y) w ≡ z
    → x w ≢ z
    → (b ≡ false) × (y w ≡ z)
if_false true x y h n = absurd (n h)
if_false false x y h n = (refl, h)

-- A cluster was selected, if bundles were found.
selected :
    {W : Type 0} (o : Result Cluster × W) (k : Cluster → Action W Probe) {b : Bundles} {w' : W}
    → or_unusable k o.0 o.1 ≡ (ok (found b), w')
    → (c : Cluster) × (o ≡ (ok c, o.1)) × (k c o.1 ≡ (ok (found b), w'))
selected (ok c, w) k h = (c, refl, h)
selected (err e, w) k h = cc
selected (panic, w) k h = cc

-- Nothing but a comparison gives a healthy federation.
compared :
    (remote : TrustZone) (a : Bundles) (p : Probe)
    → then_compared remote a p ≡ healthy
    → (b : Bundles) × (p ≡ found b) × (compare_bundles remote a b ≡ healthy)
compared remote a (stop o) e = cc
compared remote a (found b) e = (b, refl, e)

-- What was asked about a trust zone whose bundles were read.
module _ {W C : Type 0} (ds : DataSource W) (access : ClusterAccess W C) where
  abbrev pub Observed : TrustZone → Bundles → W → W → Type 0
  Observed tz b w w' =
      (c : Cluster) × (w1 : W) × (w2 : W) × (select_usable_cluster ds access tz w ≡ (ok c, w1))
      × (get_text c.kubernetes_context ≢ "")
      × (access.is_cluster_deployed c w1 ≡ (ok true, w2))
      × (read_cluster ds access (get_text c.kubernetes_context) w2 ≡ (ok (found b), w'))

  deployed_found :
      (t : String) (b : Bundles) (up : Bool) (w w' : W)
      → if_deployed ds access t up w ≡ (ok (found b), w')
      → (up ≡ true) × (read_cluster ds access t w ≡ (ok (found b), w'))
  deployed_found t b true w w' h = (refl, h)
  deployed_found t b false w w' h = cc

  when_read :
      (tz : TrustZone) (c : Cluster) (b : Bundles) (w w' : W)
      → probe_cluster ds access tz c w ≡ (ok (found b), w')
      → (get_text c.kubernetes_context ≢ "")
        × (access.is_cluster_deployed c w ≡ (ok true, (access.is_cluster_deployed c w).1))
        × (read_cluster ds access (get_text c.kubernetes_context) (access.is_cluster_deployed c w).1
            ≡ (ok (found b), w'))
  unfolding probe_cluster
  when_read tz c b w w' h =
      let (named, k) = if_false (get_text c.kubernetes_context == "") _ _ h (λ e. cc) in
      let (up, e, r) = continue-eq-ok (access.is_cluster_deployed c w) _ k in
      let (answer, reads) = deployed_found (get_text c.kubernetes_context) b up _ w' r in
      (ne_of_test _ "" named, pair_eq _ (e ∙ ap (λ x. ok x) answer), reads)

  when_probed :
      (tz : TrustZone) (b : Bundles) (w w' : W)
      → probe ds access tz w ≡ (ok (found b), w')
      → Observed tz b w w'
  unfolding probe
  when_probed tz b w w' h =
      let (c, e, k) =
        selected (select_usable_cluster ds access tz w) (probe_cluster ds access tz) h in
      let w1 : W = (select_usable_cluster ds access tz w).1 in
      let (named, up, reads) = when_read tz c b w1 w' k in
      (c, w1, (access.is_cluster_deployed c w1).1, e, named, up, reads)

  second :
      (remote : TrustZone) (a : Bundles) (w w' : W)
      → after_first ds access remote (found a) w ≡ (ok healthy, w')
      → (b : Bundles) × Observed remote b w w' × (compare_bundles remote a b ≡ healthy)
  second remote a w w' h =
      let (p, e, k) = continue-eq-ok (probe ds access remote w) _ h in
      let (same, kept) = pure_eq k in
      let (b, is, c) = compared remote a p same in
      (
        b,
        when_probed remote b w w' (
            pair_eq _ e
            ∙ ap (λ x. (ok x, (probe ds access remote w).1)) is
            ∙ ap (λ x. (ok (found b), x)) kept),
        c,
      )

  first :
      (remote : TrustZone) (p : Probe) (w w' : W)
      → after_first ds access remote p w ≡ (ok healthy, w')
      → (a : Bundles) × (p ≡ found a)
        × (after_first ds access remote (found a) w ≡ (ok healthy, w'))
  first remote (stop o) w w' h = cc
  first remote (found a) w w' h = (a, refl, h)

  -- A federation is shown as healthy only if, for its trust zone and then for its remote trust zone,
  -- a cluster was selected that has a Kubernetes context and is deployed, the bundles of its server
  -- were read, and the bundle that the first server has for the remote trust domain is the server CA
  -- bundle of the second.
  pub check_federation_status_healthy :
      (local remote : TrustZone) (w w' : W)
      → check_federation_status ds access local remote w ≡ (ok healthy, w')
      → (a : Bundles) × (b : Bundles) × (w1 : W) × Observed local a w w1
        × Observed remote b w1 w'
        × (lookup remote.trust_domain a.federated_bundles ≡ some b.server_ca_bundle)
  unfolding check_federation_status compare_bundles
  check_federation_status_healthy local remote w w' h =
      let (p, e, k) = continue-eq-ok (probe ds access local w) _ h in
      let w1 : W = (probe ds access local w).1 in
      let (a, is, later) = first remote p w1 w' k in
      let (b, observed, c) = second remote a w1 w' later in
      (
        a,
        b,
        w1,
        when_probed local a w w1 (pair_eq _ (e ∙ ap (λ x. ok x) is)),
        observed,
        compare_bundles_healthy remote a b c,
      )
