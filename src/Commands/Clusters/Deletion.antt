-- ===== src/Commands/Clusters/Deletion.antt =====
-- cmd/cofidectl/cmd/cluster/cluster.go: when the command deletes a cluster.
use cofidectl.Common.{◌≡◌, refl, ap, ◌∙◌, String, Bool, true, false, get_text}
use cofidectl.Common.Errors.{Error, Result, ok, err, panic, cluster_up, wrap, get_failed, zone_kind}
use cofidectl.Common.Action.{Action, fail_if, continue-eq-ok, in_context}
use cofidectl.Config.Messages.{Cluster, TrustZone}
use cofidectl.DataSource.{DataSource}
use cofidectl.Commands.Clusters.{check_down, delete_cluster}

-- The check passes only for a cluster that is not up.
fail_if-ok :
    {W : Type 0} (b : Bool) (e : Error) (w w' : W)
    → fail_if b e w ≡ (ok tt, w')
    → (b ≡ false) × (w ≡ w')
fail_if-ok true e w w' h = cc
fail_if-ok false e w w' h = (refl, cc)

wrap-ok : {A : Type 0} (f : Error → Error) (r : Result A) {a : A} → wrap f r ≡ ok a → r ≡ ok a
wrap-ok f (ok x) h = h
wrap-ok f (err e) h = cc
wrap-ok f panic h = cc

pair-eq : {A W : Type 0} (o : Result A × W) {a : A} → o.0 ≡ ok a → o ≡ (ok a, o.1)
pair-eq (r, w) h = rw h refl

module _ {W : Type 0} (ds : DataSource W) (is_cluster_deployed : Cluster → Action W Bool) where
  -- Without force a cluster is deleted only if it was found by its name in the trust zone that was
  -- found by its name, if it was then asked whether it is up and it was not, and if the data source
  -- destroyed it after that, which is the last step.
  pub delete_cluster_down :
      (name trust_zone_name : String) (w w' : W)
      → delete_cluster ds is_cluster_deployed name trust_zone_name false w ≡ (ok tt, w')
      → (tz : TrustZone) × (cluster : Cluster) × (w1 : W) × (w2 : W) × (w3 : W)
        × (ds.get_trust_zone_named trust_zone_name w ≡ (ok tz, w1))
        × (ds.get_cluster_named name (get_text tz.id) w1 ≡ (ok cluster, w2))
        × (is_cluster_deployed cluster w2 ≡ (ok false, w3))
        × (ds.destroy_cluster (get_text cluster.id) w3 ≡ (ok tt, w'))
  unfolding delete_cluster
  delete_cluster_down name trust_zone_name w w' h =
      let (tz, e1, k1) =
        continue-eq-ok
          (in_context (get_failed zone_kind) (ds.get_trust_zone_named trust_zone_name) w) _ h in
      let w1 : W = (ds.get_trust_zone_named trust_zone_name w).1 in
      let (cluster, e2, k2) = continue-eq-ok (ds.get_cluster_named name (get_text tz.id) w1) _ k1 in
      let w2 : W = (ds.get_cluster_named name (get_text tz.id) w1).1 in
      let (u, e3, k3) =
        continue-eq-ok (check_down ds is_cluster_deployed false cluster name w2) _ k2 in
      let (b, e4, k4) = continue-eq-ok (is_cluster_deployed cluster w2) _ (pair-eq _ e3) in
      let (down, same) = fail_if-ok b (cluster_up name) _ _ k4 in
      (
        tz,
        cluster,
        w1,
        w2,
        (is_cluster_deployed cluster w2).1,
        pair-eq _ (wrap-ok (get_failed zone_kind) _ e1),
        pair-eq _ e2,
        pair-eq _ (e4 ∙ ap (λ x. ok x) down),
        ap (λ x. ds.destroy_cluster (get_text cluster.id) x) same ∙ k3,
      )
