-- ===== src/Provision/Helm/Releases.antt =====
-- pkg/provider/helm/helm.go: the releases of the charts across runs of install and uninstall.
use mathlib.Core.Path.{subst}
use cofidectl.Common.{◌≡◌, refl, sym, ap, ◌∙◌, String, Bool, true, false, Option, if◌then◌else◌}
use cofidectl.Common.Errors.{Result, ok, err, wrap, chart_status_failed, not_installed}
use cofidectl.Common.Action.{continue-eq-ok, pure, continue, ◌>>=◌}
use cofidectl.Values.{Fields}
use cofidectl.Provision.Helm.{
  HelmSdk, Settings, History, releases, release_not_found, history_failed, ledger, loaded_chart,
  check_if_already_installed, install_chart, upgrade_chart, uninstall_chart,
}

-- What Helm documents of its history: reading it changes nothing, a chart that was installed has a
-- release, and one that was uninstalled has none.
pub record KeepsReleases {W C : Type 0} (sdk : HelmSdk W C) : Type 0 where
  pub reads : (s : Settings) (chart : String) (w : W) → (sdk.history s chart w).1 ≡ w
  pub installs :
      (s : Settings) (chart : String) (c : C) (values : Fields) (w : W) {w' : W}
      → sdk.install s chart c values w ≡ (ok tt, w')
      → (sdk.history s chart w').0 ≡ releases true
  pub uninstalls :
      (s : Settings) (chart : String) (w : W) {w' : W}
      → sdk.uninstall s chart w ≡ (ok tt, w')
      → (sdk.history s chart w').0 ≡ release_not_found

both : {A S : Type 0} (m : A × S) {a : A} {s : S} → m.0 ≡ a → m.1 ≡ s → m ≡ (a, s)
both (a, s) h k = cc

module _ {W C : Type 0} (sdk : HelmSdk W C) (repo_path : Option String) (keeps : KeepsReleases sdk)
    (settings : Settings) (chart : String) where
  -- The check reads the history only.
  found :
      {w : W} {b : Bool}
      → (sdk.history settings chart w).0 ≡ releases b
      → check_if_already_installed sdk repo_path settings chart w ≡ (ok b, w)
  unfolding check_if_already_installed
  found {w} h = ap (ledger sdk repo_path) (both _ h (keeps.reads settings chart w))

  absent :
      {w : W}
      → (sdk.history settings chart w).0 ≡ release_not_found
      → check_if_already_installed sdk repo_path settings chart w ≡ (ok false, w)
  unfolding check_if_already_installed
  absent {w} h = ap (ledger sdk repo_path) (both _ h (keeps.reads settings chart w))

  -- A chart with a release is installed by doing nothing.
  settled :
      (repo_name version : String) (values : Fields) {w : W}
      → (sdk.history settings chart w).0 ≡ releases true
      → install_chart sdk repo_path settings repo_name chart version values w ≡ (ok tt, w)
  unfolding install_chart
  settled repo_name version values h = rw (found h) refl

  -- A step that does nothing after the history was read leaves the world.
  unchanged :
      {w w1 w' : W} {x : History}
      → sdk.history settings chart w ≡ (x, w1)
      → ◌≡◌ {A = Result (Unit {0}) × W} (ok tt, w1) (ok tt, w')
      → w ≡ w'
  unchanged {w} q k = sym (keeps.reads settings chart w) ∙ ap (λ o. o.1) q ∙ ap (λ o. o.1) k

  loaded_then_installed :
      (repo_name version : String) (values : Fields) (w : W) {w' : W}
      → (loaded_chart sdk repo_path settings repo_name chart version >>= λ c.
            sdk.install settings chart c values)
          w
        ≡ (ok tt, w')
      → (sdk.history settings chart w').0 ≡ releases true
  loaded_then_installed repo_name version values w h =
      let (c, _, k) =
        continue-eq-ok (loaded_chart sdk repo_path settings repo_name chart version w) _ h in
      keeps.installs settings chart c values _ k

  -- Once an install has succeeded, the chart has a release.
  installed :
      (repo_name version : String) (values : Fields) (w : W) {w' : W}
      → install_chart sdk repo_path settings repo_name chart version values w ≡ (ok tt, w')
      → (sdk.history settings chart w').0 ≡ releases true
  unfolding install_chart check_if_already_installed
  installed repo_name version values w {w'} h = go (sdk.history settings chart w) refl h
    where
      go :
          (o : History × W)
          → sdk.history settings chart w ≡ o
          → continue
              (wrap chart_status_failed (ledger sdk repo_path o).0)
              (λ b.
                if b
                then pure tt
                else loaded_chart sdk repo_path settings repo_name chart version >>= λ c.
                    sdk.install settings chart c values)
              (ledger sdk repo_path o).1
            ≡ (ok tt, w')
          → (sdk.history settings chart w').0 ≡ releases true
      go (releases true, w1) q k =
          subst (λ (x : W). (sdk.history settings chart x).0 ≡ releases true) (unchanged q k)
            (ap (λ o. o.0) q)
      go (releases false, w1) q k = loaded_then_installed repo_name version values w1 k
      go (release_not_found, w1) q k = loaded_then_installed repo_name version values w1 k
      go (history_failed e, w1) q k = cc

  uninstalled :
      (w : W) {w' : W}
      → uninstall_chart sdk repo_path settings chart w ≡ (ok tt, w')
      → check_if_already_installed sdk repo_path settings chart w' ≡ (ok false, w')
  unfolding uninstall_chart
  uninstalled w {w'} h = go (sdk.history settings chart w) refl h
    where
      still :
          {w1 : W} {x : History}
          → sdk.history settings chart w ≡ (x, w1)
          → w ≡ w'
          → ledger sdk repo_path (x, w) ≡ (ok false, w)
          → ledger sdk repo_path (sdk.history settings chart w') ≡ (ok false, w')
      still q k l =
          subst (λ (v : W). ledger sdk repo_path (sdk.history settings chart v) ≡ (ok false, v)) k
            (ap (ledger sdk repo_path) (both _ (ap (λ o. o.0) q) (keeps.reads settings chart w))
              ∙ l)

      go :
          (o : History × W)
          → sdk.history settings chart w ≡ o
          → continue
              (wrap chart_status_failed (ledger sdk repo_path o).0)
              (λ b. if b then sdk.uninstall settings chart else pure tt)
              (ledger sdk repo_path o).1
            ≡ (ok tt, w')
          → ledger sdk repo_path (sdk.history settings chart w') ≡ (ok false, w')
      go (releases true, w1) q k =
          ap (ledger sdk repo_path)
            (both _ (keeps.uninstalls settings chart w1 k) (keeps.reads settings chart w'))
      go (releases false, w1) q k = still q (unchanged q k) refl
      go (release_not_found, w1) q k = still q (unchanged q k) refl
      go (history_failed e, w1) q k = cc

  -- Given the history that Helm keeps: after an install of a chart that succeeded, the chart is found
  -- installed, and a second install, with any repository, version and values, does nothing.
  pub install_chart_twice :
      (repo_name version : String) (values : Fields) (repo_name' version' : String)
      (values' : Fields) (w : W) {w' : W}
      → install_chart sdk repo_path settings repo_name chart version values w ≡ (ok tt, w')
      → (check_if_already_installed sdk repo_path settings chart w' ≡ (ok true, w'))
        × (install_chart sdk repo_path settings repo_name' chart version' values' w' ≡ (ok tt, w'))
  install_chart_twice repo_name version values repo_name' version' values' w h =
      let i = installed repo_name version values w h in
      (found i, settled repo_name' version' values' i)

  -- Given the history that Helm keeps: after an uninstall of a chart that succeeded, the chart is not
  -- found, a second uninstall does nothing, and an upgrade is refused and changes nothing.
  pub uninstall_chart_twice :
      (repo_name version : String) (values : Fields) (w : W) {w' : W}
      → uninstall_chart sdk repo_path settings chart w ≡ (ok tt, w')
      → (check_if_already_installed sdk repo_path settings chart w' ≡ (ok false, w'))
        × (uninstall_chart sdk repo_path settings chart w' ≡ (ok tt, w'))
        × (upgrade_chart sdk repo_path settings repo_name chart version values w'
            ≡ (err (not_installed chart), w'))
  unfolding uninstall_chart upgrade_chart
  uninstall_chart_twice repo_name version values w h =
      let u = uninstalled w h in (u, rw u refl, rw u refl)
