-- ===== src/Examples/Charts.antt =====
-- The releases of the charts, with a Helm that keeps one release.
use cofidectl.Common.{
  ◌≡◌, refl, ap, String, ◌==◌, true, false, Option, none, some, if◌then◌else◌, test_of_eq,
}
use cofidectl.Common.Errors.{ok, err, not_installed}
use cofidectl.Values.{no_fields}
use cofidectl.Provision.Helm.{
  HelmSdk, History, Settings, releases, release_not_found, check_if_already_installed,
  install_chart, uninstall_chart, upgrade_chart,
}
use cofidectl.Provision.Helm.Charts.{get_chart_ref}
use cofidectl.Provision.Helm.Releases.{KeepsReleases, install_chart_twice, uninstall_chart_twice}

abbrev history_of : Option String → String → History
history_of none chart = release_not_found
history_of (some kept) chart = if kept == chart then releases true else release_not_found

abbrev one_release : HelmSdk (Option String) (Unit {0})
one_release = record {
  default_kube_config = λ w. "config";
  init = λ s w. (ok tt, w);
  history = λ s chart w. (history_of w chart, w);
  locate_chart = λ s ref version w. (ok ref, w);
  load = λ path w. (ok tt, w);
  install = λ s chart c values w. (ok tt, some chart);
  upgrade = λ s chart c values w. (ok tt, w);
  uninstall = λ s chart w. (ok tt, none);
  is_reachable = λ s w. (ok tt, w);
}

one_release-KeepsReleases : KeepsReleases one_release
one_release-KeepsReleases = record {
  reads = λ s chart w. refl;
  installs = λ s chart c values w {w'} h.
      let kept : some chart ≡ w' = ap (λ o. o.1) h in rw (← kept, test_of_eq chart chart refl) refl;
  uninstalls = λ s chart w {w'} h. let gone : none ≡ w' = ap (λ o. o.1) h in rw (← gone) refl;
}

abbrev settings : Settings
settings = record { kube_config = "config"; kube_context = "kind"; namespace = "spire-mgmt" }

install_chart_twice_example :
    (check_if_already_installed one_release none settings "spire" (some "spire")
      ≡ (ok true, some "spire"))
    × (install_chart one_release none settings "cofide" "spire" "2" no_fields (some "spire")
        ≡ (ok tt, some "spire"))
unfolding install_chart check_if_already_installed get_chart_ref
install_chart_twice_example =
    install_chart_twice one_release none one_release-KeepsReleases settings "spire" "cofide" "1"
      no_fields "cofide" "2" no_fields none refl

uninstall_chart_twice_example :
    (check_if_already_installed one_release none settings "spire" none ≡ (ok false, none))
    × (uninstall_chart one_release none settings "spire" none ≡ (ok tt, none))
    × (upgrade_chart one_release none settings "cofide" "spire" "2" no_fields none
        ≡ (err (not_installed "spire"), none))
unfolding uninstall_chart check_if_already_installed
uninstall_chart_twice_example =
    uninstall_chart_twice one_release none one_release-KeepsReleases settings "spire" "cofide" "2"
      no_fields (some "spire") refl
