-- ===== src/Provision/Helm/Laws.antt =====
-- pkg/provider/helm/helm.go: what the methods of the provider report, and when they run nothing.
use cofidectl.Common.{◌≢◌, refl, String, Option}
use cofidectl.Common.Errors.{Error}
use cofidectl.Common.Action.{Action}
use cofidectl.Provision.Tells.{Tells, Tells-pure, Tells-send, Tells-or_report, Tells-then, Tells-if}
use cofidectl.Provision.Helm.Repository.{add_repository, RepositoryFiles}
use cofidectl.Provision.Helm.{HelmSdk, HelmSpireProvider}
use cofidectl.Provision.Helm.Execute.{
  step, execute, execute_post_install_upgrade, execute_upgrade, execute_uninstall,
}

module _ (error_text : Error → String) (named : (e : Error) → error_text e ≢ "")
    {W F : Type 0} where
  pub add_repository-Tells :
      (files : RepositoryFiles W F) (h : HelmSpireProvider)
      → Tells error_text (add_repository files error_text h)
  unfolding add_repository
  add_repository-Tells files h = Tells-then error_text _ _ (Tells-send error_text _ refl) (
      Tells-then error_text _ _ (Tells-or_report error_text named _ _ (λ e. refl))
        (Tells-send error_text _ refl))

module _ {W C : Type 0} (sdk : HelmSdk W C) (repo_path : Option String)
    (error_text : Error → String) (named : (e : Error) → error_text e ≢ "")
    (h : HelmSpireProvider) where
  Tells-step :
      (stage starting failure : String) (m : Action W (Unit {0}))
      → Tells error_text (step sdk repo_path error_text h stage starting failure m)
  unfolding step
  Tells-step stage starting failure m =
      Tells-then error_text _ _ (Tells-send error_text _ refl)
        (Tells-or_report error_text named _ _ (λ e. refl))

  pub execute-Tells : Tells error_text (execute sdk repo_path error_text h)
  unfolding execute
  execute-Tells =
      Tells-then error_text _ _
        (Tells-if error_text h.install_crds _ _ (Tells-step _ _ _ _) (Tells-pure error_text tt))
        (Tells-then error_text _ _ (Tells-step _ _ _ _) (Tells-send error_text _ refl))

  pub execute_post_install_upgrade-Tells :
      Tells error_text (execute_post_install_upgrade sdk repo_path error_text h)
  unfolding execute_post_install_upgrade
  execute_post_install_upgrade-Tells =
      Tells-then error_text _ _ (Tells-step _ _ _ _) (Tells-send error_text _ refl)

  pub execute_upgrade-Tells : Tells error_text (execute_upgrade sdk repo_path error_text h)
  unfolding execute_upgrade
  execute_upgrade-Tells =
      Tells-then error_text _ _ (Tells-step _ _ _ _) (Tells-send error_text _ refl)

  pub execute_uninstall-Tells : Tells error_text (execute_uninstall sdk repo_path error_text h)
  unfolding execute_uninstall
  execute_uninstall-Tells = Tells-then error_text _ _ (Tells-step _ _ _ _) (
      Tells-then error_text _ _
        (Tells-if error_text h.install_crds _ _ (Tells-step _ _ _ _) (Tells-pure error_text tt))
        (Tells-send error_text _ refl))
