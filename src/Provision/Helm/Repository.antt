-- ===== src/Provision/Helm/Repository.antt =====
-- pkg/provider/helm/helm.go: the repository of the charts in the file of repositories, which is locked
-- for the change.
use cofidectl.Common.{String, Bool, if◌then◌else◌}
use cofidectl.Common.Errors.{
  Error, Result, ok, err, panic, mkdir_failed, lock_failed, repo_create_failed, repo_load_failed,
  chart_repo_failed, index_failed, repo_write_failed,
}
use cofidectl.Common.Action.{Action, in_context, ◌>>=◌, ◌>>◌}
use cofidectl.Provision.Messages.{status_ok, status_done, status_error}
use cofidectl.Provision.{Sending, send, or_report}
use cofidectl.Provision.Helm.{HelmSpireProvider}

-- `repo.File`, its functions and those of the lock on it.
pub record RepositoryFiles (W F : Type 0) : Type 0 where
  pub mkdir_all : Action W (Unit {0})
  pub try_lock : Action W Bool
  pub unlock : W → W
  pub load_file : Action W F
  pub new_file : F
  pub write_file : F → Action W (Unit {0})
  pub new_chart_repository : String → String → Action W (Unit {0})
  pub download_index_file : String → String → Action W (Unit {0})
  pub update : String → String → F → F

module _ {W F : Type 0} (files : RepositoryFiles W F) where
  abbrev unlocked : {A : Type 0} → Bool → Result A × W → Result A × W
  unlocked locked (r, w) = (r, if locked then files.unlock w else w)

  -- `runWithFileLock`
  unfoldable pub run_with_file_lock : {A : Type 0} → Action W A → Action W A
  run_with_file_lock f = do
    in_context mkdir_failed files.mkdir_all
    locked ← in_context lock_failed files.try_lock
    λ w. unlocked locked (f w)

  -- The file of repositories, which is made if it cannot be loaded.
  abbrev load_or_create : Action W F
  load_or_create w =
      let (r, w') = files.load_file w in
      elim r [
        | ok f ↦ (ok f, w')
        | err e ↦
            (in_context repo_create_failed (files.write_file files.new_file)
                >> in_context repo_load_failed files.load_file)
              w'
        | panic ↦ (panic, w')
      ]

  -- The function that `AddRepository` runs under the lock.
  unfoldable pub add_entry : HelmSpireProvider → Action W (Unit {0})
  add_entry h = do
    f ← load_or_create
    let name = h.spire_repository_name
    let url = h.spire_repository_url
    in_context chart_repo_failed (files.new_chart_repository name url)
    in_context index_failed (files.download_index_file name url)
    in_context repo_write_failed (files.write_file (files.update name url f))

  -- `AddRepository`
  unfoldable pub add_repository :
      (Error → String) → HelmSpireProvider → Action (Sending W) (Unit {0})
  unfolding run_with_file_lock add_entry
  add_repository error_text h = do
    send (status_ok "Preparing" "Adding SPIRE Helm repo")
    or_report (λ e. status_error "Preparing" "Failed to add SPIRE Helm repo" (error_text e))
        (run_with_file_lock (add_entry h))
    send (status_done "Prepared" "Added SPIRE Helm repo")
