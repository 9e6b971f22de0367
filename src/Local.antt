-- ===== src/Local.antt =====
-- pkg/plugin/local/local.go: the local data source, which keeps the configuration in memory and
-- writes it through a `Loader` after each change. The methods are in the modules below.
pub mod Zones
pub mod Clusters
pub mod Policies
pub mod Bindings
pub mod Federations
pub mod Session
pub mod Source
use cofidectl.Common.{
  ◌≡◌, refl, String, ◌==◌, Bool, true, false, not, Option, none, some, List, [], ◌∷◌, ◌++◌, filter,
  remove_first, replace_first,
}
use cofidectl.Common.Errors.{
  Kind, Error, Result, ok, err, panic, wrap, config_missing, uuid_error, uuid_failed,
}
use cofidectl.Common.Errors
use cofidectl.Common.Action.{Action, modify, fail_if, ◌>>=◌, ◌>>◌}
use cofidectl.Config.{Config, new_config}
use cofidectl.Config.Loader.{Loader}

-- `lds.config` and the store behind `lds.loader`.
pub record LocalDataSource (S : Type 0) : Type 0 where
  pub config : Config
  pub store : S

-- `generateId`, given the outcome of `uuid.NewUUID`; its callers wrap the error once more.
unfoldable pub generate_id : Kind → Result String → Result String
generate_id kind uid = wrap (uuid_failed kind) (wrap uuid_error uid)

-- `if !ok { return nil, e }` after a lookup.
abbrev pub or_fail : {S A : Type 0} → Error → Option A → Action S A
or_fail e none s = (err e, s)
or_fail e (some a) s = (ok a, s)

-- A loop that clones each element and stops at the first error.
unfoldable pub clone_all : {A : Type 0} → (A → Result A) → List A → Result (List A)
clone_all clone [] = ok []
clone_all clone (x ∷ xs) =
    let rest = clone_all clone xs in
    Errors.◌>>=◌ (clone x) λ copy. Errors.◌>>=◌ rest λ copies. ok (copy ∷ copies)

pub clone_all_lem :
    {A : Type 0} (clone : A → Result A)
    → ((a : A) → clone a ≡ ok a)
    → (xs : List A) → clone_all clone xs ≡ ok xs
unfolding clone_all
clone_all_lem clone h [] = refl
clone_all_lem clone h (x ∷ xs) = rw (h x, clone_all_lem clone h xs)

-- A change of the configuration in memory.
abbrev pub change : {S : Type 0} → (Config → Config) → Action (LocalDataSource S) (Unit {0})
change f lds = (ok tt, record lds { config = f lds.config })

module _ {S : Type 0} (loader : Loader S) where
  unfoldable pub load_state : Action (LocalDataSource S) (Unit {0})
  load_state = do
    exists ← λ lds. (loader.exists lds.store, lds)
    fail_if (not exists) config_missing
    c ← λ lds. (loader.read lds.store, lds)
    change (λ _. c)

  -- `NewLocalDataSource`
  unfoldable pub new_local_data_source : S → Result (LocalDataSource S)
  unfolding load_state
  new_local_data_source store =
      let (r, lds) = load_state (record { config = new_config; store = store }) in
      Errors.◌>>=◌ r λ _. ok lds

  -- `updateDataFile`, with the wrapping of its error that the caller makes.
  unfoldable pub update_data_file : (Error → Error) → Action (LocalDataSource S) (Unit {0})
  update_data_file in_context lds =
      let (r, store) = loader.write lds.config lds.store in
      (wrap in_context r, record lds { store = store })
