-- ===== src/Examples/Sessions.antt =====
-- A history of calls on the small configuration.
use cofidectl.Common.{◌≡◌, refl, List, [], ◌∷◌, ne_of_test, find_first, remove_first, arith}
use cofidectl.Common.Errors.{ok}
use cofidectl.Config.{Config}
use cofidectl.Config.WellFormed.{WellFormed}
use cofidectl.Local.{update_data_file, new_local_data_source}
use cofidectl.Examples.Data.{
  copying, copying-IsProtoLib, keeping, keeping-Persists, gamma, small-WellFormed, opened,
}
use cofidectl.Local.Clusters.{destroy_cluster}
use cofidectl.Local.Session.{Call, adds_zone, destroys_zone, destroys_cluster, AllFresh, call, run}
use cofidectl.Local.Session.Invariant.{run-WellFormed}
use cofidectl.Local.Session.Saved.{call_then_restart}

-- The second call fails, since a cluster is in the way; the last two remove both.
abbrev calls : List Call
calls = adds_zone (ok "n") gamma ∷ destroys_zone "b" ∷ destroys_cluster "c" ∷ destroys_zone "b" ∷ []

abbrev CallsFresh : Type 0
CallsFresh = AllFresh copying keeping calls opened

calls_fresh : CallsFresh
calls_fresh = (
  λ id e. (
    ground (arith, e, ne_of_test "a" "n" refl),
    (ground (arith, e, ne_of_test "b" "n" refl), tt),
  ),
  (tt, (tt, (tt, tt))),
)

run-WellFormed_example : WellFormed (run copying keeping calls opened).config
run-WellFormed_example =
    run-WellFormed copying copying-IsProtoLib keeping calls opened calls_fresh small-WellFormed

abbrev Anything : Config → Type 0
Anything c = Unit {0}

call_then_restart_example :
    new_local_data_source keeping (call copying keeping (destroys_cluster "c") opened).1.store
    ≡ ok (call copying keeping (destroys_cluster "c") opened).1
unfolding call destroy_cluster update_data_file find_first remove_first
call_then_restart_example =
    call_then_restart copying keeping Anything (destroys_cluster "c") opened keeping-Persists refl
      tt
