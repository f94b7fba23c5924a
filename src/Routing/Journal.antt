-- ===== src/Routing/Journal.antt =====
-- crates/routing/src/apply.rs, `apply_journal` and `restore_added`. The kernel's table is the list
-- of routes that were added, the latest first. What `ip route add` and `ip route del` answer is a
-- parameter, a function of the route and of the table.
pub mod Undo
use mathlib.Core.Logic.{ite}
use easy_connection.Prelude.{Bool, Option, List, [], ◌∷◌, ◌++◌, if◌then◌else◌, Result, ok, err, ℕ}
use native.Mathlib.Decide.{ℕ_discrete}
use mathlib.Core.List.{reverse}
use easy_connection.Prelude.Net.{IpAddr}
use easy_connection.Routing.Plan.{AddedRoute, RouteJournal}

pub IpAddr-discrete : Discrete IpAddr
IpAddr-discrete = hlevel ℕ_discrete

pub AddedRoute-discrete : Discrete AddedRoute
AddedRoute-discrete = hlevel (ℕ_discrete, IpAddr-discrete)

abbrev pub Table : Type 0
Table = List AddedRoute

-- The answers of `run_ip_ignore_exists`: `Ok(true)`, `Ok(false)` and `Err`.
pub data AddOutcome : Type 0 where
  added : AddOutcome
  exists : AddOutcome
  failed : AddOutcome

pub data RoutingError : Type 0 where
  other : RoutingError

-- The route is taken out of the table, where it stands.
unfoldable pub erase_route : AddedRoute → Table → Table
erase_route r [] = []
erase_route r (x ∷ t) = let rest = erase_route r t in ite (AddedRoute-discrete x r) t (x ∷ rest)

module _ (ip_add : AddedRoute → Table → AddOutcome) (ip_del : AddedRoute → Table → Bool) where
  -- One round of the loop of `restore_added`; a failure is logged, and the loop goes on.
  delete_route : AddedRoute → Table → Table
  delete_route r t = if ip_del r t then erase_route r t else t

  delete_all : List AddedRoute → Table → Table
  delete_all [] t = t
  delete_all (r ∷ rs) t = delete_all rs (delete_route r t)

  unfoldable pub restore_added : List AddedRoute → Table → Table
  unfolding delete_all delete_route
  restore_added routes t = delete_all (reverse routes) t

  -- The loop of `apply_journal`, with `actually_added` so far.
  apply_from :
      List AddedRoute → List AddedRoute → Table → Result (List AddedRoute) RoutingError × Table
  apply_from done [] t = (ok done, t)
  apply_from done (r ∷ rs) t =
      let next = apply_from (done ++ (r ∷ [])) rs (r ∷ t) in
      let skip = apply_from done rs t in
      elim (ip_add r t) [
        | added ↦ next
        | exists ↦ skip
        | failed ↦ (err other, restore_added done t)
      ]

  unfoldable pub apply_journal :
      RouteJournal → Table → Result (List AddedRoute) RoutingError × Table
  unfolding apply_from
  apply_journal journal t = apply_from [] journal.added t
