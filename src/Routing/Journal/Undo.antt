-- ===== src/Routing/Journal/Undo.antt =====
-- Applying a journal and withdrawing it leaves the table as it was.
use mathlib.Core.Path.{subst}
use easy_connection.Prelude.{Bool, true, List, [], ◌∷◌, ◌++◌, Result, ok, err, ◌≡◌, refl, arith}
use mathlib.Core.List.{reverse, reverse-append}
use easy_connection.Routing.Plan.{AddedRoute, RouteJournal}
use easy_connection.Routing.Journal.{
  Table, AddOutcome, added, exists, failed, RoutingError, other, erase_route, delete_route,
  delete_all, restore_added, apply_from, apply_journal,
}

erase_route_head : (r : AddedRoute) (t : Table) → erase_route r (r ∷ t) ≡ t
unfolding erase_route
erase_route_head r t = ground arith

module _ (ip_add : AddedRoute → Table → AddOutcome) (ip_del : AddedRoute → Table → Bool)
    (deletes : (r : AddedRoute) (t : Table) → ip_del r t ≡ true) where
  delete_all_top :
      (rs : List AddedRoute) (base : Table) → delete_all ip_add ip_del rs (rs ++ base) ≡ base
  unfolding delete_all delete_route
  delete_all_top [] base = refl
  delete_all_top (r ∷ rs) base =
      rw (deletes r (r ∷ rs ++ base), erase_route_head r (rs ++ base)) (delete_all_top rs base)

  -- The routes of `done` stand on top of the table `base`, the last one first.
  restore_added_top :
      (done : List AddedRoute) (base : Table)
      → restore_added ip_add ip_del done (reverse done ++ base) ≡ base
  unfolding restore_added
  restore_added_top done base = delete_all_top (reverse done) base

  -- On success the routes can be withdrawn from the table, and on failure they have been.
  abbrev pub Undone : Table → Result (List AddedRoute) RoutingError × Table → Type 0
  Undone base (ok routes, t) = restore_added ip_add ip_del routes t ≡ base
  Undone base (err e, t) = t ≡ base

  abbrev step :
      List AddedRoute
      → AddedRoute
      → List AddedRoute
      → Table
      → AddOutcome
      → Result (List AddedRoute) RoutingError × Table
  step done r rs t added = apply_from ip_add ip_del (done ++ r ∷ []) rs (r ∷ t)
  step done r rs t exists = apply_from ip_add ip_del done rs t
  step done r rs t failed = (err other, restore_added ip_add ip_del done t)

  apply_from-step :
      (done : List AddedRoute) (r : AddedRoute) (rs : List AddedRoute) (t : Table) (o : AddOutcome)
      → ip_add r t ≡ o
      → step done r rs t o ≡ apply_from ip_add ip_del done (r ∷ rs) t
  unfolding apply_from
  apply_from-step done r rs t added e = rw (e, apply_from)
  apply_from-step done r rs t exists e = rw (e, apply_from)
  apply_from-step done r rs t failed e = rw (e, apply_from)

  apply_from-Undone :
      (done rs : List AddedRoute) (base : Table)
      → Undone base (apply_from ip_add ip_del done rs (reverse done ++ base))
  unfolding apply_from
  apply_from-Undone done [] base = restore_added_top done base
  apply_from-Undone done (r ∷ rs) base =
      split (ip_add r (reverse done ++ base)) refl
        (rw (reverse-append done (r ∷ [])) at (apply_from-Undone (done ++ r ∷ []) rs base))
        (apply_from-Undone done rs base)
    where
      split :
          (o : AddOutcome)
          → ip_add r (reverse done ++ base) ≡ o
          → Undone base (apply_from ip_add ip_del (done ++ r ∷ []) rs (r ∷ (reverse done ++ base)))
          → Undone base (apply_from ip_add ip_del done rs (reverse done ++ base))
          → Undone base (apply_from ip_add ip_del done (r ∷ rs) (reverse done ++ base))
      split added e next skip = subst (Undone base) (apply_from-step done r rs _ added e) next
      split exists e next skip = subst (Undone base) (apply_from-step done r rs _ exists e) skip
      split failed e next skip =
          subst (Undone base) (apply_from-step done r rs _ failed e) (restore_added_top done base)

  -- Where every `ip route del` succeeds: when the journal is applied, withdrawing the routes that
  -- were added gives the table from before; when a route cannot be added, the table is already the
  -- one from before. Routes that were there beforehand are never withdrawn.
  pub apply_journal-Undone :
      (journal : RouteJournal) (base : Table)
      → Undone base (apply_journal ip_add ip_del journal base)
  unfolding apply_journal
  apply_journal-Undone journal base = apply_from-Undone [] journal.added base
