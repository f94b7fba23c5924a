-- ===== src/Helper/Serve/Clients.antt =====
-- The clients that the helper serves together, and who owns the session. A request is one step:
-- two requests of different clients are taken one after the other.
use native.Mathlib.Decide.{ℕ_discrete}
use easy_connection.Prelude.{
  ℕ, ◌≡◌, ◌≢◌, ◌⊎◌, ◌∙◌, refl, arith, Bool, true, false, ◌==◌, Option, none, some, List, [], Result,
  ok, err, inl, inr, Bool-cases,
}
use easy_connection.Prelude.Assoc.{get, insert, remove, get-insert, get-remove}
use easy_connection.Prelude.Net.{IpAddr, IpNet}
use easy_connection.Prelude.Text.{Str}
use easy_connection.Helper.Spec.{
  ipc_version, HelperResponse, ApplySpec, HelperRequest, ping, cleanup, apply, teardown,
  emergency_restore,
}
use easy_connection.Helper.System.{System, Answers, teardown_session, apply_spec, ApplyError}
use easy_connection.Helper.System.Apply.{KeepsActive, apply_spec-KeepsActive}
use easy_connection.Helper.System.Restore.{cleanup_stale-active, teardown_session-active}
use easy_connection.Helper.Serve.{handle_request, hang_up, answer_apply}

-- The system, and `owns_session` of every client that is connected.
pub record Server : Type 0 where
  pub sys : System
  pub clients : List (ℕ × Bool)

abbrev pub owns_at : ℕ → Server → Option Bool
owns_at c v = get ℕ_discrete c v.clients

abbrev pub connect : ℕ → Server → Server
connect c v = record v { clients = insert ℕ_discrete c false v.clients }

unfoldable pub disconnect : Answers → ℕ → Bool → Server → Server
disconnect a c owns v = record {
  sys = hang_up a owns v.sys;
  clients = remove ℕ_discrete c v.clients;
}

-- An active session has an owner that is connected.
abbrev pub Owned : Server → Type 0
Owned v = (v.sys.active ≡ none) ⊎ ((c : ℕ) × (owns_at c v ≡ some true))

module _ (show_ip : IpAddr → Str) (show_net : IpNet → Str) where
  unfoldable pub request : Answers → ℕ → ℕ → HelperRequest → Bool → Server → Server
  request a c uid r owns v =
      let (out, s) = handle_request show_ip show_net a uid r owns v.sys in
      record { sys = s; clients = insert ℕ_discrete c out.0 v.clients }

  pub data Step : Server → Server → Type 0 where
    accepts : (c : ℕ) (v : Server) → owns_at c v ≡ none → Step v (connect c v)
    serves :
        (a : Answers) (c uid : ℕ) (r : HelperRequest) (owns : Bool) (v : Server)
        → owns_at c v ≡ some owns
        → Step v (request a c uid r owns v)
    leaves :
        (a : Answers) (c : ℕ) (owns : Bool) (v : Server)
        → owns_at c v ≡ some owns
        → Step v (disconnect a c owns v)

  pub data Reach : Server → Type 0 where
    starts : (s : System) → s.active ≡ none → Reach (record { sys = s; clients = [] })
    then : {v w : Server} → Reach v → Step v w → Reach w

  -- What a request does to the session: it ends, or the client owns it, or nothing changes.
  abbrev Effect : Bool → System → (Bool × HelperResponse) × System → Type 0
  Effect owns s (out, t) =
      (t.active ≡ none) ⊎ ((out.0 ≡ true) ⊎ ((out.0 ≡ owns) × (t.active ≡ s.active)))

  apply-Effect :
      (spec : ApplySpec) (owns : Bool) (s : System) (r : Result (Unit {0}) ApplyError × System)
      → KeepsActive show_ip show_net spec s r
      → Effect owns s (answer_apply owns r.0, r.1)
  apply-Effect spec owns s (ok _, t) k = inr (inl refl)
  apply-Effect spec owns s (err e, t) k = inr (inr (refl, k))

  handle_request-Effect :
      (a : Answers) (uid : ℕ) (r : HelperRequest) (owns : Bool) (s : System)
      → Effect owns s (handle_request show_ip show_net a uid r owns s)
  unfolding handle_request
  handle_request-Effect a uid (ping version) owns s = elim (Bool-cases (version == ipc_version)) [
    | inl e ↦ simp e (inr (inr (refl, refl)))
    | inr e ↦ simp e (inr (inr (refl, refl)))
  ]
  handle_request-Effect a uid cleanup owns s =
      inl (cleanup_stale-active a _ ∙ teardown_session-active a s)
  handle_request-Effect a uid emergency_restore owns s =
      inl (cleanup_stale-active a _ ∙ teardown_session-active a s)
  handle_request-Effect a uid teardown owns s = inl (teardown_session-active a s)
  handle_request-Effect a uid (apply spec) owns s =
      apply-Effect spec owns s (apply_spec show_ip show_net a spec s)
        (apply_spec-KeepsActive show_ip show_net spec a s)

  request-Owned :
      (a : Answers) (c uid : ℕ) (r : HelperRequest) (owns : Bool) (v : Server)
      → owns_at c v ≡ some owns
      → Owned v
      → Owned (request a c uid r owns v)
  unfolding request
  request-Owned a c uid r owns v e o =
      go (handle_request show_ip show_net a uid r owns v.sys)
        (handle_request-Effect a uid r owns v.sys)
    where
      go :
          (x : (Bool × HelperResponse) × System)
          → Effect owns v.sys x
          → Owned (record { sys = x.1; clients = insert ℕ_discrete c x.0.0 v.clients })
      go (out, t) (inl n) = inl n
      go (out, t) (inr (inl b)) = inr (c, ground (arith, get-insert ℕ_discrete c c out.0 v.clients))
      go (out, t) (inr (inr (b, k))) = elim o [
        | inl n ↦ inl (k ∙ n)
        | inr d ↦ inr (d.0, ground (arith, d.1, get-insert ℕ_discrete d.0 c out.0 v.clients))
      ]

  Step-Owned : {v w : Server} → Step v w → Owned v → Owned w
  unfolding disconnect hang_up
  Step-Owned (accepts c v e) (inl n) = inl n
  Step-Owned (accepts c v e) (inr (d, h)) =
      inr (d, ground (arith, get-insert ℕ_discrete d c false v.clients))
  Step-Owned (serves a c uid r owns v e) o = request-Owned a c uid r owns v e o
  Step-Owned (leaves a c true v e) o = inl (teardown_session-active a v.sys)
  Step-Owned (leaves a c false v e) (inl n) = inl n
  Step-Owned (leaves a c false v e) (inr (d, h)) =
      inr (d, ground (arith, get-remove ℕ_discrete d c v.clients))

  -- Whatever clients connect, ask and leave, and whatever the commands answer, an active session
  -- has an owner that is still connected; so no session outlives its owners.
  pub Reach-Owned : {v : Server} → Reach v → Owned v
  Reach-Owned (starts s e) = inl e
  Reach-Owned (then r t) = Step-Owned t (Reach-Owned r)

  -- A client that does not own the session can ask after the helper and leave: the system is
  -- untouched, and so is the part of every other client.
  pub bystander_harmless :
      (a : Answers) (c uid version d : ℕ) (v : Server)
      → owns_at c v ≡ some false
      → d ≢ c
      → let w = request a c uid (ping version) false v in
        let x = disconnect a c false w in
        (owns_at c w ≡ some false)
        × (w.sys ≡ v.sys)
        × (x.sys ≡ v.sys)
        × (owns_at c x ≡ none)
        × (owns_at d x ≡ owns_at d v)
  unfolding request disconnect handle_request hang_up
  bystander_harmless a c uid version d v e ne = elim (Bool-cases (version == ipc_version)) [
    | inl q ↦ simp q (at_c, refl, refl, gone, others)
    | inr q ↦ simp q (at_c, refl, refl, gone, others)
  ]
    where
      at_c : get ℕ_discrete c (insert ℕ_discrete c false v.clients) ≡ some false
      at_c = ground (arith, get-insert ℕ_discrete c c false v.clients)

      gone : get ℕ_discrete c (remove ℕ_discrete c (insert ℕ_discrete c false v.clients)) ≡ none
      gone = ground (arith, get-remove ℕ_discrete c c (insert ℕ_discrete c false v.clients))

      others :
          get ℕ_discrete d (remove ℕ_discrete c (insert ℕ_discrete c false v.clients))
          ≡ get ℕ_discrete d v.clients
      others = ground (
        arith,
        ne,
        get-remove ℕ_discrete d c (insert ℕ_discrete c false v.clients),
        get-insert ℕ_discrete d c false v.clients,
      )

  -- A client keeps its claim when another one takes the session down: when the other one then sets
  -- up a session of its own, and the first client leaves, that session is taken down.
  pub stale_owner_tears_down :
      (a : Answers) (c d uid : ℕ) (spec : ApplySpec) (v : Server)
      → owns_at c v ≡ some true
      → owns_at d v ≡ some false
      → (apply_spec show_ip show_net a spec (teardown_session a v.sys)).0 ≡ ok tt
      → let w = request a d uid teardown false v in
        let x = request a d uid (apply spec) false w in
        let y = disconnect a c true x in
        (owns_at c x ≡ some true) × (owns_at d y ≡ some true) × (y.sys.active ≡ none)
  unfolding request disconnect handle_request hang_up
  stale_owner_tears_down a c d uid spec v e f h = simp h (
    ground (
      arith,
      e,
      f,
      get-insert ℕ_discrete c d false v.clients,
      get-insert ℕ_discrete c d true (insert ℕ_discrete d false v.clients),
    ),
    ground (
      arith,
      e,
      f,
      get-remove ℕ_discrete d c (insert ℕ_discrete d true (insert ℕ_discrete d false v.clients)),
      get-insert ℕ_discrete d d true (insert ℕ_discrete d false v.clients),
    ),
    teardown_session-active a _,
  )
