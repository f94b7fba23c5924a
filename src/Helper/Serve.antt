-- ===== src/Helper/Serve.antt =====
-- services/privileged-helper/src/main.rs: `authorized`, `handle_client`, and the clients that the
-- helper serves together.
pub mod Clients
use easy_connection.Prelude.{
  ℕ, Bool, true, false, not, ◌||◌, ◌&&◌, Option, none, some, List, [], ◌∷◌, if◌then◌else◌, Result,
  ok, err, ◌==◌, contains,
}
use easy_connection.Prelude.Net.{IpAddr, IpNet}
use easy_connection.Prelude.Text.{Str}
use easy_connection.Nft.{tun_name}
use easy_connection.Helper.Spec.{
  ipc_version, ApplySpec, HelperRequest, ping, cleanup, apply, teardown, emergency_restore,
  HelperResponse, pong, done, error,
}
use easy_connection.Helper.System.{
  System, Answers, cleanup_stale, teardown_session, apply_spec, ApplyError,
}

-- `run_user_dir` is the question whether `/run/user/{uid}` is a directory.
unfoldable pub authorized : (ℕ → Bool) → ℕ → List ℕ → Bool → Bool
authorized run_user_dir uid allow_uid allow_active_sessions =
    if uid == 0 || contains allow_uid uid
    then true
    else if allow_active_sessions && run_user_dir uid
    then true
    else false

-- A response to `apply_spec`, and `owns_session` after it.
abbrev pub answer_apply : Bool → Result (Unit {0}) ApplyError → Bool × HelperResponse
answer_apply owns (ok _) = (true, done (some tun_name))
answer_apply owns (err e) = (owns, error)

module _ (show_ip : IpAddr → Str) (show_net : IpNet → Str) where
  -- A request of the loop of `handle_client`: `owns_session` and the system after it, and the
  -- response that is sent.
  unfoldable pub handle_request :
      Answers → ℕ → HelperRequest → Bool → System → (Bool × HelperResponse) × System
  handle_request a uid (ping version) owns s =
      if not (version == ipc_version) then ((owns, error), s) else ((owns, pong ipc_version uid), s)
  handle_request a uid cleanup owns s = ((false, done none), cleanup_stale a (teardown_session a s))
  handle_request a uid emergency_restore owns s =
      ((false, done none), cleanup_stale a (teardown_session a s))
  handle_request a uid teardown owns s = ((false, done none), teardown_session a s)
  handle_request a uid (apply spec) owns s =
      let (outcome, t) = apply_spec show_ip show_net a spec s in (answer_apply owns outcome, t)

-- The end of `handle_client`, whatever ended its loop.
unfoldable pub hang_up : Answers → Bool → System → System
hang_up a owns s = if owns then teardown_session a s else s
