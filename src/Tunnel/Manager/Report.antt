-- ===== src/Tunnel/Manager/Report.antt =====
-- What `connect` publishes when it ends.
use easy_connection.Prelude.{
  ℕ, ◌≡◌, ◌⊎◌, inl, inr, refl, sym, Bool, true, false, ◌&&◌, not, Option, none, some, is_some,
  if◌then◌else◌, Bool-cases, Result, ok, err,
}
use mathlib.Core.Path.{subst}
use easy_connection.Prelude.Text.{Str}
use easy_connection.Config.Model.{ConnectionConfig}
use easy_connection.Tunnel.State.{
  connected, degraded, error, establishing_tunnel, failed, configuring_routes, ConnectionSnapshot,
  TunnelError, proxy_error, display,
}
use easy_connection.Tunnel.Full.{Calls, start_udpgw_client, task_if, udpgw_client}
use easy_connection.Tunnel.Start.{quiet, StartedTun, Running}
use easy_connection.Tunnel.Upstream.{SshSession, ProxyHandles, Dials}
use easy_connection.Tunnel.Manager.{
  ConnectionManager, Outcome, Attempt, finish_connect, ready_snapshot, wants_tun, set_phase,
}
use easy_connection.Tunnel.Manager.Connect.{
  on_tunnel, without_tunnel, proxies_alone, with_tunnel, for_diagnostics, on_proxies, on_upstream,
  is_socks, attempt, connect, establishing, label_endpoint, at_endpoint,
}
use easy_connection.Tunnel.Manager.Disconnect.{is_up}
use easy_connection.Tunnel.Manager.Truth.{connect_attempts}

-- A success has published what it returns: a session that is up, with the helper exactly if it is
-- wanted. An error is in the snapshot, unless the proxies have not started.
abbrev pub Reported : Bool → Attempt → Type 0
Reported vpn (ok snap, m) = (m.snapshot ≡ snap) × (is_up snap.state ≡ true) × (snap.helper_ok ≡ vpn)
Reported vpn (err e, m) =
    ((m.snapshot.state ≡ error) × (m.snapshot.phase ≡ failed (display e)))
    ⊎ ((t : Str) × (e ≡ proxy_error t) × (m.snapshot.state ≡ establishing_tunnel))

ready_up : (b : Bool) → is_up (if b then degraded else connected) ≡ true
ready_up true = refl
ready_up false = refl

module _ (now : ℕ) (profile : ConnectionConfig) (session : Option SshSession) where
  finish_connect-Reported :
      (proxies : ProxyHandles) (out : Outcome) (snap : ConnectionSnapshot) (running : Running)
      (m : ConnectionManager)
      → Reported out.helper (finish_connect now profile session proxies out snap running m)
  unfolding finish_connect ready_snapshot
  finish_connect-Reported proxies out snap running m =
      (refl, ready_up (profile.udpgw.enabled && not out.udpgw_ok), refl)

  on_tunnel-Reported :
      (proxies : ProxyHandles) (snap : ConnectionSnapshot) (m : ConnectionManager)
      (r : Result StartedTun TunnelError × Running)
      → Reported true (on_tunnel now profile session proxies snap m r)
  unfolding on_tunnel
  on_tunnel-Reported proxies snap m (err e, running) = inl (refl, refl)
  on_tunnel-Reported proxies snap m (ok t, running) =
      finish_connect-Reported proxies (with_tunnel t) snap running m

  without_tunnel-Reported :
      (calls : Calls) (proxies : ProxyHandles) (snap : ConnectionSnapshot) (m : ConnectionManager)
      → Reported false (without_tunnel now calls profile session proxies snap m)
  unfolding without_tunnel
  without_tunnel-Reported calls proxies snap m =
      let udpgw = start_udpgw_client calls profile in
      elim (Bool-cases (profile.udpgw.enabled && is_some session)) [
        | inl e ↦ rw e (
            finish_connect-Reported proxies (for_diagnostics udpgw snap) snap
              (record { tasks = task_if udpgw.running udpgw_client; helper = false }) m)
        | inr e ↦ rw e (finish_connect-Reported proxies (proxies_alone snap) snap quiet m)
      ]

  on_proxies-Reported :
      (calls : Calls) (snap : ConnectionSnapshot) (m : ConnectionManager)
      (r : Result ProxyHandles Str)
      → m.snapshot.state ≡ establishing_tunnel
      → Reported (wants_tun profile.routing_mode) (on_proxies now calls profile session snap m r)
  unfolding on_proxies
  on_proxies-Reported calls snap m (err e) u = inr (e, refl, u)
  on_proxies-Reported calls snap m (ok proxies) u =
      elim (Bool-cases (wants_tun profile.routing_mode)) [
        | inl e ↦
            rw e (
              on_tunnel-Reported proxies snap (set_phase establishing_tunnel configuring_routes m)
                _)
        | inr e ↦ rw e (without_tunnel-Reported calls proxies snap m)
      ]

on_upstream-Reported :
    (now : ℕ) (dials : Dials) (calls : Calls) (profile : ConnectionConfig)
    (snap : ConnectionSnapshot) (m : ConnectionManager) (r : Result (Option SshSession) TunnelError)
    → Reported (wants_tun profile.routing_mode) (on_upstream now dials calls profile snap m r)
unfolding on_upstream
on_upstream-Reported now dials calls profile snap m (err e) = inl (refl, refl)
on_upstream-Reported now dials calls profile snap m (ok none) =
    on_proxies-Reported now profile none calls snap (establishing none snap m) _ refl
on_upstream-Reported now dials calls profile snap m (ok (some session)) =
    on_proxies-Reported now (at_endpoint (some session) profile) (some session) calls
      (label_endpoint (some session) snap)
      (establishing (some session) (label_endpoint (some session) snap) m) _ refl

-- When a disconnected manager connects a profile whose protocol is not the local one, a success has
-- published the snapshot that it returns, in a state that is up, with the helper exactly if the
-- routing mode is not proxy-only; an error is published with the state and the phase of a failure,
-- except where the local proxies do not start: then the snapshot stays in the state of
-- establishing the tunnel.
pub connect-Reported :
    (now : ℕ) (dials : Dials) (calls : Calls) (profile : ConnectionConfig) (m : ConnectionManager)
    → m.active ≡ none
    → is_socks profile.protocol ≡ false
    → Reported (wants_tun profile.routing_mode) (connect now dials calls profile m)
unfolding attempt
connect-Reported now dials calls profile m a k =
    subst (Reported (wants_tun profile.routing_mode))
      (sym (connect_attempts now dials calls profile m a k))
      (on_upstream-Reported now dials calls profile _ _ _)
