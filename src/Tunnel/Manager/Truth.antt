-- ===== src/Tunnel/Manager/Truth.antt =====
-- What the manager publishes is what runs.
use easy_connection.Prelude.{
  ℕ, ◌≡◌, ◌⊎◌, inl, inr, refl, sym, ap, Bool, true, false, not, ◌&&◌, Option, none, some, List, [],
  ◌++◌, is_some, if◌then◌else◌, Bool-cases, Option-cases, Result, ok, err,
}
use mathlib.Core.Path.{subst}
use easy_connection.Prelude.Net.{IpAddr}
use easy_connection.Prelude.Text.{Str, codes}
use easy_connection.Config.Model.{ConnectionConfig}
use easy_connection.Nft.{tun_name}
use easy_connection.Tunnel.State.{
  ConnectionSnapshot, connected, degraded, TunnelError, already_connected, establishing_tunnel,
  configuring_routes,
}
use easy_connection.Tunnel.Full.{Calls, Task, StartedUdpgw}
use easy_connection.Tunnel.Start.{
  StartedTun, Running, quiet, prepare, on_device, on_applied, on_prepared, start_full_tunnel,
}
use easy_connection.Tunnel.Upstream.{SshSession, ProxyHandles, Dials}
use easy_connection.Tunnel.Manager.{
  ActiveSession, Live, nothing, ConnectionManager, Outcome, finish_connect, ready_snapshot,
  wants_tun, set_phase,
}
use easy_connection.Tunnel.Manager.Connect.{
  establishing, socks_refused, on_tunnel, without_tunnel, on_proxies, on_upstream, is_socks,
  attempt, connect, label_endpoint, at_endpoint, proxies_alone, with_tunnel,
}
use easy_connection.Tunnel.Manager.Disconnect.{is_up}

-- A session that is up: what its snapshot says, what the manager keeps, and what runs.
pub record Up (s : ActiveSession) (snap : ConnectionSnapshot) (live : Live) : Type 0 where
  pub says_up : is_up snap.state ≡ true
  pub helper_said : snap.helper_ok ≡ live.running.helper
  pub tun_said : snap.tun_name ≡ (if live.running.helper then some tun_name else none)
  pub socks_said : snap.socks_endpoint ≡ some (codes "socks5://" ++ s.proxies.socks_endpoint)
  pub http_said : snap.http_endpoint ≡ some (codes "http://" ++ s.proxies.http_endpoint)
  pub helper_kept : s.helper ≡ live.running.helper
  pub ssh_kept : live.ssh ≡ s.ssh
  pub proxies_kept : live.proxies ≡ some s.proxies
  pub polled : live.poller ≡ true
  pub can_stop : (s.tun_stop ≡ true) ⊎ (live.running.tasks ≡ [])

abbrev pub Agrees : Option ActiveSession → ConnectionSnapshot → Live → Type 0
Agrees none snap live = (is_up snap.state ≡ false) × (live ≡ nothing)
Agrees (some s) snap live = Up s snap live

abbrev pub Truthful : ConnectionManager → Type 0
Truthful m = Agrees m.active m.snapshot m.live

off :
    (active : Option ActiveSession) (snap : ConnectionSnapshot) (live : Live)
    → active ≡ none
    → is_up snap.state ≡ false
    → live ≡ nothing
    → Agrees active snap live
off active snap live a u l = subst (λ s. Agrees s snap live) (sym a) (u, l)

-- What `start_full_tunnel` leaves running where a device that the helper passes can be used.
abbrev Left : Result StartedTun TunnelError × Running → Type 0
Left (err e, running) = running ≡ quiet
Left (ok t, running) = running.helper ≡ true

on_applied-Left :
    (calls : Calls) (profile : ConnectionConfig) (udpgw : StartedUdpgw) (tasks : List Task)
    (r : Result Str Str)
    → calls.from_owned_fd ≡ ok tt
    → Left (on_applied calls profile udpgw tasks r)
unfolding on_applied on_device
on_applied-Left calls profile udpgw tasks (err e) h = refl
on_applied-Left calls profile udpgw tasks (ok msg) h = rw h refl

start_full_tunnel-Left :
    (calls : Calls) (profile : ConnectionConfig)
    → calls.from_owned_fd ≡ ok tt
    → Left (start_full_tunnel calls profile)
unfolding start_full_tunnel on_prepared
start_full_tunnel-Left calls profile h = prepared (prepare calls profile)
  where
    prepared : (r : Result (List IpAddr) TunnelError) → Left (on_prepared calls profile r)
    prepared (err e) = refl
    prepared (ok ips) = on_applied-Left calls profile _ _ _ h

module _ (now : ℕ) (profile : ConnectionConfig) (session : Option SshSession) where
  finish_connect-Truthful :
      (proxies : ProxyHandles) (out : Outcome) (snap : ConnectionSnapshot) (running : Running)
      (m : ConnectionManager)
      → out.helper ≡ running.helper
      → (out.tun_stop ≡ true) ⊎ (running.tasks ≡ [])
      → Truthful (finish_connect now profile session proxies out snap running m).1
  unfolding finish_connect ready_snapshot
  finish_connect-Truthful proxies out snap running m h s = record {
    says_up = up (profile.udpgw.enabled && not out.udpgw_ok);
    helper_said = h;
    tun_said = rw h refl;
    socks_said = refl;
    http_said = refl;
    helper_kept = h;
    ssh_kept = refl;
    proxies_kept = refl;
    polled = refl;
    can_stop = s;
  }
    where
      up : (b : Bool) → is_up (if b then degraded else connected) ≡ true
      up true = refl
      up false = refl

  on_tunnel-Truthful :
      (proxies : ProxyHandles) (snap : ConnectionSnapshot) (m : ConnectionManager)
      (r : Result StartedTun TunnelError × Running)
      → m.active ≡ none
      → Left r
      → Truthful (on_tunnel now profile session proxies snap m r).1
  unfolding on_tunnel
  on_tunnel-Truthful proxies snap m (err e, running) a l =
      off m.active _ _ a refl (ap (λ r. record nothing { running = r }) l)
  on_tunnel-Truthful proxies snap m (ok t, running) a l =
      finish_connect-Truthful proxies (with_tunnel t) snap running m (sym l) (inl refl)

  without_tunnel-Truthful :
      (calls : Calls) (proxies : ProxyHandles) (snap : ConnectionSnapshot) (m : ConnectionManager)
      → Truthful (without_tunnel now calls profile session proxies snap m).1
  unfolding without_tunnel
  without_tunnel-Truthful calls proxies snap m =
      elim (Bool-cases (profile.udpgw.enabled && is_some session)) [
        | inl e ↦ rw e (finish_connect-Truthful proxies _ snap _ m refl (inl refl))
        | inr e ↦
            rw e (finish_connect-Truthful proxies (proxies_alone snap) snap _ m refl (inr refl))
      ]

  on_proxies-Truthful :
      (calls : Calls) (snap : ConnectionSnapshot) (m : ConnectionManager)
      (r : Result ProxyHandles Str)
      → m.active ≡ none
      → is_up m.snapshot.state ≡ false
      → calls.from_owned_fd ≡ ok tt
      → Truthful (on_proxies now calls profile session snap m r).1
  unfolding on_proxies
  on_proxies-Truthful calls snap m (err e) a u h = off m.active m.snapshot nothing a u refl
  on_proxies-Truthful calls snap m (ok proxies) a u h =
      elim (Bool-cases (wants_tun profile.routing_mode)) [
        | inl e ↦ rw e (
            on_tunnel-Truthful proxies snap (set_phase establishing_tunnel configuring_routes m) _ a
              (start_full_tunnel-Left calls profile h))
        | inr e ↦ rw e (without_tunnel-Truthful calls proxies snap m)
      ]

on_upstream-Truthful :
    (now : ℕ) (dials : Dials) (calls : Calls) (profile : ConnectionConfig)
    (snap : ConnectionSnapshot) (m : ConnectionManager) (r : Result (Option SshSession) TunnelError)
    → m.active ≡ none
    → m.live ≡ nothing
    → calls.from_owned_fd ≡ ok tt
    → Truthful (on_upstream now dials calls profile snap m r).1
unfolding on_upstream
on_upstream-Truthful now dials calls profile snap m (err e) a l h = off m.active _ m.live a refl l
on_upstream-Truthful now dials calls profile snap m (ok none) a l h =
    on_proxies-Truthful now profile none calls snap (establishing none snap m) _ a refl h
on_upstream-Truthful now dials calls profile snap m (ok (some session)) a l h =
    on_proxies-Truthful now (at_endpoint (some session) profile) (some session) calls
      (label_endpoint (some session) snap)
      (establishing (some session) (label_endpoint (some session) snap) m) _ a refl h

-- A disconnected manager attempts a profile of a protocol that has a tunnel.
pub connect_attempts :
    (now : ℕ) (dials : Dials) (calls : Calls) (profile : ConnectionConfig) (m : ConnectionManager)
    → m.active ≡ none
    → is_socks profile.protocol ≡ false
    → connect now dials calls profile m ≡ attempt now dials calls profile m
unfolding connect
connect_attempts now dials calls profile m a k =
    let idle : is_some m.active ≡ false = ap is_some a in rw (idle, k) refl

-- Any other connect fails and leaves the manager as it is.
pub connect_refuses :
    (now : ℕ) (dials : Dials) (calls : Calls) (profile : ConnectionConfig) (m : ConnectionManager)
    → (is_some m.active ≡ true) ⊎ (is_socks profile.protocol ≡ true)
    → (e : TunnelError) × (connect now dials calls profile m ≡ (err e, m))
unfolding connect
connect_refuses now dials calls profile m (inl a) = (already_connected, rw a refl)
connect_refuses now dials calls profile m (inr k) = elim (Bool-cases (is_some m.active)) [
  | inl e ↦ (already_connected, rw e refl)
  | inr e ↦ (socks_refused, rw (e, k) refl)
]

pub connect-Truthful :
    (now : ℕ) (dials : Dials) (calls : Calls) (profile : ConnectionConfig) (m : ConnectionManager)
    → calls.from_owned_fd ≡ ok tt
    → Truthful m
    → Truthful (connect now dials calls profile m).1
unfolding attempt
connect-Truthful now dials calls profile m h t = elim (Option-cases m.active) [
  | inr (s, e) ↦
      subst (λ r. Truthful r.1)
        (sym (connect_refuses now dials calls profile m (inl (ap is_some e))).1) t
  | inl e ↦ elim (Bool-cases (is_socks profile.protocol)) [
    | inl k ↦
        subst (λ r. Truthful r.1) (sym (connect_refuses now dials calls profile m (inr k)).1) t
    | inr k ↦
        subst (λ r. Truthful r.1) (sym (connect_attempts now dials calls profile m e k))
          (on_upstream-Truthful now dials calls profile _ _ _ e
            (subst (λ s. Agrees s m.snapshot m.live) e t).1 h)
  ]
]
