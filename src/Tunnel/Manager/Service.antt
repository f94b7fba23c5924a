-- ===== src/Tunnel/Manager/Service.antt =====
-- The manager as its users see it: a service that is off or on.
use easy_connection.Prelude.{
  ℕ, ◌≡◌, ◌∙◌, inl, inr, refl, sym, ap, Bool, false, ◌&&◌, Option, none, some, ◌++◌, is_some, is_ok,
  if◌then◌else◌, Bool-cases, Result, ok, err,
}
use mathlib.Core.Path.{subst}
use easy_connection.Prelude.Text.{Str, codes}
use easy_connection.Config.Model.{ConnectionConfig}
use easy_connection.Tunnel.State.{
  ConnectionSnapshot, TunnelError, establishing_tunnel, configuring_routes,
}
use easy_connection.Tunnel.Full.{Calls}
use easy_connection.Tunnel.Start.{StartedTun, Running}
use easy_connection.Tunnel.Upstream.{SshSession, ProxyHandles, Dials}
use easy_connection.Tunnel.Manager.{
  ActiveSession, Live, ConnectionManager, Attempt, finish_connect, wants_tun, set_phase,
}
use easy_connection.Tunnel.Manager.Connect.{
  on_tunnel, without_tunnel, on_proxies, on_upstream, is_socks, attempt, connect, establishing,
  label_endpoint, at_endpoint,
}
use easy_connection.Tunnel.Manager.Disconnect.{is_up}
use easy_connection.Tunnel.Manager.Truth.{
  Agrees, Truthful, connect_attempts, connect_refuses, connect-Truthful,
}

pub record Service : Type 0 where
  pub socks : Option Str
  pub http : Option Str
  pub vpn : Bool

-- What a snapshot says.
unfoldable pub reported : ConnectionSnapshot → Option Service
reported snap =
    if is_up snap.state
    then some
        (record { socks = snap.socks_endpoint; http = snap.http_endpoint; vpn = snap.helper_ok })
    else none

-- What proxies serve, with a helper or without.
abbrev pub service_of : Option ProxyHandles → Bool → Option Service
service_of none helper = none
service_of (some p) helper = some (record {
  socks = some (codes "socks5://" ++ p.socks_endpoint);
  http = some (codes "http://" ++ p.http_endpoint);
  vpn = helper;
})

-- What runs.
unfoldable pub served : Live → Option Service
served live = service_of live.proxies live.running.helper

-- A call of the manager, `connects` with whether it succeeds, or the two halves of a round of the
-- poller.
pub data Op : Type 0 where
  connects : Bool → Op
  disconnects reads writes : Op

-- What an operation may do to a service: a connect starts one that is off, exactly if it
-- succeeds, and fails while one is on; a disconnect ends it; the poller leaves it.
abbrev pub Allowed : Op → Option Service → Option Service → Type 0
Allowed (connects success) none after = is_some after ≡ success
Allowed (connects success) (some s) after = (success ≡ false) × (after ≡ some s)
Allowed disconnects before after = after ≡ none
Allowed reads before after = after ≡ before
Allowed writes before after = after ≡ before

-- An attempt succeeds exactly if it leaves a session.
abbrev Leaves : Attempt → Type 0
Leaves r = is_ok r.0 ≡ is_some r.1.active

failed-Leaves : (e : TunnelError) (m : ConnectionManager) → m.active ≡ none → Leaves (err e, m)
failed-Leaves e m a = sym (ap is_some a)

module _ (now : ℕ) (profile : ConnectionConfig) (session : Option SshSession) where
  on_tunnel-Leaves :
      (proxies : ProxyHandles) (snap : ConnectionSnapshot) (m : ConnectionManager)
      (r : Result StartedTun TunnelError × Running)
      → m.active ≡ none
      → Leaves (on_tunnel now profile session proxies snap m r)
  unfolding on_tunnel finish_connect
  on_tunnel-Leaves proxies snap m (err e, running) a = sym (ap is_some a)
  on_tunnel-Leaves proxies snap m (ok t, running) a = refl

  on_proxies-Leaves :
      (calls : Calls) (snap : ConnectionSnapshot) (m : ConnectionManager)
      (r : Result ProxyHandles Str)
      → m.active ≡ none
      → Leaves (on_proxies now calls profile session snap m r)
  unfolding on_proxies without_tunnel finish_connect
  on_proxies-Leaves calls snap m (err e) a = sym (ap is_some a)
  on_proxies-Leaves calls snap m (ok proxies) a =
      elim (Bool-cases (wants_tun profile.routing_mode)) [
        | inl e ↦
            rw e (
              on_tunnel-Leaves proxies snap (set_phase establishing_tunnel configuring_routes m) _
                a)
        | inr e ↦ elim (Bool-cases (profile.udpgw.enabled && is_some session)) [
          | inl f ↦ rw (e, f) refl
          | inr f ↦ rw (e, f) refl
        ]
      ]

on_upstream-Leaves :
    (now : ℕ) (dials : Dials) (calls : Calls) (profile : ConnectionConfig)
    (snap : ConnectionSnapshot) (m : ConnectionManager) (r : Result (Option SshSession) TunnelError)
    → m.active ≡ none
    → Leaves (on_upstream now dials calls profile snap m r)
unfolding on_upstream
on_upstream-Leaves now dials calls profile snap m (err e) a = sym (ap is_some a)
on_upstream-Leaves now dials calls profile snap m (ok none) a =
    on_proxies-Leaves now profile none calls snap (establishing none snap m) _ a
on_upstream-Leaves now dials calls profile snap m (ok (some session)) a =
    on_proxies-Leaves now (at_endpoint (some session) profile) (some session) calls
      (label_endpoint (some session) snap)
      (establishing (some session) (label_endpoint (some session) snap) m) _ a

attempt-Leaves :
    (now : ℕ) (dials : Dials) (calls : Calls) (profile : ConnectionConfig) (m : ConnectionManager)
    → m.active ≡ none
    → Leaves (connect now dials calls profile m)
unfolding attempt
attempt-Leaves now dials calls profile m a = elim (Bool-cases (is_socks profile.protocol)) [
  | inl k ↦
      let (e, f) = connect_refuses now dials calls profile m (inr k) in
      subst Leaves (sym f) (sym (ap is_some a))
  | inr k ↦
      subst Leaves (sym (connect_attempts now dials calls profile m a k))
        (on_upstream-Leaves now dials calls profile _ _ _ a)
]

pub reported-served :
    (s : Option ActiveSession) (snap : ConnectionSnapshot) (live : Live)
    → Agrees s snap live
    → (reported snap ≡ served live) × (is_some (served live) ≡ is_some s)
unfolding reported served
reported-served none snap live (u, l) = (rw u (sym (ap served l)), ap (λ x. is_some (served x)) l)
reported-served (some s) snap live t = (
  rw (t.says_up, t.proxies_kept, t.socks_said, t.http_said, t.helper_said) refl,
  rw t.proxies_kept refl,
)

pub connect-Allowed :
    (now : ℕ) (dials : Dials) (calls : Calls) (profile : ConnectionConfig) (m : ConnectionManager)
    → calls.from_owned_fd ≡ ok tt
    → Truthful m
    → Allowed
        (connects (is_ok (connect now dials calls profile m).0))
        (served m.live)
        (served (connect now dials calls profile m).1.live)
connect-Allowed now dials calls profile m h t =
    go (served m.live) refl (sym (reported-served m.active m.snapshot m.live t).1)
  where
    after : ConnectionManager
    after = (connect now dials calls profile m).1

    go :
        (v : Option Service)
        → served m.live ≡ v
        → is_some m.active ≡ is_some (served m.live)
        → Allowed (connects (is_ok (connect now dials calls profile m).0)) v (served after.live)
    go none g f =
        (reported-served after.active after.snapshot after.live
          (connect-Truthful now dials calls profile m h t)).1
        ∙ sym (attempt-Leaves now dials calls profile m (idle m.active (f ∙ ap is_some g)))
      where
        idle : (s : Option ActiveSession) → is_some s ≡ false → s ≡ none
        idle none e = refl
        idle (some s) e = cc
    go (some x) g f =
        let (e, k) = connect_refuses now dials calls profile m (inl (f ∙ ap is_some g)) in
        subst (λ r. (is_ok r.0 ≡ false) × (served r.1.live ≡ some x)) (sym k) (refl, g)
