-- ===== src/Tunnel/Accepted.antt =====
-- The specification that a full tunnel asks the helper for.
use easy_connection.Prelude.{
  ℕ, ◌∙◌, sym, ap, ◌≡◌, ◌≢◌, ◌≤◌, inl, inr, refl, arith, Bool, false, Option, none, some, List, [],
  ◌∷◌, unwrap_or, is_empty, Bool-cases, Result, ok, err, steps_of,
}
use mathlib.Core.Path.{subst}
use easy_connection.Prelude.Net.{IpAddr}
use easy_connection.Prelude.Text.{Str, codes}
use easy_connection.Config.Model.{ConnectionConfig}
use easy_connection.Config.Validate.{validate_connection}
use easy_connection.Config.Validate.Sound.{Holds, validate_connection-Accepted}
use easy_connection.Helper.Spec.{validate}
use easy_connection.Helper.Spec.Valid.{validate_iff}
use easy_connection.Tunnel.State.{helper_error}
use easy_connection.Tunnel.Servers.{sort, dedup, resolve_server_ips}
use easy_connection.Tunnel.Full.{
  Calls, map_err, transproxy_v4, dns_v4, transproxy_port, dns_proxy_port, tunnel_spec, default_mtu,
}
use easy_connection.Tunnel.Start.{prepare, cannot_bind}
use easy_connection.Tunnel.Upstream.{SshSession}
use easy_connection.Tunnel.Manager.Connect.{at_endpoint}

some_left : (ips : List IpAddr) → is_empty ips ≡ false → ips ≢ []
some_left [] h = cc
some_left (a ∷ ips) h = ground arith

resolved_some :
    (host : Str) (port : ℕ) (r : Result (List IpAddr) Str) (ips : List IpAddr)
    → resolve_server_ips host port r ≡ ok ips
    → ips ≢ []
unfolding resolve_server_ips
resolved_some host port (err e) ips h = cc
resolved_some host port (ok found) ips h = elim (Bool-cases (is_empty (dedup (sort found)))) [
  | inl e ↦ absurd (cc (rw e at h))
  | inr e ↦ some_left ips (ground (arith, rw e at h, e))
]

prepared_some :
    (calls : Calls) (profile : ConnectionConfig) (ips : List IpAddr)
    → prepare calls profile ≡ ok ips
    → ips ≢ []
unfolding prepare
prepared_some calls profile ips h =
    let (_, _, h₁) = steps_of (map_err helper_error calls.ensure_helper) _ h in
    let (found, f, h₂) =
      steps_of
        (resolve_server_ips profile.host profile.port (calls.lookup_host profile.host profile.port))
        _ h₁ in
    let (_, _, h₃) = steps_of (map_err helper_error calls.connect_helper) _ h₂ in
    let (_, _, h₄) = steps_of (map_err helper_error calls.ping) _ h₃ in
    let (_, _, h₅) =
      steps_of
        (map_err (cannot_bind (codes "transparent TCP proxy") transproxy_port)
          (calls.bind transproxy_v4))
        _ h₄ in
    let (_, _, h₆) =
      steps_of (map_err (cannot_bind (codes "DNS intercept") dns_proxy_port) (calls.bind dns_v4)) _
        h₅ in
    let e : found ≡ ips = cc in
    resolved_some profile.host profile.port (calls.lookup_host profile.host profile.port) ips
      (f ∙ ap ok e)

mtu_fits :
    (m : Option ℕ)
    → Holds (λ m. (576 ≤ m) × (m ≤ 9000)) m
    → (576 ≤ unwrap_or m default_mtu) × (unwrap_or m default_mtu ≤ 9000)
mtu_fits none h = (omega arith, omega arith)
mtu_fits (some m) h = h

at_endpoint-mtu :
    (session : Option SshSession) (profile : ConnectionConfig)
    → (at_endpoint session profile).mtu ≡ profile.mtu
at_endpoint-mtu none profile = refl
at_endpoint-mtu (some s) profile = refl

-- Once `start_full_tunnel` has prepared the tunnel of a profile that the check accepts, with or
-- without the end that an SSH session reached in place of its host, the specification that it asks
-- the helper to apply is one that the helper's check accepts.
pub accepted_profile_applies :
    (is_ip is_net is_uuid : Str → Bool) (calls : Calls) (profile : ConnectionConfig)
    (session : Option SshSession) (ips : List IpAddr) (udpgw_ok : Bool)
    → validate_connection is_ip is_net is_uuid profile ≡ ok tt
    → prepare calls (at_endpoint session profile) ≡ ok ips
    → validate (tunnel_spec calls (at_endpoint session profile) ips udpgw_ok) ≡ ok tt
unfolding tunnel_spec
accepted_profile_applies is_ip is_net is_uuid calls profile session ips udpgw_ok v p =
    let a = validate_connection-Accepted is_ip is_net is_uuid profile v in
    let (least, most) = mtu_fits (at_endpoint session profile).mtu (
      subst (Holds (λ m. (576 ≤ m) × (m ≤ 9000))) (sym (at_endpoint-mtu session profile))
        a.mtu_range) in
    (validate_iff (tunnel_spec calls (at_endpoint session profile) ips udpgw_ok)).1 (record {
      our_tun = refl;
      mtu_least = least;
      mtu_most = most;
      prefix_most = omega arith;
      has_server = prepared_some calls (at_endpoint session profile) ips p;
      tcp_port = omega arith;
      dns_set = omega arith;
    })
