-- ===== src/Tunnel/Start.antt =====
-- crates/tunnel/src/manager.rs: `start_full_tunnel`, with what runs when it returns.
use easy_connection.Prelude.{
  ℕ, Bool, true, false, ◌&&◌, List, [], ◌∷◌, ◌++◌, Result, ok, err, ◌>>=◌, ◌>>◌,
}
use easy_connection.Prelude.Net.{IpAddr}
use easy_connection.Prelude.Text.{Str, codes, show_u16}
use easy_connection.Config.Model.{ConnectionConfig}
use easy_connection.Tunnel.State.{TunnelError, helper_error, other}
use easy_connection.Tunnel.Servers.{resolve_server_ips}
use easy_connection.Tunnel.Full.{
  Task, transproxy_v4, dns_v4, drain_tun, Calls, map_err, StartedUdpgw, start_udpgw_over,
  intercept_tasks, policy_of, servers_of, tunnel_spec, dns_status_of, udp_note_of, transproxy_port,
  dns_proxy_port,
}

pub record StartedTun : Type 0 where
  pub dns_status : Str
  pub udpgw_status : Str
  pub udp_note : Str
  pub udpgw_ok : Bool

-- The tasks under `stop`, and whether the helper keeps a session for this process.
pub record Running : Type 0 where
  pub tasks : List Task
  pub helper : Bool

abbrev pub quiet : Running
quiet = record { tasks = []; helper = false }

abbrev pub cannot_bind : Str → ℕ → Str → TunnelError
cannot_bind what port e = other (
    codes "cannot bind " ++ (what ++ (codes " 127.0.0.1:" ++ (show_u16 port ++ (codes ": " ++ e)))))

-- What has to work before anything runs; the addresses of the server.
unfoldable pub prepare : Calls → ConnectionConfig → Result (List IpAddr) TunnelError
unfolding resolve_server_ips
prepare calls profile = do
  map_err helper_error calls.ensure_helper
  ips ← resolve_server_ips profile.host profile.port (calls.lookup_host profile.host profile.port)
  map_err helper_error calls.connect_helper
  map_err helper_error calls.ping
  map_err (cannot_bind (codes "transparent TCP proxy") transproxy_port) (calls.bind transproxy_v4)
  map_err (cannot_bind (codes "DNS intercept") dns_proxy_port) (calls.bind dns_v4)
  ok ips

unfoldable pub started : ConnectionConfig → StartedUdpgw → StartedTun
unfolding policy_of servers_of dns_status_of udp_note_of
started profile udpgw = record {
  dns_status =
      dns_status_of (policy_of profile) (profile.udpgw.transparent_dns && udpgw.running)
        profile.dns.dns_over_tcp (servers_of profile);
  udpgw_status = udpgw.status;
  udp_note = udp_note_of profile udpgw;
  udpgw_ok = udpgw.running;
}

-- Once the helper has passed the descriptor of the device. Where it cannot be used the client of
-- the helper is dropped, which ends the session, and nothing cancels `stop`.
unfoldable pub on_device :
    ConnectionConfig
    → StartedUdpgw
    → List Task
    → Result (Unit {0}) Str
    → Result StartedTun TunnelError × Running
on_device profile udpgw tasks (err e) =
    (err (helper_error e), record { tasks = tasks; helper = false })
on_device profile udpgw tasks (ok _) =
    (ok (started profile udpgw), record { tasks = tasks ++ (drain_tun ∷ []); helper = true })

-- What `apply` answered. An error cancels `stop`.
unfoldable pub on_applied :
    Calls
    → ConnectionConfig
    → StartedUdpgw
    → List Task
    → Result Str Str
    → Result StartedTun TunnelError × Running
unfolding on_device
on_applied calls profile udpgw tasks (err e) = (err (helper_error e), quiet)
on_applied calls profile udpgw tasks (ok _) = on_device profile udpgw tasks calls.from_owned_fd

unfoldable pub on_prepared :
    Calls
    → ConnectionConfig
    → Result (List IpAddr) TunnelError
    → Result StartedTun TunnelError × Running
unfolding on_applied start_udpgw_over intercept_tasks tunnel_spec
on_prepared calls profile (err e) = (err e, quiet)
on_prepared calls profile (ok ips) =
    let udpgw = start_udpgw_over calls profile profile.protocol in
    on_applied calls profile udpgw (intercept_tasks calls profile udpgw.running)
      (calls.apply (tunnel_spec calls profile ips udpgw.running))

unfoldable pub start_full_tunnel :
    Calls → ConnectionConfig → Result StartedTun TunnelError × Running
unfolding on_prepared prepare
start_full_tunnel calls profile = on_prepared calls profile (prepare calls profile)
