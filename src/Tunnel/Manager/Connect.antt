-- ===== src/Tunnel/Manager/Connect.antt =====
-- crates/tunnel/src/manager.rs: `connect`, `disconnect`, and the poller of the statistics.
use easy_connection.Prelude.{
  ℕ, Bool, true, false, ◌&&◌, Option, none, some, ◌++◌, is_some, if◌then◌else◌, Result, ok, err,
}
use easy_connection.Prelude.Text.{Str, codes}
use easy_connection.Config.Model.{Protocol, socks, ConnectionConfig}
use easy_connection.Tunnel.State.{
  connecting, authenticating, establishing_tunnel, error, establishing_tcp, authenticating_phase,
  establishing_tunnel_phase, configuring_routes, failed, ConnectionSnapshot, TunnelError,
  already_connected, unsupported_protocol, proxy_error, display,
}
use easy_connection.Tunnel.Servers.{host_port, proxy_bind_addr, short_connect_error}
use easy_connection.Tunnel.Full.{Calls, StartedUdpgw, start_udpgw_client, udpgw_client, task_if}
use easy_connection.Tunnel.Start.{StartedTun, Running, quiet, start_full_tunnel}
use easy_connection.Tunnel.Upstream.{SshSession, ProxyHandles, Dials, open_upstream}
use easy_connection.Tunnel.Manager.{
  nothing, ConnectionManager, publish, set_phase, set_live, wants_tun, connecting_snapshot, Outcome,
  Attempt, finish_connect,
}

abbrev pub full_tunnel_error : Str → Str
full_tunnel_error detail =
    codes "VPN / full-tunnel mode could not be started.\n\n"
    ++ (detail
        ++ codes
            "\n\nPossible causes:\n• polkit elevation was denied or cancelled\n• pkexec / polkitd is not installed\n• privileged helper failed to start\n• /dev/net/tun or nftables is unavailable\n\nThe desktop app will prompt for authentication via pkexec when needed.\nManual fallback:\n  sudo easy-helper --allow-uid $(id -u)\nor: sudo scripts/install-helper.sh\n\nProxy-only mode still works without the helper.")

-- The snapshot of a failure, with the short text and the details.
abbrev pub failed_snapshot : TunnelError → Str → Str → ConnectionSnapshot → ConnectionSnapshot
failed_snapshot e short detail snap = record snap {
  state = error;
  phase = failed (display e);
  last_error = some short;
  last_error_detail = some detail;
}

abbrev pub with_tunnel : StartedTun → Outcome
with_tunnel t = record {
  helper = true;
  tun_stop = true;
  dns_status = t.dns_status;
  udpgw_status = t.udpgw_status;
  udp_note = some t.udp_note;
  udpgw_ok = t.udpgw_ok;
}

-- What `start_full_tunnel` answered. On an error the proxies and the SSH session are ended.
unfoldable pub on_tunnel :
    ℕ
    → ConnectionConfig
    → Option SshSession
    → ProxyHandles
    → ConnectionSnapshot
    → ConnectionManager
    → Result StartedTun TunnelError × Running
    → Attempt
unfolding finish_connect display
on_tunnel now profile session proxies snap m (err e, running) = (
  err e,
  publish
      (failed_snapshot e (codes "Failed to configure system-wide routing")
        (full_tunnel_error (display e)) snap)
      (set_live (record nothing { running = running }) m),
)
on_tunnel now profile session proxies snap m (ok t, running) =
    finish_connect now profile session proxies (with_tunnel t) snap running m

abbrev pub proxies_alone : ConnectionSnapshot → Outcome
proxies_alone snap = record {
  helper = false;
  tun_stop = false;
  dns_status = snap.dns_status;
  udpgw_status = snap.udpgw_status;
  udp_note = snap.udp_note;
  udpgw_ok = false;
}

abbrev pub for_diagnostics : StartedUdpgw → ConnectionSnapshot → Outcome
for_diagnostics udpgw snap = record {
  helper = false;
  tun_stop = true;
  dns_status = snap.dns_status;
  udpgw_status = udpgw.status;
  udp_note = some (
      codes
        "Proxy-only does not intercept system UDP. UDPGW is connected for diagnostics only; use VPN mode for transparent UDP.");
  udpgw_ok = udpgw.running;
}

-- The proxies alone, with the UDPGW client for diagnostics if there is an SSH session.
unfoldable pub without_tunnel :
    ℕ
    → Calls
    → ConnectionConfig
    → Option SshSession
    → ProxyHandles
    → ConnectionSnapshot
    → ConnectionManager
    → Attempt
unfolding finish_connect start_udpgw_client
without_tunnel now calls profile session proxies snap m =
    let udpgw = start_udpgw_client calls profile in
    if profile.udpgw.enabled && is_some session
    then finish_connect now profile session proxies (for_diagnostics udpgw snap) snap
        (record { tasks = task_if udpgw.running udpgw_client; helper = false }) m
    else finish_connect now profile session proxies (proxies_alone snap) snap quiet m

-- What `ProxyServer::start` answered. On an error the SSH session is ended, and nothing is
-- published.
unfoldable pub on_proxies :
    ℕ
    → Calls
    → ConnectionConfig
    → Option SshSession
    → ConnectionSnapshot
    → ConnectionManager
    → Result ProxyHandles Str
    → Attempt
unfolding on_tunnel without_tunnel start_full_tunnel
on_proxies now calls profile session snap m (err e) = (err (proxy_error e), set_live nothing m)
on_proxies now calls profile session snap m (ok proxies) =
    if wants_tun profile.routing_mode
    then on_tunnel now profile session proxies snap
        (set_phase establishing_tunnel configuring_routes m) (start_full_tunnel calls profile)
    else without_tunnel now calls profile session proxies snap m

-- The end that an SSH session reached takes the place of the profile's host.
abbrev pub at_endpoint : Option SshSession → ConnectionConfig → ConnectionConfig
at_endpoint none profile = profile
at_endpoint (some session) profile = record profile { host = session.host; port = session.port }

abbrev pub label_endpoint : Option SshSession → ConnectionSnapshot → ConnectionSnapshot
label_endpoint none snap = snap
label_endpoint (some session) snap = record snap {
  server_label = some (host_port session.host session.port);
}

abbrev pub publish_endpoint :
    Option SshSession → ConnectionSnapshot → ConnectionManager → ConnectionManager
publish_endpoint none snap m = m
publish_endpoint (some session) snap m = publish snap m

abbrev pub establishing :
    Option SshSession → ConnectionSnapshot → ConnectionManager → ConnectionManager
establishing session snap m =
    set_phase establishing_tunnel establishing_tunnel_phase (publish_endpoint session snap m)

-- What `open_upstream` answered.
unfoldable pub on_upstream :
    ℕ
    → Dials
    → Calls
    → ConnectionConfig
    → ConnectionSnapshot
    → ConnectionManager
    → Result (Option SshSession) TunnelError
    → Attempt
unfolding on_proxies short_connect_error display proxy_bind_addr
on_upstream now dials calls profile snap m (err e) =
    (err e, publish (failed_snapshot e (short_connect_error (display e)) (display e) snap) m)
on_upstream now dials calls profile snap m (ok session) =
    let snap' = label_endpoint session snap in
    on_proxies now calls (at_endpoint session profile) session snap' (establishing session snap' m)
      (dials.start_proxies (proxy_bind_addr profile.proxy.listen) profile.proxy.socks_port
        profile.proxy.http_proxy_port)

abbrev pub is_socks : Protocol → Bool
is_socks socks = true
is_socks _ = false

-- From the first `publish` of `connect` on.
unfoldable pub attempt : ℕ → Dials → Calls → ConnectionConfig → ConnectionManager → Attempt
unfolding on_upstream open_upstream
attempt now dials calls profile m =
    let snap = connecting_snapshot profile in
    on_upstream now dials calls profile snap
      (set_phase authenticating authenticating_phase
        (set_phase connecting establishing_tcp (publish snap m)))
      (open_upstream dials profile profile.protocol)

abbrev pub socks_refused : TunnelError
socks_refused =
    unsupported_protocol
      (codes "inbound SOCKS profiles are not a tunnel protocol — use SSH, Shadowsocks, or VLESS")

unfoldable pub connect : ℕ → Dials → Calls → ConnectionConfig → ConnectionManager → Attempt
unfolding attempt
connect now dials calls profile m =
    if is_some m.active
    then (err already_connected, m)
    else if is_socks profile.protocol
    then (err socks_refused, m)
    else attempt now dials calls profile m
