-- ===== src/Tunnel/Manager.antt =====
-- crates/tunnel/src/manager.rs: `ConnectionManager`. Beside its own state the model keeps what
-- runs because of it. `publish` also sends the snapshot to the watchers, which see a subsequence of
-- the snapshots; they are not kept.
pub mod Connect
pub mod Disconnect
pub mod Ends
pub mod Truth
pub mod Service
pub mod Rounds
pub mod Interleaved
pub mod Late
pub mod Report
use easy_connection.Prelude.{
  ℕ, ◌-◌, ◌/◌, Bool, true, false, not, ◌&&◌, ◌||◌, Option, none, some, List, [], ◌∷◌, ◌++◌, is_some,
  if◌then◌else◌, Result, ok, err,
}
use easy_connection.Prelude.Text.{Str, codes}
use easy_connection.Nft.{tun_name}
use easy_connection.Config.Model.{
  Protocol, ssh, socks, shadowsocks, vless, RoutingMode, proxy_only, full_tunnel, split_tunnel,
  ConnectionConfig,
}
use easy_connection.Tunnel.State.{
  ConnectionState, disconnected, connecting, authenticating, establishing_tunnel, connected,
  degraded, disconnecting, error, ConnectionPhase, idle, resolving_server, establishing_tcp,
  authenticating_phase, establishing_tunnel_phase, configuring_routes, ready, failed, TrafficStats,
  ConnectionSnapshot, default_snapshot, TunnelError, already_connected, unsupported_protocol,
  proxy_error, display,
}
use easy_connection.Tunnel.Servers.{host_port, proxy_bind_addr, short_connect_error}
use easy_connection.Tunnel.Full.{
  Calls, StartedUdpgw, start_udpgw_client, udpgw_client, task_if, mode_text,
}
use easy_connection.Tunnel.Start.{StartedTun, Running, quiet, start_full_tunnel}
use easy_connection.Tunnel.Upstream.{SshSession, ProxyHandles, Dials, open_upstream}

pub record ActiveSession : Type 0 where
  pub ssh : Option SshSession
  pub proxies : ProxyHandles
  pub helper : Bool
  pub tun_stop : Bool

-- What runs outside of the manager's fields.
pub record Live : Type 0 where
  pub ssh : Option SshSession
  pub proxies : Option ProxyHandles
  pub running : Running
  pub poller : Bool

abbrev pub nothing : Live
nothing = record { ssh = none; proxies = none; running = quiet; poller = false }

pub record ConnectionManager : Type 0 where
  pub snapshot : ConnectionSnapshot
  pub active : Option ActiveSession
  pub live : Live

abbrev pub new : ConnectionManager
new = record { snapshot = default_snapshot; active = none; live = nothing }

abbrev pub publish : ConnectionSnapshot → ConnectionManager → ConnectionManager
publish next m = record m { snapshot = next }

abbrev pub set_phase : ConnectionState → ConnectionPhase → ConnectionManager → ConnectionManager
set_phase state phase m = publish (record m.snapshot { state = state; phase = phase }) m

abbrev pub set_live : Live → ConnectionManager → ConnectionManager
set_live live m = record m { live = live }

abbrev pub wants_tun : RoutingMode → Bool
wants_tun proxy_only = false
wants_tun _ = true

abbrev pub mode_name : RoutingMode → Str
mode_name proxy_only = codes "proxy_only"
mode_name full_tunnel = codes "full_tunnel"
mode_name split_tunnel = codes "split_tunnel"

-- The first snapshot of `connect`.
abbrev pub connecting_snapshot : ConnectionConfig → ConnectionSnapshot
connecting_snapshot profile = record default_snapshot {
  state = connecting;
  phase = resolving_server;
  profile_id = some profile.id;
  profile_name = some profile.name;
  server_label = some (host_port profile.host profile.port);
  ipv6 = profile.ipv6;
  routing_mode = mode_name profile.routing_mode;
  dns_status = mode_text profile.dns.mode;
  udpgw_status = if profile.udpgw.enabled then codes "connecting" else codes "disabled";
  kill_switch = profile.kill_switch;
  udp_note =
      if wants_tun profile.routing_mode
      then some
          (codes "TCP is intercepted. UDP needs a remote badvpn-udpgw (enable it on the profile).")
      else none;
}

-- What an attempt has found out when it is about to succeed.
pub record Outcome : Type 0 where
  pub helper : Bool
  pub tun_stop : Bool
  pub dns_status : Str
  pub udpgw_status : Str
  pub udp_note : Option Str
  pub udpgw_ok : Bool

-- The last snapshot of a `connect` that succeeds.
unfoldable pub ready_snapshot :
    ℕ → ConnectionConfig → ProxyHandles → Outcome → ConnectionSnapshot → ConnectionSnapshot
ready_snapshot now profile proxies out snap = record snap {
  state = if profile.udpgw.enabled && not out.udpgw_ok then degraded else connected;
  phase = ready;
  socks_endpoint = some (codes "socks5://" ++ proxies.socks_endpoint);
  http_endpoint = some (codes "http://" ++ proxies.http_endpoint);
  connected_since = some now;
  last_error = none;
  last_error_detail = none;
  tun_name = if out.helper then some tun_name else none;
  helper_ok = out.helper;
  dns_status = out.dns_status;
  udpgw_status = out.udpgw_status;
  kill_switch = profile.kill_switch;
  udp_note = out.udp_note;
}

abbrev pub Attempt : Type 0
Attempt = Result ConnectionSnapshot TunnelError × ConnectionManager

-- From the last `publish` of `connect` on.
unfoldable pub finish_connect :
    ℕ
    → ConnectionConfig
    → Option SshSession
    → ProxyHandles
    → Outcome
    → ConnectionSnapshot
    → Running
    → ConnectionManager
    → Attempt
unfolding ready_snapshot
finish_connect now profile session proxies out snap running m =
    let snap' = ready_snapshot now profile proxies out snap in
    (
      ok snap',
      record {
        snapshot = snap';
        active = some (record {
          ssh = session;
          proxies = proxies;
          helper = out.helper;
          tun_stop = out.tun_stop;
        });
        live = record { ssh = session; proxies = some proxies; running = running; poller = true };
      },
    )
