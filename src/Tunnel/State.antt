-- ===== src/Tunnel/State.antt =====
-- crates/tunnel/src/state.rs and error.rs: what the manager publishes. A time is a number.
use easy_connection.Prelude.{ℕ, Bool, false, Option, none, ◌++◌}
use easy_connection.Prelude.Text.{Str, codes}

pub data ConnectionState : Type 0 where
  disconnected : ConnectionState
  connecting : ConnectionState
  authenticating : ConnectionState
  establishing_tunnel : ConnectionState
  connected : ConnectionState
  degraded : ConnectionState
  reconnecting : ConnectionState
  disconnecting : ConnectionState
  error : ConnectionState

pub data ConnectionPhase : Type 0 where
  idle : ConnectionPhase
  resolving_server : ConnectionPhase
  establishing_tcp : ConnectionPhase
  negotiating_transport : ConnectionPhase
  authenticating_phase : ConnectionPhase
  establishing_tunnel_phase : ConnectionPhase
  configuring_routes : ConnectionPhase
  configuring_dns : ConnectionPhase
  ready : ConnectionPhase
  reconnecting_phase : ℕ → ConnectionPhase
  failed : Str → ConnectionPhase

pub record TrafficStats : Type 0 where
  pub bytes_down : ℕ
  pub bytes_up : ℕ
  pub rate_down_bps : ℕ
  pub rate_up_bps : ℕ
  pub active_flows : ℕ

abbrev pub no_traffic : TrafficStats
no_traffic = record {
  bytes_down = 0;
  bytes_up = 0;
  rate_down_bps = 0;
  rate_up_bps = 0;
  active_flows = 0;
}

pub record ConnectionSnapshot : Type 0 where
  pub state : ConnectionState
  pub phase : ConnectionPhase
  pub profile_id : Option ℕ
  pub profile_name : Option Str
  pub socks_endpoint : Option Str
  pub http_endpoint : Option Str
  pub connected_since : Option ℕ
  pub last_error : Option Str
  pub last_error_detail : Option Str
  pub stats : TrafficStats
  pub ipv6 : Bool
  pub routing_mode : Str
  pub dns_status : Str
  pub udpgw_status : Str
  pub server_label : Option Str
  pub latency_ms : Option ℕ
  pub tun_name : Option Str
  pub helper_ok : Bool
  pub udp_note : Option Str
  pub kill_switch : Bool

-- `ConnectionSnapshot::default`.
abbrev pub default_snapshot : ConnectionSnapshot
default_snapshot = record {
  state = disconnected;
  phase = idle;
  profile_id = none;
  profile_name = none;
  socks_endpoint = none;
  http_endpoint = none;
  connected_since = none;
  last_error = none;
  last_error_detail = none;
  stats = no_traffic;
  ipv6 = false;
  routing_mode = codes "proxy_only";
  dns_status = codes "system";
  udpgw_status = codes "disabled";
  server_label = none;
  latency_ms = none;
  tun_name = none;
  helper_ok = false;
  udp_note = none;
  kill_switch = false;
}

-- An error of another crate is its text.
pub data TunnelError : Type 0 where
  not_connected : TunnelError
  already_connected : TunnelError
  unsupported_protocol : Str → TunnelError
  ssh_error : Str → TunnelError
  proxy_error : Str → TunnelError
  helper_error : Str → TunnelError
  config_error : Str → TunnelError
  secrets_error : Str → TunnelError
  other : Str → TunnelError

-- `Display`.
unfoldable pub display : TunnelError → Str
display not_connected = codes "not connected"
display already_connected = codes "already connected"
display (unsupported_protocol s) = codes "unsupported protocol for this phase: " ++ s
display (ssh_error s) = codes "SSH error: " ++ s
display (proxy_error s) = codes "proxy error: " ++ s
display (helper_error s) = codes "privileged helper: " ++ s
display (config_error s) = codes "config error: " ++ s
display (secrets_error s) = codes "secrets error: " ++ s
display (other s) = s
