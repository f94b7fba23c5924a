-- ===== src/Tunnel/Tests.antt =====
-- The theorems about the tunnel at a concrete profile.
use easy_connection.Prelude.{
  ℕ, ◌≡◌, ◌≢◌, ◌⊎◌, ◌↔◌, refl, Bool, true, false, none, some, List, [], ◌∷◌, eq_bytes, contains, ok,
  err,
}
use easy_connection.Prelude.Net.{IpAddr, v4}
use easy_connection.Prelude.Text.{
  Str, codes, is_control, is_whitespace, str_len, utf8, utf8_char, trim, trim_start_matches,
  trim_end_matches, eq_ignore_ascii_case,
}
use easy_connection.Config.Model.{
  default_profile, ConnectionConfig, ssh, ssh_settings, direct, full_tunnel, tunnel_mode, dns_auto,
}
use easy_connection.Config.Validate.{
  one_of, each, check_address, check_ports, check_listen, check_settings, check_ssh, check_tls,
  check_routes, validate_connection,
}
use easy_connection.Helper.Spec.{validate}
use easy_connection.Tunnel.State.{TunnelError}
use easy_connection.Tunnel.Servers.{
  bytes_less, ip_less, ip_eq, insert, sort, dedup_after, dedup, resolve_server_ips,
}
use easy_connection.Tunnel.Servers.Sorted.{In, Ascending, resolve_server_ips-Ascending}
use easy_connection.Tunnel.Full.{Calls, tunnel_spec}
use easy_connection.Tunnel.Start.{prepare}
use easy_connection.Tunnel.Upstream.{SshSession, Dials}
use easy_connection.Tunnel.Accepted.{accepted_profile_applies}
use easy_connection.Tunnel.Manager.{ConnectionManager, new}
use easy_connection.Tunnel.Manager.Connect.{connect}
use easy_connection.Tunnel.Manager.Disconnect.{Counters}
use easy_connection.Tunnel.Manager.Rounds.{System, begin, connected_by, read_by}
use easy_connection.Tunnel.Manager.Report.{Reported, connect-Reported}

abbrev accepts : Str → Bool
accepts s = true

abbrev profile : ConnectionConfig
profile = record {
  id = 1;
  name = codes "n";
  protocol = ssh;
  transport = direct;
  host = codes "h";
  port = 22;
  username = some (codes "u");
  dns = record { mode = tunnel_mode; servers = []; dns_over_tcp = dns_auto };
  ipv6 = false;
  mtu = none;
  routing_mode = full_tunnel;
  udpgw = record { enabled = false; host = []; port = 0; transparent_dns = false };
  tls = record {
    sni = none;
    alpn = [];
    verify = true;
    fingerprint = default_profile;
    path = none;
    host = none;
  };
  proxy = record { socks_port = 1080; http_proxy_port = 8080; listen = [] };
  settings = ssh_settings;
  bypass_private_networks = true;
  kill_switch = true;
  split_bypass_cidrs = [];
  split_bypass_domains = [];
  smart_link_secret = none;
}

abbrev high : IpAddr
high = v4 (9 ∷ 0 ∷ 0 ∷ 1 ∷ [])

abbrev low : IpAddr
low = v4 (8 ∷ 0 ∷ 0 ∷ 1 ∷ [])

abbrev calls : Calls
calls = record {
  ensure_helper = ok tt;
  lookup_host = λ host port. ok (high ∷ low ∷ high ∷ []);
  parse_net = λ s. none;
  connect_helper = ok tt;
  ping = ok tt;
  bind = λ t. ok tt;
  connect_udpgw = λ host port. ok tt;
  run_udpgw = ok tt;
  apply = λ spec. ok [];
  from_owned_fd = ok tt;
}

abbrev session : SshSession
session = record { host = codes "h"; port = 22 }

abbrev dials : Dials
dials = record {
  get_secret = λ s. ok s;
  connect_smart_profile = λ p link. ok session;
  ssh_options = λ p. ok tt;
  connect_ssh = λ p. ok session;
  dial = λ p. ok tt;
  connect_over_transport = λ p. ok session;
  shadowsocks_connector = λ p. ok tt;
  start_vless = λ p. ok tt;
  start_proxies = λ listen s h.
      ok (record {
        socks_endpoint = codes "127.0.0.1:1080";
        http_endpoint = codes "127.0.0.1:8080";
      });
}

resolve_server_ips-Ascending_example :
    ((high ∷ low ∷ high ∷ [] ≡ [])
      × ((e : TunnelError) × (resolve_server_ips (codes "h") 22 (ok (high ∷ low ∷ high ∷ []))
            ≡ err e)))
    ⊎ ((ips : List IpAddr) × (resolve_server_ips (codes "h") 22 (ok (high ∷ low ∷ high ∷ []))
          ≡ ok ips)
        × (ips ≢ [])
        × Ascending ips
        × (In low ips ↔ In low (high ∷ low ∷ high ∷ [])))
resolve_server_ips-Ascending_example =
    resolve_server_ips-Ascending (codes "h") 22 low (high ∷ low ∷ high ∷ [])

profile_accepted : validate_connection accepts accepts accepts profile ≡ ok tt
unfolding validate_connection check_address check_ports check_listen check_settings check_ssh
    check_tls check_routes each one_of trim trim_start_matches trim_end_matches is_control
    is_whitespace str_len utf8 utf8_char eq_ignore_ascii_case eq_bytes contains
profile_accepted = refl

profile_prepared : prepare calls profile ≡ ok (low ∷ high ∷ [])
unfolding prepare resolve_server_ips sort insert ip_less bytes_less dedup dedup_after ip_eq eq_bytes
profile_prepared = refl

accepted_profile_applies_example :
    validate (tunnel_spec calls profile (low ∷ high ∷ []) false) ≡ ok tt
accepted_profile_applies_example =
    accepted_profile_applies accepts accepts accepts calls profile none (low ∷ high ∷ []) false
      profile_accepted profile_prepared

abbrev connected_manager : ConnectionManager
connected_manager = (connect 5 dials calls profile new).1

abbrev counters : ℕ → Counters
counters n = record { up = n; down = n; flows = 1 }

abbrev connected_system : System
connected_system = connected_by 5 dials calls profile begin

-- A round of the poller has read the snapshot, and the session is disconnected.
abbrev reading : System
reading = read_by (λ n. n) (counters 0) (counters 9) connected_system

connect-Reported_example : Reported true (connect 5 dials calls profile new)
connect-Reported_example = connect-Reported 5 dials calls profile new refl refl
