-- ===== src/Tunnel/Full.antt =====
-- crates/tunnel/src/manager.rs: `start_full_tunnel` and the UDPGW client. The calls that it makes
-- answer what `Calls` says, as functions of what they are given; the tasks that run are a list.
use easy_connection.Prelude.{
  ℕ, Bool, true, false, ◌&&◌, ◌||◌, Option, List, [], ◌∷◌, ◌++◌, is_ok, unwrap_or, is_empty,
  if◌then◌else◌, ◌==◌, Result, ok, err,
}
use easy_connection.Prelude.Net.{IpAddr, v4, IpNet}
use easy_connection.Prelude.Text.{Str, codes, join, show_u16}
use easy_connection.Nft.{tun_name}
use easy_connection.Dns.Policy.{
  DnsPolicy, system, custom, parse, as_str, effective_policy, resolve_servers,
}
use easy_connection.Config.Model.{
  Protocol, ssh, RoutingMode, split_tunnel, DnsMode, system_mode, tunnel_mode, custom_mode,
  remote_mode, DnsOverTcp, dns_auto, dns_on, dns_off, ConnectionConfig,
}
use easy_connection.Helper.Spec.{ApplySpec}
use easy_connection.Tunnel.State.{TunnelError}
use easy_connection.Tunnel.Servers.{host_port, split_bypass_nets}

abbrev pub default_mtu : ℕ
default_mtu = 1280

abbrev pub tun_addr : IpAddr
tun_addr = v4 (10 ∷ 255 ∷ 255 ∷ 2 ∷ [])

abbrev pub tun_prefix : ℕ
tun_prefix = 24

abbrev pub transproxy_port : ℕ
transproxy_port = 13450

abbrev pub dns_proxy_port : ℕ
dns_proxy_port = 13453

abbrev pub udp_proxy_port : ℕ
udp_proxy_port = 13451

-- `rt_udpgw::DEFAULT_HOST` and `DEFAULT_PORT`.
abbrev pub default_udpgw_host : Str
default_udpgw_host = codes "127.0.0.1"

abbrev pub default_udpgw_port : ℕ
default_udpgw_port = 7300

-- The tasks that `stop` ends. All but the last three have a socket of their own.
pub data Task : Type 0 where
  transproxy_v4 dns_v4 transproxy_v6 dns_v6 udp_v4 udp_v6 : Task
  udpgw_client pump_replies drain_tun : Task

pub record Calls : Type 0 where
  pub ensure_helper : Result (Unit {0}) Str
  pub lookup_host : Str → ℕ → Result (List IpAddr) Str
  pub parse_net : Str → Option IpNet
  pub connect_helper : Result (Unit {0}) Str
  pub ping : Result (Unit {0}) Str
  pub bind : Task → Result (Unit {0}) Str
  pub connect_udpgw : Str → ℕ → Result (Unit {0}) Str
  pub run_udpgw : Result (Unit {0}) Str
  pub apply : ApplySpec → Result Str Str
  pub from_owned_fd : Result (Unit {0}) Str

abbrev pub map_err : {A : Type 0} → (Str → TunnelError) → Result A Str → Result A TunnelError
map_err f (ok a) = ok a
map_err f (err e) = err (f e)

pub record StartedUdpgw : Type 0 where
  pub running : Bool  -- the handle is there
  pub status : Str

abbrev pub udpgw_host : ConnectionConfig → Str
udpgw_host profile = if is_empty profile.udpgw.host then default_udpgw_host else profile.udpgw.host

abbrev pub udpgw_port : ConnectionConfig → ℕ
udpgw_port profile = if profile.udpgw.port == 0 then default_udpgw_port else profile.udpgw.port

-- What `run_udpgw` answered on the stream.
abbrev pub run_on_stream : Str → Result (Unit {0}) Str → StartedUdpgw
run_on_stream gateway (ok _) = record { running = true; status = codes "connected " ++ gateway }
run_on_stream gateway (err e) = record {
  running = false;
  status = codes "failed " ++ (gateway ++ (codes ": " ++ e));
}

abbrev pub on_udpgw_stream : Str → Result (Unit {0}) Str → Result (Unit {0}) Str → StartedUdpgw
on_udpgw_stream gateway (ok _) run = run_on_stream gateway run
on_udpgw_stream gateway (err e) run = record {
  running = false;
  status =
      codes "unreachable "
      ++ (gateway
          ++ (codes " ("
              ++ (e ++ codes "). Start badvpn-udpgw on the SSH host (often 127.0.0.1:7300).")));
}

unfoldable pub start_udpgw_client : Calls → ConnectionConfig → StartedUdpgw
start_udpgw_client calls profile =
    let host = udpgw_host profile in
    let port = udpgw_port profile in
    let started =
      on_udpgw_stream (host_port host port) (calls.connect_udpgw host port) calls.run_udpgw in
    if profile.udpgw.enabled then started else record { running = false; status = codes "disabled" }

-- UDPGW inside `start_full_tunnel`.
unfoldable pub start_udpgw_over : Calls → ConnectionConfig → Protocol → StartedUdpgw
unfolding start_udpgw_client
start_udpgw_over calls profile ssh = start_udpgw_client calls profile
start_udpgw_over calls profile _ = record {
  running = false;
  status = codes "n/a (UDPGW is SSH-only)";
}

abbrev pub task_if : Bool → Task → List Task
task_if b t = if b then t ∷ [] else []

-- The tasks that are running when `apply` is called: those of the sockets that were bound, the
-- UDPGW client, and its replies.
unfoldable pub intercept_tasks : Calls → ConnectionConfig → Bool → List Task
intercept_tasks calls profile udpgw_ok =
    task_if udpgw_ok udpgw_client
    ++ (transproxy_v4
        ∷ dns_v4
        ∷ (task_if (profile.ipv6 && is_ok (calls.bind transproxy_v6)) transproxy_v6
            ++ (task_if (profile.ipv6 && is_ok (calls.bind dns_v6)) dns_v6
                ++ (task_if (udpgw_ok && is_ok (calls.bind udp_v4)) udp_v4
                    ++ (task_if (udpgw_ok && (profile.ipv6 && is_ok (calls.bind udp_v6))) udp_v6
                        ++ task_if udpgw_ok pump_replies)))))

-- `format!("{:?}", mode).to_lowercase()`.
abbrev pub mode_text : DnsMode → Str
mode_text system_mode = codes "system"
mode_text tunnel_mode = codes "tunnel"
mode_text custom_mode = codes "custom"
mode_text remote_mode = codes "remote"

unfoldable pub policy_of : ConnectionConfig → DnsPolicy
unfolding effective_policy parse
policy_of profile = effective_policy true (parse (mode_text profile.dns.mode))

unfoldable pub servers_of : ConnectionConfig → List Str
unfolding policy_of resolve_servers
servers_of profile = resolve_servers (policy_of profile) profile.dns.servers

abbrev pub is_split : RoutingMode → Bool
is_split split_tunnel = true
is_split _ = false

unfoldable pub tunnel_spec : Calls → ConnectionConfig → List IpAddr → Bool → ApplySpec
unfolding policy_of servers_of split_bypass_nets as_str
tunnel_spec calls profile server_ips udpgw_ok = record {
  session_id = profile.id;
  tun_name = tun_name;
  tun_addr = tun_addr;
  tun_prefix = tun_prefix;
  mtu = unwrap_or profile.mtu default_mtu;
  server_ips = server_ips;
  bypass_private = profile.bypass_private_networks || is_split profile.routing_mode;
  extra_bypass = split_bypass_nets calls.parse_net (λ host. calls.lookup_host host 0) profile;
  ipv6 = profile.ipv6;
  kill_switch = profile.kill_switch;
  transproxy_port = transproxy_port;
  dns_port = dns_proxy_port;
  dns_mode = as_str (policy_of profile);
  dns_servers = servers_of profile;
  udp_port = if udpgw_ok then udp_proxy_port else 0;
}

abbrev pub listed : List Str → Str
listed servers = codes " (" ++ (join (codes ", ") servers ++ codes ")")

abbrev pub custom_status : DnsOverTcp → List Str → Str
custom_status dns_off servers = codes "custom UDP only" ++ listed servers
custom_status _ servers = codes "custom DNS-over-TCP" ++ listed servers

abbrev pub tunnel_status : DnsOverTcp → List Str → Str
tunnel_status dns_off servers = codes "tunnel DNS unavailable (dns_over_tcp=off, no UDPGW)"
tunnel_status dns_on servers = codes "tunnel DNS-over-TCP forced" ++ listed servers
tunnel_status dns_auto servers = codes "tunnel DNS-over-TCP fallback" ++ listed servers

unfoldable pub dns_status_of : DnsPolicy → Bool → DnsOverTcp → List Str → Str
dns_status_of system via over servers = codes "system"
dns_status_of custom via over servers =
    if via then codes "custom via UDPGW" ++ listed servers else custom_status over servers
dns_status_of _ via over servers =
    if via then codes "tunnel UDPGW DNS" ++ listed servers else tunnel_status over servers

unfoldable pub udp_note_of : ConnectionConfig → StartedUdpgw → Str
udp_note_of profile udpgw =
    if udpgw.running
    then codes "UDP is redirected to :"
      ++ (show_u16 udp_proxy_port
          ++ (codes " and carried over SSH via UDPGW ("
              ++ (udpgw.status ++ codes "). Not every QUIC/game protocol survives this path.")))
    else if profile.udpgw.enabled
    then codes "UDPGW is enabled but not connected ("
      ++ (udpgw.status ++ codes "). Leftover UDP is rejected so apps can fall back to TCP.")
    else codes
        "UDPGW is off. Leftover UDP is rejected; DNS uses DNS-over-TCP. Enable UDPGW if the server runs badvpn-udpgw."
