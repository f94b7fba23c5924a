-- ===== src/Vless/Tests.antt =====
-- A profile, the two engines, and a connection through the server.
use easy_connection.Prelude.{
  ℕ, ◌≡◌, refl, arith, inl, inr, Bool, true, false, Option, none, some, [], ◌∷◌, ◌++◌, Result, ok,
  err, eq_bytes, Bytes,
}
use easy_connection.Prelude.Text.{codes, eq_ignore_ascii_case}
use easy_connection.Prelude.Net.{IpAddr}
use easy_connection.Prelude.Io.{Target, fresh}
use easy_connection.Prelude.Json.{Value, null, array, nil, find}
use easy_connection.Config.Model.{
  default_profile, ConnectionConfig, vless, VlessSettings, vless_settings, wss, tunnel_mode,
  dns_auto, proxy_only,
}
use easy_connection.Socks.Socks5.{SocksError}
use easy_connection.Socks.Socks5.Accept.{named, hello, request}
use easy_connection.Vless.Names.{
  VlessError, engine, settings_of, normalize_network, normalize_security, effective_network,
  effective_security,
}
use easy_connection.Vless.Engine.{build_xray_config, build_sing_box_config, sing_box_of}
use easy_connection.Vless.Engine.Outbound.{read_xray, read_sing_box}
use easy_connection.Vless.Engine.Agree.{engines_agree}
use easy_connection.Vless.Client.{EngineKind, xray, sing_box, start, socks_connect}
use easy_connection.Vless.Client.Loop.{outcome, serve, socks_connect-handle_socks5}

abbrev profile_settings : VlessSettings
profile_settings = record {
  uuid = codes "0";
  encryption = codes "none";
  flow = [];
  network = codes "ws";
  security = codes "tls";
  reality_public_key = none;
  reality_short_id = none;
  host = none;
  path = none;
  grpc_service_name = none;
  xhttp_mode = none;
  spider_x = none;
}

abbrev profile : ConnectionConfig
profile = record {
  id = 1;
  name = codes "v";
  protocol = vless;
  transport = wss;
  settings = vless_settings profile_settings;
  host = codes "a.b";
  port = 443;
  username = none;
  mtu = some 1400;
  proxy = record { socks_port = 1080; http_proxy_port = 8080; listen = codes "127.0.0.1" };
  tls = record {
    sni = some (codes "a.b");
    alpn = [];
    verify = true;
    fingerprint = default_profile;
    path = some (codes "/ok");
    host = some (codes "a.b");
  };
  dns = record { mode = tunnel_mode; servers = codes "1.1.1.1" ∷ []; dns_over_tcp = dns_auto };
  ipv6 = false;
  routing_mode = proxy_only;
  udpgw = record {
    enabled = false;
    host = codes "127.0.0.1";
    port = 7300;
    transparent_dns = false;
  };
  bypass_private_networks = true;
  kill_switch = false;
  smart_link_secret = none;
  split_bypass_cidrs = [];
  split_bypass_domains = codes "c" ∷ [];
}

-- The settings with the host and the path of the TLS settings.
abbrev filled_in : VlessSettings
filled_in = record profile_settings { host = some (codes "a.b"); path = some (codes "/ok") }

settings_read : settings_of profile ≡ ok filled_in
unfolding settings_of
settings_read = refl

tls_known : effective_security profile filled_in.security ≡ codes "tls"
unfolding effective_security normalize_security eq_ignore_ascii_case
tls_known = refl

abbrev value_of : Result Value VlessError → Value
value_of (ok v) = v
value_of (err e) = null

built : build_sing_box_config profile 32123 ≡ ok (value_of (build_sing_box_config profile 32123))
unfolding build_sing_box_config sing_box_of settings_of effective_network effective_security
    normalize_network normalize_security eq_ignore_ascii_case eq_bytes
built = refl

engines_agree_example :
    (x : Value) × (build_xray_config profile 32123 ≡ ok x)
    × (read_xray x ≡ read_sing_box (value_of (build_sing_box_config profile 32123)))
engines_agree_example =
    engines_agree profile 32123 filled_in (value_of (build_sing_box_config profile 32123))
      settings_read (inr (inl tls_known)) (inr refl) built

-- What is read: a WebSocket over TLS.
outbound_read : read_sing_box (value_of (build_sing_box_config profile 32123)) ≡ record {
  server = some (codes "a.b");
  port = some 443;
  uuid = some (codes "0");
  flow = none;
  network = some (codes "ws");
  path = some (codes "/ok");
  service = none;
  security = some (codes "tls");
  sni = some (codes "a.b");
  insecure = some false;
  public_key = none;
  short_id = none;
  encryption = some (codes "none");
  host = some (codes "a.b");
  alpn = some (array nil);
  fingerprint = some (codes "chrome");
}
unfolding build_sing_box_config sing_box_of settings_of effective_network effective_security
    normalize_network normalize_security eq_ignore_ascii_case eq_bytes find
outbound_read = refl

-- No name is an address, and every connection succeeds.
abbrev no_address : Bytes → Option IpAddr
no_address host = none

abbrev connects : Target → Result (Unit {0}) SocksError
connects target = ok tt

abbrev is_text : Bytes → Bool
is_text b = true

abbrev same_bytes : Bytes → Bytes
same_bytes b = b

socks_connect-handle_socks5_example :
    ((serve no_address connects same_bytes is_text (codes "a.b") 443).1.dialed
      ≡ named (codes "a.b") 443 ∷ [])
    × (socks_connect no_address (codes "a.b") 443 (
          fresh (
            (serve no_address connects same_bytes is_text (codes "a.b") 443).1.outgoing
            ++ (9 ∷ [])))
        ≡ outcome (ok tt) (9 ∷ []) (hello none (request (codes "a.b") 443 [])))
socks_connect-handle_socks5_example =
    socks_connect-handle_socks5 no_address connects same_bytes is_text (codes "a.b") 443 (9 ∷ [])
      (refl, omega arith, omega arith) refl (omega arith)

-- Xray is not installed: sing-box is started.
abbrev only_sing_box : EngineKind → Result ℕ VlessError
only_sing_box xray = err (engine (codes "binary `xray` was not found"))
only_sing_box sing_box = ok 1

second_is_tried : start only_sing_box (λ e. []) none ≡ ok 1
unfolding start
second_is_tried = refl
