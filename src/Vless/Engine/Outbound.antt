-- ===== src/Vless/Engine/Outbound.antt =====
-- What an engine reads from its configuration.
use easy_connection.Prelude.{ℕ, Bool, Option, none, some, [], ◌∷◌, eq_bytes, if◌then◌else◌}
use easy_connection.Prelude.Text.{Str, codes}
use easy_connection.Prelude.Json.{Value, get, at, first, as_str, as_number, as_bool}

-- An outbound connection, as an engine reads it from its configuration.
pub record Outbound : Type 0 where
  pub server : Option Str
  pub port : Option ℕ
  pub uuid : Option Str
  pub flow : Option Str
  pub network : Option Str
  pub path : Option Str
  pub service : Option Str
  pub security : Option Str
  pub sni : Option Str
  pub insecure : Option Bool
  pub public_key : Option Str
  pub short_id : Option Str
  pub encryption : Option Str
  pub host : Option Str
  pub alpn : Option Value
  pub fingerprint : Option Str

abbrev pub or_value : Option Value → Option Value → Option Value
or_value none b = b
or_value (some a) b = some a

-- Xray's names of networks, in the other engine's words.
abbrev pub plain_network : Option Str → Option Str
plain_network none = none
plain_network (some s) =
    if eq_bytes s (codes "raw")
    then some (codes "tcp")
    else if eq_bytes s (codes "websocket")
    then some (codes "ws")
    else some s

-- An empty text says nothing.
abbrev pub said : Option Str → Option Str
said none = none
said (some []) = none
said (some (c ∷ s)) = some (c ∷ s)

abbrev pub read_xray : Value → Outbound
read_xray x =
    let out = first (get (codes "outbounds") x) in
    let settings = at (codes "settings") out in
    let stream = at (codes "streamSettings") out in
    let tls = at (codes "tlsSettings") stream in
    let reality = at (codes "realitySettings") stream in
    let over =
      or_value (at (codes "wsSettings") stream) (at (codes "httpupgradeSettings") stream) in
    record {
      server = as_str (at (codes "address") settings);
      port = as_number (at (codes "port") settings);
      uuid = as_str (at (codes "id") settings);
      flow = as_str (at (codes "flow") settings);
      network = plain_network (as_str (at (codes "method") stream));
      path = as_str (at (codes "path") over);
      service = as_str (at (codes "serviceName") (at (codes "grpcSettings") stream));
      security = as_str (at (codes "security") stream);
      sni = as_str (at (codes "serverName") (or_value tls reality));
      insecure = as_bool (at (codes "allowInsecure") tls);
      public_key = as_str (at (codes "password") reality);
      short_id = as_str (at (codes "shortId") reality);
      encryption = as_str (at (codes "encryption") settings);
      host = said (as_str (at (codes "host") over));
      alpn = at (codes "alpn") tls;
      fingerprint = said (as_str (at (codes "fingerprint") (or_value tls reality)));
    }

abbrev pub or_tcp : Option Str → Option Str
or_tcp none = some (codes "tcp")
or_tcp (some s) = some s

abbrev pub kind_of : Option Value → Option Value → Option Str
kind_of none reality = some (codes "none")
kind_of (some tls) none = some (codes "tls")
kind_of (some tls) (some reality) = some (codes "reality")

-- The header of a WebSocket, or the host of an upgrade.
abbrev pub host_in : Option Value → Option Str
host_in over =
    said
      (as_str (or_value (at (codes "Host") (at (codes "headers") over)) (at (codes "host") over)))

-- Without TLS of its own Reality has no certificate to check, and Xray is told of no ALPN.
abbrev pub unless_reality : {A : Type 0} → Option Value → Option A → Option A
unless_reality none b = b
unless_reality (some reality) b = none

-- VLESS of sing-box has no encryption of its own, which is "none".
abbrev pub read_sing_box : Value → Outbound
read_sing_box x =
    let out = first (get (codes "outbounds") x) in
    let tls = at (codes "tls") out in
    let reality = at (codes "reality") tls in
    let over = at (codes "transport") out in
    record {
      server = as_str (at (codes "server") out);
      port = as_number (at (codes "server_port") out);
      uuid = as_str (at (codes "uuid") out);
      flow = as_str (at (codes "flow") out);
      network = or_tcp (as_str (at (codes "type") over));
      path = as_str (at (codes "path") over);
      service = as_str (at (codes "service_name") over);
      security = kind_of tls reality;
      sni = as_str (at (codes "server_name") tls);
      insecure = unless_reality reality (as_bool (at (codes "insecure") tls));
      public_key = as_str (at (codes "public_key") reality);
      short_id = as_str (at (codes "short_id") reality);
      encryption = some (codes "none");
      host = host_in over;
      alpn = unless_reality reality (at (codes "alpn") tls);
      fingerprint = said (as_str (at (codes "fingerprint") (at (codes "utls") tls)));
    }
