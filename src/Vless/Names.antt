-- ===== src/Vless/Names.antt =====
-- crates/vless/src/lib.rs: the network and the security that a profile means.
use easy_connection.Prelude.{
  Bool, false, not, ◌||◌, Option, none, some, List, [], ◌∷◌, is_empty, is_some, eq_bytes,
  if◌then◌else◌, Result, ok, err,
}
use easy_connection.Prelude.Text.{Str, codes, eq_ignore_ascii_case}
use easy_connection.Config.Model.{
  VlessSettings, vless_settings, ConnectionConfig, Transport, tls_transport, web_socket, wss,
  http_upgrade, TlsFingerprintProfile, default_profile, chrome, firefox, safari, custom_profile,
}

pub data VlessError : Type 0 where
  io : VlessError
  config : Str → VlessError
  engine : Str → VlessError

-- `Option::or`.
abbrev pub or : Option Str → Option Str → Option Str
or none b = b
or (some a) b = some a

-- `vless_settings`: host and path fall back to those of the TLS settings.
unfoldable pub settings_of : ConnectionConfig → Result VlessSettings VlessError
settings_of cfg = elim cfg.settings [
  | vless_settings v ↦
      ok (record v { host = or v.host cfg.tls.host; path = or v.path cfg.tls.path })
  | other ↦ err (config (codes "not a VLESS profile"))
]

-- A value that is one of some names, in any case of letters.
abbrev pub named : Str → List Str → Bool
named value [] = false
named value (n ∷ ns) = eq_ignore_ascii_case value n || named value ns

unfoldable pub normalize_network : Str → Str
normalize_network value =
    if is_empty value || named value (codes "raw" ∷ codes "none" ∷ codes "tcp" ∷ [])
    then codes "tcp"
    else if named value (codes "websocket" ∷ codes "ws" ∷ [])
    then codes "ws"
    else if named value (codes "http_upgrade" ∷ codes "httpupgrade" ∷ [])
    then codes "httpupgrade"
    else if named value (codes "grpc" ∷ [])
    then codes "grpc"
    else if named value (codes "xhttp" ∷ [])
    then codes "xhttp"
    else value

unfoldable pub normalize_security : Str → Str
normalize_security value =
    if is_empty value || named value (codes "none" ∷ [])
    then codes "none"
    else if named value (codes "tls" ∷ [])
    then codes "tls"
    else if named value (codes "reality" ∷ [])
    then codes "reality"
    else value

-- What the transport of the profile says, where the settings say nothing.
abbrev pub network_of : Transport → Str → Str
network_of web_socket otherwise = codes "ws"
network_of wss otherwise = codes "ws"
network_of http_upgrade otherwise = codes "httpupgrade"
network_of _ otherwise = otherwise

unfoldable pub effective_network : ConnectionConfig → Str → Str
effective_network cfg configured =
    if is_empty configured || named configured (codes "tcp" ∷ [])
    then network_of cfg.transport (normalize_network configured)
    else normalize_network configured

abbrev pub security_of : Transport → Bool → Str
security_of tls_transport hints = codes "tls"
security_of wss hints = codes "tls"
security_of http_upgrade hints = if hints then codes "tls" else codes "none"
security_of _ hints = codes "none"

unfoldable pub effective_security : ConnectionConfig → Str → Str
effective_security cfg configured =
    if is_empty configured || named configured (codes "none" ∷ [])
    then security_of cfg.transport (is_some cfg.tls.sni || not (is_empty cfg.tls.alpn))
    else normalize_security configured

unfoldable pub xray_network : Str → Str
xray_network network =
    if eq_bytes network (codes "tcp")
    then codes "raw"
    else if eq_bytes network (codes "ws")
    then codes "websocket"
    else network

abbrev pub fingerprint : TlsFingerprintProfile → Str
fingerprint chrome = codes "chrome"
fingerprint firefox = codes "firefox"
fingerprint safari = codes "safari"
fingerprint default_profile = codes "chrome"
fingerprint custom_profile = []
