-- ===== src/Config/Validate.antt =====
-- crates/config/src/validate.rs. An error message is a constructor. Whether a text is read by
-- `IpAddr`, `IpNet` and `Uuid` is a parameter.
pub mod Sound
use easy_connection.Prelude.{
  is_some, ℕ, ◌%◌, Bool, true, false, not, ◌&&◌, ◌||◌, Option, none, some, List, [], ◌∷◌, ltb, ◌==◌,
  is_empty, if◌then◌else◌, contains, eq_bytes, Result, ok, err, ◌>>=◌, ◌>>◌, fail_if,
}
use easy_connection.Prelude.Text.{
  Str, codes, within, is_control, is_whitespace, str_len, any, all, trim, to_ascii_lowercase,
  eq_ignore_ascii_case,
}
use easy_connection.Config.Model.{
  Protocol, ssh, socks, shadowsocks, vless, VlessSettings, ProtocolSettings, ssh_settings,
  socks_settings, shadowsocks_settings, vless_settings, TlsSettings, ProxyShareSettings,
  ConnectionConfig,
}

pub data ConfigError : Type 0 where
  no_name bad_name no_host bad_host bad_port bad_mtu no_proxy_port same_proxy_ports : ConfigError
  bad_listen no_username bad_username no_method bad_method bad_uuid bad_encryption : ConfigError
  bad_flow bad_network bad_security bad_vision no_reality_key no_reality_sni : ConfigError
  bad_reality_network bad_short_id mismatch udpgw_without_ssh bad_sni bad_host_header : ConfigError
  bad_path bad_alpn bad_dns_server bad_cidr bad_domain : ConfigError

-- `matches!` on texts.
unfoldable pub one_of : List Str → Str → Bool
one_of [] s = false
one_of (t ∷ ts) s = eq_bytes t s || one_of ts s

-- `trim().is_empty()`, where a missing text counts as empty.
abbrev pub is_blank : Str → Bool
is_blank s = is_empty (trim s)

abbrev pub blank_or_none : Option Str → Bool
blank_or_none none = true
blank_or_none (some s) = is_blank s

-- `is_some_and`, and an `if let Some` around a test.
abbrev pub some_and : {A : Type 0} → (A → Bool) → Option A → Bool
some_and p none = false
some_and p (some a) = p a

abbrev pub is_break : ℕ → Bool
is_break c = c == 13 || (c == 10 || c == 0)

abbrev pub is_space_or_control : ℕ → Bool
is_space_or_control c = is_control c || is_whitespace c

abbrev pub is_ascii_hexdigit : ℕ → Bool
is_ascii_hexdigit c = within b'0' b'9' c || (within b'a' b'f' c || within b'A' b'F' c)

abbrev pub starts_with_slash : Str → Bool
starts_with_slash [] = false
starts_with_slash (c ∷ _) = c == b'/'

-- A loop that returns an error at the first item that fails the test.
unfoldable pub each : (Str → Bool) → ConfigError → List Str → Result (Unit {0}) ConfigError
each bad e [] = ok tt
each bad e (s ∷ ss) = do fail_if (bad s) e; each bad e ss

unfoldable pub check_address : ConnectionConfig → Result (Unit {0}) ConfigError
check_address cfg = do
  fail_if (is_blank cfg.name) no_name
  fail_if (ltb 128 (str_len cfg.name) || any is_control cfg.name) bad_name
  fail_if (is_blank cfg.host) no_host
  fail_if
      (ltb 255 (str_len cfg.host) || (any is_space_or_control cfg.host || contains cfg.host b'/'))
      bad_host
  fail_if (cfg.port == 0) bad_port

unfoldable pub check_ports : ConnectionConfig → Result (Unit {0}) ConfigError
check_ports cfg = do
  fail_if (some_and (λ mtu. not (within 576 9000 mtu)) cfg.mtu) bad_mtu
  fail_if (cfg.proxy.socks_port == 0 || cfg.proxy.http_proxy_port == 0) no_proxy_port
  fail_if (cfg.proxy.socks_port == cfg.proxy.http_proxy_port) same_proxy_ports

-- The names of interfaces that are no address.
abbrev pub listen_names : List Str
listen_names = codes "127.0.0.1" ∷ codes "0.0.0.0" ∷ codes "::1" ∷ codes "::" ∷ codes "LAN" ∷ []

unfoldable pub check_ssh : ConnectionConfig → Result (Unit {0}) ConfigError
check_ssh cfg = do
  fail_if (not (is_some cfg.smart_link_secret) && blank_or_none cfg.username) no_username
  fail_if
      (not (is_some cfg.smart_link_secret)
        && some_and (λ u. ltb 255 (str_len u) || any is_control u) cfg.username)
      bad_username

abbrev pub methods : List Str
methods = codes "aes-128-gcm" ∷ codes "aes-256-gcm" ∷ []

unfoldable pub check_shadowsocks : Str → Result (Unit {0}) ConfigError
check_shadowsocks method = do
  fail_if (is_blank method) no_method
  fail_if (not (one_of methods (to_ascii_lowercase method))) bad_method

abbrev pub vision_flows : List Str
vision_flows = codes "xtls-rprx-vision" ∷ codes "xtls-rprx-vision-udp443" ∷ []

abbrev pub networks : List Str
networks =
    codes "tcp"
    ∷ codes "raw"
    ∷ codes "ws"
    ∷ codes "websocket"
    ∷ codes "grpc"
    ∷ codes "httpupgrade"
    ∷ codes "xhttp"
    ∷ []

abbrev pub is_vision : VlessSettings → Bool
is_vision v = one_of vision_flows (to_ascii_lowercase v.flow)

abbrev pub is_reality : VlessSettings → Bool
is_reality v = eq_bytes (to_ascii_lowercase v.security) (codes "reality")

-- A test of a Reality short id, in hexadecimal digits.
abbrev pub bad_id : Str → Bool
bad_id id = ltb 16 (str_len id) || (not (str_len id % 2 == 0) || not (all is_ascii_hexdigit id))

unfoldable pub check_reality : ConnectionConfig → VlessSettings → Result (Unit {0}) ConfigError
check_reality cfg v = do
  fail_if (blank_or_none v.reality_public_key) no_reality_key
  fail_if (blank_or_none cfg.tls.sni) no_reality_sni
  fail_if
      (not (
        one_of (codes "tcp" ∷ codes "raw" ∷ codes "grpc" ∷ codes "xhttp" ∷ [])
          (to_ascii_lowercase v.network)))
      bad_reality_network
  fail_if (some_and bad_id v.reality_short_id) bad_short_id

unfoldable pub check_modes : VlessSettings → Result (Unit {0}) ConfigError
check_modes v = do
  fail_if (not (is_empty v.encryption) && not (eq_ignore_ascii_case v.encryption (codes "none")))
      bad_encryption
  fail_if (not (one_of ([] ∷ codes "none" ∷ vision_flows) (to_ascii_lowercase v.flow))) bad_flow
  fail_if (not (one_of networks (to_ascii_lowercase v.network))) bad_network
  fail_if
      (not (
        one_of (codes "none" ∷ [] ∷ codes "tls" ∷ codes "reality" ∷ [])
          (to_ascii_lowercase v.security)))
      bad_security
  fail_if
      (is_vision v
        && (not (one_of (codes "tcp" ∷ codes "raw" ∷ []) (to_ascii_lowercase v.network))
            || not (one_of (codes "tls" ∷ codes "reality" ∷ []) (to_ascii_lowercase v.security))))
      bad_vision

abbrev pub is_ssh : Protocol → Bool
is_ssh ssh = true
is_ssh _ = false

-- The optional texts of `cfg.tls`.
unfoldable pub check_tls : TlsSettings → Result (Unit {0}) ConfigError
check_tls tls = do
  fail_if (some_and (λ s. ltb 255 (str_len s) || any is_space_or_control s) tls.sni) bad_sni
  fail_if (some_and (λ h. ltb 255 (str_len h) || any is_break h) tls.host) bad_host_header
  fail_if
      (some_and (λ p. not (starts_with_slash p) || (ltb 2048 (str_len p) || any is_break p))
        tls.path)
      bad_path
  each (λ a. is_empty a || (ltb 255 (str_len a) || any is_space_or_control a)) bad_alpn tls.alpn

module _ (is_ip is_net is_uuid : Str → Bool) where
  unfoldable pub check_listen : Str → Result (Unit {0}) ConfigError
  check_listen listen = fail_if (not (one_of listen_names listen) && not (is_ip listen)) bad_listen

  unfoldable pub check_vless : ConnectionConfig → VlessSettings → Result (Unit {0}) ConfigError
  check_vless cfg v = do
    fail_if (not (is_uuid v.uuid)) bad_uuid
    check_modes v
    if is_reality v then check_reality cfg v else ok tt

  unfoldable pub check_settings :
      ConnectionConfig → Protocol → ProtocolSettings → Result (Unit {0}) ConfigError
  check_settings cfg ssh ssh_settings = check_ssh cfg
  check_settings cfg shadowsocks (shadowsocks_settings method) = check_shadowsocks method
  check_settings cfg vless (vless_settings v) = check_vless cfg v
  check_settings cfg socks socks_settings = ok tt
  check_settings cfg _ _ = err mismatch

  unfoldable pub check_routes : ConnectionConfig → Result (Unit {0}) ConfigError
  check_routes cfg = do
    each (λ s. not (is_ip s)) bad_dns_server cfg.dns.servers
    each (λ s. not (is_net s)) bad_cidr cfg.split_bypass_cidrs
    each (λ s. is_blank s || contains s b' ') bad_domain cfg.split_bypass_domains

  unfoldable pub validate_connection : ConnectionConfig → Result (Unit {0}) ConfigError
  validate_connection cfg = do
    check_address cfg
    check_ports cfg
    check_listen cfg.proxy.listen
    check_settings cfg cfg.protocol cfg.settings
    fail_if (cfg.udpgw.enabled && not (is_ssh cfg.protocol)) udpgw_without_ssh
    check_tls cfg.tls
    check_routes cfg
