-- ===== src/Config/Validate/Sound.antt =====
-- What an accepted profile can be relied on for.
use easy_connection.Prelude.{
  ◌≡◌, ◌≢◌, ◌⊎◌, ◌≤◌, inl, inr, refl, arith, Bool, true, false, not, ◌&&◌, ◌||◌, Option, none, some,
  List, [], ◌∷◌, ltb, contains, All, Result, ok, err, ◌>>◌, fail_if, Bool-cases,
}
use easy_connection.Prelude.Text.{Str, str_len, any}
use easy_connection.Config.Model.{
  Protocol, ssh, socks, shadowsocks, vless, ProtocolSettings, ssh_settings, socks_settings,
  shadowsocks_settings, vless_settings, TlsSettings, ConnectionConfig,
}
use easy_connection.Config.Validate.{
  ConfigError, each, some_and, is_break, is_space_or_control, starts_with_slash, is_ssh,
  check_address, check_ports, check_listen, check_settings, check_tls, check_routes,
  validate_connection, bad_sni, bad_host_header, bad_path, bad_dns_server, bad_cidr,
  udpgw_without_ssh,
}

abbrev pub Holds : {A : Type 0} → (A → Type 0) → Option A → Type 0
Holds P none = Unit {0}
Holds P (some a) = P a

-- No carriage return, line feed or zero: a header line that it stands in is not broken off.
abbrev pub IsOneLine : Str → Type 0
IsOneLine = All (λ c. (c ≢ 13) × (c ≢ 10) × (c ≢ 0))

abbrev pub kind_of : ProtocolSettings → Protocol
kind_of ssh_settings = ssh
kind_of socks_settings = socks
kind_of (shadowsocks_settings _) = shadowsocks
kind_of (vless_settings _) = vless

pub record Accepted (is_ip is_net : Str → Bool) (cfg : ConnectionConfig) : Type 0 where
  pub host_len : str_len cfg.host ≤ 255
  pub host_clean : any is_space_or_control cfg.host ≡ false
  pub host_no_slash : contains cfg.host b'/' ≡ false
  pub port_set : cfg.port ≢ 0
  pub mtu_range : Holds (λ m. (576 ≤ m) × (m ≤ 9000)) cfg.mtu
  pub socks_port_set : cfg.proxy.socks_port ≢ 0
  pub http_port_set : cfg.proxy.http_proxy_port ≢ 0
  pub ports_apart : cfg.proxy.socks_port ≢ cfg.proxy.http_proxy_port
  pub same_kind : kind_of cfg.settings ≡ cfg.protocol
  pub udpgw_over_ssh : (cfg.udpgw.enabled ≡ false) ⊎ (cfg.protocol ≡ ssh)
  pub host_header_safe : Holds IsOneLine cfg.tls.host
  pub path_safe : Holds (λ p. (starts_with_slash p ≡ true) × IsOneLine p) cfg.tls.path
  pub servers_are_ips : All (λ s. is_ip s ≡ true) cfg.dns.servers
  pub cidrs_are_nets : All (λ s. is_net s ≡ true) cfg.split_bypass_cidrs

both_ok : (m k : Result (Unit {0}) ConfigError) → (m >> k) ≡ ok tt → (m ≡ ok tt) × (k ≡ ok tt)
both_ok (ok _) k h = (refl, h)
both_ok (err e) k h = cc

each_ok :
    (bad : Str → Bool) (e : ConfigError) (ss : List Str)
    → each bad e ss ≡ ok tt
    → All (λ s. bad s ≡ false) ss
unfolding each
each_ok bad e [] h = tt
each_ok bad e (s ∷ ss) h = elim (Bool-cases (bad s)) [
  | inl b ↦ absurd (cc (rw b at h))
  | inr b ↦ (b, each_ok bad e ss (rw b at h))
]

no_break : (s : Str) → any is_break s ≡ false → IsOneLine s
no_break [] h = tt
no_break (c ∷ s) h = (ground arith, no_break s (ground arith))

module _ (cfg : ConnectionConfig) where
  address_ok :
      check_address cfg ≡ ok tt
      → (str_len cfg.host ≤ 255)
        × (any is_space_or_control cfg.host ≡ false)
        × (contains cfg.host b'/' ≡ false)
        × (cfg.port ≢ 0)
  unfolding check_address
  address_ok h = ground arith

  ports_ok :
      check_ports cfg ≡ ok tt
      → Holds (λ m. (576 ≤ m) × (m ≤ 9000)) cfg.mtu
        × (cfg.proxy.socks_port ≢ 0)
        × (cfg.proxy.http_proxy_port ≢ 0)
        × (cfg.proxy.socks_port ≢ cfg.proxy.http_proxy_port)
  unfolding check_ports
  ports_ok h = ground arith

fail_if_ok : (b : Bool) (e : ConfigError) → fail_if b e ≡ ok tt → b ≡ false
fail_if_ok true e h = cc
fail_if_ok false e h = refl

host_header_ok :
    (o : Option Str)
    → some_and (λ h. ltb 255 (str_len h) || any is_break h) o ≡ false
    → Holds IsOneLine o
host_header_ok none h = tt
host_header_ok (some s) h = no_break s (ground arith)

path_ok :
    (o : Option Str)
    → some_and (λ p. not (starts_with_slash p) || (ltb 2048 (str_len p) || any is_break p)) o
      ≡ false
    → Holds (λ p. (starts_with_slash p ≡ true) × IsOneLine p) o
path_ok none h = tt
path_ok (some s) h = (ground arith, no_break s (ground arith))

tls_ok :
    (tls : TlsSettings)
    → check_tls tls ≡ ok tt
    → Holds IsOneLine tls.host × Holds (λ p. (starts_with_slash p ≡ true) × IsOneLine p) tls.path
unfolding check_tls
tls_ok tls h =
    let rest_ok =
      (both_ok
        (fail_if (some_and (λ s. ltb 255 (str_len s) || any is_space_or_control s) tls.sni) bad_sni)
        _ h).1 in
    let (host, more) =
      both_ok
        (fail_if (some_and (λ h. ltb 255 (str_len h) || any is_break h) tls.host) bad_host_header) _
        rest_ok in
    let (path, _) =
      both_ok
        (fail_if
          (some_and (λ p. not (starts_with_slash p) || (ltb 2048 (str_len p) || any is_break p))
            tls.path)
          bad_path)
        _ more in
    (
      host_header_ok tls.host (fail_if_ok _ bad_host_header host),
      path_ok tls.path (fail_if_ok _ bad_path path),
    )

udpgw_ok :
    (enabled : Bool) (p : Protocol)
    → fail_if (enabled && not (is_ssh p)) udpgw_without_ssh ≡ ok tt
    → (enabled ≡ false) ⊎ (p ≡ ssh)
udpgw_ok false p h = inl refl
udpgw_ok true ssh h = inr refl
udpgw_ok true socks h = cc
udpgw_ok true shadowsocks h = cc
udpgw_ok true vless h = cc

module _ (is_ip is_net is_uuid : Str → Bool) (cfg : ConnectionConfig) where
  settings_ok :
      (p : Protocol) (s : ProtocolSettings)
      → check_settings is_ip is_net is_uuid cfg p s ≡ ok tt
      → kind_of s ≡ p
  unfolding check_settings
  settings_ok ssh ssh_settings h = refl
  settings_ok ssh socks_settings h = cc
  settings_ok ssh (shadowsocks_settings _) h = cc
  settings_ok ssh (vless_settings _) h = cc
  settings_ok socks ssh_settings h = cc
  settings_ok socks socks_settings h = refl
  settings_ok socks (shadowsocks_settings _) h = cc
  settings_ok socks (vless_settings _) h = cc
  settings_ok shadowsocks ssh_settings h = cc
  settings_ok shadowsocks socks_settings h = cc
  settings_ok shadowsocks (shadowsocks_settings _) h = refl
  settings_ok shadowsocks (vless_settings _) h = cc
  settings_ok vless ssh_settings h = cc
  settings_ok vless socks_settings h = cc
  settings_ok vless (shadowsocks_settings _) h = cc
  settings_ok vless (vless_settings _) h = refl

  routes_ok :
      check_routes is_ip is_net is_uuid cfg ≡ ok tt
      → All (λ s. is_ip s ≡ true) cfg.dns.servers
        × All (λ s. is_net s ≡ true) cfg.split_bypass_cidrs
  unfolding check_routes
  routes_ok h =
      let (servers, more) =
        both_ok (each (λ s. not (is_ip s)) bad_dns_server cfg.dns.servers) _ h in
      let (cidrs, _) =
        both_ok (each (λ s. not (is_net s)) bad_cidr cfg.split_bypass_cidrs) _ more in
      (
        passes is_ip cfg.dns.servers (each_ok _ bad_dns_server cfg.dns.servers servers),
        passes is_net cfg.split_bypass_cidrs (each_ok _ bad_cidr cfg.split_bypass_cidrs cidrs),
      )
    where
      passes :
          (p : Str → Bool) (ss : List Str)
          → All (λ s. not (p s) ≡ false) ss
          → All (λ s. p s ≡ true) ss
      passes p [] h = tt
      passes p (s ∷ ss) (h, hs) = (ground arith, passes p ss hs)

  -- A profile that is accepted has a host of at most 255 bytes without spaces, control characters
  -- or slashes, ports that are set and apart, an MTU from 576 to 9000 if any, settings of its own
  -- protocol, UDPGW only over SSH, DNS servers that are addresses, bypassed networks that are
  -- networks, a path from the root, and a Host header and a path that fit one header line.
  pub validate_connection-Accepted :
      validate_connection is_ip is_net is_uuid cfg ≡ ok tt → Accepted is_ip is_net cfg
  unfolding validate_connection
  validate_connection-Accepted h =
      let (a, h₁) = both_ok (check_address cfg) _ h in
      let (p, h₂) = both_ok (check_ports cfg) _ h₁ in
      let (_, h₃) = both_ok (check_listen is_ip is_net is_uuid cfg.proxy.listen) _ h₂ in
      let (s, h₄) =
        both_ok (check_settings is_ip is_net is_uuid cfg cfg.protocol cfg.settings) _ h₃ in
      let (u, h₅) =
        both_ok (fail_if (cfg.udpgw.enabled && not (is_ssh cfg.protocol)) udpgw_without_ssh) _ h₄ in
      let (t, r) = both_ok (check_tls cfg.tls) _ h₅ in
      let (len, clean, slash, port) = address_ok cfg a in
      let (mtu, socks_set, http_set, apart) = ports_ok cfg p in
      let (header, path) = tls_ok cfg.tls t in
      let (servers, cidrs) = routes_ok r in
      record {
        host_len = len;
        host_clean = clean;
        host_no_slash = slash;
        port_set = port;
        mtu_range = mtu;
        socks_port_set = socks_set;
        http_port_set = http_set;
        ports_apart = apart;
        same_kind = settings_ok cfg.protocol cfg.settings s;
        udpgw_over_ssh = udpgw_ok cfg.udpgw.enabled cfg.protocol u;
        host_header_safe = header;
        path_safe = path;
        servers_are_ips = servers;
        cidrs_are_nets = cidrs;
      }
