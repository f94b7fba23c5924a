-- ===== src/Config/Tests.antt =====
-- The check of a profile at a concrete profile.
use easy_connection.Prelude.{
  ◌<◌, ◌++◌, Bytes, IsBytes, All, ltb, arith, Option, Result, length, ◌≡◌, refl, Bool, true, false,
  none, some, [], ◌∷◌, ok, eq_bytes, contains,
}
use easy_connection.Prelude.Text.{
  to_digit, all, Str, codes, is_control, is_whitespace, str_len, utf8, utf8_char, trim,
  trim_start_matches, trim_end_matches, eq_ignore_ascii_case,
}
use easy_connection.Config.MessagePack.{
  array, cons, nil, int, pos, read_levels, on_tag, ImportError,
}
use easy_connection.Config.MessagePack.Writer.{encode, IsPackable}
use easy_connection.Config.MessagePack.RoundTrip.{read_levels-encode}
use easy_connection.Config.SmartLink.{
  RocketSmartHost, RocketSmartConfig, decode_envelope, unpack, decode_percent, percent_bytes,
  decode_rocket_smart_link,
}
use easy_connection.Config.SmartLink.Accepted.{IsSmart, decode_rocket_smart_link-IsSmart}
use easy_connection.Config.SmartLink.RoundTrip.{
  config_value, payload, envelope, AreTexts, decode_envelope-envelope,
}
use easy_connection.Config.Model.{
  default_profile, ConnectionConfig, vless, vless_settings, wss, tunnel_mode, dns_auto, proxy_only,
}
use easy_connection.Config.Validate.{
  one_of, each, check_address, check_ports, check_listen, check_modes, check_vless, check_settings,
  check_tls, check_routes, validate_connection,
}
use easy_connection.Config.Validate.Sound.{Accepted, validate_connection-Accepted}

abbrev accepts : Str → Bool
accepts s = true

-- A VLESS profile over a WebSocket, as the tests of validate.rs make one.
abbrev profile : ConnectionConfig
profile = record {
  id = 1;
  name = codes "v";
  protocol = vless;
  transport = wss;
  settings = vless_settings (record {
    uuid = codes "0";
    encryption = codes "none";
    flow = [];
    network = codes "ws";
    security = codes "tls";
    reality_public_key = none;
    reality_short_id = none;
    host = none;
    path = none;
    grpc_service_name = none;
    xhttp_mode = none;
    spider_x = none;
  });
  host = codes "a.b";
  port = 443;
  username = none;
  mtu = some 1400;
  proxy = record { socks_port = 1080; http_proxy_port = 8080; listen = codes "127.0.0.1" };
  tls = record {
    sni = some (codes "a.b");
    alpn = [];
    verify = true;
    fingerprint = default_profile;
    path = some (codes "/ok");
    host = some (codes "a.b");
  };
  dns = record { mode = tunnel_mode; servers = codes "1.1.1.1" ∷ []; dns_over_tcp = dns_auto };
  ipv6 = false;
  routing_mode = proxy_only;
  udpgw = record {
    enabled = false;
    host = codes "127.0.0.1";
    port = 7300;
    transparent_dns = false;
  };
  bypass_private_networks = true;
  kill_switch = false;
  smart_link_secret = none;
  split_bypass_cidrs = [];
  split_bypass_domains = codes "c" ∷ [];
}

profile_accepted : validate_connection accepts accepts accepts profile ≡ ok tt
unfolding validate_connection check_address check_ports check_listen check_settings check_vless
    check_modes check_tls check_routes each one_of trim trim_start_matches trim_end_matches
    is_control is_whitespace str_len utf8 utf8_char eq_ignore_ascii_case eq_bytes contains
profile_accepted = refl

validate_connection-Accepted_example : Accepted accepts accepts profile
validate_connection-Accepted_example =
    validate_connection-Accepted accepts accepts accepts profile profile_accepted

-- A Smart Config as the tests of smart_link.rs build it. Text here is ASCII.
abbrev ascii_only : Bytes → Bool
ascii_only = all (λ b. ltb b 128)

ascii_only_lem : (bs : Bytes) → All (λ b. b < 128) bs → ascii_only bs ≡ true
ascii_only_lem [] hs = refl
ascii_only_lem (b ∷ bs) (h, hs) = ground (arith, h, ascii_only_lem bs hs)

abbrev no_zlib : Bytes → Option Bytes
no_zlib bs = none

abbrev entry_host : RocketSmartHost
entry_host = record { host = codes "entry.example"; port = 80; flag = 17; delay = 0 }

abbrev smart_config : RocketSmartConfig
smart_config = record {
  username = codes "test-user";
  password = codes "test-password";
  path = codes "/config";
  hosts = entry_host ∷ [];
}

smart_config-IsSmart : IsSmart smart_config
unfolding contains
smart_config-IsSmart = record {
  some_hosts = omega arith;
  few_hosts = omega arith;
  are_hosts = (
    record {
      named = omega arith;
      name_len = omega arith;
      name_clean = refl;
      port_set = omega arith;
      port_bound = omega arith;
      flag_bound = omega arith;
      delay_bound = omega arith;
    },
    tt,
  );
  path_rooted = refl;
  path_len = omega arith;
  path_no_return = refl;
  path_no_feed = refl;
  username_len = omega arith;
  password_len = omega arith;
}

texts : AreTexts ascii_only smart_config
texts = (refl, refl, refl, (refl, tt))

payload-IsBytes : IsBytes (payload smart_config)
unfolding encode
payload-IsBytes = omega arith

payload_len : length (payload smart_config) ≡ 84
unfolding encode
payload_len = refl

packable : IsPackable ascii_only 33 (array (cons (config_value smart_config) nil))
packable = ground arith

read_levels-encode_example :
    read_levels ascii_only 33 (encode (array (cons (config_value smart_config) nil)) ++ (7 ∷ []))
    ≡ ok (array (cons (config_value smart_config) nil), 7 ∷ [])
read_levels-encode_example =
    read_levels-encode ascii_only 33 (array (cons (config_value smart_config) nil)) (7 ∷ [])
      packable

unpacked : unpack ascii_only no_zlib false (payload smart_config) ≡ ok (payload smart_config)
unfolding unpack
unpacked = refl

abbrev link_decoded : Str → Result RocketSmartConfig ImportError
link_decoded =
    decode_rocket_smart_link ascii_only no_zlib
      (λ s. some (record { scheme = codes "https"; has_host = true; path = codes "/i/" ++ s }))
      (λ s. some (envelope true false 19 (payload smart_config))) (λ s. none)

decode_envelope-envelope_example :
    decode_envelope ascii_only no_zlib (envelope true false 19 (payload smart_config))
    ≡ ok smart_config
decode_envelope-envelope_example =
    decode_envelope-envelope ascii_only ascii_only_lem no_zlib smart_config true false 19
      (payload smart_config) smart_config-IsSmart texts (omega arith) payload-IsBytes
      (omega (arith, payload_len)) (omega (arith, payload_len)) unpacked

link_opened : link_decoded (codes "x%2B") ≡ ok smart_config
unfolding decode_rocket_smart_link decode_percent percent_bytes to_digit trim trim_start_matches
    trim_end_matches is_whitespace str_len utf8_char eq_bytes
link_opened = decode_envelope-envelope_example

decode_rocket_smart_link-IsSmart_example : IsSmart smart_config
decode_rocket_smart_link-IsSmart_example =
    decode_rocket_smart_link-IsSmart ascii_only no_zlib
      (λ s. some (record { scheme = codes "https"; has_host = true; path = codes "/i/" ++ s }))
      (λ s. some (envelope true false 19 (payload smart_config))) (λ s. none) (codes "x%2B")
      smart_config link_opened

-- A signed integer of one byte, - 33, is read without its sign.
signed_byte : read_levels ascii_only 33 (0xd0 ∷ 0xdf ∷ []) ≡ ok (int (pos 223), [])
unfolding read_levels on_tag
signed_byte = refl

-- The number that the test of smart_link.rs packs as an extension.
extension_byte :
    read_levels ascii_only 33 (0xd4 ∷ 16 ∷ 0 ∷ 0xc4 ∷ 1 ∷ 80 ∷ []) ≡ ok (int (pos 80), [])
unfolding read_levels on_tag
extension_byte = refl
