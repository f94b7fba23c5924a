-- ===== src/Config/Model.antt =====
-- crates/config/src/model.rs: what the check of a profile and the tunnel manager read of it.
use easy_connection.Prelude.{ℕ, Bool, Option, List}
use easy_connection.Prelude.Text.{Str}

pub data Protocol : Type 0 where
  ssh socks shadowsocks vless : Protocol

pub record VlessSettings : Type 0 where
  pub uuid : Str
  pub encryption : Str
  pub flow : Str
  pub network : Str
  pub security : Str
  pub host : Option Str
  pub path : Option Str
  pub reality_public_key : Option Str
  pub reality_short_id : Option Str
  pub grpc_service_name : Option Str
  pub xhttp_mode : Option Str
  pub spider_x : Option Str

pub data ProtocolSettings : Type 0 where
  ssh_settings : ProtocolSettings
  socks_settings : ProtocolSettings
  shadowsocks_settings : Str → ProtocolSettings
  vless_settings : VlessSettings → ProtocolSettings

pub data TlsFingerprintProfile : Type 0 where
  default_profile chrome firefox safari custom_profile : TlsFingerprintProfile

pub record TlsSettings : Type 0 where
  pub sni : Option Str
  pub alpn : List Str
  pub verify : Bool
  pub fingerprint : TlsFingerprintProfile
  pub path : Option Str
  pub host : Option Str

pub record ProxyShareSettings : Type 0 where
  pub socks_port : ℕ
  pub http_proxy_port : ℕ
  pub listen : Str

pub data Transport : Type 0 where
  direct : Transport
  tls_transport : Transport
  web_socket : Transport
  wss : Transport
  http_upgrade : Transport

pub data DnsMode : Type 0 where
  system_mode : DnsMode
  tunnel_mode : DnsMode
  custom_mode : DnsMode
  remote_mode : DnsMode

pub data RoutingMode : Type 0 where
  proxy_only : RoutingMode
  full_tunnel : RoutingMode
  split_tunnel : RoutingMode

pub data DnsOverTcp : Type 0 where
  dns_auto : DnsOverTcp
  dns_on : DnsOverTcp
  dns_off : DnsOverTcp

pub record DnsSettings : Type 0 where
  pub mode : DnsMode
  pub servers : List Str
  pub dns_over_tcp : DnsOverTcp

pub record UdpgwSettings : Type 0 where
  pub enabled : Bool
  pub host : Str
  pub port : ℕ
  pub transparent_dns : Bool

pub record ConnectionConfig : Type 0 where
  pub id : ℕ  -- Uuid
  pub name : Str
  pub protocol : Protocol
  pub transport : Transport
  pub host : Str
  pub port : ℕ
  pub username : Option Str
  pub dns : DnsSettings
  pub ipv6 : Bool
  pub mtu : Option ℕ
  pub routing_mode : RoutingMode
  pub udpgw : UdpgwSettings
  pub tls : TlsSettings
  pub proxy : ProxyShareSettings
  pub settings : ProtocolSettings
  pub bypass_private_networks : Bool
  pub kill_switch : Bool
  pub split_bypass_cidrs : List Str
  pub split_bypass_domains : List Str
  pub smart_link_secret : Option Str  -- SecretRef
