-- ===== src/Helper/Spec.antt =====
-- crates/tun/src/ipc.rs: requests, responses, and the check of a specification.
pub mod Valid
use easy_connection.Prelude.{
  ℕ, ◌≤◌, ◌<◌, ◌≡◌, ◌≢◌, ◌↔◌, refl, arith, Bool, true, not, ◌||◌, Option, none, some, List, ltb,
  leb, ◌==◌, is_empty, if◌then◌else◌, eq_bytes, eq_bytes_iff, Result, ok, err, ◌>>=◌, ◌>>◌, fail_if,
  is_ok, [],
}
use easy_connection.Prelude.Net.{IpAddr, IpNet}
use easy_connection.Prelude.Text.{Str, within}
use easy_connection.Nft.{tun_name}

abbrev pub ipc_version : ℕ
ipc_version = 1

abbrev pub default_transproxy_port : ℕ
default_transproxy_port = 13450

abbrev pub default_dns_port : ℕ
default_dns_port = 13453

pub record ApplySpec : Type 0 where
  pub session_id : ℕ  -- Uuid
  pub tun_name : Str
  pub tun_addr : IpAddr
  pub tun_prefix : ℕ
  pub mtu : ℕ
  pub server_ips : List IpAddr
  pub bypass_private : Bool
  pub extra_bypass : List IpNet
  pub ipv6 : Bool
  pub kill_switch : Bool
  pub transproxy_port : ℕ
  pub dns_port : ℕ
  pub dns_mode : Str
  pub dns_servers : List Str
  pub udp_port : ℕ

pub data HelperRequest : Type 0 where
  ping : ℕ → HelperRequest
  cleanup : HelperRequest
  apply : ApplySpec → HelperRequest
  teardown : HelperRequest
  emergency_restore : HelperRequest

-- The message of a success or an error is left out.
pub data HelperResponse : Type 0 where
  pong : ℕ → ℕ → HelperResponse
  done : Option Str → HelperResponse
  error : HelperResponse

pub data SpecError : Type 0 where
  refused_tun_name mtu_range invalid_prefix no_server_ips zero_port : SpecError

unfoldable pub validate : ApplySpec → Result (Unit {0}) SpecError
validate s = do
  fail_if (not (eq_bytes s.tun_name tun_name)) refused_tun_name
  fail_if (not (within 576 9000 s.mtu)) mtu_range
  fail_if (ltb 32 s.tun_prefix) invalid_prefix
  fail_if (is_empty s.server_ips) no_server_ips
  fail_if (s.transproxy_port == 0 || s.dns_port == 0) zero_port
  ok tt

-- What the helper can rely on in a specification that it accepts.
pub record IsValid (s : ApplySpec) : Type 0 where
  pub our_tun : s.tun_name ≡ tun_name
  pub mtu_least : 576 ≤ s.mtu
  pub mtu_most : s.mtu ≤ 9000
  pub prefix_most : s.tun_prefix ≤ 32
  pub has_server : s.server_ips ≢ []
  pub tcp_port : s.transproxy_port ≢ 0
  pub dns_set : s.dns_port ≢ 0
