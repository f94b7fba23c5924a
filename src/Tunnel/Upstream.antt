-- ===== src/Tunnel/Upstream.antt =====
-- crates/tunnel/src/manager.rs: `open_upstream`, over what the protocols' crates answer.
use easy_connection.Prelude.{ℕ, Option, none, some, ◌++◌, Result, ok, err, ◌>>=◌, ◌>>◌}
use easy_connection.Prelude.Text.{Str, codes}
use easy_connection.Config.Model.{
  Protocol, ssh, socks, shadowsocks, vless, Transport, direct, ConnectionConfig,
}
use easy_connection.Tunnel.State.{TunnelError, unsupported_protocol, ssh_error, other}
use easy_connection.Tunnel.Full.{map_err}

-- The end that an SSH session has connected to.
pub record SshSession : Type 0 where
  pub host : Str
  pub port : ℕ

-- The addresses that the local proxies are bound to.
pub record ProxyHandles : Type 0 where
  pub socks_endpoint : Str
  pub http_endpoint : Str

pub record Dials : Type 0 where
  pub get_secret : Str → Result Str Str
  pub connect_smart_profile : ConnectionConfig → Str → Result SshSession Str
  pub ssh_options : ConnectionConfig → Result (Unit {0}) Str
  pub connect_ssh : ConnectionConfig → Result SshSession Str
  pub dial : ConnectionConfig → Result (Unit {0}) Str
  pub connect_over_transport : ConnectionConfig → Result SshSession Str
  pub shadowsocks_connector : ConnectionConfig → Result (Unit {0}) Str
  pub start_vless : ConnectionConfig → Result (Unit {0}) Str
  pub start_proxies : Str → ℕ → ℕ → Result ProxyHandles Str

abbrev pub prefixed : Str → Str → TunnelError
prefixed what e = other (what ++ e)

-- An SSH session over the transport of the profile.
unfoldable pub open_transport : Dials → ConnectionConfig → Transport → Result SshSession TunnelError
open_transport dials profile direct = map_err ssh_error (dials.connect_ssh profile)
open_transport dials profile _ = do
  map_err (prefixed (codes "SSH transport: ")) (dials.dial profile)
  map_err ssh_error (dials.connect_over_transport profile)

unfoldable pub open_ssh : Dials → ConnectionConfig → Option Str → Result SshSession TunnelError
unfolding open_transport
open_ssh dials profile (some link_ref) = do
  link ← map_err (prefixed (codes "Smart Config vault: ")) (dials.get_secret link_ref)
  map_err ssh_error (dials.connect_smart_profile profile link)
open_ssh dials profile none = do
  map_err ssh_error (dials.ssh_options profile)
  open_transport dials profile profile.transport

-- The session where the protocol is SSH.
unfoldable pub open_upstream :
    Dials → ConnectionConfig → Protocol → Result (Option SshSession) TunnelError
unfolding open_ssh
open_upstream dials profile ssh = do
  session ← open_ssh dials profile profile.smart_link_secret
  ok (some session)
open_upstream dials profile shadowsocks = do
  map_err other (dials.shadowsocks_connector profile)
  ok none
open_upstream dials profile vless = do map_err other (dials.start_vless profile); ok none
open_upstream dials profile socks =
    err (unsupported_protocol (codes "SOCKS is a local listener, not a remote protocol"))
