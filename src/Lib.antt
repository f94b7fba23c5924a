-- ===== src/Lib.antt =====
-- EasyConnection: a VPN client that carries the traffic of a machine through a tunnel. A privileged
-- helper sets up a TUN device, the nftables table that redirects traffic, and the resolver; the
-- unprivileged side opens the tunnel and serves what is redirected.
--
-- Prelude: lists and Boolean tests over the native numbers, results with bind (`?` is `do`), texts
-- as code points, addresses as octets, association lists, and actions on a connection, which read
-- from the bytes that arrive and write to the bytes that leave.
--
-- Udpgw (crates/udpgw): Udpgw/Proto is proto.rs, `encode_body`, `encode_frame`, `decode_body` on
-- bytes; a u8 or u16 is a number, split into bytes where the code splits it. Udpgw/Client is
-- client.rs: `Inner` is the record of the counter, the flows and the keys, with the frames that
-- were written, the DNS answers and the replies that left it; `send_udp`, the two halves of
-- `query_dns` around its wait, the loop body of the reader and the keepalive are functions on it,
-- and `Step` composes them in any order. The counter wraps at 2 ^ 16; `Step` hands out conids until
-- it would.
--
-- Dns (crates/dns): Dns/Cache is cache.rs, with the clock as an argument; Dns/Policy is policy.rs;
-- Dns/Exchange is `exchange_over_tcp` and Dns/Query `encode_query_a` of lib.rs.
--
-- Routing (crates/routing): Routing/Cidrs is cidrs.rs, Routing/Plan is `build_plan` and
-- Routing/Journal `apply_journal` and `restore_added` of apply.rs; what `ip route` answers is a
-- function of the route and of the table.
--
-- Nft (crates/nftables): `render_table` as rules with their text; Nft/Order reads a chain as
-- nftables does, the verdict of the first rule that matches.
--
-- Helper (services/privileged-helper, crates/tun/src/ipc.rs): Helper/Spec is the request and
-- `ApplySpec::validate`; Helper/System is what the helper changes in the system, one function per
-- function of main.rs, with the answers of the commands as an argument; Helper/Serve is
-- `authorized` and the requests of `handle_client`, and Helper/Serve/Clients the clients that are
-- connected, with `owns_session` of each. It uses the script of Nft, the journal of Routing and the
-- policy of Dns. A request is one step there; the interleaving of two requests inside
-- `apply_spec` is not followed.
--
-- Helper/Frame is crates/tun/src/frame.rs: what sendmsg and recvmsg answer is a list.
--
-- Tunnel (crates/tunnel): Tunnel/State is state.rs and error.rs; Tunnel/Servers, Tunnel/Full,
-- Tunnel/Start and Tunnel/Upstream are the functions of manager.rs that `connect` calls, and
-- Tunnel/Manager with Connect and Disconnect below it is `ConnectionManager`. The record `Dials` is what the
-- crates of the protocols answer, and `Calls` what sockets, names and the helper do; `Live` is what
-- runs outside of the manager. `connect` and `disconnect` are one step each, a round of the poller
-- is two, its read and its write, and in Tunnel/Manager/Rounds the steps come in any order. It builds the specification of Helper from the profile of Config and
-- the policy of Dns.
--
-- Socks (crates/socks): Socks/Socks5 is socks5.rs and Socks/Socks4 is socks4.rs with
-- `dispatch_socks` of server.rs, up to the relay: an action on the connection, which also keeps
-- the destinations that were dialed. The connector, the text of an IPv6 address and the test for
-- UTF-8 are parameters.
--
-- Shadowsocks (crates/shadowsocks): Shadowsocks/Addr is addr.rs and Shadowsocks/Aead is aead.rs,
-- with its `pump` in Shadowsocks/Pump, on the order in which `select!` takes its branches and with
-- the bytes that a dropped `read_chunk` had taken; the cipher, HKDF and MD5 are parameters.
--
-- Websocket (crates/websocket): Websocket/Frame is `write_frame` and `read_data_frame`,
-- Websocket/Upgrade and Websocket/Base64 the handshake of ws.rs, and Websocket/HttpUpgrade
-- http_upgrade.rs; SHA-1, `from_utf8_lossy` and the random keys are parameters.
--
-- Tls (crates/tls): Tls/Pool is pool.rs. A fill task is the place that `fill_one` has reached, and
-- each lock, each change of the counter and the dial are steps of their own; `dial` is a parameter.
-- A step starts no more tasks than a usize counts, since each one takes up memory.
--
-- Ssh (crates/ssh) is zones.rs: Ssh/Request writes a request, Ssh/Response reads the head of an
-- answer, Ssh/Chunked a body in chunks and Ssh/Zones the list of zones, and Ssh/Exchange joins them
-- to `fetch_zones` and `get_smart_config_body`, with the arithmetic of a release build on 64 bits.
-- What the network does up to the time limit, the readers of UTF-8, and the reader and printer of
-- serde_json are parameters.
--
-- Vless (crates/vless): Vless/Names and Vless/Engine are the configurations that lib.rs writes for
-- Xray and sing-box, as JSON values; Vless/Client is the choice of the engine and `socks_connect`.
-- The process of the engine is not modelled.
--
-- Config (crates/config): Config/Model is the part of the profile of model.rs that its check and
-- the manager read, and Config/Validate is validate.rs, one function per group of tests; what `IpAddr`, `IpNet` and
-- `Uuid` read is a parameter.
-- Config/MessagePack is the parser of smart_link.rs, with a writer of its own below it, and
-- Config/SmartLink the decoding of a link; URL, base64, zlib and the test for UTF-8 are parameters.
--
-- The loops are structural recursion or have fuel: `read_name`, an independent reader of DNS names,
-- one more than the number of labels; the five digits of a u16 and the
-- twenty of a usize; the limits that socks4.rs and
-- `read_headers` set themselves; the loops over chunks and frames, one more than there are;
-- `decode_chunked`, one more than there are bytes; and `evp_bytes_to_key`, as many rounds as the key has blocks of 16 bytes.
--
-- Not modelled: the relay and the CONNECT proxy, the TLS library, the process of
-- a VLESS engine, the SSH session, the decryption of Smart Config, the tasks that
-- pump between a transport and its pipe, the storage and import of profiles, the command line and the
-- desktop application; JSON, processes and sockets; and the text of messages.
pub mod Prelude
pub mod Udpgw
pub mod Dns
pub mod Routing
pub mod Nft
pub mod Helper
pub mod Socks
pub mod Config
pub mod Tunnel
pub mod Shadowsocks
pub mod Websocket
pub mod Tls
pub mod Ssh
pub mod Vless
