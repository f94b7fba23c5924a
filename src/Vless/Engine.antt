-- ===== src/Vless/Engine.antt =====
-- crates/vless/src/lib.rs: the configuration of Xray and of sing-box for a profile.
pub mod Outbound
pub mod Carried
pub mod Secured
pub mod Agree
use Prim.Native.String.{String}
use easy_connection.Prelude.{
  ℕ, Bool, true, false, not, ◌||◌, ◌&&◌, Option, none, some, List, [], ◌∷◌, ◌++◌, is_empty,
  eq_bytes, if◌then◌else◌, unwrap_or, Result, ok, err, ◌>>=◌, ◌>>◌, fail_if, ok_or,
}
use easy_connection.Prelude.Text.{Str, codes, eq_ignore_ascii_case}
use easy_connection.Prelude.Json.{
  Value, bool, number, string, array, object, Values, nil, cons, Members, end, member, insert,
  strings,
}
use easy_connection.Config.Model.{VlessSettings, ConnectionConfig}
use easy_connection.Vless.Names.{
  VlessError, config, settings_of, effective_network, effective_security, xray_network, fingerprint,
  named,
}

-- A text under a key.
abbrev pub text : String → Str → Members → Members
text key s ms = member (codes key) (string s) ms

abbrev pub path_of : VlessSettings → Str
path_of v = unwrap_or v.path (codes "/")

abbrev pub host_of : VlessSettings → Str
host_of v = unwrap_or v.host []

abbrev pub server_name : ConnectionConfig → Str
server_name cfg = unwrap_or cfg.tls.sni cfg.host

abbrev pub sets_flow : Str → Bool
sets_flow flow = not (is_empty flow) && not (named flow (codes "none" ∷ []))

abbrev pub no_key : VlessError
no_key = config (codes "Reality public key is missing")

unfoldable pub add_xray_transport : Members → Str → VlessSettings → Members
unfolding insert
add_xray_transport stream network v =
    if eq_bytes network (codes "ws")
    then insert (codes "wsSettings")
        (object (text "path" (path_of v) (text "host" (host_of v) end))) stream
    else if eq_bytes network (codes "grpc")
    then insert (codes "grpcSettings")
        (object (text "serviceName" (unwrap_or v.grpc_service_name []) end)) stream
    else if eq_bytes network (codes "httpupgrade")
    then insert (codes "httpupgradeSettings")
        (object (text "path" (path_of v) (text "host" (host_of v) end))) stream
    else if eq_bytes network (codes "xhttp")
    then insert (codes "xhttpSettings")
        (object (
          text "path" (path_of v)
            (text "host" (host_of v) (text "mode" (unwrap_or v.xhttp_mode []) end))))
        stream
    else stream

unfoldable pub xray_tls_settings : ConnectionConfig → Value
xray_tls_settings cfg = object (
    text "serverName" (server_name cfg) (
      member (codes "allowInsecure") (bool (not cfg.tls.verify)) (
        member (codes "alpn") (array (strings cfg.tls.alpn))
          (text "fingerprint" (fingerprint cfg.tls.fingerprint) end))))

unfoldable pub xray_reality_settings : ConnectionConfig → VlessSettings → Result Value VlessError
xray_reality_settings cfg v = do
  key ← ok_or v.reality_public_key no_key
  ok (
      object (
        text "serverName" (server_name cfg) (
          text "fingerprint" (fingerprint cfg.tls.fingerprint) (
            text "password" key (
              text "shortId" (unwrap_or v.reality_short_id [])
                (text "spiderX" (unwrap_or v.spider_x (codes "/")) end))))))

abbrev pub add_xray_security :
    ConnectionConfig → VlessSettings → Str → Members → Result Members VlessError
add_xray_security cfg v security stream =
    let reality =
      xray_reality_settings cfg v >>= λ r. ok (insert (codes "realitySettings") r stream) in
    if eq_bytes security (codes "tls")
    then ok (insert (codes "tlsSettings") (xray_tls_settings cfg) stream)
    else if eq_bytes security (codes "reality")
    then reality
    else ok stream

abbrev pub xray_settings : ConnectionConfig → VlessSettings → Members
xray_settings cfg v =
    let base = text "address" cfg.host (
      member (codes "port") (number cfg.port) (
        text "id" v.uuid (
          text "encryption" (if is_empty v.encryption then codes "none" else v.encryption) end))) in
    if sets_flow v.flow then insert (codes "flow") (string v.flow) base else base

abbrev pub xray_inbound : ℕ → Value
xray_inbound socks_port = object (
    text "listen" (codes "127.0.0.1") (
      member (codes "port") (number socks_port) (
        text "protocol" (codes "socks") (
          member (codes "settings")
            (object (text "auth" (codes "noauth") (member (codes "udp") (bool false) end))) end))))

abbrev pub one : Value → Value
one v = array (cons v nil)

abbrev pub xray_value : ConnectionConfig → ℕ → VlessSettings → Members → Value
xray_value cfg socks_port v stream = object (
    member (codes "log") (object (text "loglevel" (codes "warning") end)) (
      member (codes "inbounds") (one (xray_inbound socks_port)) (
        member (codes "outbounds")
          (one (
            object (
              text "tag" (codes "vless-out") (
                text "protocol" (codes "vless") (
                  member (codes "settings") (object (xray_settings cfg v))
                    (member (codes "streamSettings") (object stream) end))))))
          end)))

-- For a network and a security.
unfoldable pub xray_of : ConnectionConfig → ℕ → VlessSettings → Str → Str → Result Value VlessError
unfolding add_xray_transport xray_tls_settings xray_reality_settings insert
xray_of cfg socks_port v network security = do
  let methods = text "method" (xray_network network) (text "security" security end)
  stream ← add_xray_security cfg v security (add_xray_transport methods network v)
  ok (xray_value cfg socks_port v stream)

unfoldable pub build_xray_config : ConnectionConfig → ℕ → Result Value VlessError
build_xray_config cfg socks_port = do
  v ← settings_of cfg
  xray_of cfg socks_port v (effective_network cfg v.network) (effective_security cfg v.security)

abbrev pub add_utls : Str → Members → Members
add_utls fp tls =
    if is_empty fp
    then tls
    else insert (codes "utls")
        (object (member (codes "enabled") (bool true) (text "fingerprint" fp end))) tls

unfoldable pub sing_box_tls_settings :
    ConnectionConfig → VlessSettings → Str → Result Value VlessError
unfolding insert
sing_box_tls_settings cfg v security =
    let base = member (codes "enabled") (bool true) (
      text "server_name" (server_name cfg) (
        member (codes "insecure") (bool (not cfg.tls.verify))
          (member (codes "alpn") (array (strings cfg.tls.alpn)) end))) in
    let tls = add_utls (fingerprint cfg.tls.fingerprint) base in
    let reality = ok_or v.reality_public_key no_key >>= λ key. ok (
      object (
        insert (codes "reality")
          (object (
            member (codes "enabled") (bool true)
              (text "public_key" key (text "short_id" (unwrap_or v.reality_short_id []) end))))
          tls)) in
    if eq_bytes security (codes "reality") then reality else ok (object tls)

abbrev pub with_host : Option Str → Members → Members
with_host none ms = ms
with_host (some host) ms = insert (codes "headers") (object (text "Host" host end)) ms

unfoldable pub sing_box_transport : Str → VlessSettings → Result Value VlessError
unfolding insert
sing_box_transport network v =
    if eq_bytes network (codes "ws")
    then ok (object (with_host v.host (text "type" (codes "ws") (text "path" (path_of v) end))))
    else if eq_bytes network (codes "grpc")
    then ok (
        object
          (text "type" (codes "grpc") (text "service_name" (unwrap_or v.grpc_service_name []) end)))
    else if eq_bytes network (codes "httpupgrade")
    then ok (
        object (
          text "type" (codes "httpupgrade")
            (text "path" (path_of v) (text "host" (host_of v) end))))
    else err (config (codes "sing-box transport `" ++ (network ++ codes "` is not supported")))

abbrev pub sing_box_tls :
    ConnectionConfig → VlessSettings → Str → Members → Result Members VlessError
sing_box_tls cfg v security ms =
    let tls = sing_box_tls_settings cfg v security >>= λ t. ok (insert (codes "tls") t ms) in
    if eq_bytes security (codes "none") then ok ms else tls

abbrev pub sing_box_over : Str → VlessSettings → Members → Result Members VlessError
sing_box_over network v ms =
    let over = sing_box_transport network v >>= λ t. ok (insert (codes "transport") t ms) in
    if eq_bytes network (codes "tcp") then ok ms else over

abbrev pub sing_box_base : ConnectionConfig → VlessSettings → Members
sing_box_base cfg v =
    let base = text "type" (codes "vless") (
      text "tag" (codes "vless-out") (
        text "server" cfg.host (
          member (codes "server_port") (number cfg.port)
            (text "uuid" v.uuid (text "network" (codes "tcp") end))))) in
    if sets_flow v.flow then insert (codes "flow") (string v.flow) base else base

abbrev pub sing_box_inbound : ℕ → Value
sing_box_inbound socks_port = object (
    text "type" (codes "socks") (
      text "tag" (codes "socks-in")
        (text "listen" (codes "127.0.0.1") (member (codes "listen_port") (number socks_port) end))))

abbrev pub sing_box_value : ℕ → Members → Value
sing_box_value socks_port outbound = object (
    member (codes "log") (object (text "level" (codes "warn") end)) (
      member (codes "inbounds") (one (sing_box_inbound socks_port)) (
        member (codes "outbounds") (one (object outbound))
          (member (codes "route") (object (text "final" (codes "vless-out") end)) end))))

-- For a network and a security.
unfoldable pub sing_box_of :
    ConnectionConfig → ℕ → VlessSettings → Str → Str → Result Value VlessError
unfolding sing_box_tls_settings sing_box_transport insert
sing_box_of cfg socks_port v network security = do
  fail_if (eq_bytes network (codes "xhttp"))
      (config (codes "sing-box does not support the XHTTP V2Ray transport; select Xray"))
  fail_if (eq_ignore_ascii_case v.flow (codes "xtls-rprx-vision-udp443"))
      (config (codes "sing-box does not support xtls-rprx-vision-udp443; select Xray"))
  secured ← sing_box_tls cfg v security (sing_box_base cfg v)
  outbound ← sing_box_over network v secured
  ok (sing_box_value socks_port outbound)

unfoldable pub build_sing_box_config : ConnectionConfig → ℕ → Result Value VlessError
build_sing_box_config cfg socks_port = do
  v ← settings_of cfg
  sing_box_of cfg socks_port v (effective_network cfg v.network) (effective_security cfg v.security)
