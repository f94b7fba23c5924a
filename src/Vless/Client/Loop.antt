-- ===== src/Vless/Client/Loop.antt =====
-- The client of the engine against a SOCKS5 server: the one of crates/socks.
use easy_connection.Prelude.{
  ℕ, ◌≤◌, ◌<◌, ◌≡◌, ◌∙◌, refl, ap, arith, Bool, true, Option, none, some, [], ◌∷◌, ◌++◌, length,
  Bytes, replicate, eq_bytes, Result, ok, err,
}
use easy_connection.Prelude.Net.{IpAddr}
use easy_connection.Prelude.Io.{Target, Conn, fresh, ◌>>=◌, pure}
use easy_connection.Prelude.Io.Steps.{read_then}
use easy_connection.Socks.Socks5.{SocksError, handle_socks5, auth_none}
use easy_connection.Socks.Socks5.Accept.{hello, request, reply_code, named, handle_socks5_serves}
use easy_connection.Vless.Client.{
  ClientError, io, failed, destination, or_throw, address_len, on_reply, read_reply, send_request,
  on_greeting, socks_connect,
}

-- What a server writes for a greeting and a request: the reply has an IPv4 address of zeros.
abbrev pub reply : ℕ → Bytes
reply code = 5 ∷ code ∷ 0 ∷ 1 ∷ replicate 6 0

abbrev conn : Bytes → Bytes → Conn
conn input out = record { incoming = input; outgoing = out; dialed = [] }

-- What the client makes of the result of the connector: an error has its code, and the address
-- behind it is not read.
abbrev pub outcome :
    Result (Unit {0}) SocksError → Bytes → Bytes → Result (Unit {0}) ClientError × Conn
outcome (ok _) payload out = (ok tt, conn payload out)
outcome (err e) payload out = (err (failed 1), conn (replicate 6 0 ++ payload) out)

read_reply-reply :
    (r : Result (Unit {0}) SocksError) (payload out : Bytes)
    → read_reply (conn (reply (reply_code r) ++ payload) out) ≡ outcome r payload out
unfolding on_reply address_len
read_reply-reply (ok _) payload out =
    read_then io 4 on_reply (5 ∷ 0 ∷ 0 ∷ 1 ∷ []) (replicate 6 0 ++ payload) out [] refl
    ∙ read_then io 6 (λ bound. pure tt) (replicate 6 0) payload out [] refl
read_reply-reply (err e) payload out =
    read_then io 4 on_reply (5 ∷ 1 ∷ 0 ∷ 1 ∷ []) (replicate 6 0 ++ payload) out [] refl

-- A name that fits in the request.
abbrev pub IsName : (Bytes → Option IpAddr) → Bytes → Type 0
IsName parse host = (parse host ≡ none) × (1 ≤ length host) × (length host ≤ 255)

module _ (parse : Bytes → Option IpAddr) where
  named_destination :
      (host : Bytes)
      → IsName parse host
      → destination host (parse host) ≡ some (3 ∷ length host ∷ host)
  named_destination [] (p, s, l) = absurd (omega (arith, s))
  named_destination (b ∷ host) (p, s, l) = rw p (ground (arith, l))

  client_connects :
      (r : Result (Unit {0}) SocksError) (host : Bytes) (port : ℕ) (payload : Bytes)
      → IsName parse host
      → socks_connect parse host port (fresh (5 ∷ 0 ∷ (reply (reply_code r) ++ payload)))
        ≡ outcome r payload (hello none (request host port []))
  unfolding socks_connect on_greeting eq_bytes
  client_connects r host port payload h =
      read_then io 2 (on_greeting parse host port) (5 ∷ 0 ∷ []) (reply (reply_code r) ++ payload)
        (5 ∷ 1 ∷ 0 ∷ []) [] refl
      ∙ ap
          (λ d.
            (or_throw d >>= send_request port)
              (conn (reply (reply_code r) ++ payload) (5 ∷ 1 ∷ 0 ∷ [])))
          (named_destination host h)
      ∙ read_reply-reply r payload (hello none (request host port []))

module _ (parse : Bytes → Option IpAddr) (connect : Target → Result (Unit {0}) SocksError)
    (show_v6 : Bytes → Bytes) (is_utf8 : Bytes → Bool) where
  -- A server of crates/socks that asks for no credentials, and has read what the client writes.
  abbrev pub serve : Bytes → ℕ → Result (Unit {0}) SocksError × Conn
  serve host port =
      handle_socks5 connect show_v6 is_utf8 auth_none (fresh (hello none (request host port [])))

  -- For a host by name of 1 to 255 bytes, the client of the engine and the SOCKS5 server of the
  -- program agree: the client writes what the server reads, the server dials that host and port
  -- alone, and from what the server writes the client learns whether that has succeeded; after a
  -- success it has left what follows the reply.
  pub socks_connect-handle_socks5 :
      (host : Bytes) (port : ℕ) (payload : Bytes)
      → IsName parse host
      → is_utf8 host ≡ true
      → port < 65536
      → ((serve host port).1.dialed ≡ named host port ∷ [])
        × (socks_connect parse host port (fresh ((serve host port).1.outgoing ++ payload))
            ≡ outcome (connect (named host port)) payload (hello none (request host port [])))
  socks_connect-handle_socks5 host port payload n u p =
      let s = handle_socks5_serves connect show_v6 is_utf8 none host [] port u p in
      (
        ap (λ r. r.1.dialed) s,
        ap (λ r. socks_connect parse host port (fresh (r.1.outgoing ++ payload))) s
            ∙ client_connects parse (connect (named host port)) host port payload n,
      )
