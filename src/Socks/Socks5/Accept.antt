-- ===== src/Socks/Socks5/Accept.antt =====
-- A client that follows the protocol is served.
use easy_connection.Prelude.{
  ℕ, ◌≡◌, ◌<◌, refl, ◌∙◌, not, if◌then◌else◌, ◌==◌, arith, Bool, true, Option, none, some, List, [],
  ◌∷◌, ◌++◌, Bytes, length, u16_to_be, eq_bytes, eq_bytes_iff, contains, replicate, Result, ok, err,
}
use easy_connection.Prelude.Io.{Target, Conn, Action, ◌>>=◌, pure, throw, read_exact, fresh}
use easy_connection.Prelude.Io.Steps.{bind_to, read_then, read_exact_front}
use easy_connection.Socks.Socks5.{
  protocol, SocksError, io, Socks5Auth, auth_none, auth_required_by, at, port_of, select_method,
  credentials_match, check_password, answer_password, read_string, answer_greeting, greet,
  read_address, read_domain, check_command, read_request, write_reply, dial, answer_dial,
  open_upstream, handle_socks5,
}

-- What the server was started with: no credentials, or a name and a password.
abbrev pub auth_of : Option (Bytes × Bytes) → Socks5Auth
auth_of none = auth_none
auth_of (some (u, p)) = auth_required_by u p

-- The greeting of a client, and the answers to it.
abbrev pub hello : Option (Bytes × Bytes) → Bytes → Bytes
hello none rest = 0x05 ∷ 1 ∷ 0x00 ∷ rest
hello (some (u, p)) rest = 0x05 ∷ 1 ∷ 0x02 ∷ 0x01 ∷ length u ∷ (u ++ (length p ∷ (p ++ rest)))

abbrev pub welcome : Option (Bytes × Bytes) → Bytes
welcome none = 0x05 ∷ 0x00 ∷ []
welcome (some _) = 0x05 ∷ 0x02 ∷ 0x01 ∷ 0x00 ∷ []

-- The request to connect to a host by its name.
abbrev pub request : Bytes → ℕ → Bytes → Bytes
request host port rest =
    0x05 ∷ 0x01 ∷ 0x00 ∷ 0x03 ∷ length host ∷ (host ++ (u16_to_be port ++ rest))

abbrev pub reply_code : Result (Unit {0}) SocksError → ℕ
reply_code (ok _) = 0x00
reply_code (err _) = 0x01

abbrev pub named : Bytes → ℕ → Target
named host port = record { host = host; port = port }

abbrev conn : Bytes → Bytes → List Target → Conn
conn input out dialed = record { incoming = input; outgoing = out; dialed = dialed }

read_string_append :
    (b rest out : Bytes) (dialed : List Target)
    → read_string (conn (length b ∷ (b ++ rest)) out dialed) ≡ (ok b, conn rest out dialed)
unfolding read_string
read_string_append b rest out dialed =
    read_then io 1 (λ len. read_exact io (at len 0)) (length b ∷ []) (b ++ rest) out dialed refl
    ∙ read_exact_front io (length b) b rest out dialed refl

pub string_then :
    {A : Type 0} (f : Bytes → Action SocksError A) (b rest out : Bytes) (dialed : List Target)
    → (read_string >>= f) (conn (length b ∷ (b ++ rest)) out dialed) ≡ f b (conn rest out dialed)
string_then f b rest out dialed =
    bind_to read_string f (conn (length b ∷ (b ++ rest)) out dialed) b (conn rest out dialed)
      (read_string_append b rest out dialed)

eq_bytes_refl : (b : Bytes) → eq_bytes b b ≡ true
eq_bytes_refl b = (eq_bytes_iff b b).1 refl

check_password_append :
    (u p rest out : Bytes) (ver : ℕ) (dialed : List Target)
    → check_password
        (auth_required_by u p)
        (conn (ver ∷ length u ∷ (u ++ (length p ∷ (p ++ rest)))) out dialed)
      ≡ (ok tt, conn rest (out ++ (0x01 ∷ 0x00 ∷ [])) dialed)
unfolding check_password auth_required_by answer_password credentials_match
check_password_append u p rest out ver dialed =
    read_then io 1 (λ v. read_string >>= left) (ver ∷ [])
      (length u ∷ (u ++ (length p ∷ (p ++ rest)))) out dialed refl
    ∙ string_then left u (length p ∷ (p ++ rest)) out dialed
    ∙ string_then (last u) p rest out dialed
    ∙ rw (eq_bytes_refl u, eq_bytes_refl p) refl
  where
    last : Bytes → Bytes → Action SocksError (Unit {0})
    last uname pass = answer_password (credentials_match (auth_required_by u p) uname pass)

    left : Bytes → Action SocksError (Unit {0})
    left uname = read_string >>= last uname

-- A greeting of one method.
greet_one :
    (auth : Socks5Auth) (method : ℕ) (rest : Bytes)
    → greet auth (conn (0x05 ∷ 1 ∷ method ∷ rest) [] [])
      ≡ answer_greeting auth (method ∷ []) (conn rest [] [])
unfolding greet
greet_one auth method rest =
    read_then io 2 greeted (0x05 ∷ 1 ∷ []) (method ∷ rest) [] [] refl
    ∙ read_then io 1 (answer_greeting auth) (method ∷ []) rest [] [] refl
  where
    greeted : Bytes → Action SocksError (Unit {0})
    greeted header =
        if not (at header 0 == 0x05)
        then throw protocol
        else read_exact io (at header 1) >>= answer_greeting auth

greet-hello :
    (login : Option (Bytes × Bytes)) (rest : Bytes)
    → greet (auth_of login) (conn (hello login rest) [] []) ≡ (ok tt, conn rest (welcome login) [])
unfolding answer_greeting select_method auth_none auth_required_by contains
greet-hello none rest = greet_one auth_none 0x00 rest ∙ refl
greet-hello (some (u, p)) rest =
    greet_one (auth_required_by u p) 0x02 (0x01 ∷ length u ∷ (u ++ (length p ∷ (p ++ rest))))
    ∙ check_password_append u p rest (0x05 ∷ 0x02 ∷ []) 0x01 []

pub u16_back : (port : ℕ) → port < 65536 → port_of (u16_to_be port) ≡ port
u16_back port h = omega arith

module _ (connect : Target → Result (Unit {0}) SocksError) (show_v6 : Bytes → Bytes)
    (is_utf8 : Bytes → Bool) where
  read_request-request :
      (host rest out : Bytes) (port : ℕ)
      → is_utf8 host ≡ true
      → port < 65536
      → read_request connect show_v6 is_utf8 (conn (request host port rest) out [])
        ≡ (ok (named host port), conn rest out [])
  unfolding read_request read_address read_domain check_command
  read_request-request host rest out port h b =
      read_then io 4 requested (0x05 ∷ 0x01 ∷ 0x00 ∷ 0x03 ∷ [])
        (length host ∷ (host ++ (u16_to_be port ++ rest))) out [] refl
      ∙ bind_to domain (check_command connect show_v6 is_utf8 0x01)
          (conn (length host ∷ (host ++ (u16_to_be port ++ rest))) out []) (named host port)
          (conn rest out []) domain_read
    where
      domain : Action SocksError Target
      domain = read_domain connect show_v6 is_utf8

      requested : Bytes → Action SocksError Target
      requested req =
          if not (at req 0 == 0x05)
          then throw protocol
          else read_address connect show_v6 is_utf8 (at req 3)
            >>= check_command connect show_v6 is_utf8 (at req 1)

      domain_port : Bytes → Bytes → Action SocksError Target
      domain_port name p = if is_utf8 name then pure (named name (port_of p)) else throw protocol

      domain_read :
          domain (conn (length host ∷ (host ++ (u16_to_be port ++ rest))) out [])
          ≡ (ok (named host port), conn rest out [])
      domain_read =
          string_then (λ name. read_exact io 2 >>= domain_port name) host (u16_to_be port ++ rest)
            out []
          ∙ read_then io 2 (domain_port host) (u16_to_be port) rest out [] refl
          ∙ rw (h, u16_back port b) refl

  answer_dial_lem :
      (r : Result (Unit {0}) SocksError) (rest out : Bytes) (dialed : List Target)
      → answer_dial connect show_v6 is_utf8 r (conn rest out dialed)
        ≡ (r, conn rest (out ++ (0x05 ∷ reply_code r ∷ 0x00 ∷ 0x01 ∷ replicate 6 0)) dialed)
  unfolding answer_dial write_reply
  answer_dial_lem (ok _) rest out dialed = refl
  answer_dial_lem (err e) rest out dialed = refl

  -- A client that greets with what the server asks for and requests a connection to a host by
  -- name is served: that host and port alone are dialed, the greeting is accepted, the reply says
  -- whether the connector succeeded, and what follows the request is left for the relay.
  pub handle_socks5_serves :
      (login : Option (Bytes × Bytes)) (host rest : Bytes) (port : ℕ)
      → is_utf8 host ≡ true
      → port < 65536
      → let target = named host port in
        handle_socks5 connect show_v6 is_utf8
          (auth_of login)
          (fresh (hello login (request host port rest)))
        ≡ (
          connect target,
          record {
            incoming = rest;
            outgoing =
                welcome login ++ (0x05 ∷ reply_code (connect target) ∷ 0x00 ∷ 0x01 ∷ replicate 6 0);
            dialed = target ∷ [];
          },
        )
  unfolding handle_socks5 open_upstream dial
  handle_socks5_serves login host rest port h b =
      bind_to (greet (auth_of login))
        (λ _. read_request connect show_v6 is_utf8 >>= open_upstream connect show_v6 is_utf8)
        (fresh (hello login (request host port rest))) tt
        (conn (request host port rest) (welcome login) [])
        (greet-hello login (request host port rest))
      ∙ bind_to (read_request connect show_v6 is_utf8) (open_upstream connect show_v6 is_utf8)
          (conn (request host port rest) (welcome login) []) (named host port)
          (conn rest (welcome login) []) (read_request-request host rest (welcome login) port h b)
      ∙ answer_dial_lem (connect (named host port)) rest (welcome login) (named host port ∷ [])
