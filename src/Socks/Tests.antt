-- ===== src/Socks/Tests.antt =====
-- The theorems about the handshakes at concrete streams.
use easy_connection.Prelude.{
  ℕ, ◌≡◌, ◌≢◌, ◌∙◌, sym, ap, refl, arith, Bool, true, Option, some, [], ◌∷◌, Bytes, replicate,
  Result, ok,
}
use easy_connection.Prelude.Io.{Target, fresh}
use easy_connection.Prelude.Text.{codes}
use easy_connection.Socks.Socks5.{SocksError, auth_required_by, handle_socks5}
use easy_connection.Socks.Socks5.Auth.{GreetingSent, handle_socks5_authenticates}
use easy_connection.Socks.Socks5.Accept.{hello, request, named, handle_socks5_serves}
use easy_connection.Socks.Socks4.{handle_socks4}
use easy_connection.Socks.Socks4.Serve.{request4a, handle_socks4_serves}

-- A connector that always succeeds, and stand-ins for the texts.
abbrev connects : Target → Result (Unit {0}) SocksError
connects target = ok tt

abbrev show_v6 : Bytes → Bytes
show_v6 b = b

abbrev is_ascii : Bytes → Bool
is_ascii b = true

abbrev login : Option (Bytes × Bytes)
login = some (codes "me", codes "pw")

abbrev dialogue : Bytes
dialogue = hello login (request (codes "a.b") 443 (9 ∷ []))

handle_socks5_serves_example :
    handle_socks5 connects show_v6 is_ascii
      (auth_required_by (codes "me") (codes "pw"))
      (fresh dialogue)
    ≡ (
      ok tt,
      record {
        incoming = 9 ∷ [];
        outgoing = 0x05 ∷ 0x02 ∷ 0x01 ∷ 0x00 ∷ 0x05 ∷ 0x00 ∷ 0x00 ∷ 0x01 ∷ replicate 6 0;
        dialed = named (codes "a.b") 443 ∷ [];
      },
    )
handle_socks5_serves_example =
    handle_socks5_serves connects show_v6 is_ascii login (codes "a.b") (9 ∷ []) 443 refl
      (omega arith)

username_set : (auth_required_by (codes "me") (codes "pw")).username ≡ some (codes "me")
unfolding auth_required_by
username_set = refl

dialogue_dials :
    (handle_socks5 connects show_v6 is_ascii
      (auth_required_by (codes "me") (codes "pw"))
      (fresh dialogue)).1.dialed
    ≢ []
dialogue_dials h = absurd (cc (sym (ap (λ r. r.1.dialed) handle_socks5_serves_example) ∙ h))

handle_socks5_authenticates_example :
    GreetingSent (auth_required_by (codes "me") (codes "pw")) dialogue
handle_socks5_authenticates_example =
    handle_socks5_authenticates connects show_v6 is_ascii
      (auth_required_by (codes "me") (codes "pw")) (codes "me") (fresh dialogue) username_set
      dialogue_dials

handle_socks4_serves_example :
    handle_socks4 connects show_v6 is_ascii
      (fresh (request4a 443 1 (codes "me") (codes "a.b") (9 ∷ [])))
    ≡ (
      ok tt,
      record {
        incoming = 9 ∷ [];
        outgoing = 0x00 ∷ 0x5a ∷ replicate 6 0;
        dialed = named (codes "a.b") 443 ∷ [];
      },
    )
handle_socks4_serves_example =
    handle_socks4_serves connects show_v6 is_ascii 443 1 (codes "me") (codes "a.b") (9 ∷ [])
      (omega arith) (omega arith) (omega arith) (omega arith, (omega arith, tt)) (omega arith)
      (omega arith, (omega arith, (omega arith, tt))) refl

abbrev first : ℕ
first = 5
