-- ===== src/Socks/Socks5/Auth.antt =====
-- No destination is dialed for a client that has not sent the credentials.
use easy_connection.Prelude.{
  ℕ, ◌≡◌, ◌≢◌, ◌∙◌, ap, refl, arith, Bool, true, not, some, [], ◌∷◌, ◌++◌, ◌==◌, if◌then◌else◌,
  Bytes, contains, length, Result, ok, Bool-cases, Result-cases, inl, inr,
}
use easy_connection.Prelude.Io.{Target, Conn, Action, ◌>>=◌, throw, read_exact}
use easy_connection.Prelude.Io.Steps.{
  bind_ok, bind_err, bind_keeps, read_exact_ok, read_exact_keeps,
}
use easy_connection.Socks.Socks5.Password.{
  PasswordSent, two_bytes, check_password_dialed, check_password_ok,
}
use easy_connection.Socks.Socks5.{
  SocksError, io, protocol, Socks5Auth, at, select_method, answer_greeting, greet, read_request,
  open_upstream, handle_socks5,
}

answer_greeting_dialed :
    (auth : Socks5Auth) (methods : Bytes) (c : Conn)
    → (answer_greeting auth methods c).1.dialed ≡ c.dialed
unfolding answer_greeting
answer_greeting_dialed auth methods c = ground (
  arith,
  check_password_dialed auth
      (record c { outgoing = c.outgoing ++ (0x05 ∷ select_method auth.username methods ∷ []) }),
)

abbrev greeted : Socks5Auth → Bytes → Action SocksError (Unit {0})
greeted auth header =
    if not (at header 0 == 0x05)
    then throw protocol
    else read_exact io (at header 1) >>= answer_greeting auth

greeted_dialed :
    (auth : Socks5Auth) (header : Bytes) (d : Conn) → (greeted auth header d).1.dialed ≡ d.dialed
greeted_dialed auth header d = elim (Bool-cases (at header 0 == 0x05)) [
  | inl e ↦ rw e (
      bind_keeps (read_exact io (at header 1)) (answer_greeting auth) d
        (read_exact_keeps {E = SocksError} io (at header 1) d) (answer_greeting_dialed auth))
  | inr e ↦ rw e refl
]

greet_dialed : (auth : Socks5Auth) (c : Conn) → (greet auth c).1.dialed ≡ c.dialed
unfolding greet
greet_dialed auth c =
    bind_keeps (read_exact io 2) (greeted auth) c (read_exact_keeps {E = SocksError} io 2 c)
      (greeted_dialed auth)

-- A greeting that offers the user name and password.
abbrev pub GreetingSent : Socks5Auth → Bytes → Type 0
GreetingSent auth input =
    (methods : Bytes) × (rest : Bytes) × (input ≡ 0x05 ∷ length methods ∷ (methods ++ rest))
    × (contains methods 0x02 ≡ true)
    × PasswordSent auth rest

answer_greeting_ok :
    (auth : Socks5Auth) (u methods : Bytes) (c : Conn)
    → auth.username ≡ some u
    → (answer_greeting auth methods c).0 ≡ ok tt
    → (contains methods 0x02 ≡ true) × PasswordSent auth c.incoming
unfolding answer_greeting select_method
answer_greeting_ok auth u methods c e h = elim (Bool-cases (contains methods 0x02)) [
  | inl o ↦ (o, check_password_ok auth (offer 0x02) (simp (e, o) at h))
  | inr o ↦ absurd (cc (simp (e, o) at h))
]
  where
    offer : ℕ → Conn
    offer n = record c { outgoing = c.outgoing ++ (0x05 ∷ n ∷ []) }

greeted_ok :
    (auth : Socks5Auth) (header : Bytes) (d : Conn)
    → (greeted auth header d).0 ≡ ok tt
    → (at header 0 ≡ 0x05) × ((read_exact io (at header 1) >>= answer_greeting auth) d).0 ≡ ok tt
greeted_ok auth header d h = ground arith

greet_ok :
    (auth : Socks5Auth) (u : Bytes) (c : Conn)
    → auth.username ≡ some u
    → (greet auth c).0 ≡ ok tt
    → GreetingSent auth c.incoming
unfolding greet
greet_ok auth u c e h =
    let (header, a, b, _) = bind_ok (read_exact io 2) (greeted auth) c tt h in
    let (first, two) = read_exact_ok io 2 c header a in
    let d = (read_exact {E = SocksError} io 2 c).1 in
    let (version, more) = greeted_ok auth header d b in
    let (methods, f, g, _) =
      bind_ok (read_exact io (at header 1)) (answer_greeting auth) d tt more in
    let (second, n) = read_exact_ok io (at header 1) d methods f in
    let (offered, sent) =
      answer_greeting_ok auth u methods (read_exact {E = SocksError} io (at header 1) d).1 e g in
    (
      methods,
      (read_exact {E = SocksError} io (at header 1) d).1.incoming,
      joined header c.incoming d.incoming methods
          (read_exact {E = SocksError} io (at header 1) d).1.incoming first two version second n,
      offered,
      sent,
    )
  where
    joined :
        (header input mid methods rest : Bytes)
        → input ≡ header ++ mid
        → length header ≡ 2
        → at header 0 ≡ 0x05
        → mid ≡ methods ++ rest
        → length methods ≡ at header 1
        → input ≡ 0x05 ∷ length methods ∷ (methods ++ rest)
    joined header input mid methods rest p q v r n = rw (p, two_bytes header q, v, r, n) refl

module _ (connect : Target → Result (Unit {0}) SocksError) (show_v6 : Bytes → Bytes)
    (is_utf8 : Bytes → Bool) (auth : Socks5Auth) where
  -- Where a user name is configured, a destination is dialed only for a client that has offered
  -- that method and then sent the configured name and password.
  pub handle_socks5_authenticates :
      (u : Bytes) (c : Conn)
      → auth.username ≡ some u
      → (handle_socks5 connect show_v6 is_utf8 auth c).1.dialed ≢ c.dialed
      → GreetingSent auth c.incoming
  unfolding handle_socks5
  handle_socks5_authenticates u c e h = elim (Result-cases (greet auth c).0) [
    | inl (_, g) ↦ greet_ok auth u c e g
    | inr (x, g) ↦ absurd (
        h (
          ap (λ r. r.1.dialed)
            (bind_err (greet auth)
              (λ _. read_request connect show_v6 is_utf8 >>= open_upstream connect show_v6 is_utf8)
              c x g)
          ∙ greet_dialed auth c))
  ]
