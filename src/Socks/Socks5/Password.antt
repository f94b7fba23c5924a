-- ===== src/Socks/Socks5/Password.antt =====
-- What a client has sent once its credentials are accepted.
use easy_connection.Prelude.{
  ℕ, ◌≡◌, ◌∙◌, sym, ap, refl, arith, Bool, true, some, [], ◌∷◌, ◌++◌, Bytes, eq_bytes_iff, length,
  ok, Option-cases, inl, inr,
}
use easy_connection.Prelude.Io.{Conn, Action, ◌>>=◌, read_exact}
use easy_connection.Prelude.Io.Steps.{bind_ok, bind_keeps, read_exact_ok, read_exact_keeps}
use easy_connection.Socks.Socks5.{
  SocksError, io, Socks5Auth, at, credentials_match, check_password, answer_password, read_string,
}

-- The bytes of RFC 1929 with the configured name and password.
abbrev pub PasswordSent : Socks5Auth → Bytes → Type 0
PasswordSent auth input =
    (ver : ℕ) × (u : Bytes) × (p : Bytes) × (rest : Bytes) × (auth.username ≡ some u)
    × (auth.password ≡ some p)
    × (input ≡ ver ∷ length u ∷ (u ++ (length p ∷ (p ++ rest))))

credentials_match-true :
    (auth : Socks5Auth) (uname pass : Bytes)
    → credentials_match auth uname pass ≡ true
    → (auth.username ≡ some uname) × (auth.password ≡ some pass)
unfolding credentials_match
credentials_match-true auth uname pass h = elim (Option-cases auth.username) [
  | inl e ↦ absurd (ground arith)
  | inr (u, e) ↦ elim (Option-cases auth.password) [
    | inl f ↦ absurd (ground arith)
    | inr (p, f) ↦ ground (arith, eq_bytes_iff u uname, eq_bytes_iff p pass)
  ]
]

one_byte : (b : Bytes) → length b ≡ 1 → b ≡ at b 0 ∷ []
one_byte [] h = absurd (omega arith)
one_byte (x ∷ []) h = refl
one_byte (x ∷ y ∷ b) h = absurd (omega arith)

pub two_bytes : (b : Bytes) → length b ≡ 2 → b ≡ at b 0 ∷ at b 1 ∷ []
two_bytes [] h = absurd (omega arith)
two_bytes (x ∷ []) h = absurd (omega arith)
two_bytes (x ∷ y ∷ []) h = refl
two_bytes (x ∷ y ∷ z ∷ b) h = absurd (omega arith)

-- A string that was read stood behind its length; the rest is left.
read_string_ok :
    (c : Conn) (b : Bytes)
    → (read_string c).0 ≡ ok b
    → c.incoming ≡ length b ∷ (b ++ (read_string c).1.incoming)
unfolding read_string
read_string_ok c b h =
    let (len, e, f, g) = bind_ok (read_exact io 1) (λ len. read_exact io (at len 0)) c b h in
    let (i, l) = read_exact_ok io 1 c len e in
    let (j, k) = read_exact_ok io (at len 0) (read_exact {E = SocksError} io 1 c).1 b f in
    joined len c.incoming (read_exact {E = SocksError} io 1 c).1.incoming b _ i l j k
    ∙ ap (λ s. length b ∷ (b ++ s.1.incoming)) (sym g)
  where
    joined :
        (len input mid b rest : Bytes)
        → input ≡ len ++ mid
        → length len ≡ 1
        → mid ≡ b ++ rest
        → length b ≡ at len 0
        → input ≡ length b ∷ (b ++ rest)
    joined len input mid b rest p q r s = rw (p, one_byte len q, r, s) refl

read_string_dialed : (c : Conn) → (read_string c).1.dialed ≡ c.dialed
unfolding read_string
read_string_dialed c = ground arith

abbrev password_left : Socks5Auth → Bytes → Action SocksError (Unit {0})
password_left auth uname =
    read_string >>= λ pass. answer_password (credentials_match auth uname pass)

answer_password_dialed : (b : Bool) (c : Conn) → (answer_password b c).1.dialed ≡ c.dialed
unfolding answer_password
answer_password_dialed b c = ground arith

answer_password_ok : (b : Bool) (c : Conn) → (answer_password b c).0 ≡ ok tt → b ≡ true
unfolding answer_password
answer_password_ok b c h = ground arith

pub check_password_dialed :
    (auth : Socks5Auth) (c : Conn) → (check_password auth c).1.dialed ≡ c.dialed
unfolding check_password
check_password_dialed auth c =
    bind_keeps (read_exact io 1) (λ ver. read_string >>= password_left auth) c
      (read_exact_keeps {E = SocksError} io 1 c)
      (λ ver d. bind_keeps read_string (password_left auth) d (read_string_dialed d) (λ uname x.
        bind_keeps read_string (λ pass. answer_password (credentials_match auth uname pass)) x
          (read_string_dialed x)
          (λ pass. answer_password_dialed (credentials_match auth uname pass))))

pub check_password_ok :
    (auth : Socks5Auth) (c : Conn)
    → (check_password auth c).0 ≡ ok tt
    → PasswordSent auth c.incoming
unfolding check_password
check_password_ok auth c h =
    let (ver, e, f, _) =
      bind_ok (read_exact io 1) (λ ver. read_string >>= password_left auth) c tt h in
    let d = (read_exact {E = SocksError} io 1 c).1 in
    let (uname, g, i, _) = bind_ok read_string (password_left auth) d tt f in
    let x = (read_string d).1 in
    let (pass, j, k, _) =
      bind_ok read_string (λ pass. answer_password (credentials_match auth uname pass)) x tt i in
    let (u, p) =
      credentials_match-true auth uname pass
        (answer_password_ok (credentials_match auth uname pass) (read_string x).1 k) in
    let (first, one) = read_exact_ok io 1 c ver e in
    (
      at ver 0,
      uname,
      pass,
      (read_string x).1.incoming,
      u,
      p,
      sent ver c.incoming d.incoming x.incoming uname pass (read_string x).1.incoming first one
          (read_string_ok d uname g) (read_string_ok x pass j),
    )
  where
    sent :
        (ver input mid tail uname pass rest : Bytes)
        → input ≡ ver ++ mid
        → length ver ≡ 1
        → mid ≡ length uname ∷ (uname ++ tail)
        → tail ≡ length pass ∷ (pass ++ rest)
        → input ≡ at ver 0 ∷ length uname ∷ (uname ++ (length pass ∷ (pass ++ rest)))
    sent ver input mid tail uname pass rest a b e f = rw (a, one_byte ver b, e, f) refl
