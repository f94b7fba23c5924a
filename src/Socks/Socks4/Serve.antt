-- ===== src/Socks/Socks4/Serve.antt =====
-- A SOCKS4a client is served, and every client reaches the handler of its version.
use easy_connection.Prelude.{
  Bool-cases, ℕ, zero, suc, ◌≡◌, ◌≢◌, ◌⊎◌, ◌<◌, ◌≤◌, inl, inr, refl, ◌∙◌, arith, Bool, true, false,
  not, List, [], ◌∷◌, ◌++◌, ◌==◌, if◌then◌else◌, All, Bytes, length, drop, u16_to_be, replicate,
  Result, ok, err,
}
use easy_connection.Prelude.Io.{Target, Conn, Action, ◌>>=◌, ◌>>◌, pure, throw, fresh}
use easy_connection.Prelude.Io.Steps.{bind_to, read_then}
use easy_connection.Socks.Socks5.{
  SocksError, io, protocol, command_not_supported, Socks5Auth, at, port_of, dial, handle_socks5,
}
use easy_connection.Socks.Socks4.{
  write_reply4, check_utf8, read_nul, read_host4, answer_dial4, open_upstream4, serve4,
  handle_socks4, version_prefixed, dispatch_socks,
}

-- Bytes with no zero among them.
abbrev pub NulFree : Bytes → Type 0
NulFree = All (λ b. b ≢ 0)

abbrev conn : Bytes → Bytes → List Target → Conn
conn input out dialed = record { incoming = input; outgoing = out; dialed = dialed }

abbrev pub named : Bytes → ℕ → Target
named host port = record { host = host; port = port }

-- What `read_nul` does with a byte, where no more may be pushed, and where n more may be.
abbrev at_limit : Bytes → Action SocksError Bytes
at_limit b = if at b 0 == 0 then pure [] else throw protocol

abbrev below : ℕ → Bytes → Action SocksError Bytes
below n b = if at b 0 == 0 then pure [] else read_nul n >>= λ rest. pure (at b 0 ∷ rest)

below_byte :
    (n b : ℕ) (c : Conn) → b ≢ 0 → below n (b ∷ []) c ≡ (read_nul n >>= λ rest. pure (b ∷ rest)) c
below_byte n b c h = let e : (b == 0) ≡ false = ground arith in rw e refl

read_nul_append :
    (n : ℕ) (s rest out : Bytes) (dialed : List Target)
    → length s ≤ n
    → NulFree s
    → read_nul n (conn (s ++ (0 ∷ rest)) out dialed) ≡ (ok s, conn rest out dialed)
unfolding read_nul
read_nul_append zero [] rest out dialed h z = read_then io 1 at_limit (0 ∷ []) rest out dialed refl
read_nul_append (suc n) [] rest out dialed h z =
    read_then io 1 (below n) (0 ∷ []) rest out dialed refl
read_nul_append zero (b ∷ s) rest out dialed h z = absurd (omega arith)
read_nul_append (suc n) (b ∷ s) rest out dialed h (z, zs) =
    read_then io 1 (below n) (b ∷ []) (s ++ (0 ∷ rest)) out dialed refl
    ∙ below_byte n b (conn (s ++ (0 ∷ rest)) out dialed) z
    ∙ bind_to (read_nul n) (λ r. pure (b ∷ r)) (conn (s ++ (0 ∷ rest)) out dialed) s
        (conn rest out dialed) (read_nul_append n s rest out dialed (omega arith) zs)

abbrev pub reply_code4 : Result (Unit {0}) SocksError → ℕ
reply_code4 (ok _) = 0x5a
reply_code4 (err _) = 0x5b

-- The header of SOCKS4a, with the address 0.0.0.x.
abbrev pub header4a : ℕ → ℕ → Bytes
header4a port x = 0x04 ∷ 0x01 ∷ (u16_to_be port ++ (0 ∷ 0 ∷ 0 ∷ x ∷ []))

-- The request of SOCKS4a: the header, a user id and a host.
abbrev pub request4a : ℕ → ℕ → Bytes → Bytes → Bytes → Bytes
request4a port x userid host rest = header4a port x ++ (userid ++ (0 ∷ (host ++ (0 ∷ rest))))

u16_back : (port : ℕ) → port < 65536 → port_of (u16_to_be port) ≡ port
u16_back port h = omega arith

module _ (connect : Target → Result (Unit {0}) SocksError) (show_v6 : Bytes → Bytes)
    (is_utf8 : Bytes → Bool) where
  read_host4_name :
      (port x : ℕ) (host rest : Bytes)
      → x ≢ 0
      → length host ≤ 255
      → NulFree host
      → is_utf8 host ≡ true
      → read_host4 connect show_v6 is_utf8 (header4a port x) (conn (host ++ (0 ∷ rest)) [] [])
        ≡ (ok host, conn rest [] [])
  unfolding read_host4 check_utf8
  read_host4_name port x host rest nz hl hz utf =
      let e : (x == 0) ≡ false = ground arith in
      rw e (
        bind_to (read_nul 255) (check_utf8 connect show_v6 is_utf8)
          (conn (host ++ (0 ∷ rest)) [] []) host (conn rest [] [])
          (read_nul_append 255 host rest [] [] hl hz)
        ∙ rw utf refl)

  answer_dial4_lem :
      (r : Result (Unit {0}) SocksError) (rest : Bytes) (dialed : List Target)
      → answer_dial4 connect show_v6 is_utf8 r (conn rest [] dialed)
        ≡ (r, conn rest (0x00 ∷ reply_code4 r ∷ replicate 6 0) dialed)
  unfolding answer_dial4 write_reply4
  answer_dial4_lem (ok _) rest dialed = refl
  answer_dial4_lem (err e) rest dialed = refl

  -- A SOCKS4a client with a user id of at most 512 bytes and a host of at most 255 is served: that
  -- host and port alone are dialed, the reply says whether the connector succeeded, and what
  -- follows the request is left for the relay.
  pub handle_socks4_serves :
      (port x : ℕ) (userid host rest : Bytes)
      → port < 65536
      → x ≢ 0
      → length userid ≤ 512
      → NulFree userid
      → length host ≤ 255
      → NulFree host
      → is_utf8 host ≡ true
      → handle_socks4 connect show_v6 is_utf8 (fresh (request4a port x userid host rest)) ≡ (
        connect (named host port),
        record {
          incoming = rest;
          outgoing = 0x00 ∷ reply_code4 (connect (named host port)) ∷ replicate 6 0;
          dialed = named host port ∷ [];
        },
      )
  unfolding handle_socks4 serve4 open_upstream4 dial
  handle_socks4_serves port x userid host rest p nz ul uz hl hz utf =
      let hdr = header4a port x in
      let more = conn (host ++ (0 ∷ rest)) [] [] in
      read_then io 8 headed hdr (userid ++ (0 ∷ (host ++ (0 ∷ rest)))) [] [] refl
      ∙ bind_to (read_nul 512) (λ _. hosted hdr) (conn (userid ++ (0 ∷ (host ++ (0 ∷ rest)))) [] [])
          userid more (read_nul_append 512 userid (host ++ (0 ∷ rest)) [] [] ul uz)
      ∙ bind_to (read_host4 connect show_v6 is_utf8 hdr) (opened hdr) more host (conn rest [] [])
          (read_host4_name port x host rest nz hl hz utf)
      ∙ rw (u16_back port p)
          (answer_dial4_lem (connect (named host port)) rest (named host port ∷ []))
    where
      opened : Bytes → Bytes → Action SocksError (Unit {0})
      opened hdr host = open_upstream4 connect show_v6 is_utf8 (named host (port_of (drop 2 hdr)))

      hosted : Bytes → Action SocksError (Unit {0})
      hosted hdr = read_host4 connect show_v6 is_utf8 hdr >>= opened hdr

      headed : Bytes → Action SocksError (Unit {0})
      headed hdr =
          if not (at hdr 0 == 0x04)
          then throw protocol
          else if not (at hdr 1 == 0x01)
          then write_reply4 0x5b >> throw command_not_supported
          else serve4 connect show_v6 is_utf8 hdr

  -- A client reaches the handler of the version that its first byte names, which then sees the
  -- stream from that byte on; with another first byte nothing is written or dialed.
  pub dispatch_socks_lem :
      (auth : Socks5Auth) (first : ℕ) (rest : Bytes)
      → ((first ≡ 0x05)
          × (dispatch_socks connect show_v6 is_utf8 auth (fresh (first ∷ rest))
              ≡ handle_socks5 connect show_v6 is_utf8 auth (fresh (first ∷ rest))))
        ⊎ ((first ≡ 0x04)
            × (dispatch_socks connect show_v6 is_utf8 auth (fresh (first ∷ rest))
                ≡ handle_socks4 connect show_v6 is_utf8 (fresh (first ∷ rest))))
        ⊎ ((first ≢ 0x05)
            × (first ≢ 0x04)
            × (dispatch_socks connect show_v6 is_utf8 auth (fresh (first ∷ rest))
                ≡ (err protocol, fresh rest)))
  unfolding dispatch_socks version_prefixed
  dispatch_socks_lem auth first rest = elim (Bool-cases (first == 0x05)) [
    | inl e ↦ inl (ground arith, dispatched ∙ rw (e, five e) refl)
    | inr e ↦ elim (Bool-cases (first == 0x04)) [
      | inl f ↦ inr (inl (ground arith, dispatched ∙ rw (e, f, four f) refl))
      | inr f ↦ inr (inr (λ h. ground arith, λ h. ground arith, dispatched ∙ rw (e, f) refl))
    ]
  ]
    where
      by_version : Bytes → Action SocksError (Unit {0})
      by_version ver =
          if at ver 0 == 0x05
          then version_prefixed connect show_v6 is_utf8 0x05
              (handle_socks5 connect show_v6 is_utf8 auth)
          else if at ver 0 == 0x04
          then version_prefixed connect show_v6 is_utf8 0x04 (handle_socks4 connect show_v6 is_utf8)
          else throw protocol

      dispatched :
          dispatch_socks connect show_v6 is_utf8 auth (fresh (first ∷ rest))
          ≡ by_version (first ∷ []) (fresh rest)
      dispatched = read_then io 1 by_version (first ∷ []) rest [] [] refl

      five : (first == 0x05) ≡ true → first ≡ 0x05
      five e = ground arith

      four : (first == 0x04) ≡ true → first ≡ 0x04
      four e = ground arith
