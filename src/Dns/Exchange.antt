-- ===== src/Dns/Exchange.antt =====
-- crates/dns/src/lib.rs, `exchange_over_tcp`: one message each way, behind a length of two bytes.
use easy_connection.Prelude.{
  ℕ, ◌<◌, ◌≤◌, ◌≡◌, ◌⊎◌, inl, inr, arith, ◌||◌, [], ◌∷◌, ◌++◌, ltb, ◌==◌, if◌then◌else◌, length,
  is_empty, Bytes, u16_to_be, u16_from, ok, err, take-append, drop-append, length-append,
}
use easy_connection.Prelude.Io.{Conn, fresh, Action, ◌>>=◌, ◌>>◌, throw, read_exact, write_all}

pub data DnsError : Type 0 where
  io : DnsError
  too_large : DnsError
  empty : DnsError

-- A length of two bytes, big-endian.
abbrev pub u16_be : Bytes → ℕ
u16_be (hi ∷ lo ∷ _) = u16_from hi lo
u16_be _ = 0

-- The response, once its length is known.
read_message : ℕ → Action DnsError Bytes
read_message n =
    if n == 0 then throw empty else if ltb 65535 n then throw too_large else read_exact io n

unfoldable pub exchange_over_tcp : Bytes → Action DnsError Bytes
unfolding read_message
exchange_over_tcp query = if is_empty query || ltb 65535 (length query) then throw too_large else do
  write_all (u16_to_be (length query))
  write_all query
  hdr ← read_exact io 2
  read_message (u16_be hdr)

ltb-cases : (m n : ℕ) → (m < n) ⊎ (n ≤ m)
ltb-cases m n = omega arith

-- A message that fits the length of two bytes.
abbrev pub Fits : Bytes → Type 0
Fits m = (0 < length m) × (length m ≤ 65535)

-- With a server that answers `response`, the query is on the wire behind its length, the response
-- is returned whole, and what the server sends after it stays in the stream.
pub exchange_over_tcp_response :
    (query response rest : Bytes)
    → Fits query
    → Fits response
    → exchange_over_tcp query (fresh (u16_to_be (length response) ++ (response ++ rest))) ≡ (
      ok response,
      record { incoming = rest; outgoing = u16_to_be (length query) ++ query; dialed = [] },
    )
unfolding exchange_over_tcp
exchange_over_tcp_response query response rest p q =
    ground
      (arith, take-append response rest, drop-append response rest, length-append response rest)

-- A query that is empty or longer than 65535 bytes is refused, with nothing read or written; any
-- other query is written whole behind its length, whatever the server answers.
pub exchange_over_tcp_query :
    (query : Bytes) (c : Conn)
    → (((length query ≡ 0) ⊎ (65535 < length query))
        × (exchange_over_tcp query c ≡ (err too_large, c)))
      ⊎ (Fits query
          × ((exchange_over_tcp query c).1.outgoing
              ≡ (c.outgoing ++ u16_to_be (length query)) ++ query))
unfolding exchange_over_tcp
exchange_over_tcp_query query c = elim (ltb-cases 65535 (length query)) [
  | inl h ↦ inl (inr h, ground arith)
  | inr h ↦ elim (ltb-cases 0 (length query)) [
    | inl p ↦ inr ((p, omega arith), ground arith)
    | inr p ↦ inl (inl (omega arith), ground arith)
  ]
]

-- An answer cut short gives no message.
pub exchange_over_tcp_short :
    (query : Bytes) (c : Conn) (n : ℕ) (part : Bytes)
    → Fits query
    → n < 65536
    → length part < n
    → c.incoming ≡ u16_to_be n ++ part
    → (exchange_over_tcp query c).0 ≡ err io
unfolding exchange_over_tcp
exchange_over_tcp_short query c n part p m l e = ground arith
