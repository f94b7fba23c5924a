-- ===== src/Shadowsocks/Pump.antt =====
-- crates/shadowsocks/src/aead.rs: `pump` on the order in which its `select!` takes the two branches.
-- `peer.read` takes bytes only if it is taken; `read_chunk` keeps what it has read in its own
-- buffers, which are gone when the other branch is taken.
pub mod Both
use easy_connection.Prelude.{
  ℕ, ◌==◌, Bool, ◌+◌, ◌*◌, ◌-◌, Option, none, some, List, [], ◌∷◌, ◌++◌, ltb, is_empty,
  if◌then◌else◌, length, drop, take, Bytes, Result, ok, err, suc,
}
use easy_connection.Prelude.Io.{Conn, fresh}
use easy_connection.Shadowsocks.Aead.{
  SsError, crypto, AeadMethod, salt_len, Sealing, chunks, seal_chunks, Decoder, read_chunk,
}

-- `peer.read` has given plain bytes, when `read_chunk` had taken a number of bytes of its block; or
-- `read_chunk` has ended.
pub data Turn : Type 0 where
  sends : Bytes → ℕ → Turn
  receives : Turn

pub record Pump : Type 0 where
  pub enc_nonce : ℕ
  pub dec : Decoder
  -- What has come from the server and is not read.
  pub incoming : Bytes
  -- What went to the server, and to `peer`.
  pub written : Bytes
  pub delivered : Bytes

-- The decoder of a `read_chunk` that is dropped behind the salt.
abbrev pub dropped_at : Bytes → ℕ → ℕ → Decoder
dropped_at key n taken = record { key = some key; nonce = if ltb taken 18 then n else n + 1 }

module _ (seal unseal : Sealing) (hkdf : Bytes → Bytes → Bytes) (method : AeadMethod)
    (master enc : Bytes) where
  abbrev pub dropped : ℕ → Bytes → Option Bytes → ℕ → Decoder
  dropped taken incoming (some key) n = dropped_at key n taken
  dropped taken incoming none n =
      if ltb taken (salt_len method)
      then record { key = none; nonce = n }
      else dropped_at (hkdf master (take (salt_len method) incoming)) n (taken - salt_len method)

  abbrev pub on_sent : Bytes → ℕ → Pump → Option Bytes → Result Pump SsError
  on_sent plain taken s none = err crypto
  on_sent plain taken s (some blocks) = ok (record {
    enc_nonce = s.enc_nonce + 2 * length (chunks (length plain) plain);
    dec = dropped taken s.incoming s.dec.key s.dec.nonce;
    incoming = drop taken s.incoming;
    written = s.written ++ blocks;
    delivered = s.delivered;
  })

  abbrev pub on_received : Pump → Result (Decoder × Bytes) SsError × Conn → Result Pump SsError
  on_received s (err e, c) = err e
  on_received s (ok (dec, plain), c) = ok (record {
    enc_nonce = s.enc_nonce;
    dec = dec;
    incoming = c.incoming;
    written = s.written;
    delivered = s.delivered ++ plain;
  })

  -- The branch of a turn.
  unfoldable pub branch : Turn → Pump → Result Pump SsError
  unfolding seal_chunks chunks read_chunk
  branch (sends plain taken) s =
      on_sent plain taken s (seal_chunks seal enc s.enc_nonce (chunks (length plain) plain))
  branch receives s = on_received s (read_chunk unseal hkdf method master s.dec (fresh s.incoming))

  -- A read of nothing, from either side, ends the loop.
  abbrev pub ends : Turn → Pump → Pump → Bool
  ends (sends plain taken) s t = is_empty plain
  ends receives s t = length t.delivered == length s.delivered

  abbrev pub when_done :
      (Pump → Result Pump SsError) → Turn → Pump → Result Pump SsError → Result Pump SsError
  when_done next turn s (err e) = err e
  when_done next turn s (ok t) = let rest = next t in if ends turn s t then ok t else rest

  -- The loop, as far as the turns go.
  unfoldable pub pump : List Turn → Pump → Result Pump SsError
  unfolding branch
  pump [] s = ok s
  pump (turn ∷ turns) s = when_done (pump turns) turn s (branch turn s)
