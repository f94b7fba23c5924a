-- ===== src/Shadowsocks/Pump/Both.antt =====
-- Both directions of a pump at once.
use easy_connection.Prelude.{
  ℕ, suc, ◌+◌, ◌*◌, ◌≡◌, ◌≤◌, false, some, List, [], ◌∷◌, ◌++◌, length, take, is_empty, Bytes, All,
  ok,
}
use easy_connection.Prelude.Io.{fresh}
use easy_connection.Shadowsocks.Aead.{
  AeadMethod, Sealing, chunks, chunks_of, seal_chunks, new_decoder, read_chunk,
}
use easy_connection.Shadowsocks.Aead.Chunks.{joined, IsChunk}
use easy_connection.Shadowsocks.Aead.Stream.{IsAead, decoder}
use easy_connection.Shadowsocks.Pump.{Turn, sends, receives, Pump, dropped, pump}

-- The program's bytes are some, and `read_chunk` had taken none of a block when it was dropped.
abbrev pub IsQuiet : Turn → Type 0
IsQuiet (sends plain taken) = (is_empty plain ≡ false) × (taken ≡ 0)
IsQuiet receives = Unit {0}

abbrev pub plains : List Turn → List Bytes
plains [] = []
plains (sends plain taken ∷ turns) = plain ∷ plains turns
plains (receives ∷ turns) = plains turns

abbrev pub received : List Turn → ℕ
received [] = 0
received (sends plain taken ∷ turns) = received turns
received (receives ∷ turns) = suc (received turns)

module _ (seal unseal : Sealing) (aead : IsAead seal unseal) (hkdf : Bytes → Bytes → Bytes)
    (method : AeadMethod) (master enc : Bytes) where
  -- What the decoder reads next is the block at a nonce.
  abbrev Ready : Pump → Bytes → ℕ → Bytes → Type 0
  Ready s key n wire =
      read_chunk unseal hkdf method master s.dec (fresh s.incoming)
      ≡ read_chunk unseal hkdf method master (decoder key n) (fresh wire)

  -- What the turns of a pump have done.
  pub record Pumped (turns : List Turn) (s : Pump) (cs : List Bytes) (t : Pump) : Type 0 where
    pub delivers : t.delivered ≡ s.delivered ++ joined (take (received turns) cs)
    pub blocks : Bytes
    pub sealed : seal_chunks seal enc s.enc_nonce (chunks_of (plains turns)) ≡ some blocks
    pub writes : t.written ≡ s.written ++ blocks

  abbrev pub Runs : List Turn → Pump → List Bytes → Type 0
  Runs turns s cs =
      (t : Pump) × (pump seal unseal hkdf method master enc turns s ≡ ok t) × Pumped turns s cs t

  Goes : List Turn → Type 0
  Goes turns =
      (s : Pump) (key : Bytes) (n : ℕ) (cs : List Bytes) (wire : Bytes)
      → All IsQuiet turns
      → All IsChunk cs
      → seal_chunks seal key n cs ≡ some wire
      → Ready s key n wire
      → received turns ≤ length cs
      → Runs turns s cs

  abbrev after_sending : Bytes → Bytes → Pump → Pump
  after_sending plain block s = record {
    enc_nonce = s.enc_nonce + 2 * length (chunks (length plain) plain);
    dec = dropped seal unseal hkdf method master enc 0 s.incoming s.dec.key s.dec.nonce;
    incoming = s.incoming;
    written = s.written ++ block;
    delivered = s.delivered;
  }

  abbrev after_receiving : Bytes → ℕ → Bytes → Bytes → Pump → Pump
  after_receiving key n chunk rest s = record {
    enc_nonce = s.enc_nonce;
    dec = decoder key (n + 2);
    incoming = rest;
    written = s.written;
    delivered = s.delivered ++ chunk;
  }

  -- A pump whose server has sent a salt and these blocks.
  abbrev pub pump_from : Bytes → Bytes → Pump
  pump_from salt wire = record {
    enc_nonce = 0;
    dec = new_decoder;
    incoming = salt ++ wire;
    written = [];
    delivered = [];
  }
