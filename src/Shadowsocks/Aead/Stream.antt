-- ===== src/Shadowsocks/Aead/Stream.antt =====
-- What one end seals, the other end reads.
use easy_connection.Prelude.{
  ℕ, ◌+◌, ◌/◌, ◌%◌, ◌≡◌, ◌≤◌, ◌∙◌, ap, refl, arith, ◌||◌, ◌==◌, none, some, false, List, [], ◌∷◌,
  ◌++◌, append_assoc, ltb, Bytes, length, u16_to_be, u16_from, All, length-append, take_exact,
  drop_exact, ok,
}
use easy_connection.Prelude.Io.{fresh, Action, ◌>>=◌, pure}
use easy_connection.Prelude.Io.Steps.{bind_to, bind_same, read_then}
use easy_connection.Shadowsocks.Aead.{
  max_chunk, SsError, io, AeadMethod, salt_len, nonce, Sealing, seal_chunk, seal_chunks, Decoder,
  new_decoder, opened, or_end, decoder_key, read_body, read_len, read_chunk,
}
use easy_connection.Shadowsocks.Aead.Chunks.{IsChunk}

-- The cipher seals what fits a chunk, adds a tag of 16 bytes, and opens what it has sealed under the
-- same key and nonce.
pub record IsAead (seal unseal : Sealing) : Type 0 where
  pub seals :
      (key n plain : Bytes)
      → length plain ≤ max_chunk
      → (sealed : Bytes) × (seal key n plain ≡ some sealed)
        × (length sealed ≡ length plain + 16)
        × (unseal key n sealed ≡ some plain)

abbrev pub decoder : Bytes → ℕ → Decoder
decoder key n = record { key = some key; nonce = n }

or_end_front :
    (n : ℕ) (b rest : Bytes)
    → length b ≡ n
    → or_end n (fresh (b ++ rest)) ≡ (ok (some b), fresh rest)
or_end_front n b rest h =
    ground (arith, take_exact n b rest h, drop_exact n b rest h, length-append b rest)

u16_back : (n : ℕ) → n ≤ max_chunk → u16_from (n / 256 % 256) (n % 256) ≡ n
u16_back n h = omega arith

module _ (seal unseal : Sealing) (aead : IsAead seal unseal) (hkdf : Bytes → Bytes → Bytes)
    (method : AeadMethod) (master : Bytes) where
  read_body_block :
      (key chunk c_body rest : Bytes) (n : ℕ)
      → IsChunk chunk
      → length c_body ≡ length chunk + 16
      → unseal key (nonce (n + 1)) c_body ≡ some chunk
      → read_body unseal hkdf method master key n (length chunk) (fresh (c_body ++ rest))
        ≡ (ok (decoder key (n + 2), chunk), fresh rest)
  unfolding read_body
  read_body_block key chunk c_body rest n (pos, most) l o =
      let fits : (length chunk == 0 || ltb max_chunk (length chunk)) ≡ false = ground arith in
      rw fits (read_then io (length chunk + 16) body c_body rest [] [] l ∙ rw o refl)
    where
      body : Bytes → Action SsError (Decoder × Bytes)
      body c = opened (unseal key (nonce (n + 1)) c) >>= λ b. pure (decoder key (n + 2), b)

  read_len_block :
      (key chunk c_len c_body rest : Bytes) (n : ℕ)
      → IsChunk chunk
      → unseal key (nonce n) c_len ≡ some (u16_to_be (length chunk))
      → length c_body ≡ length chunk + 16
      → unseal key (nonce (n + 1)) c_body ≡ some chunk
      → read_len unseal hkdf method master key n (some c_len) (fresh (c_body ++ rest))
        ≡ (ok (decoder key (n + 2), chunk), fresh rest)
  unfolding read_len
  read_len_block key chunk c_len c_body rest n c o₁ l o₂ =
      let back : u16_from (length chunk / 256 % 256) (length chunk % 256) ≡ length chunk =
        u16_back (length chunk) c.1 in
      rw (o₁, back) (read_body_block key chunk c_body rest n c l o₂)

  read_chunk_block :
      (key chunk c_len c_body rest : Bytes) (n : ℕ)
      → IsChunk chunk
      → length c_len ≡ 18
      → unseal key (nonce n) c_len ≡ some (u16_to_be (length chunk))
      → length c_body ≡ length chunk + 16
      → unseal key (nonce (n + 1)) c_body ≡ some chunk
      → read_chunk unseal hkdf method master (decoder key n) (fresh ((c_len ++ c_body) ++ rest))
        ≡ (ok (decoder key (n + 2), chunk), fresh rest)
  unfolding read_chunk decoder_key
  read_chunk_block key chunk c_len c_body rest n c l₁ o₁ l₂ o₂ =
      bind_to (or_end 18) (read_len unseal hkdf method master key n)
        (fresh ((c_len ++ c_body) ++ rest)) (some c_len) (fresh (c_body ++ rest))
        (ap (λ s. or_end 18 (fresh s)) (append_assoc c_len c_body rest)
          ∙ or_end_front 18 c_len (c_body ++ rest) l₁)
      ∙ read_len_block key chunk c_len c_body rest n c o₁ l₂ o₂

  -- A chunk has a block, and the block is read as the chunk.
  pub block_read :
      (key chunk : Bytes) (n : ℕ)
      → IsChunk chunk
      → (block : Bytes) × (seal_chunk seal key n chunk ≡ some block)
        × ((rest : Bytes)
            → read_chunk unseal hkdf method master (decoder key n) (fresh (block ++ rest))
              ≡ (ok (decoder key (n + 2), chunk), fresh rest))
  unfolding seal_chunk
  block_read key chunk n c =
      let (c_len, s₁, l₁, o₁) = aead.seals key (nonce n) (u16_to_be (length chunk)) (omega arith) in
      let (c_body, s₂, l₂, o₂) = aead.seals key (nonce (n + 1)) chunk c.1 in
      (
        c_len ++ c_body,
        rw (s₁, s₂) refl,
        λ rest. read_chunk_block key chunk c_len c_body rest n c l₁ o₁ l₂ o₂,
      )

  pub blocks_sealed :
      (key : Bytes) (cs : List Bytes) (n : ℕ)
      → All IsChunk cs
      → (wire : Bytes) × (seal_chunks seal key n cs ≡ some wire)
  unfolding seal_chunks
  blocks_sealed key [] n a = ([], refl)
  blocks_sealed key (chunk ∷ cs) n (c, a) =
      let (block, s, r) = block_read key chunk n c in
      let (wire, t) = blocks_sealed key cs (n + 2) a in (block ++ wire, rw (s, t) refl)

  pub salt_read :
      (salt wire : Bytes)
      → length salt ≡ salt_len method
      → read_chunk unseal hkdf method master new_decoder (fresh (salt ++ wire))
        ≡ read_chunk unseal hkdf method master (decoder (hkdf master salt) 0) (fresh wire)
  unfolding read_chunk decoder_key
  salt_read salt wire l =
      bind_same (decoder_key unseal hkdf method master none)
        (decoder_key unseal hkdf method master (some (hkdf master salt)))
        (λ key. or_end 18 >>= read_len unseal hkdf method master key 0) (fresh (salt ++ wire))
        (fresh wire) (read_then io (salt_len method) (λ s. pure (hkdf master s)) salt wire [] [] l)
