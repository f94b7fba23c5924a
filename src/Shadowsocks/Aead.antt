-- ===== src/Shadowsocks/Aead.antt =====
-- crates/shadowsocks/src/aead.rs: the method, the key, and the blocks that are sealed and read. The
-- tag of a sealed block has 16 bytes.
pub mod Chunks
pub mod Stream
pub mod Key
use easy_connection.Prelude.{
  ℕ, zero, suc, ◌+◌, ◌-◌, ◌/◌, ◌%◌, ◌^◌, Bool, true, false, ◌||◌, Option, none, some, List, [], ◌∷◌,
  ◌++◌, ltb, ◌==◌, is_empty, if◌then◌else◌, length, take, drop, replicate, Bytes, eq_bytes,
  u16_to_be, u16_from, get_or, Result, ok, err,
}
use easy_connection.Prelude.Text.{Str, codes, to_ascii_lowercase}
use easy_connection.Prelude.Io.{Conn, Action, ◌>>=◌, ◌>>◌, pure, throw, read_exact}

abbrev pub max_chunk : ℕ
max_chunk = 0x3fff

pub data SsError : Type 0 where
  io : SsError
  config : SsError
  crypto : SsError

pub data AeadMethod : Type 0 where
  aes_128_gcm aes_256_gcm : AeadMethod

unfoldable pub parse_method : Str → Result AeadMethod SsError
unfolding eq_bytes
parse_method name =
    if eq_bytes (to_ascii_lowercase name) (codes "aes-128-gcm")
    then ok aes_128_gcm
    else if eq_bytes (to_ascii_lowercase name) (codes "aes-256-gcm")
    then ok aes_256_gcm
    else err config

abbrev pub key_len : AeadMethod → ℕ
key_len aes_128_gcm = 16
key_len aes_256_gcm = 32

abbrev pub salt_len : AeadMethod → ℕ
salt_len method = key_len method

-- The loop of `evp_bytes_to_key`, with what it has and the last digest. The loop runs once for each
-- round of fuel.
unfoldable pub stretch : (Bytes → Bytes) → Bytes → ℕ → ℕ → Bytes → Bytes → Option Bytes
stretch md5 password zero key_len out last = if ltb (length out) key_len then none else some out
stretch md5 password (suc fuel) key_len out last =
    let digest = md5 (last ++ password) in
    let rest = stretch md5 password fuel key_len (out ++ digest) digest in
    if ltb (length out) key_len then rest else some out

-- `truncate`.
abbrev pub truncated : ℕ → Option Bytes → Option Bytes
truncated n none = none
truncated n (some b) = some (take n b)

unfoldable pub evp_bytes_to_key : (Bytes → Bytes) → ℕ → Bytes → ℕ → Option Bytes
unfolding stretch
evp_bytes_to_key md5 fuel password key_len =
    truncated key_len (stretch md5 password fuel key_len [] [])

-- `u64::to_le_bytes`, of which the counter is the first eight of twelve bytes.
abbrev pub u64_to_le : ℕ → ℕ → Bytes
u64_to_le zero n = []
u64_to_le (suc k) n = n % 256 ∷ u64_to_le k (n / 256)

unfoldable pub nonce : ℕ → Bytes
nonce n = u64_to_le 8 n ++ replicate 4 0

infixl 5 ◌>>=?◌
abbrev pub ◌>>=?◌ : {A B : Type 0} → Option A → (A → Option B) → Option B
none >>=? f = none
some a >>=? f = f a

-- `chunks` of at most `max_chunk` bytes; the fuel is the number of bytes.
unfoldable pub chunks : ℕ → Bytes → List Bytes
chunks zero xs = []
chunks (suc fuel) xs =
    let rest = chunks fuel (drop max_chunk xs) in
    if is_empty xs then [] else take max_chunk xs ∷ rest

-- A cipher with a key: `seal key nonce plain`, and `unseal key nonce cipher` for `open`.
abbrev pub Sealing : Type 0
Sealing = Bytes → Bytes → Bytes → Option Bytes

module _ (seal : Sealing) (key : Bytes) where
  -- A chunk as its sealed length and its sealed bytes, under two nonces.
  unfoldable pub seal_chunk : ℕ → Bytes → Option Bytes
  seal_chunk n chunk = seal key (nonce n) (u16_to_be (length chunk)) >>=? λ c_len.
      seal key (nonce (n + 1)) chunk >>=? λ c_body. some (c_len ++ c_body)

  unfoldable pub seal_chunks : ℕ → List Bytes → Option Bytes
  unfolding seal_chunk
  seal_chunks n [] = some []
  seal_chunks n (chunk ∷ rest) = seal_chunk n chunk >>=? λ block.
      seal_chunks (n + 2) rest >>=? λ blocks. some (block ++ blocks)

-- The chunks of what each `peer.read` gave.
abbrev pub chunks_of : List Bytes → List Bytes
chunks_of [] = []
chunks_of (plain ∷ reads) = chunks (length plain) plain ++ chunks_of reads

-- `dec` with its key, and `dec_nonce`.
pub record Decoder : Type 0 where
  pub key : Option Bytes
  pub nonce : ℕ

abbrev pub new_decoder : Decoder
new_decoder = record { key = none; nonce = 0 }

-- A block that `unseal` accepts.
abbrev pub opened : Option Bytes → Action SsError Bytes
opened none = throw crypto
opened (some b) = pure b

-- `read_exact` of the length, where the end of the stream is no error.
abbrev pub or_end : ℕ → Action SsError (Option Bytes)
or_end n c =
    if ltb (length c.incoming) n
    then (ok none, record c { incoming = [] })
    else (ok (some (take n c.incoming)), record c { incoming = drop n c.incoming })

module _ (unseal : Sealing) (hkdf : Bytes → Bytes → Bytes) (method : AeadMethod)
    (master : Bytes) where
  -- The key, read from the salt the first time.
  unfoldable pub decoder_key : Option Bytes → Action SsError Bytes
  decoder_key (some key) = pure key
  decoder_key none = do salt ← read_exact io (salt_len method); pure (hkdf master salt)

  -- Once the length is known.
  unfoldable pub read_body : Bytes → ℕ → ℕ → Action SsError (Decoder × Bytes)
  read_body key n len = if len == 0 || ltb max_chunk len then throw crypto else do
    body_c ← read_exact io (len + 16)
    body ← opened (unseal key (nonce (n + 1)) body_c)
    pure (record { key = some key; nonce = n + 2 }, body)

  -- Once the sealed length is there.
  unfoldable pub read_len : Bytes → ℕ → Option Bytes → Action SsError (Decoder × Bytes)
  unfolding read_body
  read_len key n none = pure (record { key = some key; nonce = n }, [])
  read_len key n (some len_c) = do
    len_b ← opened (unseal key (nonce n) len_c)
    if length len_b == 2
        then read_body key n (u16_from (get_or len_b 0 0) (get_or len_b 1 0))
        else throw crypto

  unfoldable pub read_chunk : Decoder → Action SsError (Decoder × Bytes)
  unfolding decoder_key read_len
  read_chunk dec = do
    key ← decoder_key dec.key
    len_c ← or_end (2 + 16)
    read_len key dec.nonce len_c
