-- ===== src/Websocket/Base64.antt =====
-- crates/websocket/src/ws.rs: `base64_encode`.
pub mod Decode
use easy_connection.Prelude.{ℕ, zero, suc, ◌+◌, ◌*◌, ◌/◌, ◌%◌, List, [], ◌∷◌, get_or, Bytes}
use easy_connection.Prelude.Text.{Str, codes}

abbrev pub alphabet : Str
alphabet = codes "ABCDEFGHIJKLMNOPQRSTUVWXYZabcdefghijklmnopqrstuvwxyz0123456789+/"

-- `T[(n >> shift) & 63]`, with the power of two that is shifted out.
unfoldable pub digit : ℕ → ℕ → ℕ
digit n power = get_or alphabet (n / power % 64) 0

abbrev pub group : ℕ → ℕ → ℕ → ℕ
group a b c = (a * 256 + b) * 256 + c

-- A chunk of three bytes at a time; the last may be shorter.
unfoldable pub base64_encode : Bytes → Str
unfolding digit
base64_encode [] = []
base64_encode (a ∷ []) = digit (group a 0 0) 262144 ∷ digit (group a 0 0) 4096 ∷ b'=' ∷ b'=' ∷ []
base64_encode (a ∷ b ∷ []) =
    digit (group a b 0) 262144 ∷ digit (group a b 0) 4096 ∷ digit (group a b 0) 64 ∷ b'=' ∷ []
base64_encode (a ∷ b ∷ c ∷ rest) =
    digit (group a b c) 262144
    ∷ digit (group a b c) 4096
    ∷ digit (group a b c) 64
    ∷ digit (group a b c) 1
    ∷ base64_encode rest
