-- ===== src/Websocket/Frame/RoundTrip.antt =====
-- A frame that was written is read back.
use easy_connection.Prelude.{
  ℕ, ◌+◌, ◌/◌, ◌%◌, ◌≡◌, ◌<◌, ◌≤◌, ◌∙◌, ap, inl, inr, refl, arith, Bool, false, Bool-cases, Option,
  none, some, [], ◌∷◌, ◌++◌, append_assoc, is_some, ltb, leb, ◌==◌, if◌then◌else◌, length, get_or,
  Bytes, IsBytes, u16_to_be, u16_from, ok,
}
use easy_connection.Prelude.Io.{Conn, Action, ◌>>=◌, pure}
use easy_connection.Prelude.Io.Steps.{bind_to, read_then}
use easy_connection.Websocket.Frame.{
  WsError, io, u64_to_be, from_be, apply_mask, mask_flag, len_bytes, masked_payload, frame_bytes,
  read_len, read_mask, unmask, read_payload, read_frame,
}
use easy_connection.Websocket.Frame.Xor.{apply_mask_twice, length-apply_mask}

abbrev pub conn : Bytes → Bytes → Conn
conn input out = record { incoming = input; outgoing = out; dialed = [] }

-- A mask has four bytes.
abbrev pub IsMask : Option Bytes → Type 0
IsMask none = Unit {0}
IsMask (some mask) = (length mask ≡ 4) × IsBytes mask

u64_back : (n : ℕ) → n ≤ 1000000 → from_be 0 (u64_to_be n) ≡ n
u64_back n h = omega arith

u16_back : (n : ℕ) → n ≤ 65535 → u16_from (n / 256 % 256) (n % 256) ≡ n
u16_back n h = omega arith

-- The second byte of a frame of this length, and the bytes of the length behind it.
abbrev second : ℕ → ℕ → ℕ
second flag len =
    if ltb len 126 then flag + len else if leb len 65535 then flag + 126 else flag + 127

abbrev extension : ℕ → Bytes
extension len = if ltb len 126 then [] else if leb len 65535 then u16_to_be len else u64_to_be len

len_bytes_split : (flag len : ℕ) → len_bytes flag len ≡ second flag len ∷ extension len
len_bytes_split flag len = ground arith

second_mask : (mask : Option Bytes) (len : ℕ) → leb 128 (second (mask_flag mask) len) ≡ is_some mask
second_mask none len = ground arith
second_mask (some m) len = ground arith

second_len : (mask : Option Bytes) (len : ℕ) → second (mask_flag mask) len % 128 ≡ second 0 len
second_len none len = ground arith
second_len (some m) len = ground arith

read_len-extension :
    (len : ℕ) (rest out : Bytes)
    → len ≤ 1000000
    → read_len (second 0 len) (conn (extension len ++ rest) out) ≡ (ok len, conn rest out)
unfolding read_len
read_len-extension len rest out h = elim (Bool-cases (ltb len 126)) [
  | inl e ↦
      let z : 0 + len ≡ len = omega arith in
      let a : (len == 126) ≡ false = ground arith in
      let b : (len == 127) ≡ false = ground arith in rw (e, z, a, b) refl
  | inr e ↦ elim (Bool-cases (leb len 65535)) [
    | inl f ↦
        rw (e, f)
          (read_then io 2 (λ b. pure (u16_from (get_or b 0 0) (get_or b 1 0))) (u16_to_be len) rest
              out [] refl
            ∙ ap (λ n. (ok n, conn rest out)) (u16_back len (ground arith)))
    | inr f ↦
        rw (e, f)
          (read_then io 8 (λ b. pure (from_be 0 b)) (u64_to_be len) rest out [] refl
            ∙ ap (λ n. (ok n, conn rest out)) (u64_back len h))
  ]
]

abbrev mask_prefix : Option Bytes → Bytes
mask_prefix none = []
mask_prefix (some mask) = mask

masked_split :
    (mask : Option Bytes) (payload rest : Bytes)
    → masked_payload mask payload ++ rest ≡ mask_prefix mask ++ (unmask mask payload ++ rest)
masked_split none payload rest = refl
masked_split (some mask) payload rest = append_assoc mask (apply_mask mask 0 payload) rest

read_mask-prefix :
    (mask : Option Bytes) (rest out : Bytes)
    → IsMask mask
    → read_mask (is_some mask) (conn (mask_prefix mask ++ rest) out) ≡ (ok mask, conn rest out)
unfolding read_mask
read_mask-prefix none rest out h = refl
read_mask-prefix (some mask) rest out (l, b) =
    read_then io 4 (λ m. pure (some m)) mask rest out [] l

unmask_twice :
    (mask : Option Bytes) (payload : Bytes)
    → IsMask mask
    → IsBytes payload
    → (unmask mask (unmask mask payload) ≡ payload)
      × (length (unmask mask payload) ≡ length payload)
unmask_twice none payload h p = (refl, refl)
unmask_twice (some mask) payload (l, b) p =
    (apply_mask_twice mask 0 payload b p, length-apply_mask mask 0 payload)

read_payload-unmask :
    (mask : Option Bytes) (payload rest out : Bytes)
    → IsMask mask
    → IsBytes payload
    → length payload ≤ 1000000
    → read_payload (length payload) mask (conn (unmask mask payload ++ rest) out)
      ≡ (ok payload, conn rest out)
unfolding read_payload
read_payload-unmask mask payload rest out m p h =
    let small : ltb 1000000 (length payload) ≡ false = ground arith in
    let (twice, l) = unmask_twice mask payload m p in
    rw small (
      read_then io (length payload) (λ b. pure (unmask mask b)) (unmask mask payload) rest out [] l
      ∙ ap (λ b. (ok b, conn rest out)) twice)

frame_split :
    (mask : Option Bytes) (opcode : ℕ) (payload rest : Bytes)
    → frame_bytes mask opcode payload ++ rest
      ≡ (0x80 + opcode)
        ∷ second (mask_flag mask) (length payload)
        ∷ (extension (length payload) ++ (mask_prefix mask ++ (unmask mask payload ++ rest)))
unfolding frame_bytes
frame_split mask opcode payload rest =
    ap (λ s. (0x80 + opcode) ∷ ((s ++ masked_payload mask payload) ++ rest))
      (len_bytes_split (mask_flag mask) (length payload))
    ∙ ap (λ s. (0x80 + opcode) ∷ second (mask_flag mask) (length payload) ∷ s)
        (append_assoc (extension (length payload)) (masked_payload mask payload) rest
          ∙ ap (λ s. extension (length payload) ++ s) (masked_split mask payload rest))

-- `read_frame` behind the first two bytes.
abbrev payload_of : ℕ → ℕ → Option Bytes → Action WsError (ℕ × Bytes)
payload_of first len mask = read_payload len mask >>= λ p. pure (first % 16, p)

abbrev mask_of : ℕ → Bool → ℕ → Action WsError (ℕ × Bytes)
mask_of first masked len = read_mask masked >>= payload_of first len

abbrev frame_of : ℕ → ℕ → Bool → Action WsError (ℕ × Bytes)
frame_of first len masked = read_len len >>= mask_of first masked

-- A frame that can be carried.
pub record IsFrame (mask : Option Bytes) (opcode : ℕ) (payload : Bytes) : Type 0 where
  pub opcode_u4 : opcode < 16
  pub mask_bytes : IsMask mask
  pub payload_bytes : IsBytes payload
  pub payload_fits : length payload ≤ 1000000

pub read_frame-frame_bytes :
    (mask : Option Bytes) (opcode : ℕ) (payload rest out : Bytes)
    → IsFrame mask opcode payload
    → read_frame (conn (frame_bytes mask opcode payload ++ rest) out)
      ≡ (ok (opcode, payload), conn rest out)
unfolding read_frame
read_frame-frame_bytes mask opcode payload rest out f =
    let first = 0x80 + opcode in
    let len = length payload in
    let b = second (mask_flag mask) len in
    let behind = mask_prefix mask ++ (unmask mask payload ++ rest) in
    let c = conn (extension len ++ behind) out in
    ap (λ s. read_frame (conn s out)) (frame_split mask opcode payload rest)
    ∙ read_then io 2 (λ h. frame_of (get_or h 0 0) (get_or h 1 0 % 128) (leb 128 (get_or h 1 0)))
        (first ∷ b ∷ []) (extension len ++ behind) out [] refl
    ∙ ap (λ x. frame_of first x (leb 128 b) c) (second_len mask len)
    ∙ ap (λ x. frame_of first (second 0 len) x c) (second_mask mask len)
    ∙ bind_to (read_len (second 0 len)) (mask_of first (is_some mask)) c len (conn behind out)
        (read_len-extension len behind out f.payload_fits)
    ∙ bind_to (read_mask (is_some mask)) (payload_of first len) (conn behind out) mask
        (conn (unmask mask payload ++ rest) out)
        (read_mask-prefix mask (unmask mask payload ++ rest) out f.mask_bytes)
    ∙ bind_to (read_payload len mask) (λ p. pure (first % 16, p))
        (conn (unmask mask payload ++ rest) out) payload (conn rest out)
        (read_payload-unmask mask payload rest out f.mask_bytes f.payload_bytes f.payload_fits)
    ∙ ap (λ n. (ok (n, payload), conn rest out)) (low_bits opcode f.opcode_u4)
  where
    low_bits : (n : ℕ) → n < 16 → (0x80 + n) % 16 ≡ n
    low_bits n h = omega arith
