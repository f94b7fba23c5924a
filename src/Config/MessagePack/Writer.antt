-- ===== src/Config/MessagePack/Writer.antt =====
-- A writer of MessagePack in its shortest forms, and the values that it is for.
use easy_connection.Prelude.{
  ℕ, suc, ◌+◌, ◌-◌, ◌≤◌, ◌<◌, ◌≡◌, Bool, true, [], ◌∷◌, ◌++◌, ltb, if◌then◌else◌, length, Bytes,
  u16_to_be, u32_to_be,
}
use easy_connection.Config.MessagePack.{
  ℤ, pos, negsuc, Packed, int, str, bytes, array, map, other, Items, nil, cons, Fields, end, field,
}

abbrev pub count : Items → ℕ
count nil = 0
count (cons v vs) = suc (count vs)

abbrev pub count_fields : Fields → ℕ
count_fields end = 0
count_fields (field k v es) = suc (count_fields es)

-- A head with its length in the tag, in a byte, or in two.
abbrev pub head : ℕ → ℕ → ℕ → ℕ → ℕ → Bytes
head short limit one two n =
    if ltb n limit then (short + n) ∷ [] else if ltb n 256 then one ∷ n ∷ [] else two ∷ u16_to_be n

-- The same without the form of one byte.
abbrev pub head2 : ℕ → ℕ → ℕ → Bytes
head2 short two n = if ltb n 16 then (short + n) ∷ [] else two ∷ u16_to_be n

abbrev pub encode_int : ℤ → Bytes
encode_int (pos n) =
    if ltb n 128
    then n ∷ []
    else if ltb n 256
    then 0xcc ∷ n ∷ []
    else if ltb n 65536
    then 0xcd ∷ u16_to_be n
    else 0xce ∷ u32_to_be n
encode_int (negsuc n) = (255 - n) ∷ []

abbrev pub encode_str : Bytes → Bytes
encode_str s = head 0xa0 32 0xd9 0xda (length s) ++ s

abbrev pub encode_bin : Bytes → Bytes
encode_bin b = head 0 0 0xc4 0xc5 (length b) ++ b

unfoldable mutual
  pub encode : Packed → Bytes
  encode (int i) = encode_int i
  encode (str s) = encode_str s
  encode (bytes b) = encode_bin b
  encode (array vs) = head2 0x90 0xdc (count vs) ++ encode_items vs
  encode (map es) = head2 0x80 0xde (count_fields es) ++ encode_fields es
  encode other = 0xc0 ∷ []

  pub encode_items : Items → Bytes
  encode_items nil = []
  encode_items (cons v vs) = encode v ++ encode_items vs

  pub encode_fields : Fields → Bytes
  encode_fields end = []
  encode_fields (field k v es) = encode_str k ++ (encode v ++ encode_fields es)

-- An integer from - 32 to 2 ^ 32 - 1.
abbrev pub InRange : ℤ → Type 0
InRange (pos n) = n < 4294967296
InRange (negsuc n) = n < 32

module _ (is_utf8 : Bytes → Bool) where
  abbrev pub IsText : Bytes → Type 0
  IsText s = (is_utf8 s ≡ true) × (length s < 65536)

  -- What fits in the forms that the parser reads, with that many levels at most.
  abbrev mutual
    pub IsPackable : ℕ → Packed → Type 0
    IsPackable levels (int i) = (0 < levels) × InRange i
    IsPackable levels (str s) = (0 < levels) × IsText s
    IsPackable levels (bytes b) = (0 < levels) × (length b < 65536)
    IsPackable levels (array vs) = (0 < levels) × (count vs ≤ 256) × ArePackable (levels - 1) vs
    IsPackable levels (map es) = (0 < levels) × (count_fields es ≤ 256) × AreFields (levels - 1) es
    IsPackable levels other = 0 < levels

    pub ArePackable : ℕ → Items → Type 0
    ArePackable levels nil = Unit
    ArePackable levels (cons v vs) = IsPackable levels v × ArePackable levels vs

    pub AreFields : ℕ → Fields → Type 0
    AreFields levels end = Unit
    AreFields levels (field k v es) = IsText k × IsPackable levels v × AreFields levels es
