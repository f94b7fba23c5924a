-- ===== src/Config/MessagePack.antt =====
-- crates/config/src/smart_link.rs: `Packed` and `PackedParser`. The parser is the bytes behind its
-- position; a `String` is its UTF-8 bytes, and the test for UTF-8 is a parameter. Instead of the
-- depth a reader takes how many levels are left, so that it has no fuel.
pub mod Writer
pub mod Heads
pub mod RoundTrip
use easy_connection.Prelude.{
  ℕ, zero, suc, ◌+◌, ◌-◌, ◌*◌, Bool, List, [], ◌∷◌, ◌==◌, ltb, leb, if◌then◌else◌, length, take,
  drop, Bytes, Result, ok, err, eq_bytes, ◌||◌,
}

-- An i64: `pos n` is n and `negsuc n` is - n - 1.
pub data ℤ : Type 0 where
  pos : ℕ → ℤ
  negsuc : ℕ → ℤ

mutual
  pub data Packed : Type 0 where
    int : ℤ → Packed
    str : Bytes → Packed
    bytes : Bytes → Packed
    array : Items → Packed
    map : Fields → Packed
    other : Packed

  pub data Items : Type 0 where
    nil : Items
    cons : Packed → Items → Items

  -- The entries of a map.
  pub data Fields : Type 0 where
    end : Fields
    field : Bytes → Packed → Fields → Fields

-- One for each text of `import_error`.
pub data ImportError : Type 0 where
  link_too_long invalid_url not_http not_smart_link invalid_encoding not_utf8 : ImportError
  invalid_base64 invalid_length unsupported_envelope invalid_compressed too_large : ImportError
  trailing_payload no_config unsupported_version invalid_port invalid_flags invalid_delay :
      ImportError
  invalid_host invalid_host_count invalid_path credentials_too_long : ImportError
  missing_field not_object not_string not_integer not_array : ImportError
  truncated invalid_utf8 array_too_large object_too_large invalid_key too_deep : ImportError
  invalid_packed_integer unsupported_tag : ImportError

abbrev pub Reader : Type 0 → Type 0
Reader A = Bytes → Result (A × Bytes) ImportError

abbrev pub go_on :
    {A B : Type 0}
    → (A → Reader B)
    → Result (A × Bytes) ImportError
    → Result (B × Bytes) ImportError
go_on f (ok (a, rest)) = f a rest
go_on f (err e) = err e

infixl 5 ◌>>=◌
abbrev pub ◌>>=◌ : {A B : Type 0} → Reader A → (A → Reader B) → Reader B
◌>>=◌ m f input = go_on f (m input)

abbrev pub pure : {A : Type 0} → A → Reader A
pure a input = ok (a, input)

abbrev pub throw : {A : Type 0} → ImportError → Reader A
throw e input = err e

-- `PackedParser::take`; the counts are of 16 bits at most, so that `checked_add` does not fail.
abbrev pub take_bytes : ℕ → Reader Bytes
take_bytes count input =
    if ltb (length input) count then err truncated else ok (take count input, drop count input)

abbrev pub first : Bytes → ℕ
first [] = 0
first (b ∷ _) = b

abbrev pub byte : Reader ℕ
byte = take_bytes 1 >>= λ b. pure (first b)

-- `(value << 8) | byte`, for at most four bytes.
abbrev pub fold_bytes : ℕ → Bytes → ℕ
fold_bytes value [] = value
fold_bytes value (b ∷ bs) = fold_bytes (value * 256 + b) bs

abbrev pub number : ℕ → Reader ℕ
number count = take_bytes count >>= λ b. pure (fold_bytes 0 b)

abbrev pub int_of : ℕ → Reader Packed
int_of n = pure (int (pos n))

module _ (is_utf8 : Bytes → Bool) where
  abbrev pub string : ℕ → Reader Packed
  string count = take_bytes count >>= λ b. if is_utf8 b then pure (str b) else throw invalid_utf8

abbrev pub bin : ℕ → Reader Packed
bin count = take_bytes count >>= λ b. pure (bytes b)

abbrev pub key_of : Packed → Reader Bytes
key_of (str key) = pure key
key_of _ = throw invalid_key

module _ (read : Reader Packed) where
  unfoldable pub items : ℕ → Reader Items
  items zero = pure nil
  items (suc count) = do v ← read; vs ← items count; pure (cons v vs)

  unfoldable pub fields : ℕ → Reader Fields
  fields zero = pure end
  fields (suc count) = do
    k ← read
    key ← key_of k
    v ← read
    rest ← fields count
    pure (field key v rest)

  unfoldable pub read_array : ℕ → Reader Packed
  unfolding items
  read_array count =
      if ltb 256 count then throw array_too_large else items count >>= λ vs. pure (array vs)

  unfoldable pub read_map : ℕ → Reader Packed
  unfolding fields
  read_map count =
      if ltb 256 count then throw object_too_large else fields count >>= λ es. pure (map es)

  abbrev pub packed_integer : ℕ → Packed → Reader Packed
  packed_integer kind (bytes (b ∷ [])) =
      if kind == 16 then int_of b else throw invalid_packed_integer
  packed_integer kind (bytes (hi ∷ lo ∷ [])) =
      if kind == 17 then int_of (hi * 256 + lo) else throw invalid_packed_integer
  packed_integer kind _ = throw invalid_packed_integer

  -- The extension 0xd4: a kind, a byte, and a bin value.
  unfoldable pub read_extension : Reader Packed
  read_extension = do kind ← byte; _ ← take_bytes 1; v ← read; packed_integer kind v

module _ (is_utf8 : Bytes → Bool) where
  -- The tags from 0xc0 to 0xdf.
  unfoldable pub read_long : Reader Packed → ℕ → Reader Packed
  unfolding read_array read_map read_extension
  read_long read tag =
      if tag == 0xc0 || (tag == 0xc2 || tag == 0xc3)
      then pure other
      else if tag == 0xc4
      then byte >>= bin
      else if tag == 0xc5
      then number 2 >>= bin
      else if tag == 0xcc || tag == 0xd0
      then number 1 >>= int_of
      else if tag == 0xcd || tag == 0xd1
      then number 2 >>= int_of
      else if tag == 0xce || tag == 0xd2
      then number 4 >>= int_of
      else if tag == 0xd9
      then byte >>= string is_utf8
      else if tag == 0xda
      then number 2 >>= string is_utf8
      else if tag == 0xdc
      then number 2 >>= read_array read
      else if tag == 0xde
      then number 2 >>= read_map read
      else if tag == 0xd4
      then read_extension read
      else throw unsupported_tag

  unfoldable pub on_tag : Reader Packed → ℕ → Reader Packed
  unfolding read_long read_array read_map
  on_tag read tag =
      if ltb tag 0x80
      then int_of tag
      else if leb 0xe0 tag
      then pure (int (negsuc (255 - tag)))
      else if ltb tag 0x90
      then read_map read (tag - 0x80)
      else if ltb tag 0xa0
      then read_array read (tag - 0x90)
      else if ltb tag 0xc0
      then string is_utf8 (tag - 0xa0)
      else read_long read tag

  -- `read(depth)`, with `max_depth + 1 - depth` levels left.
  unfoldable pub read_levels : ℕ → Reader Packed
  unfolding on_tag
  read_levels zero = throw too_deep
  read_levels (suc levels) = byte >>= on_tag (read_levels levels)

abbrev pub max_depth : ℕ
max_depth = 32
