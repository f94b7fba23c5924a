-- ===== src/Config/MessagePack/RoundTrip.antt =====
-- What the parser reads of what the writer has written.
use mathlib.Core.Path.{subst}
use easy_connection.Prelude.{
  ℕ, zero, suc, ◌-◌, ◌≤◌, ◌<◌, ◌≡◌, ◌∙◌, refl, ap, arith, Bool, ◌++◌, length, Bytes, ok,
  append_assoc,
}
use easy_connection.Config.MessagePack.{
  Packed, int, str, bytes, array, map, other, Items, nil, cons, Fields, end, field, Reader, string,
  bin, items, fields, read_array, read_map, on_tag, read_levels,
}
use easy_connection.Config.MessagePack.Writer.{
  count, count_fields, head, head2, encode_str, encode_bin, encode, encode_items, encode_fields,
  IsText, IsPackable, ArePackable, AreFields,
}
use easy_connection.Config.MessagePack.Heads.{
  bind_ok, string_front, bin_front, on_int, on_head, on_head2, on_byte, not_below, short_str,
  short_array, short_map, tagged,
}

module _ (is_utf8 : Bytes → Bool) (read : Reader Packed) where
  on_str :
      (s rest : Bytes)
      → IsText is_utf8 s
      → on_byte is_utf8 read (encode_str s ++ rest) ≡ ok (str s, rest)
  unfolding on_tag
  on_str s rest (e, h) =
      ap (on_byte is_utf8 read) (append_assoc (head 0xa0 32 0xd9 0xda (length s)) s rest)
      ∙ (on_head is_utf8 read 0xa0 32 0xd9 0xda (length s) (string is_utf8) (s ++ rest) h
            (short_str is_utf8 read (length s)) refl refl
          ∙ string_front is_utf8 read s rest e)

  on_bin :
      (b rest : Bytes)
      → length b < 65536
      → on_byte is_utf8 read (encode_bin b ++ rest) ≡ ok (bytes b, rest)
  unfolding on_tag
  on_bin b rest h =
      ap (on_byte is_utf8 read) (append_assoc (head 0 0 0xc4 0xc5 (length b)) b rest)
      ∙ (on_head is_utf8 read 0 0 0xc4 0xc5 (length b) bin (b ++ rest) h
            (λ l. absurd (omega (arith, l))) refl refl
          ∙ bin_front is_utf8 read b rest)

  on_array :
      (vs : Items) (rest : Bytes)
      → count vs ≤ 256
      → items read (count vs) (encode_items vs ++ rest) ≡ ok (vs, rest)
      → on_byte is_utf8 read (encode (array vs) ++ rest) ≡ ok (array vs, rest)
  unfolding on_tag encode read_array
  on_array vs rest h e =
      ap (on_byte is_utf8 read) (append_assoc (head2 0x90 0xdc (count vs)) (encode_items vs) rest)
      ∙ (on_head2 is_utf8 read 0x90 0xdc (count vs) (read_array read) (encode_items vs ++ rest)
            (omega (arith, h)) (short_array is_utf8 read (count vs)) refl
          ∙ simp (not_below 256 (count vs) h)
              (bind_ok (items read (count vs)) _ (encode_items vs ++ rest) vs rest e))

  on_map :
      (es : Fields) (rest : Bytes)
      → count_fields es ≤ 256
      → fields read (count_fields es) (encode_fields es ++ rest) ≡ ok (es, rest)
      → on_byte is_utf8 read (encode (map es) ++ rest) ≡ ok (map es, rest)
  unfolding on_tag encode read_map
  on_map es rest h e =
      ap (on_byte is_utf8 read)
        (append_assoc (head2 0x80 0xde (count_fields es)) (encode_fields es) rest)
      ∙ (on_head2 is_utf8 read 0x80 0xde (count_fields es) (read_map read)
            (encode_fields es ++ rest) (omega (arith, h)) (short_map is_utf8 read (count_fields es))
            refl
          ∙ simp (not_below 256 (count_fields es) h)
              (bind_ok (fields read (count_fields es)) _ (encode_fields es ++ rest) es rest e))

  items_step :
      (n : ℕ) (v : Packed) (vs : Items) (a b rest : Bytes)
      → read (a ++ (b ++ rest)) ≡ ok (v, b ++ rest)
      → items read n (b ++ rest) ≡ ok (vs, rest)
      → items read (suc n) ((a ++ b) ++ rest) ≡ ok (cons v vs, rest)
  unfolding items
  items_step n v vs a b rest e f =
      ap (items read (suc n)) (append_assoc a b rest)
      ∙ (bind_ok read _ (a ++ (b ++ rest)) v (b ++ rest) e
          ∙ bind_ok (items read n) _ (b ++ rest) vs rest f)

  fields_step :
      (n : ℕ) (k : Bytes) (v : Packed) (es : Fields) (a b c rest : Bytes)
      → read (a ++ (b ++ (c ++ rest))) ≡ ok (str k, b ++ (c ++ rest))
      → read (b ++ (c ++ rest)) ≡ ok (v, c ++ rest)
      → fields read n (c ++ rest) ≡ ok (es, rest)
      → fields read (suc n) ((a ++ (b ++ c)) ++ rest) ≡ ok (field k v es, rest)
  unfolding fields
  fields_step n k v es a b c rest d e f =
      ap (fields read (suc n)) (append_assoc a (b ++ c) rest ∙ ap (◌++◌ a) (append_assoc b c rest))
      ∙ (bind_ok read _ (a ++ (b ++ (c ++ rest))) (str k) (b ++ (c ++ rest)) d
          ∙ (bind_ok read _ (b ++ (c ++ rest)) v (c ++ rest) e
              ∙ bind_ok (fields read n) _ (c ++ rest) es rest f))

less : (n : ℕ) → suc n - 1 ≡ n
less n = omega arith

module _ (is_utf8 : Bytes → Bool) where
  positive : (levels : ℕ) (v : Packed) → IsPackable is_utf8 levels v → 0 < levels
  positive levels (int i) p = p.0
  positive levels (str s) p = p.0
  positive levels (bytes b) p = p.0
  positive levels (array vs) p = p.0
  positive levels (map es) p = p.0
  positive levels other p = p

  read_key :
      (levels : ℕ) (k rest : Bytes)
      → 0 < levels
      → IsText is_utf8 k
      → read_levels is_utf8 levels (encode_str k ++ rest) ≡ ok (str k, rest)
  unfolding read_levels
  read_key zero k rest h t = absurd (omega (arith, h))
  read_key (suc levels) k rest h t = on_str is_utf8 (read_levels is_utf8 levels) k rest t

  on_nil :
      (levels : ℕ) (rest : Bytes)
      → on_tag is_utf8 (read_levels is_utf8 levels) 0xc0 rest ≡ ok (other, rest)
  unfolding on_tag
  on_nil levels rest = refl

  mutual
    unfolding read_levels encode items fields

    reads :
        (levels : ℕ) (v : Packed) (rest : Bytes)
        → IsPackable is_utf8 levels v
        → read_levels is_utf8 levels (encode v ++ rest) ≡ ok (v, rest)
    reads zero v rest p = absurd (omega (arith, positive zero v p))
    reads (suc levels) (int i) rest p = on_int is_utf8 (read_levels is_utf8 levels) i rest p.1
    reads (suc levels) (str s) rest p = on_str is_utf8 (read_levels is_utf8 levels) s rest p.1
    reads (suc levels) (bytes b) rest p = on_bin is_utf8 (read_levels is_utf8 levels) b rest p.1
    reads (suc levels) (array vs) rest p =
        on_array is_utf8 (read_levels is_utf8 levels) vs rest p.1
          (reads_items levels vs rest (subst (λ n. ArePackable is_utf8 n vs) (less levels) p.2))
    reads (suc levels) (map es) rest p =
        on_map is_utf8 (read_levels is_utf8 levels) es rest p.1
          (reads_fields levels es rest (subst (λ n. AreFields is_utf8 n es) (less levels) p.2))
    reads (suc levels) other rest p =
        tagged is_utf8 (read_levels is_utf8 levels) 0xc0 rest ∙ on_nil levels rest

    reads_items :
        (levels : ℕ) (vs : Items) (rest : Bytes)
        → ArePackable is_utf8 levels vs
        → items (read_levels is_utf8 levels) (count vs) (encode_items vs ++ rest) ≡ ok (vs, rest)
    reads_items levels nil rest p = refl
    reads_items levels (cons v vs) rest p =
        items_step is_utf8 (read_levels is_utf8 levels) (count vs) v vs (encode v) (encode_items vs)
          rest (reads levels v (encode_items vs ++ rest) p.0) (reads_items levels vs rest p.1)

    reads_fields :
        (levels : ℕ) (es : Fields) (rest : Bytes)
        → AreFields is_utf8 levels es
        → fields (read_levels is_utf8 levels) (count_fields es) (encode_fields es ++ rest)
          ≡ ok (es, rest)
    reads_fields levels end rest p = refl
    reads_fields levels (field k v es) rest p =
        fields_step is_utf8 (read_levels is_utf8 levels) (count_fields es) k v es (encode_str k)
          (encode v) (encode_fields es) rest
          (read_key levels k (encode v ++ (encode_fields es ++ rest)) (positive levels v p.1) p.0)
          (reads levels v (encode_fields es ++ rest) p.1) (reads_fields levels es rest p.2)

  -- The parser reads back what the writer has written, and leaves what follows it: integers from
  -- - 32 to 2 ^ 32 - 1, strings and bytes of less than 2 ^ 16 bytes, arrays and maps of at most 256
  -- entries, nested as deep as the levels that are left allow.
  pub read_levels-encode :
      (levels : ℕ) (v : Packed) (rest : Bytes)
      → IsPackable is_utf8 levels v
      → read_levels is_utf8 levels (encode v ++ rest) ≡ ok (v, rest)
  read_levels-encode levels v rest p = reads levels v rest p
