-- ===== src/Config/MessagePack/Heads.antt =====
-- What the parser does with a tag and the count behind it.
use easy_connection.Prelude.{
  ℕ, ◌+◌, ◌-◌, ◌≤◌, ◌<◌, ◌≡◌, ◌∙◌, refl, ap, arith, lt→ltb, ltb→lt, Bool, true, false, [], ◌∷◌,
  ◌++◌, ltb, leb, length, Bytes, ok, u16_to_be, u32_to_be, take-append, drop-append, length-append,
  Bool-cases, inl, inr,
}
use easy_connection.Config.MessagePack.{
  ℤ, pos, negsuc, Packed, int, str, bytes, Reader, pure, go_on, ◌>>=◌, take_bytes, first, byte,
  fold_bytes, number, string, bin, read_array, read_map, on_tag, int_of,
}
use easy_connection.Config.MessagePack.Writer.{head, head2, encode_int, InRange}

take_front : (xs rest : Bytes) → take_bytes (length xs) (xs ++ rest) ≡ ok (xs, rest)
take_front xs rest = ground (arith, length-append xs rest, take-append xs rest, drop-append xs rest)

pub bind_ok :
    {A B : Type 0} (m : Reader A) (f : A → Reader B) (input : Bytes) (a : A) (rest : Bytes)
    → m input ≡ ok (a, rest)
    → (m >>= f) input ≡ f a rest
bind_ok m f input a rest e = ap (go_on f) e

byte_front : (b : ℕ) (rest : Bytes) → byte (b ∷ rest) ≡ ok (b, rest)
byte_front b rest =
    bind_ok (take_bytes 1) (λ x. pure (first x)) (b ∷ rest) (b ∷ []) rest (take_front (b ∷ []) rest)

number_front :
    (b rest : Bytes) (n : ℕ) → fold_bytes 0 b ≡ n → number (length b) (b ++ rest) ≡ ok (n, rest)
number_front b rest n e =
    bind_ok (take_bytes (length b)) (λ x. pure (fold_bytes 0 x)) (b ++ rest) b rest
      (take_front b rest)
    ∙ ap (λ m. ok (m, rest)) e

number_two : (n : ℕ) (rest : Bytes) → n < 65536 → number 2 (u16_to_be n ++ rest) ≡ ok (n, rest)
number_two n rest h = number_front (u16_to_be n) rest n (omega (arith, h))

number_four :
    (n : ℕ) (rest : Bytes) → n < 4294967296 → number 4 (u32_to_be n ++ rest) ≡ ok (n, rest)
number_four n rest h = number_front (u32_to_be n) rest n (omega (arith, h))

pub not_below : (a b : ℕ) → b ≤ a → ltb a b ≡ false
not_below a b h = ground (arith, h)

not_from : (a b : ℕ) → b < a → leb a b ≡ false
not_from a b h = ground (arith, h)

module _ (is_utf8 : Bytes → Bool) (read : Reader Packed) where
  pub string_front :
      (s rest : Bytes) → is_utf8 s ≡ true → string is_utf8 (length s) (s ++ rest) ≡ ok (str s, rest)
  string_front s rest e =
      bind_ok (take_bytes (length s)) _ (s ++ rest) s rest (take_front s rest) ∙ simp e refl

  pub bin_front : (b rest : Bytes) → bin (length b) (b ++ rest) ≡ ok (bytes b, rest)
  bin_front b rest = bind_ok (take_bytes (length b)) _ (b ++ rest) b rest (take_front b rest)

  -- What the tag decides, and the counts that follow it.
  abbrev pub on_byte : Reader Packed
  on_byte = byte >>= on_tag is_utf8 read

  pub tagged : (tag : ℕ) (rest : Bytes) → on_byte (tag ∷ rest) ≡ on_tag is_utf8 read tag rest
  tagged tag rest = bind_ok byte (on_tag is_utf8 read) (tag ∷ rest) tag rest (byte_front tag rest)

  short_int : (n : ℕ) → n < 128 → on_tag is_utf8 read n ≡ int_of n
  unfolding on_tag
  short_int n h = simp (lt→ltb n 128 h) refl

  negative :
      (n : ℕ) → n < 32 → on_tag is_utf8 read (255 - n) ≡ pure (int (negsuc (255 - (255 - n))))
  unfolding on_tag
  negative n h = ground (arith, h)

  one_byte : (n : ℕ) (rest : Bytes) → number 1 (n ∷ rest) ≡ ok (n, rest)
  one_byte n rest = number_front (n ∷ []) rest n (omega arith)

  pub on_int :
      (i : ℤ) (rest : Bytes) → InRange i → on_byte (encode_int i ++ rest) ≡ ok (int i, rest)
  unfolding on_tag
  on_int (negsuc n) rest h =
      tagged (255 - n) rest
      ∙ ap (λ r. r rest) (negative n h)
      ∙ ap (λ m. ok (int (negsuc m), rest)) (omega (arith, h))
  on_int (pos n) rest h = elim (Bool-cases (ltb n 128)) [
    | inl e ↦ simp e (tagged n rest ∙ ap (λ r. r rest) (short_int n (ltb→lt n 128 e)))
    | inr e ↦ elim (Bool-cases (ltb n 256)) [
      | inl f ↦
          simp (e, f)
            (tagged 0xcc (n ∷ rest) ∙ bind_ok (number 1) int_of (n ∷ rest) n rest (one_byte n rest))
      | inr f ↦ elim (Bool-cases (ltb n 65536)) [
        | inl g ↦
            simp (e, f, g)
              (tagged 0xcd (u16_to_be n ++ rest)
                ∙ bind_ok (number 2) int_of (u16_to_be n ++ rest) n rest
                    (number_two n rest (ltb→lt n 65536 g)))
        | inr g ↦
            simp (e, f, g)
              (tagged 0xce (u32_to_be n ++ rest)
                ∙ bind_ok (number 4) int_of (u32_to_be n ++ rest) n rest (number_four n rest h))
      ]
    ]
  ]

  pub short_str : (n : ℕ) → n < 32 → on_tag is_utf8 read (0xa0 + n) ≡ string is_utf8 n
  unfolding on_tag
  short_str n h =
      simp
        (
          not_below (0xa0 + n) 0x80 (omega arith),
          not_from 0xe0 (0xa0 + n) (omega (arith, h)),
          not_below (0xa0 + n) 0x90 (omega arith),
          not_below (0xa0 + n) 0xa0 (omega arith),
          lt→ltb (0xa0 + n) 0xc0 (omega (arith, h)),
        )
        (ap (string is_utf8) (omega arith))

  pub short_array : (n : ℕ) → n < 16 → on_tag is_utf8 read (0x90 + n) ≡ read_array read n
  unfolding on_tag
  short_array n h =
      simp
        (
          not_below (0x90 + n) 0x80 (omega arith),
          not_from 0xe0 (0x90 + n) (omega (arith, h)),
          not_below (0x90 + n) 0x90 (omega arith),
          lt→ltb (0x90 + n) 0xa0 (omega (arith, h)),
        )
        (ap (read_array read) (omega arith))

  pub short_map : (n : ℕ) → n < 16 → on_tag is_utf8 read (0x80 + n) ≡ read_map read n
  unfolding on_tag
  short_map n h =
      simp
        (
          not_below (0x80 + n) 0x80 (omega arith),
          not_from 0xe0 (0x80 + n) (omega (arith, h)),
          lt→ltb (0x80 + n) 0x90 (omega (arith, h)),
        )
        (ap (read_map read) (omega arith))

  -- A head is read, and then the reader that goes with it.
  pub on_head :
      (short limit one two n : ℕ) (f : ℕ → Reader Packed) (rest : Bytes)
      → n < 65536
      → (n < limit → on_tag is_utf8 read (short + n) ≡ f n)
      → on_tag is_utf8 read one ≡ (byte >>= f)
      → on_tag is_utf8 read two ≡ (number 2 >>= f)
      → on_byte (head short limit one two n ++ rest) ≡ f n rest
  on_head short limit one two n f rest h s o t = elim (Bool-cases (ltb n limit)) [
    | inl e ↦ simp e (tagged (short + n) rest ∙ ap (λ r. r rest) (s (ltb→lt n limit e)))
    | inr e ↦ elim (Bool-cases (ltb n 256)) [
      | inl g ↦
          simp (e, g)
            (tagged one (n ∷ rest)
              ∙ (ap (λ r. r (n ∷ rest)) o ∙ bind_ok byte f (n ∷ rest) n rest (byte_front n rest)))
      | inr g ↦
          simp (e, g)
            (tagged two (u16_to_be n ++ rest)
              ∙ (ap (λ r. r (u16_to_be n ++ rest)) t
                  ∙ bind_ok (number 2) f (u16_to_be n ++ rest) n rest (number_two n rest h)))
    ]
  ]

  pub on_head2 :
      (short two n : ℕ) (f : ℕ → Reader Packed) (rest : Bytes)
      → n < 65536
      → (n < 16 → on_tag is_utf8 read (short + n) ≡ f n)
      → on_tag is_utf8 read two ≡ (number 2 >>= f)
      → on_byte (head2 short two n ++ rest) ≡ f n rest
  on_head2 short two n f rest h s t = elim (Bool-cases (ltb n 16)) [
    | inl e ↦ simp e (tagged (short + n) rest ∙ ap (λ r. r rest) (s (ltb→lt n 16 e)))
    | inr e ↦ simp e (
        tagged two (u16_to_be n ++ rest)
        ∙ (ap (λ r. r (u16_to_be n ++ rest)) t
            ∙ bind_ok (number 2) f (u16_to_be n ++ rest) n rest (number_two n rest h)))
  ]
