-- ===== src/Ssh/Chunked.antt =====
-- crates/ssh/src/zones.rs: `decode_chunked`, with the arithmetic of a release build on 64 bits. What
-- `str::from_utf8` reads is a parameter.
pub mod Size
pub mod RoundTrip
use easy_connection.Prelude.{
  ℕ, zero, suc, ◌+◌, ◌-◌, ◌*◌, ◌%◌, Bool, ◌&&◌, Option, none, some, List, [], ◌∷◌, ◌++◌, ◌==◌, ltb,
  leb, if◌then◌else◌, length, take, drop, Bytes,
}
use easy_connection.Prelude.Text.{Str, to_digit, trim, split}

-- 2 ^ 64.
abbrev pub usize_values : ℕ
usize_values = 18_446_744_073_709_551_616

-- The digits of a usize behind those that have been read; none if it is too large.
unfoldable pub read_digits : ℕ → Str → Option ℕ
read_digits n [] = some n
read_digits n (c ∷ s) = elim (to_digit c) [
  | none ↦ none
  | some d ↦ if leb usize_values (n * 16 + d) then none else read_digits (n * 16 + d) s
]

-- `usize::from_str_radix(s, 16)`.
unfoldable pub from_str_radix : Str → Option ℕ
unfolding read_digits
from_str_radix [] = none
from_str_radix (c ∷ []) = if c == b'+' then none else read_digits 0 (c ∷ [])
from_str_radix (c ∷ d ∷ s) = read_digits 0 (if c == b'+' then d ∷ s else c ∷ d ∷ s)

abbrev pub first_piece : List Str → Str
first_piece [] = []
first_piece (s ∷ _) = s

unfoldable pub read_size : Str → Option ℕ
unfolding trim split from_str_radix
read_size line = from_str_radix (trim (first_piece (split b';' (trim line))))

abbrev pub behind : ℕ → Option (Bytes × Bytes) → Option (Bytes × Bytes)
behind b none = none
behind b (some (line, rest)) = some (b ∷ line, rest)

-- What stands in front of the first line break, and behind it.
unfoldable pub cut_line : Bytes → Option (Bytes × Bytes)
cut_line [] = none
cut_line (a ∷ []) = none
cut_line (a ∷ b ∷ bs) =
    let rest = cut_line (b ∷ bs) in if (a == 13) && (b == 10) then some ([], bs) else behind a rest

-- `None`, or a slice out of range.
pub data Decoded : Type 0 where
  whole : Bytes → Decoded
  malformed : Decoded
  panics : Decoded

abbrev pub extend : Bytes → Decoded → Decoded
extend body (whole out) = whole (body ++ out)
extend body malformed = malformed
extend body panics = panics

-- The body of a chunk of a size, and what decoding the rest gives. Where `size + 2` wraps round, the
-- test of the length passes and `&rest[..size]` is out of range.
unfoldable pub on_size : ℕ → Bytes → Decoded → Decoded
on_size size rest later =
    if size == 0
    then whole []
    else if ltb (length rest) ((size + 2) % usize_values)
    then malformed
    else if ltb (length rest) (size + 2)
    then panics
    else extend (take size rest) later

abbrev pub size_of_text : Option Str → Option ℕ
size_of_text none = none
size_of_text (some s) = read_size s

-- The `?` behind the size.
abbrev pub on_read : (ℕ → Decoded) → Bytes → Option ℕ → Decoded
on_read next rest none = malformed
on_read next rest (some size) = on_size size rest (next size)

module _ (from_utf8 : Bytes → Option Str) where
  -- The rest of a round behind the search for the line break; `next` decodes what follows a chunk.
  abbrev pub on_cut : (ℕ → Bytes → Decoded) → Option (Bytes × Bytes) → Decoded
  on_cut next none = malformed
  on_cut next (some (line, rest)) =
      on_read (λ size. next size rest) rest (size_of_text (from_utf8 line))

  -- The loop, with more rounds than there are bytes.
  unfoldable pub decode_from : ℕ → Bytes → Decoded
  decode_from zero rest = malformed
  decode_from (suc rounds) rest =
      on_cut (λ size tail. decode_from rounds (drop (size + 2) tail)) (cut_line rest)

  unfoldable pub decode_chunked : Bytes → Decoded
  unfolding decode_from
  decode_chunked input = decode_from (suc (length input)) input
