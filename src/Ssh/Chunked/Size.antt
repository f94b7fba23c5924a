-- ===== src/Ssh/Chunked/Size.antt =====
-- Size lines, read back.
use easy_connection.Prelude.{
  ℕ, ◌+◌, ◌*◌, ◌≤◌, ◌<◌, ◌≡◌, ◌≢◌, refl, arith, false, List, [], ◌∷◌, map, All, some, ltb,
  if◌then◌else◌,
}
use easy_connection.Prelude.Text.{
  to_digit, is_whitespace, trim, trim_start_matches, trim_end_matches, split,
}
use easy_connection.Ssh.Chunked.{usize_values, read_digits, from_str_radix, read_size}

abbrev pub hex_digit : ℕ → ℕ
hex_digit d = if ltb d 10 then 48 + d else 87 + d

to_digit-hex_digit : (d : ℕ) → d < 16 → to_digit (hex_digit d) ≡ some d
unfolding to_digit
to_digit-hex_digit d h = ground arith

not_space : (d : ℕ) → d < 16 → is_whitespace (hex_digit d) ≡ false
unfolding is_whitespace
not_space d h = ground arith

-- The number of digits, the most significant one first, behind a number.
abbrev pub value : ℕ → List ℕ → ℕ
value n [] = n
value n (d ∷ ds) = value (n * 16 + d) ds

value-le : (n : ℕ) (ds : List ℕ) → n ≤ value n ds
value-le n [] = omega arith
value-le n (d ∷ ds) = omega (arith, value-le (n * 16 + d) ds)

read_digits-value :
    (n : ℕ) (ds : List ℕ)
    → All (λ d. d < 16) ds
    → value n ds < usize_values
    → read_digits n (map hex_digit ds) ≡ some (value n ds)
unfolding read_digits
read_digits-value n [] hs v = refl
read_digits-value n (d ∷ ds) (h, hs) v = ground (
  arith,
  to_digit-hex_digit d h,
  value-le (n * 16 + d) ds,
  read_digits-value (n * 16 + d) ds hs v,
)

from_str_radix-value :
    (ds : List ℕ)
    → ds ≢ []
    → All (λ d. d < 16) ds
    → value 0 ds < usize_values
    → from_str_radix (map hex_digit ds) ≡ some (value 0 ds)
unfolding from_str_radix
from_str_radix-value [] ne hs v = absurd (ne refl)
from_str_radix-value (d ∷ []) ne hs v = ground (arith, hs.0, read_digits-value 0 (d ∷ []) hs v)
from_str_radix-value (d ∷ e ∷ ds) ne hs v =
    ground (arith, hs.0, read_digits-value 0 (d ∷ e ∷ ds) hs v)

trim_start-digits :
    (ds : List ℕ)
    → All (λ d. d < 16) ds
    → trim_start_matches is_whitespace (map hex_digit ds) ≡ map hex_digit ds
unfolding trim_start_matches
trim_start-digits [] hs = refl
trim_start-digits (d ∷ ds) (h, hs) = simp (not_space d h) refl

trim_end-digits :
    (ds : List ℕ)
    → All (λ d. d < 16) ds
    → trim_end_matches is_whitespace (map hex_digit ds) ≡ map hex_digit ds
unfolding trim_end_matches
trim_end-digits [] hs = refl
trim_end-digits (d ∷ ds) (h, hs) = ground (arith, not_space d h, trim_end-digits ds hs)

trim-digits : (ds : List ℕ) → All (λ d. d < 16) ds → trim (map hex_digit ds) ≡ map hex_digit ds
unfolding trim
trim-digits ds hs = rw (trim_start-digits ds hs) (trim_end-digits ds hs)

split-digits :
    (ds : List ℕ) → All (λ d. d < 16) ds → split b';' (map hex_digit ds) ≡ map hex_digit ds ∷ []
unfolding split
split-digits [] hs = refl
split-digits (d ∷ ds) (h, hs) = ground (arith, h, split-digits ds hs)

-- Any hexadecimal digits, leading zeros among them, are read as their number.
pub read_size-value :
    (ds : List ℕ)
    → ds ≢ []
    → All (λ d. d < 16) ds
    → value 0 ds < usize_values
    → read_size (map hex_digit ds) ≡ some (value 0 ds)
unfolding read_size
read_size-value ds ne hs v =
    rw (trim-digits ds hs, split-digits ds hs, trim-digits ds hs) (from_str_radix-value ds ne hs v)
