-- ===== src/Websocket/Base64/Decode.antt =====
-- A decoder of base64 gives back what was encoded.
use easy_connection.Prelude.{
  ℕ, ◌+◌, ◌-◌, ◌*◌, ◌/◌, ◌%◌, ◌≡◌, ◌<◌, refl, ◌∙◌, arith, ap, Bool, true, false, not, [], ◌∷◌, ◌==◌,
  ==_iff, holds_below, holds_below_at, if◌then◌else◌, get_or, Bytes, IsBytes,
}
use easy_connection.Prelude.Text.{Str, within}
use easy_connection.Websocket.Base64.{alphabet, digit, group, base64_encode}

-- The value of a digit, as RFC 4648 has it.
abbrev pub value : ℕ → ℕ
value c =
    if within b'A' b'Z' c
    then c - 65
    else if within b'a' b'z' c
    then c - 71
    else if within b'0' b'9' c
    then c + 4
    else if c == b'+'
    then 62
    else 63

abbrev pub number : ℕ → ℕ → ℕ → ℕ → ℕ
number x y z w = ((value x * 64 + value y) * 64 + value z) * 64 + value w

-- The bytes of a number of 24 bits.
abbrev pub bytes_of : ℕ → Bytes → Bytes
bytes_of n rest = n / 65536 ∷ n / 256 % 256 ∷ n % 256 ∷ rest

-- Four digits at a time; the last group may be padded.
unfoldable pub base64_decode : Str → Bytes
base64_decode (x ∷ y ∷ z ∷ w ∷ rest) =
    let more = base64_decode rest in
    if z == b'='
    then (value x * 64 + value y) / 16 ∷ []
    else if w == b'='
    then (let n = (value x * 64 + value y) * 64 + value z in n / 1024 ∷ n / 4 % 256 ∷ [])
    else bytes_of (number x y z w) more
base64_decode _ = []

abbrev letter : ℕ → ℕ
letter n = get_or alphabet n 0

-- A digit has its value, and is not the padding.
value_table : holds_below (λ n. value (letter n) == n) 64 ≡ true
unfolding holds_below
value_table = refl

pad_table : holds_below (λ n. not (letter n == b'=')) 64 ≡ true
unfolding holds_below
pad_table = refl

small : (n : ℕ) → n % 64 < 64
small n = omega arith

value-digit : (n power : ℕ) → value (digit n power) ≡ n / power % 64
unfolding digit
value-digit n power = (==_iff _ _).0 (
    holds_below_at (λ n. value (letter n) == n) 64 (n / power % 64) (small (n / power)) value_table)

digit_pad : (n power : ℕ) → (digit n power == b'=') ≡ false
unfolding digit
digit_pad n power =
    negated _ (
      holds_below_at (λ n. not (letter n == b'=')) 64 (n / power % 64) (small (n / power))
        pad_table)
  where
    negated : (b : Bool) → not b ≡ true → b ≡ false
    negated true h = cc
    negated false h = refl

module _ (a b c : ℕ) (h : a < 256) (k : b < 256) (l : c < 256) where
  abbrev n : ℕ
  n = group a b c

  number_back : number (digit n 262144) (digit n 4096) (digit n 64) (digit n 1) ≡ n
  number_back =
      rw (value-digit n 262144, value-digit n 4096, value-digit n 64, value-digit n 1) (omega arith)

  bytes_of-group : (rest : Bytes) → bytes_of (group a b c) rest ≡ a ∷ b ∷ c ∷ rest
  bytes_of-group rest =
      let p : group a b c / 65536 ≡ a = omega arith in
      let q : group a b c / 256 % 256 ≡ b = omega arith in
      let r : group a b c % 256 ≡ c = omega arith in rw (p, q, r) refl

  full_group :
      (rest : Str)
      → base64_decode (digit n 262144 ∷ digit n 4096 ∷ digit n 64 ∷ digit n 1 ∷ rest)
        ≡ a ∷ b ∷ c ∷ base64_decode rest
  unfolding base64_decode
  full_group rest =
      rw (digit_pad n 64, digit_pad n 1)
        (ap (λ x. bytes_of x (base64_decode rest)) number_back
          ∙ bytes_of-group (base64_decode rest))

one_back :
    (a : ℕ)
    → a < 256
    → base64_decode (digit (group a 0 0) 262144 ∷ digit (group a 0 0) 4096 ∷ b'=' ∷ b'=' ∷ [])
      ≡ a ∷ []
unfolding base64_decode
one_back a h =
    let n = group a 0 0 in
    let e : (value (digit n 262144) * 64 + value (digit n 4096)) / 16 ≡ a =
      rw (value-digit n 262144, value-digit n 4096) (omega arith) in
    ap (λ x. x ∷ []) e

two_back :
    (a b : ℕ)
    → a < 256
    → b < 256
    → base64_decode
        (digit (group a b 0) 262144 ∷ digit (group a b 0) 4096 ∷ digit (group a b 0) 64 ∷ b'=' ∷ [])
      ≡ a ∷ b ∷ []
unfolding base64_decode
two_back a b h k =
    let n = group a b 0 in
    let m = (value (digit n 262144) * 64 + value (digit n 4096)) * 64 + value (digit n 64) in
    let e : m ≡ n / 64 =
      rw (value-digit n 262144, value-digit n 4096, value-digit n 64) (omega arith) in
    let p : m / 1024 ≡ a = omega arith in
    let q : m / 4 % 256 ≡ b = omega arith in
    rw (digit_pad n 64) (ap (λ x. x ∷ (m / 4 % 256) ∷ []) p ∙ ap (λ x. a ∷ x ∷ []) q)

-- Four digits at a time, with what the padding stands for, the decoder of RFC 4648 gives back the
-- bytes that were encoded.
pub base64_decode-base64_encode :
    (bytes : Bytes) → IsBytes bytes → base64_decode (base64_encode bytes) ≡ bytes
unfolding base64_encode
base64_decode-base64_encode [] h = unfold base64_decode in refl
base64_decode-base64_encode (a ∷ []) (h, _) = one_back a h
base64_decode-base64_encode (a ∷ b ∷ []) (h, (k, _)) = two_back a b h k
base64_decode-base64_encode (a ∷ b ∷ c ∷ rest) (h, (k, (l, more))) =
    full_group a b c h k l (base64_encode rest)
    ∙ ap (λ s. a ∷ b ∷ c ∷ s) (base64_decode-base64_encode rest more)
