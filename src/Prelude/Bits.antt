-- ===== src/Prelude/Bits.antt =====
-- Exclusive or on bytes.
use Prim.Native.Nat.{ℕ, ◌<◌, bit_xor}
use mathlib.Core.Path.{◌≡◌, refl}
use mathlib.Core.Bool.{Bool, true}
use easy_connection.Prelude.Tests.{ltb, ltb→lt, ◌==◌, ==_iff, holds_below, holds_below_at}

xor_back : ℕ → ℕ → Bool
xor_back m x = bit_xor (bit_xor x m) m == x

xor_table : holds_below (λ m. holds_below (xor_back m) 256) 256 ≡ true
unfolding holds_below xor_back
xor_table = refl

-- A byte that is masked twice comes back.
pub xor_twice : (x m : ℕ) → x < 256 → m < 256 → bit_xor (bit_xor x m) m ≡ x
unfolding xor_back
xor_twice x m h k = (==_iff (bit_xor (bit_xor x m) m) x).0 (
    holds_below_at (xor_back m) 256 x h
      (holds_below_at (λ n. holds_below (xor_back n) 256) 256 m k xor_table))

stays_byte : ℕ → ℕ → Bool
stays_byte m x = ltb (bit_xor x m) 256

byte_table : holds_below (λ m. holds_below (stays_byte m) 256) 256 ≡ true
unfolding holds_below stays_byte
byte_table = refl

pub xor_byte : (x m : ℕ) → x < 256 → m < 256 → bit_xor x m < 256
unfolding stays_byte
xor_byte x m h k = ltb→lt (bit_xor x m) 256 (
    holds_below_at (stays_byte m) 256 x h
      (holds_below_at (λ n. holds_below (stays_byte n) 256) 256 m k byte_table))
