-- ===== src/Prelude/Io.antt =====
-- A byte stream as its handler sees it: the bytes that are still to come, those written so far,
-- and the calls of the upstream connector. An action keeps the stream's state on an error too.
pub mod Steps
use easy_connection.Prelude.Lists.{length, take, drop, Bytes}
use easy_connection.Prelude.Tests.{ltb, if◌then◌else◌}
use easy_connection.Prelude.Results.{Result, ok, err}
use Prim.Native.Nat.{ℕ}
use mathlib.Core.List.{List, [], ◌++◌}

-- A destination handed to `UpstreamConnector::connect`: host text and port.
pub record Target : Type 0 where
  pub host : Bytes
  pub port : ℕ

pub record Conn : Type 0 where
  pub incoming : Bytes
  pub outgoing : Bytes
  pub dialed : List Target

abbrev pub fresh : Bytes → Conn
fresh input = record { incoming = input; outgoing = []; dialed = [] }

abbrev pub Action : Type 0 → Type 0 → Type 0
Action E A = Conn → Result A E × Conn

infixl 5 ◌>>=◌ ◌>>◌
abbrev pub ◌>>=◌ : {E A B : Type 0} → Action E A → (A → Action E B) → Action E B
◌>>=◌ m f c = elim (m c).0 [ ok a ↦ f a (m c).1 | err e ↦ (err e, (m c).1) ]

abbrev pub ◌>>◌ : {E B : Type 0} → Action E (Unit {0}) → Action E B → Action E B
m >> k = m >>= λ _. k

abbrev pub pure : {E A : Type 0} → A → Action E A
pure a c = (ok a, c)

abbrev pub throw : {E A : Type 0} → E → Action E A
throw e c = (err e, c)

-- `read_exact` of n bytes: at the end of the stream it fails, and what was left is consumed.
abbrev pub read_exact : {E : Type 0} → E → ℕ → Action E Bytes
read_exact eof n c =
    if ltb (length c.incoming) n
    then (err eof, record c { incoming = [] })
    else (ok (take n c.incoming), record c { incoming = drop n c.incoming })

-- `write_all`.
abbrev pub write_all : {E : Type 0} → Bytes → Action E (Unit {0})
write_all b c = (ok tt, record c { outgoing = c.outgoing ++ b })
