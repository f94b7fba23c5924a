-- ===== src/Shadowsocks/Tests.antt =====
-- The theorems about Shadowsocks at concrete inputs, over a cipher that only adds a tag.
use easy_connection.Prelude.{
  List, ◌≡◌, ◌-◌, refl, arith, Bool, true, Option, none, some, [], ◌∷◌, ◌++◌, Bytes, length, take,
  replicate, Result, ok,
}
use easy_connection.Prelude.Net.{IpAddr}
use easy_connection.Prelude.Io.{Target, fresh}
use easy_connection.Socks.Socks5.{SocksError}
use easy_connection.Shadowsocks.Addr.{encode_socks_addr}
use easy_connection.Shadowsocks.Addr.Target.{found, read_target, read_target-encode_socks_addr}
use easy_connection.Shadowsocks.Aead.{aes_128_gcm, Sealing}
use easy_connection.Shadowsocks.Pump.{Turn, sends, receives, dropped}

abbrev dials : Target → Result (Unit {0}) SocksError
dials target = ok tt

abbrev no_ip : Bytes → Option IpAddr
no_ip host = none

abbrev all_utf8 : Bytes → Bool
all_utf8 b = true

read_target-encode_socks_addr_example :
    read_target dials
      (λ o. o)
      all_utf8
      (fresh (encode_socks_addr no_ip (b'a' ∷ b'.' ∷ b'b' ∷ []) 443 ++ (7 ∷ [])))
    ≡ (ok (found (b'a' ∷ b'.' ∷ b'b' ∷ []) 443), fresh (7 ∷ []))
read_target-encode_socks_addr_example =
    read_target-encode_socks_addr dials (λ o. o) all_utf8 no_ip (b'a' ∷ b'.' ∷ b'b' ∷ []) 443
      (7 ∷ []) (omega arith, refl) (omega arith)

abbrev tagged : Sealing
tagged key n plain = some (plain ++ replicate 16 0)

abbrev untagged : Sealing
untagged key n sealed = some (take (length sealed - 16) sealed)

abbrev salted : Bytes → Bytes → Bytes
salted master salt = master ++ salt

-- The other end sends two reads, and the program one in between.
abbrev reads : List Bytes
reads = (8 ∷ 9 ∷ []) ∷ (7 ∷ []) ∷ []

abbrev turns : List Turn
turns = receives ∷ sends (3 ∷ []) 0 ∷ receives ∷ []

-- A `read_chunk` that is dropped behind the length of a block leaves the decoder in the middle.
loses_its_place :
    dropped tagged untagged salted aes_128_gcm (1 ∷ []) (2 ∷ []) 18 [] (some (5 ∷ [])) 0
    ≡ record { key = some (5 ∷ []); nonce = 1 }
loses_its_place = refl

abbrev digest : Bytes → Bytes
digest b = replicate 16 (length b)
