-- ===== src/Config/SmartLink/RoundTrip.antt =====
-- A Smart Config that is packed, sealed in an envelope, and read back.
use Prim.Native.Nat.{bit_xor}
use easy_connection.Prelude.{
  fail_if, ◌>>◌, append-nil, ℕ, zero, suc, ◌+◌, ◌*◌, ◌%◌, ◌^◌, ◌≤◌, ◌<◌, ◌≡◌, refl, ap, arith, Bool,
  true, false, ◌||◌, List, [], ◌∷◌, ltb, ◌==◌, length, is_empty, Bytes, IsBytes, All, Option, ok,
  get_or, if◌then◌else◌, eq_bytes, ◌>>=◌,
}
use easy_connection.Prelude.Bits.{xor_twice, xor_byte}
use easy_connection.Prelude.Text.{codes}
use easy_connection.Config.MessagePack.{
  invalid_length, pos, Packed, int, str, array, map, Items, nil, cons, end, field, max_depth,
  read_levels,
}
use easy_connection.Config.MessagePack.Writer.{encode, IsPackable, ArePackable, count}
use easy_connection.Config.MessagePack.Heads.{not_below}
use easy_connection.Config.MessagePack.RoundTrip.{read_levels-encode}
use easy_connection.Config.SmartLink.{
  RocketSmartHost, RocketSmartConfig, check_host, get, mask, read_host, read_hosts, read_config,
  decode_unpacked, find_smart, unpack, unmask, decode_envelope, max_decoded_bytes,
}
use easy_connection.Config.SmartLink.Accepted.{IsHost, IsSmart}

abbrev pub host_value : RocketSmartHost → Packed
host_value h = map (
    field (codes "0") (str h.host) (
      field (codes "1") (int (pos h.port))
        (field (codes "2") (int (pos h.flag)) (field (codes "3") (int (pos h.delay)) end))))

abbrev pub host_items : List RocketSmartHost → Items
host_items [] = nil
host_items (h ∷ hs) = cons (host_value h) (host_items hs)

-- The fields that the program reads, as the test of the source writes them.
abbrev pub config_value : RocketSmartConfig → Packed
config_value cfg = map (
    field (codes "0") (str (codes "smart")) (
      field (codes "4") (str cfg.username) (
        field (codes "13") (int (pos 1)) (
          field (codes "14") (array (host_items cfg.hosts))
            (field (codes "15") (str cfg.password) (field (codes "16") (str cfg.path) end))))))

abbrev pub payload : RocketSmartConfig → Bytes
payload cfg = encode (array (cons (config_value cfg) nil))

one_if : Bool → ℕ
one_if b = if b then 1 else 0

-- An envelope around a payload that may have been compressed: with or without the mask.
unfoldable pub envelope : Bool → Bool → ℕ → Bytes → Bytes
unfolding one_if
envelope locked zipped seed packed =
    (4 + 2 * one_if locked + one_if zipped)
    ∷ seed
    ∷ (if locked then unmask seed 0 packed else packed)

nonempty : {A : Type 0} (xs : List A) → 1 ≤ length xs → is_empty xs ≡ false
nonempty [] h = absurd (omega (arith, h))
nonempty (x ∷ xs) h = refl

not_zero : (n : ℕ) → 1 ≤ n → (n == 0) ≡ false
not_zero n h = ground (arith, h)

check_host_lem : (h : RocketSmartHost) → IsHost h → check_host h ≡ ok h
check_host_lem h i =
    simp
      (
        nonempty h.host i.named,
        not_below 253 (length h.host) i.name_len,
        i.name_clean,
        not_zero h.port i.port_set,
      )
      refl

read_host-host_value : (h : RocketSmartHost) → IsHost h → read_host (host_value h) ≡ ok h
unfolding read_host get eq_bytes
read_host-host_value h i =
    simp
      (
        not_below 65535 h.port i.port_bound,
        not_below 255 h.flag i.flag_bound,
        not_below 65535 h.delay i.delay_bound,
      )
      (check_host_lem h i)

read_hosts-host_items :
    (hs : List RocketSmartHost) → All IsHost hs → read_hosts (host_items hs) ≡ ok hs
unfolding read_hosts
read_hosts-host_items [] is = refl
read_hosts-host_items (h ∷ hs) (i, is) = rw (read_host-host_value h i, read_hosts-host_items hs is)

read_config-config_value :
    (cfg : RocketSmartConfig) → IsSmart cfg → read_config (config_value cfg) ≡ ok cfg
unfolding read_config get eq_bytes
read_config-config_value cfg s =
    simp
      (
        read_hosts-host_items cfg.hosts s.are_hosts,
        nonempty cfg.hosts s.some_hosts,
        not_below 64 (length cfg.hosts) s.few_hosts,
        s.path_rooted,
        not_below 2048 (length cfg.path) s.path_len,
        s.path_no_return,
        s.path_no_feed,
        not_below 4096 (length cfg.username) s.username_len,
        not_below 4096 (length cfg.password) s.password_len,
      )
      refl

mask-IsBytes : IsBytes mask
mask-IsBytes = omega arith

get_or-byte : (b : Bytes) (i : ℕ) → IsBytes b → get_or b i 0 < 256
get_or-byte [] i h = omega arith
get_or-byte (b ∷ bs) zero h = h.0
get_or-byte (b ∷ bs) (suc i) h = get_or-byte bs i h.1

unmask_twice : (seed i : ℕ) (bs : Bytes) → IsBytes bs → unmask seed i (unmask seed i bs) ≡ bs
unfolding unmask
unmask_twice seed i [] h = refl
unmask_twice seed i (b ∷ bs) (h, hs) =
    rw
      (xor_twice b (bit_xor (get_or mask (i % 8) 0) (seed * 2 ^ (i % 8) % 256)) h (
        xor_byte (get_or mask (i % 8) 0) (seed * 2 ^ (i % 8) % 256)
          (get_or-byte mask (i % 8) mask-IsBytes) (omega arith)))
      (ap (◌∷◌ b) (unmask_twice seed (suc i) bs hs))

length-unmask : (seed i : ℕ) (bs : Bytes) → length (unmask seed i bs) ≡ length bs
unfolding unmask
length-unmask seed i [] = refl
length-unmask seed i (b ∷ bs) = ap suc (length-unmask seed (suc i) bs)

module _ (is_utf8 : Bytes → Bool) where
  -- The texts of a configuration.
  abbrev pub AreTexts : RocketSmartConfig → Type 0
  AreTexts cfg =
      (is_utf8 cfg.username ≡ true)
      × (is_utf8 cfg.password ≡ true)
      × (is_utf8 cfg.path ≡ true)
      × All (λ h. is_utf8 h.host ≡ true) cfg.hosts

module _ (is_utf8 : Bytes → Bool)
    (ascii : (bs : Bytes) → All (λ b. b < 128) bs → is_utf8 bs ≡ true) where
  host_value-IsPackable :
      (h : RocketSmartHost)
      → IsHost h
      → is_utf8 h.host ≡ true
      → IsPackable is_utf8 30 (host_value h)
  host_value-IsPackable h i e = ground (
    arith,
    ascii (codes "0") (omega arith, tt),
    ascii (codes "1") (omega arith, tt),
    ascii (codes "2") (omega arith, tt),
    ascii (codes "3") (omega arith, tt),
  )

  host_items-ArePackable :
      (hs : List RocketSmartHost)
      → All IsHost hs
      → All (λ h. is_utf8 h.host ≡ true) hs
      → ArePackable is_utf8 30 (host_items hs)
  host_items-ArePackable [] is es = tt
  host_items-ArePackable (h ∷ hs) (i, is) (e, es) =
      (host_value-IsPackable h i e, host_items-ArePackable hs is es)

  count-host_items : (hs : List RocketSmartHost) → count (host_items hs) ≡ length hs
  count-host_items [] = refl
  count-host_items (h ∷ hs) = ap suc (count-host_items hs)

  config_value-IsPackable :
      (cfg : RocketSmartConfig)
      → IsSmart cfg
      → AreTexts is_utf8 cfg
      → IsPackable is_utf8 32 (config_value cfg)
  config_value-IsPackable cfg s e = ground (
    arith,
    ascii (codes "0") (omega arith, tt),
    ascii (codes "smart") (omega arith),
    ascii (codes "4") (omega arith, tt),
    ascii (codes "13") (omega arith),
    ascii (codes "14") (omega arith),
    ascii (codes "15") (omega arith),
    ascii (codes "16") (omega arith),
    count-host_items cfg.hosts,
    host_items-ArePackable cfg.hosts s.are_hosts e.3,
  )

  decode_unpacked-payload :
      (cfg : RocketSmartConfig)
      → IsSmart cfg
      → AreTexts is_utf8 cfg
      → decode_unpacked is_utf8 (payload cfg) ≡ ok cfg
  unfolding decode_unpacked find_smart get eq_bytes
  decode_unpacked-payload cfg s e =
      let v = array (cons (config_value cfg) nil) in
      let read : read_levels is_utf8 (suc max_depth) (payload cfg) ≡ ok (v, []) = rw append-nil at (
        read_levels-encode is_utf8 33 v []
          (omega arith, omega arith, (config_value-IsPackable cfg s e, tt))) in
      rw read (read_config-config_value cfg s)

module _ (is_utf8 : Bytes → Bool) (ascii : (bs : Bytes) → All (λ b. b < 128) bs → is_utf8 bs ≡ true)
    (inflate : Bytes → Option Bytes) where
  -- The tests of the length, and what is left to do behind them.
  opened :
      (cfg : RocketSmartConfig) (zipped : Bool) (n : ℕ) (packed sealed : Bytes)
      → IsSmart cfg
      → AreTexts is_utf8 cfg
      → n + 1 ≤ max_decoded_bytes
      → 2 ≤ n
      → sealed ≡ packed
      → unpack is_utf8 inflate zipped packed ≡ ok (payload cfg)
      → (do
        fail_if (ltb (suc n) 3 || ltb max_decoded_bytes (suc n)) invalid_length
        out ← unpack is_utf8 inflate zipped sealed
        decode_unpacked is_utf8 out)
        ≡ ok cfg
  opened cfg zipped n packed sealed s e m k same u =
      rw
        (
          same,
          not_below (suc n) 3 (omega arith),
          not_below max_decoded_bytes (suc n) (omega arith),
          u,
        )
        (decode_unpacked-payload is_utf8 ascii cfg s e)

  pub decode_envelope-envelope :
      (cfg : RocketSmartConfig) (locked zipped : Bool) (seed : ℕ) (packed : Bytes)
      → IsSmart cfg
      → AreTexts is_utf8 cfg
      → seed < 256
      → IsBytes packed
      → 1 ≤ length packed
      → length packed + 2 ≤ max_decoded_bytes
      → unpack is_utf8 inflate zipped packed ≡ ok (payload cfg)
      → decode_envelope is_utf8 inflate (envelope locked zipped seed packed) ≡ ok cfg
  unfolding decode_envelope envelope
  decode_envelope-envelope cfg true true seed packed s e h b n m u =
      opened cfg true (suc (length (unmask seed 0 packed))) packed
        (unmask seed 0 (unmask seed 0 packed)) s e (omega (arith, length-unmask seed 0 packed))
        (omega (arith, length-unmask seed 0 packed)) (unmask_twice seed 0 packed b) u
  decode_envelope-envelope cfg true false seed packed s e h b n m u =
      opened cfg false (suc (length (unmask seed 0 packed))) packed
        (unmask seed 0 (unmask seed 0 packed)) s e (omega (arith, length-unmask seed 0 packed))
        (omega (arith, length-unmask seed 0 packed)) (unmask_twice seed 0 packed b) u
  decode_envelope-envelope cfg false true seed packed s e h b n m u =
      opened cfg true (suc (length packed)) packed packed s e (omega arith) (omega arith) refl u
  decode_envelope-envelope cfg false false seed packed s e h b n m u =
      opened cfg false (suc (length packed)) packed packed s e (omega arith) (omega arith) refl u
