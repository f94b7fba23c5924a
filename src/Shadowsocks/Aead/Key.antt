-- ===== src/Shadowsocks/Aead/Key.antt =====
-- The loop of `evp_bytes_to_key` ends with a key of the length that is asked for.
use easy_connection.Prelude.{
  ℕ, zero, suc, ◌+◌, ◌*◌, ◌≡◌, ◌≤◌, inl, inr, refl, arith, false, [], Bool-cases, some, ◌++◌, ltb,
  Bytes, length, take, length-append, length-take,
}
use easy_connection.Shadowsocks.Aead.{stretch, evp_bytes_to_key}

module _ (md5 : Bytes → Bytes) (digest_len : (b : Bytes) → length (md5 b) ≡ 16) where
  stretch_len :
      (password : Bytes) (fuel key_len : ℕ) (out last : Bytes)
      → key_len ≤ length out + fuel * 16
      → (key : Bytes) × (stretch md5 password fuel key_len out last ≡ some key)
        × (key_len ≤ length key)
  unfolding stretch
  stretch_len password zero key_len out last h =
      let e : ltb (length out) key_len ≡ false = ground arith in (out, rw e refl, omega arith)
  stretch_len password (suc fuel) key_len out last h =
      elim (Bool-cases (ltb (length out) key_len)) [
        | inl e ↦
            let digest = md5 (last ++ password) in
            let (key, s, l) =
              stretch_len password fuel key_len (out ++ digest) digest
                (omega (arith, length-append out digest, digest_len (last ++ password))) in
            (key, rw e s, l)
        | inr e ↦ (out, rw e refl, ground arith)
      ]

  -- With a digest of 16 bytes, as many rounds as the key has blocks of 16 bytes, rounded up, end
  -- with a key of exactly the length that was asked for.
  pub evp_bytes_to_key_ends :
      (password : Bytes) (fuel key_len : ℕ)
      → key_len ≤ fuel * 16
      → (key : Bytes) × (evp_bytes_to_key md5 fuel password key_len ≡ some key)
        × (length key ≡ key_len)
  unfolding evp_bytes_to_key
  evp_bytes_to_key_ends password fuel key_len h =
      let (key, s, l) = stretch_len password fuel key_len [] [] (omega arith) in
      (take key_len key, rw s refl, omega (arith, length-take key_len key))
