-- ===== src/Ssh/Chunked/RoundTrip.antt =====
-- A body that a server sends in chunks, and what is read of it.
use easy_connection.Prelude.{
  ℕ, zero, suc, ◌+◌, ◌<◌, ◌≡◌, ◌≢◌, ◌∙◌, refl, ap, arith, List, [], ◌∷◌, ◌++◌, map, All, Option,
  some, Bytes, drop, length, length-append, take-append, drop_past,
}
use easy_connection.Prelude.Text.{Str}
use easy_connection.Ssh.Chunked.{
  usize_values, cut_line, Decoded, whole, extend, on_size, size_of_text, on_read, on_cut,
  decode_from, decode_chunked,
}
use easy_connection.Ssh.Chunked.Size.{hex_digit, value, read_size-value}

-- The digits of its size, and the body.
pub record Piece : Type 0 where
  pub digits : List ℕ
  pub body : Bytes

pub record IsPiece (c : Piece) : Type 0 where
  pub some_digits : c.digits ≢ []
  pub are_digits : All (λ d. d < 16) c.digits
  pub size : value 0 c.digits ≡ length c.body
  pub not_empty : 0 < length c.body
  pub fits : length c.body + 2 < usize_values

abbrev pub crlf : Bytes
crlf = 13 ∷ 10 ∷ []

abbrev pub encode_chunks : List Piece → Bytes → Bytes
encode_chunks [] trailer = b'0' ∷ 13 ∷ 10 ∷ trailer
encode_chunks (c ∷ cs) trailer =
    map hex_digit c.digits ++ (13 ∷ 10 ∷ (c.body ++ (13 ∷ 10 ∷ encode_chunks cs trailer)))

abbrev pub bodies : List Piece → Bytes
bodies [] = []
bodies (c ∷ cs) = c.body ++ bodies cs

cut_line-digits :
    (ds : List ℕ) (rest : Bytes)
    → All (λ d. d < 16) ds
    → cut_line (map hex_digit ds ++ (13 ∷ 10 ∷ rest)) ≡ some (map hex_digit ds, rest)
unfolding cut_line
cut_line-digits [] rest hs = refl
cut_line-digits (d ∷ []) rest (h, hs) = ground (arith, h)
cut_line-digits (d ∷ e ∷ ds) rest (h, hs) = ground (arith, h, cut_line-digits (e ∷ ds) rest hs)

digits-ascii : (ds : List ℕ) → All (λ d. d < 16) ds → All (λ b. b < 128) (map hex_digit ds)
digits-ascii [] hs = tt
digits-ascii (d ∷ ds) (h, hs) = (ground (arith, h), digits-ascii ds hs)

-- The body is cut off where the size says.
on_size-body :
    (body rest : Bytes) (later : Decoded)
    → 0 < length body
    → length body + 2 < usize_values
    → on_size (length body) (body ++ (13 ∷ 10 ∷ rest)) later ≡ extend body later
unfolding on_size
on_size-body body rest later pos fit =
    ground (arith, pos, fit, length-append body (13 ∷ 10 ∷ rest), take-append body (13 ∷ 10 ∷ rest))

length-encode_chunks :
    (cs : List Piece) (trailer : Bytes) → length cs < length (encode_chunks cs trailer)
length-encode_chunks [] trailer = omega arith
length-encode_chunks (c ∷ cs) trailer = omega (
  arith,
  length-encode_chunks cs trailer,
  length-append (map hex_digit c.digits)
      (13 ∷ 10 ∷ (c.body ++ (13 ∷ 10 ∷ encode_chunks cs trailer))),
  length-append c.body (13 ∷ 10 ∷ encode_chunks cs trailer),
)

module _ (from_utf8 : Bytes → Option Str)
    (ascii : (bs : Bytes) → All (λ b. b < 128) bs → from_utf8 bs ≡ some bs) where
  size_of-digits :
      (ds : List ℕ)
      → ds ≢ []
      → All (λ d. d < 16) ds
      → value 0 ds < usize_values
      → size_of_text (from_utf8 (map hex_digit ds)) ≡ some (value 0 ds)
  size_of-digits ds ne hs v =
      ap size_of_text (ascii (map hex_digit ds) (digits-ascii ds hs)) ∙ read_size-value ds ne hs v

  -- A round that finds a line with a size.
  decode_step :
      (rounds size : ℕ) (rest line tail : Bytes)
      → cut_line rest ≡ some (line, tail)
      → size_of_text (from_utf8 line) ≡ some size
      → decode_from from_utf8 (suc rounds) rest
        ≡ on_size size tail (decode_from from_utf8 rounds (drop (size + 2) tail))
  unfolding decode_from
  decode_step rounds size rest line tail e f =
      ap (on_cut from_utf8 (λ n bs. decode_from from_utf8 rounds (drop (n + 2) bs))) e
      ∙ ap (on_read (λ n. decode_from from_utf8 rounds (drop (n + 2) tail)) tail) f

  decode_from-chunks :
      (rounds : ℕ) (cs : List Piece) (trailer : Bytes)
      → All IsPiece cs
      → length cs < rounds
      → decode_from from_utf8 rounds (encode_chunks cs trailer) ≡ whole (bodies cs)
  unfolding on_size
  decode_from-chunks zero cs trailer hs h = absurd (omega (arith, h))
  decode_from-chunks (suc rounds) [] trailer hs h =
      decode_step rounds 0 (encode_chunks [] trailer) (b'0' ∷ []) trailer
        (cut_line-digits (0 ∷ []) trailer (omega arith, tt))
        (size_of-digits (0 ∷ []) (λ e. absurd (ground (arith, e))) (omega arith, tt) (omega arith))
  decode_from-chunks (suc rounds) (c ∷ cs) trailer (ok, hs) h =
      decode_step rounds (length c.body) (encode_chunks (c ∷ cs) trailer) (map hex_digit c.digits)
        (c.body ++ (13 ∷ 10 ∷ encode_chunks cs trailer))
        (cut_line-digits c.digits (c.body ++ (13 ∷ 10 ∷ encode_chunks cs trailer)) ok.are_digits)
        (size_of-digits c.digits ok.some_digits ok.are_digits (omega (arith, ok.size, ok.fits))
          ∙ ap some ok.size)
      ∙ (on_size-body c.body (encode_chunks cs trailer) _ ok.not_empty ok.fits
          ∙ ap (extend c.body) (
              ap (decode_from from_utf8 rounds)
                (drop_past 2 c.body (13 ∷ 10 ∷ encode_chunks cs trailer))
              ∙ decode_from-chunks rounds cs trailer hs (omega (arith, h))))

  -- A body sent in chunks that are not empty, each behind its size in hexadecimal digits and with the
  -- chunk of size 0 at the end, is decoded to the bodies put together, whatever trailer follows.
  pub decode_chunked-encode_chunks :
      (cs : List Piece) (trailer : Bytes)
      → All IsPiece cs
      → decode_chunked from_utf8 (encode_chunks cs trailer) ≡ whole (bodies cs)
  unfolding decode_chunked
  decode_chunked-encode_chunks cs trailer hs =
      decode_from-chunks (suc (length (encode_chunks cs trailer))) cs trailer hs
        (omega (arith, length-encode_chunks cs trailer))
