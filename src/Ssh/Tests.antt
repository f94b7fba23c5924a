-- ===== src/Ssh/Tests.antt =====
-- Bodies in chunks.
mod Exchange
use easy_connection.Prelude.{
  ◌≡◌, ◌<◌, refl, arith, List, [], ◌∷◌, Bytes, All, Option, none, some, true, ltb, if◌then◌else◌,
}
use easy_connection.Prelude.Text.{
  to_digit, Str, codes, all, trim, trim_start_matches, trim_end_matches, split,
}
use easy_connection.Ssh.Chunked.{
  whole, malformed, panics, cut_line, on_size, read_size, from_str_radix, read_digits, decode_from,
  decode_chunked,
}
use easy_connection.Ssh.Chunked.RoundTrip.{
  Piece, IsPiece, bodies, encode_chunks, decode_chunked-encode_chunks,
}

-- A reader of ASCII text.
abbrev ascii_text : Bytes → Option Str
ascii_text bs = if all (λ b. ltb b 128) bs then some bs else none

all-ascii : (bs : Bytes) → All (λ b. b < 128) bs → all (λ b. ltb b 128) bs ≡ true
all-ascii [] hs = refl
all-ascii (b ∷ bs) (h, hs) = ground (arith, h, all-ascii bs hs)

reads_ascii : (bs : Bytes) → All (λ b. b < 128) bs → ascii_text bs ≡ some bs
reads_ascii bs hs = simp (all-ascii bs hs) refl

abbrev chunks_sent : List Piece
chunks_sent =
    record { digits = 0 ∷ 3 ∷ []; body = 7 ∷ 8 ∷ 9 ∷ [] }
    ∷ record { digits = 10 ∷ []; body = codes "0123456789" }
    ∷ []

are_chunks : All IsPiece chunks_sent
are_chunks = (
  record {
    some_digits = λ e. absurd (ground (arith, e));
    are_digits = (omega arith, (omega arith, tt));
    size = refl;
    not_empty = omega arith;
    fits = omega arith;
  },
  (
    record {
      some_digits = λ e. absurd (ground (arith, e));
      are_digits = (omega arith, tt);
      size = refl;
      not_empty = omega arith;
      fits = omega arith;
    },
    tt,
  ),
)

decode_chunked-encode_chunks_example :
    decode_chunked ascii_text (encode_chunks chunks_sent (codes "\r\n"))
    ≡ whole (bodies chunks_sent)
decode_chunked-encode_chunks_example =
    decode_chunked-encode_chunks ascii_text reads_ascii chunks_sent (codes "\r\n") are_chunks

extension_is_skipped :
    decode_chunked ascii_text (codes "2 ; a=b\r\nok\r\n0\r\n") ≡ whole (codes "ok")
unfolding decode_chunked decode_from cut_line on_size read_size from_str_radix read_digits to_digit
    trim trim_start_matches trim_end_matches split
extension_is_skipped = refl

cut_short : decode_chunked ascii_text (codes "9\r\nok\r\n0\r\n") ≡ malformed
unfolding decode_chunked decode_from cut_line on_size read_size from_str_radix read_digits to_digit
    trim trim_start_matches trim_end_matches split
cut_short = refl

-- The largest size that a usize holds.
size_wraps : decode_chunked ascii_text (codes "ffffffffffffffff\r\nok\r\n") ≡ panics
unfolding decode_chunked decode_from cut_line on_size read_size from_str_radix read_digits to_digit
    trim trim_start_matches trim_end_matches split
size_wraps = refl
