-- ===== src/Ssh/Response.antt =====
-- crates/ssh/src/zones.rs: the head of a response, with the arithmetic of a release build on 64 bits.
-- `from_utf8_lossy` and `from_utf8` are parameters.
use easy_connection.Prelude.{
  ℕ, suc, ◌+◌, ◌*◌, ◌-◌, ◌%◌, Bool, false, ◌&&◌, ◌||◌, Option, none, some, List, [], ◌∷◌, ◌==◌, leb,
  if◌then◌else◌, length, take, drop, Bytes, is_some, unwrap_or, Result, ok, err, ◌>>=◌, ok_or,
}
use easy_connection.Prelude.Text.{
  Str, codes, within, lines, eq_ignore_ascii_case, to_ascii_lowercase,
}
use easy_connection.Websocket.Upgrade.{words, first_of, second_word, split_once, find_value}
use easy_connection.Ssh.Chunked.{Decoded, whole, malformed, panics, decode_chunked, usize_values}
use easy_connection.Ssh.Zones.{ZonesError, could_not_load, panicked, is_ssh_banner}
use easy_connection.Ssh.Zones.Welcome.{after_prefix}

abbrev pub one_later : Option ℕ → Option ℕ
one_later none = none
one_later (some n) = some (suc n)

abbrev pub is_header_end : ℕ → ℕ → ℕ → ℕ → Bool
is_header_end a b c d = (a == 13) && ((b == 10) && ((c == 13) && (d == 10)))

unfoldable pub find_header_end : Bytes → Option ℕ
find_header_end (a ∷ b ∷ c ∷ d ∷ buf) =
    let rest = find_header_end (b ∷ c ∷ d ∷ buf) in
    if is_header_end a b c d then some 0 else one_later rest
find_header_end _ = none

-- The digits of a number below a limit, behind those that have been read.
unfoldable pub read_decimal : ℕ → ℕ → Str → Option ℕ
read_decimal limit n [] = some n
read_decimal limit n (c ∷ s) =
    let rest = read_decimal limit (n * 10 + (c - b'0')) s in
    if within b'0' b'9' c && leb (suc (n * 10 + (c - b'0'))) limit then rest else none

-- `parse` of an unsigned integer below a limit.
unfoldable pub parse_below : ℕ → Str → Option ℕ
unfolding read_decimal
parse_below limit [] = none
parse_below limit (c ∷ []) = if c == b'+' then none else read_decimal limit 0 (c ∷ [])
parse_below limit (c ∷ d ∷ s) = read_decimal limit 0 (if c == b'+' then d ∷ s else c ∷ d ∷ s)

abbrev pub parsed_below : ℕ → Option Str → Option ℕ
parsed_below limit none = none
parsed_below limit (some s) = parse_below limit s

unfoldable pub contains_text : Str → Str → Bool
unfolding after_prefix
contains_text needle [] = is_some (after_prefix needle [])
contains_text needle (c ∷ s) = is_some (after_prefix needle (c ∷ s)) || contains_text needle s

abbrev pub line_has_chunked : Option (Str × Str) → Bool
line_has_chunked none = false
line_has_chunked (some p) =
    eq_ignore_ascii_case p.0 (codes "transfer-encoding")
    && contains_text (codes "chunked") (to_ascii_lowercase p.1)

unfoldable pub any_chunked : List Str → Bool
unfolding split_once eq_ignore_ascii_case contains_text
any_chunked [] = false
any_chunked (l ∷ ls) = line_has_chunked (split_once l) || any_chunked ls

unfoldable pub head_has_chunked : Str → Bool
unfolding lines any_chunked
head_has_chunked head = any_chunked (lines head)

pub record HttpResponse : Type 0 where
  pub status : ℕ
  pub body : Bytes

-- The second word of the first line, if it is a u16.
unfoldable pub status_of : Str → ℕ
unfolding lines words parse_below
status_of head = unwrap_or (parse_below 65536 (second_word (words (first_of (lines head))))) 0

-- `decode_chunked(&body).unwrap_or(body)`.
abbrev pub or_as_sent : Bytes → Decoded → Result Bytes ZonesError
or_as_sent body (whole out) = ok out
or_as_sent body malformed = ok body
or_as_sent body panics = err panicked

module _ (lossy : Bytes → Str) where
  unfoldable pub content_length : Bytes → Option ℕ
  unfolding lines find_value parse_below
  content_length headers =
      parsed_below usize_values (find_value (codes "content-length") (lines (lossy headers)))

  abbrev pub all_there : Bytes → ℕ → Option ℕ → Bool
  all_there buf header_end none = false
  all_there buf header_end (some len) = leb ((header_end + 4 + len) % usize_values) (length buf)

  abbrev pub ended_at : Bytes → Option ℕ → Bool
  ended_at buf none = false
  ended_at buf (some header_end) = all_there buf header_end (content_length (take header_end buf))

  -- Whether the announced body is there.
  unfoldable pub reply_ended : Bytes → Bool
  unfolding find_header_end content_length
  reply_ended buf = ended_at buf (find_header_end buf)

module _ (from_utf8 : Bytes → Option Str) where
  unfoldable pub body_of : Str → Bytes → Result Bytes ZonesError
  unfolding head_has_chunked decode_chunked
  body_of head body =
      if head_has_chunked head then or_as_sent body (decode_chunked from_utf8 body) else ok body

  unfoldable pub split_at : Bytes → ℕ → Result HttpResponse ZonesError
  unfolding body_of status_of
  split_at buf header_end = do
    head ← ok_or (from_utf8 (take header_end buf)) could_not_load
    body ← body_of head (drop (header_end + 4) buf)
    ok (record { status = status_of head; body = body })

  unfoldable pub split_http : Bytes → Result HttpResponse ZonesError
  unfolding is_ssh_banner find_header_end split_at
  split_http buf =
      if is_ssh_banner buf
      then ok (record { status = 0; body = buf })
      else ok_or (find_header_end buf) could_not_load >>= split_at buf
