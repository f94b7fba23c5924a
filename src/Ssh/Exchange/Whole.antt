-- ===== src/Ssh/Exchange/Whole.antt =====
-- An answer with a Content-Length, in pieces.
use mathlib.Core.Path.{sym, ◌∙◌, ap, subst}
use easy_connection.Prelude.{
  ℕ, zero, suc, ◌+◌, ◌%◌, ◌≤◌, ◌<◌, ◌≡◌, refl, arith, Bool, true, false, Option, none, some, List,
  [], ◌∷◌, ◌++◌, map, ltb, leb, if◌then◌else◌, is_empty, length, take, drop, length-append,
  append_assoc, Bytes, ok, All, Bool-cases, inl, inr, Option-cases,
}
use easy_connection.Prelude.Text.{Str}
use easy_connection.Ssh.Chunked.{usize_values}
use easy_connection.Ssh.Zones.{is_ssh_banner}
use easy_connection.Ssh.Response.{
  one_later, is_header_end, find_header_end, content_length, reply_ended, head_has_chunked,
  status_of, body_of, split_at, split_http,
}
use easy_connection.Ssh.Exchange.{
  done, Read, got, Peer, max_body, read_answer, read_from, exchange_attempt,
}

one_later-some :
    (o : Option ℕ) (k : ℕ) → one_later o ≡ some k → (j : ℕ) × (o ≡ some j) × (k ≡ suc j)
one_later-some none k e = absurd (cc e)
one_later-some (some j) k e = (j, refl, cc e)

find_header_end-append :
    (p q : Bytes) (k : ℕ)
    → find_header_end p ≡ some k
    → (find_header_end (p ++ q) ≡ some k) × (k + 4 ≤ length p)
unfolding find_header_end
find_header_end-append [] q k e = absurd (cc e)
find_header_end-append (a ∷ []) q k e = absurd (cc e)
find_header_end-append (a ∷ b ∷ []) q k e = absurd (cc e)
find_header_end-append (a ∷ b ∷ c ∷ []) q k e = absurd (cc e)
find_header_end-append (a ∷ b ∷ c ∷ d ∷ p) q k e = elim (Bool-cases (is_header_end a b c d)) [
  | inl y ↦ let first : 0 ≡ k = cc (rw y at e) in (rw y (ap (λ i. some i) first), omega arith)
  | inr n ↦
      let (j, found, next) = one_later-some (find_header_end (b ∷ c ∷ d ∷ p)) k (rw n at e) in
      let (again, room) = find_header_end-append (b ∷ c ∷ d ∷ p) q j found in
      (rw n (rw again (ap (λ i. some i) (sym next))), omega arith)
]

take_within : (k : ℕ) (p q : Bytes) → k ≤ length p → take k (p ++ q) ≡ take k p
take_within zero p q h = refl
take_within (suc k) [] q h = absurd (omega arith)
take_within (suc k) (a ∷ p) q h = ap (λ r. a ∷ r) (take_within k p q (omega arith))

is_ssh_banner-append : (p q : Bytes) → is_ssh_banner p ≡ true → is_ssh_banner (p ++ q) ≡ true
unfolding is_ssh_banner
is_ssh_banner-append [] q e = absurd (cc e)
is_ssh_banner-append (a ∷ []) q e = absurd (cc e)
is_ssh_banner-append (a ∷ b ∷ []) q e = absurd (cc e)
is_ssh_banner-append (a ∷ b ∷ c ∷ []) q e = absurd (cc e)
is_ssh_banner-append (a ∷ b ∷ c ∷ d ∷ p) q e = e

no_wrap : (m : ℕ) → m ≤ max_body + 8192 → m % usize_values ≡ m
no_wrap m h = omega arith

reached : (m n : ℕ) → m ≤ n → leb m n ≡ true
reached m n h = ground arith

not_reached : (m n : ℕ) → n < m → leb m n ≡ false
not_reached m n h = ground arith

length_some : (q : Bytes) → is_empty q ≡ false → 0 < length q
length_some [] e = absurd (cc e)
length_some (b ∷ q) e = omega arith

not_below : (m n : ℕ) → n ≤ m → ltb m n ≡ false
not_below m n h = ground arith

append_nil : (bs : Bytes) → bs ++ [] ≡ bs
append_nil [] = refl
append_nil (b ∷ bs) = ap (λ r. b ∷ r) (append_nil bs)

append-some : (p q : Bytes) → is_empty p ≡ false → is_empty (p ++ q) ≡ false
append-some [] q e = absurd (cc e)
append-some (b ∷ p) q e = refl

banner_early : (p q : Bytes) → is_ssh_banner (p ++ q) ≡ false → is_ssh_banner p ≡ false
banner_early p q e = elim (Bool-cases (is_ssh_banner p)) [
  | inl y ↦ absurd (cc (sym e ∙ is_ssh_banner-append p q y))
  | inr n ↦ n
]

-- The pieces put together.
abbrev pub joined : List Bytes → Bytes
joined [] = []
joined (c ∷ cs) = c ++ joined cs

module _ (lossy : Bytes → Str) where
  -- The bytes of an answer with a head and a body of the length that the head announces.
  pub record IsReply (reply : Bytes) (header_end len : ℕ) : Type 0 where
    pub head_ends : find_header_end reply ≡ some header_end
    pub announced : content_length lossy (take header_end reply) ≡ some len
    pub size : length reply ≡ header_end + 4 + len
    pub fits : length reply ≤ max_body + 8192
    pub no_banner : is_ssh_banner reply ≡ false

  reply_ended_whole : (reply : Bytes) (h n : ℕ) → IsReply reply h n → reply_ended lossy reply ≡ true
  unfolding reply_ended
  reply_ended_whole reply h n r =
      rw (r.head_ends, r.announced)
        (rw (no_wrap (h + 4 + n) (omega arith)) (reached (h + 4 + n) (length reply) (omega arith)))

  reply_ended_early :
      (p q : Bytes) (h n : ℕ)
      → IsReply (p ++ q) h n
      → is_empty q ≡ false
      → reply_ended lossy p ≡ false
  unfolding reply_ended
  reply_ended_early p q h n r more = elim (Option-cases (find_header_end p)) [
    | inl e ↦ rw e refl
    | inr (k, e) ↦
        let (same, room) = find_header_end-append p q k e in
        let k_is : k ≡ h = cc (sym same ∙ r.head_ends) in
        let left = length_some q more in
        let sizes = length-append p q in
        let said : content_length lossy (take k p) ≡ some n =
          ap (content_length lossy)
            (sym (take_within k p q (omega arith)) ∙ ap (λ i. take i (p ++ q)) k_is)
          ∙ r.announced in
        rw (e, said, no_wrap (k + 4 + n) (omega arith))
          (not_reached (k + 4 + n) (length p) (omega arith))
  ]

  -- A round that reads something and has room for it.
  one_round :
      (buf c : Bytes) (reads : List Read) (ended : Bool)
      → is_empty c ≡ false
      → length (buf ++ c) ≤ max_body + 8192
      → is_ssh_banner (buf ++ c) ≡ false
      → reply_ended lossy (buf ++ c) ≡ ended
      → read_answer lossy (got c ∷ reads) buf
        ≡ (if ended then ok (buf ++ c) else read_answer lossy reads (buf ++ c))
  unfolding read_answer
  one_round buf c reads ended some_c room quiet end_is =
      rw (some_c, sym (length-append buf c), not_below (max_body + 8192) _ room, quiet, end_is) refl

  within_reply : (p q : Bytes) (h n : ℕ) → IsReply (p ++ q) h n → length p ≤ max_body + 8192
  within_reply p q h n r = let sizes = length-append p q in omega arith

  read_reply_whole :
      (reply : Bytes) (h n : ℕ)
      → IsReply reply h n
      → (c : Bytes) (cs : List Bytes) (buf : Bytes) (later : List Read)
      → All (λ b. is_empty b ≡ false) (c ∷ cs)
      → buf ++ joined (c ∷ cs) ≡ reply
      → read_answer lossy (map got (c ∷ cs) ++ later) buf ≡ ok reply
  read_reply_whole reply h n r c [] buf later (some_c, _) e =
      let all_of : buf ++ c ≡ reply = ap (λ t. buf ++ t) (sym (append_nil c)) ∙ e in
      one_round buf c later true some_c
        (subst (λ t. length t ≤ max_body + 8192) (sym all_of) r.fits)
        (ap is_ssh_banner all_of ∙ r.no_banner)
        (ap (reply_ended lossy) all_of ∙ reply_ended_whole reply h n r)
      ∙ ap ok all_of
  read_reply_whole reply h n r c (d ∷ cs) buf later (some_c, (some_d, more)) e =
      let e' : (buf ++ c) ++ joined (d ∷ cs) ≡ reply = append_assoc buf c (joined (d ∷ cs)) ∙ e in
      let r' : IsReply ((buf ++ c) ++ joined (d ∷ cs)) h n =
        subst (λ t. IsReply t h n) (sym e') r in
      one_round buf c (map got (d ∷ cs) ++ later) false some_c
        (within_reply (buf ++ c) (joined (d ∷ cs)) h n r')
        (banner_early (buf ++ c) (joined (d ∷ cs)) r'.no_banner)
        (reply_ended_early (buf ++ c) (joined (d ∷ cs)) h n r' (append-some d (joined cs) some_d))
      ∙ read_reply_whole reply h n r d cs (buf ++ c) later (some_d, more) e'

module _ (lossy : Bytes → Str) (from_utf8 : Bytes → Option Str)
    (network : Str → ℕ → Bool → Bytes → ℕ → Peer) where
  split_http_reply :
      (reply : Bytes) (h n : ℕ) (head : Str)
      → IsReply lossy reply h n
      → from_utf8 (take h reply) ≡ some head
      → head_has_chunked head ≡ false
      → split_http from_utf8 reply
        ≡ ok (record { status = status_of head; body = drop (h + 4) reply })
  unfolding split_http split_at body_of
  split_http_reply reply h n head r read plain =
      rw (r.no_banner, r.head_ends) (rw read (rw plain refl))

  -- An answer whose head is UTF-8 without chunks and announces the length of the body, of at
  -- most 2 ^ 20 + 8192 bytes and no banner of SSH, is read whole however it is cut into pieces that
  -- are not empty, whatever would come behind them: its status and its body are the response.
  pub exchange_attempt_whole :
      (host : Str) (port : ℕ) (https : Bool) (request : Bytes) (limit : ℕ) (reply : Bytes) (h n : ℕ)
      (head : Str) (c : Bytes) (cs : List Bytes) (later : List Read)
      → IsReply lossy reply h n
      → from_utf8 (take h reply) ≡ some head
      → head_has_chunked head ≡ false
      → All (λ b. is_empty b ≡ false) (c ∷ cs)
      → joined (c ∷ cs) ≡ reply
      → network host port https request limit
        ≡ record { opens = done; takes = done; reads = map got (c ∷ cs) ++ later }
      → exchange_attempt lossy from_utf8 network host port https request limit
        ≡ ok (record { status = status_of head; body = drop (h + 4) reply })
  unfolding exchange_attempt read_from
  exchange_attempt_whole host port https request limit reply h n head c cs later r read plain
        some_cs e peer =
      rw peer (
        rw (read_reply_whole lossy reply h n r c cs [] later some_cs e)
          (split_http_reply reply h n head r read plain))
