-- ===== src/Dns/Cache/Answers.antt =====
-- What the cache answers, and how large it grows.
use mathlib.Core.List.{Memᴰ}
use easy_connection.Prelude.{
  ℕ, ◌-◌, ◌≤◌, ◌<◌, ◌≡◌, ◌≢◌, refl, ap, All, ◌+◌, ◌∙◌, arith, inl, inr, none, some, List, [], ◌∷◌,
  ◌++◌, length, take, drop, Bytes, Option-cases, ◌⊎◌,
}
use easy_connection.Prelude.Assoc.{get, get-insert, get-remove, length-insert, length-remove}
use easy_connection.Dns.Cache.{
  default_ttl, max_entries, Bytes-discrete, CacheMap, lookup, put, Call, asked, stored, apply,
  after, rewrite_id,
}

-- The map never has more than 512 entries, whatever calls are made.
apply-le : (c : Call) (m : CacheMap) → length m ≤ max_entries → length (apply c m) ≤ max_entries
unfolding lookup put
apply-le (asked now query) m h = ground (arith, length-remove Bytes-discrete (drop 2 query) m)
apply-le (stored now query response) m h = ground (
  arith,
  length-insert {V = ℕ × Bytes} Bytes-discrete (drop 2 query) (now, response) m,
  length-insert {V = ℕ × Bytes} Bytes-discrete (drop 2 query) (now, response) [],
)

-- After any history of calls the map has at most 512 entries.
pub length-after : (cs : List Call) → length (after cs) ≤ max_entries
length-after [] = omega arith
length-after (c ∷ cs) = apply-le c (after cs) (length-after cs)

-- The map after calls that follow each other, the latest call first.
abbrev pub since : List Call → CacheMap → CacheMap
since [] m = m
since (c ∷ cs) m = apply c (since cs m)

-- A call before an instant, that stores nothing under a key.
abbrev pub Spares : ℕ → Bytes → Call → Type 0
Spares later key (asked now query) = now ≤ later
Spares later key (stored now query response) = drop 2 query ≢ key

lookup_keeps :
    (now at : ℕ) (query key body : Bytes) (m : CacheMap)
    → get Bytes-discrete key m ≡ some (at, body)
    → now - at ≤ default_ttl
    → get Bytes-discrete key (lookup now query m).1 ≡ some (at, body)
unfolding lookup
lookup_keeps now at query key body m e h =
    ground (arith, e, get-remove Bytes-discrete key (drop 2 query) m)

put_keeps :
    (now : ℕ) (query response key : Bytes) (v : ℕ × Bytes) (m : CacheMap)
    → get Bytes-discrete key m ≡ some v
    → drop 2 query ≢ key
    → length m < max_entries
    → get Bytes-discrete key (put now query response m) ≡ some v
unfolding put
put_keeps now query response key v m e other room =
    ground (arith, e, get-insert Bytes-discrete key (drop 2 query) (now, response) m)

put_stores :
    (now : ℕ) (query response : Bytes) (m : CacheMap)
    → 12 ≤ length query
    → 12 ≤ length response
    → get Bytes-discrete (drop 2 query) (put now query response m) ≡ some (now, response)
unfolding put
put_stores now query response m a b = ground (
  arith,
  get-insert {V = ℕ × Bytes} Bytes-discrete (drop 2 query) (drop 2 query) (now, response) m,
  get-insert {V = ℕ × Bytes} Bytes-discrete (drop 2 query) (drop 2 query) (now, response) [],
)

length-apply : (c : Call) (m : CacheMap) → length (apply c m) ≤ length m + 1
unfolding lookup put
length-apply (asked now query) m = ground (arith, length-remove Bytes-discrete (drop 2 query) m)
length-apply (stored now query response) m = ground (
  arith,
  length-insert {V = ℕ × Bytes} Bytes-discrete (drop 2 query) (now, response) m,
  length-insert {V = ℕ × Bytes} Bytes-discrete (drop 2 query) (now, response) [],
)

length-since : (cs : List Call) (m : CacheMap) → length (since cs m) ≤ length m + length cs
length-since [] m = omega arith
length-since (c ∷ cs) m = omega (arith, length-apply c (since cs m), length-since cs m)

-- An entry outlives such calls while the map has room for them.
since_keeps :
    (cs : List Call) (at later : ℕ) (key body : Bytes) (m : CacheMap)
    → get Bytes-discrete key m ≡ some (at, body)
    → later - at ≤ default_ttl
    → All (Spares later key) cs
    → length m + length cs ≤ max_entries
    → get Bytes-discrete key (since cs m) ≡ some (at, body)
since_keeps [] at later key body m e h ss room = e
since_keeps (asked now query ∷ cs) at later key body m e h (before, ss) room =
    lookup_keeps now at query key body (since cs m)
      (since_keeps cs at later key body m e h ss (omega arith)) (omega arith)
since_keeps (stored now query response ∷ cs) at later key body m e h (other, ss) room =
    put_keeps now query response key (at, body) (since cs m)
      (since_keeps cs at later key body m e h ss (omega arith)) other
      (omega (arith, length-since cs m))

found_answers :
    (at later : ℕ) (asking response : Bytes) (m : CacheMap)
    → get Bytes-discrete (drop 2 asking) m ≡ some (at, response)
    → 12 ≤ length asking
    → 12 ≤ length response
    → later - at ≤ default_ttl
    → (lookup later asking m).0 ≡ some (take 2 asking ++ drop 2 response)
unfolding lookup
found_answers at later asking [] m g a b h = absurd (omega arith)
found_answers at later asking (x ∷ []) m g a b h = absurd (omega arith)
found_answers at later asking (x ∷ y ∷ response) m g a b h = ground (arith, g)

-- A message that was put is the answer to every query with the same bytes behind its id, under
-- that query's own id, for 45 s, whatever calls come in between, as long as none of them stores under
-- the same bytes and the map, which a put into 512 entries clears, has room for an entry of each.
pub lookup-put :
    (now later : ℕ) (query asking response : Bytes) (m : CacheMap) (between : List Call)
    → 12 ≤ length query
    → 12 ≤ length response
    → drop 2 asking ≡ drop 2 query
    → 12 ≤ length asking
    → later - now ≤ default_ttl
    → All (Spares later (drop 2 query)) between
    → length (put now query response m) + length between ≤ max_entries
    → (lookup later asking (since between (put now query response m))).0
      ≡ some (take 2 asking ++ drop 2 response)
lookup-put now later query asking response m between a b c d e spared room =
    found_answers now later asking response (since between (put now query response m))
      (ap (λ k. get Bytes-discrete k (since between (put now query response m))) c
        ∙ since_keeps between now later (drop 2 query) response (put now query response m)
            (put_stores now query response m a b) e spared room)
      d b e

-- An entry that is too old is no answer, and is taken out.
pub lookup_expired :
    (now at : ℕ) (query body : Bytes) (m : CacheMap)
    → 12 ≤ length query
    → get Bytes-discrete (drop 2 query) m ≡ some (at, body)
    → default_ttl < now - at
    → ((lookup now query m).0 ≡ none)
      × (get Bytes-discrete (drop 2 query) (lookup now query m).1 ≡ none)
unfolding lookup
lookup_expired now at query body m a e t =
    ground (arith, get-remove Bytes-discrete (drop 2 query) (drop 2 query) m)

-- Every entry was put there by a call of the history.
abbrev Stored : List Call → Bytes → ℕ → Bytes → Type 0
Stored cs key at body =
    (query : Bytes) × Memᴰ (stored at query body) cs × (drop 2 query ≡ key) × (12 ≤ length body)

-- What a call leaves in the map was there before, or is what it stored.
get-put :
    (now : ℕ) (query response key : Bytes) (v : ℕ × Bytes) (m : CacheMap)
    → get Bytes-discrete key (put now query response m) ≡ some v
    → (get Bytes-discrete key m ≡ some v)
      ⊎ ((v ≡ (now, response)) × (drop 2 query ≡ key) × (12 ≤ length response))
unfolding put get
get-put now query response key v m e = ground (
  arith,
  get-insert {V = ℕ × Bytes} Bytes-discrete key (drop 2 query) (now, response) m,
  get-insert {V = ℕ × Bytes} Bytes-discrete key (drop 2 query) (now, response) [],
)

get-lookup :
    (now : ℕ) (query key : Bytes) (v : ℕ × Bytes) (m : CacheMap)
    → get Bytes-discrete key (lookup now query m).1 ≡ some v
    → get Bytes-discrete key m ≡ some v
unfolding lookup
get-lookup now query key v m e = ground (arith, get-remove Bytes-discrete key (drop 2 query) m)

weaken :
    (c : Call) {cs : List Call} {key : Bytes} {at : ℕ} {body : Bytes}
    → Stored cs key at body
    → Stored (c ∷ cs) key at body
weaken c (query, m, k, l) = (query, Memᴰ.tail m, k, l)

after-Stored :
    (cs : List Call) (key : Bytes) (at : ℕ) (body : Bytes)
    → get Bytes-discrete key (after cs) ≡ some (at, body)
    → Stored cs key at body
after-Stored [] key at body e = unfold get in cc
after-Stored (asked now query ∷ cs) key at body e =
    weaken (asked now query)
      (after-Stored cs key at body (get-lookup now query key (at, body) (after cs) e))
after-Stored (stored now query response ∷ cs) key at body e =
    elim (get-put now query response key (at, body) (after cs) e) [
      | inl old ↦ weaken (stored now query response) (after-Stored cs key at body old)
      | inr (v, k, l) ↦ (query, Memᴰ.head (ground arith), k, ground arith)
    ]

rewrite_id_lem :
    (query body : Bytes) → 12 ≤ length body → rewrite_id query body ≡ take 2 query ++ drop 2 body
unfolding rewrite_id
rewrite_id_lem query [] h = absurd (omega arith)
rewrite_id_lem query (x ∷ []) h = absurd (omega arith)
rewrite_id_lem query (x ∷ y ∷ body) h = refl

lookup_miss :
    (now : ℕ) (query out : Bytes) (m : CacheMap)
    → get Bytes-discrete (drop 2 query) m ≡ none
    → (lookup now query m).0 ≢ some out
unfolding lookup
lookup_miss now query out m g e = ground arith

lookup_hit :
    (now at : ℕ) (query body out : Bytes) (m : CacheMap)
    → get Bytes-discrete (drop 2 query) m ≡ some (at, body)
    → (lookup now query m).0 ≡ some out
    → (now - at ≤ default_ttl) × (out ≡ rewrite_id query body)
unfolding lookup
lookup_hit now at query body out m g e = ground arith

-- Whatever the cache answers to a query was put by an earlier call, at most 45 s before, for a
-- query with the same bytes behind the id; only the id is changed, to that of the query.
pub lookup_sound :
    (cs : List Call) (now : ℕ) (query out : Bytes)
    → (lookup now query (after cs)).0 ≡ some out
    → (at : ℕ) × (body : Bytes) × (original : Bytes) × Memᴰ (stored at original body) cs
      × (drop 2 original ≡ drop 2 query)
      × (now - at ≤ default_ttl)
      × (out ≡ take 2 query ++ drop 2 body)
lookup_sound cs now query out e =
    elim (Option-cases (get Bytes-discrete (drop 2 query) (after cs))) [
      | inl g ↦ absurd (lookup_miss now query out (after cs) g e)
      | inr (v, g) ↦
          let hit_facts = lookup_hit now v.0 query v.1 out (after cs) g e in
          let (original, m, k, l) = after-Stored cs (drop 2 query) v.0 v.1 g in
          (v.0, v.1, original, m, k, hit_facts.0, hit_facts.1 ∙ rewrite_id_lem query v.1 l)
    ]
