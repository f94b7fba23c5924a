-- ===== src/Tunnel/Servers/Sorted.antt =====
-- The addresses that `resolve_server_ips` gives.
use easy_connection.Prelude.{
  ℕ, ◌≡◌, ◌≢◌, ◌⊎◌, ◌↔◌, inl, inr, refl, arith, sym, true, false, List, [], ◌∷◌, ◌++◌, Bool-cases,
  Bytes, eq_bytes_iff, ok, err,
}
use mathlib.Core.Path.{subst}
use easy_connection.Prelude.Net.{IpAddr, v4, v6}
use easy_connection.Prelude.Text.{Str, codes}
use easy_connection.Tunnel.State.{TunnelError, other}
use easy_connection.Tunnel.Servers.{
  bytes_less, ip_less, ip_eq, insert, sort, dedup_after, dedup, resolve_server_ips,
}

abbrev pub In : IpAddr → List IpAddr → Type 0
In a [] = ⊥
In a (b ∷ bs) = (a ≡ b) ⊎ In a bs

-- Each address is less than the next.
abbrev pub Ascending : List IpAddr → Type 0
Ascending [] = Unit {0}
Ascending (a ∷ []) = Unit {0}
Ascending (a ∷ b ∷ rest) = (ip_less a b ≡ true) × Ascending (b ∷ rest)

-- No address is less than the one in front of it.
abbrev pub Ordered : List IpAddr → Type 0
Ordered [] = Unit {0}
Ordered (a ∷ []) = Unit {0}
Ordered (a ∷ b ∷ rest) = (ip_less b a ≡ false) × Ordered (b ∷ rest)

bytes_asym : (a b : Bytes) → bytes_less a b ≡ true → bytes_less b a ≡ false
unfolding bytes_less
bytes_asym [] [] h = cc
bytes_asym [] (y ∷ b) h = refl
bytes_asym (x ∷ a) [] h = cc
bytes_asym (x ∷ a) (y ∷ b) h = ground (arith, bytes_asym a b)

bytes_total : (a b : Bytes) → (a ≡ b) ⊎ (bytes_less a b ≡ true) ⊎ (bytes_less b a ≡ true)
unfolding bytes_less
bytes_total [] [] = inl refl
bytes_total [] (y ∷ b) = inr (inl refl)
bytes_total (x ∷ a) [] = inr (inr refl)
bytes_total (x ∷ a) (y ∷ b) = ground (arith, bytes_total a b)

ip_total : (a b : IpAddr) → (a ≡ b) ⊎ (ip_less a b ≡ true) ⊎ (ip_less b a ≡ true)
unfolding ip_less
ip_total (v4 a) (v4 b) = ground (arith, bytes_total a b)
ip_total (v4 a) (v6 b) = inr (inl refl)
ip_total (v6 a) (v4 b) = inr (inr refl)
ip_total (v6 a) (v6 b) = ground (arith, bytes_total a b)

ip_asym : (a b : IpAddr) → ip_less a b ≡ true → ip_less b a ≡ false
unfolding ip_less
ip_asym (v4 a) (v4 b) h = bytes_asym a b h
ip_asym (v4 a) (v6 b) h = refl
ip_asym (v6 a) (v4 b) h = cc
ip_asym (v6 a) (v6 b) h = bytes_asym a b h

ip_eq_iff : (a b : IpAddr) → (ip_eq a b ≡ true) ↔ (a ≡ b)
unfolding ip_eq
ip_eq_iff (v4 a) (v4 b) = ground (arith, eq_bytes_iff a b)
ip_eq_iff (v4 a) (v6 b) = ground arith
ip_eq_iff (v6 a) (v4 b) = ground arith
ip_eq_iff (v6 a) (v6 b) = ground (arith, eq_bytes_iff a b)

insert_cases :
    (a b : IpAddr) (bs : List IpAddr)
    → ((ip_less a b ≡ true) × (insert a (b ∷ bs) ≡ a ∷ b ∷ bs))
      ⊎ ((ip_less a b ≡ false) × (insert a (b ∷ bs) ≡ b ∷ insert a bs))
unfolding insert
insert_cases a b bs = elim (Bool-cases (ip_less a b)) [
  | inl e ↦ inl (e, rw e refl)
  | inr e ↦ inr (e, rw e refl)
]

insert_behind :
    (a b : IpAddr) (bs : List IpAddr)
    → ip_less a b ≡ false
    → Ordered (b ∷ bs)
    → Ordered (insert a bs)
    → Ordered (b ∷ insert a bs)
unfolding insert
insert_behind a b [] l o more = (l, tt)
insert_behind a b (c ∷ cs) l (h, o) more = elim (insert_cases a c cs) [
  | inl (m, e) ↦ rw e (l, (ip_asym a c m, o))
  | inr (m, e) ↦ rw e (h, rw e at more)
]

insert-Ordered : (a : IpAddr) (bs : List IpAddr) → Ordered bs → Ordered (insert a bs)
unfolding insert
insert-Ordered a [] o = tt
insert-Ordered a (b ∷ bs) o = elim (insert_cases a b bs) [
  | inl (l, e) ↦ rw e (ip_asym a b l, o)
  | inr (l, e) ↦ rw e (insert_behind a b bs l o (insert-Ordered a bs (tail b bs o)))
]
  where
    tail : (b : IpAddr) (bs : List IpAddr) → Ordered (b ∷ bs) → Ordered bs
    tail b [] o = tt
    tail b (c ∷ cs) (h, o) = o

sort-Ordered : (ips : List IpAddr) → Ordered (sort ips)
unfolding sort
sort-Ordered [] = tt
sort-Ordered (a ∷ ips) = insert-Ordered a (sort ips) (sort-Ordered ips)

Ordered-skip :
    (last a : IpAddr) (rest : List IpAddr) → last ≡ a → Ordered (a ∷ rest) → Ordered (last ∷ rest)
Ordered-skip last a rest e o = subst (λ y. Ordered (y ∷ rest)) (sym e) o

dedup_after-Ascending :
    (last : IpAddr) (rest : List IpAddr)
    → Ordered (last ∷ rest)
    → Ascending (last ∷ dedup_after last rest)
unfolding dedup_after
dedup_after-Ascending last [] o = tt
dedup_after-Ascending last (a ∷ rest) (h, o) = elim (Bool-cases (ip_eq last a)) [
  | inl e ↦
      rw e (dedup_after-Ascending last rest (Ordered-skip last a rest ((ip_eq_iff last a).0 e) o))
  | inr e ↦ rw e (less e, dedup_after-Ascending a rest o)
]
  where
    less : ip_eq last a ≡ false → ip_less last a ≡ true
    less e = ground (arith, ip_total last a, ip_eq_iff last a)

insert-In : (x a : IpAddr) (bs : List IpAddr) → In x (insert a bs) ↔ ((x ≡ a) ⊎ In x bs)
unfolding insert
insert-In x a [] = ground arith
insert-In x a (b ∷ bs) = elim (insert_cases a b bs) [
  | inl (l, e) ↦ rw e (ground arith)
  | inr (l, e) ↦ rw e (ground (arith, insert-In x a bs))
]

sort-In : (x : IpAddr) (ips : List IpAddr) → In x (sort ips) ↔ In x ips
unfolding sort
sort-In x [] = ground arith
sort-In x (a ∷ ips) = ground (arith, sort-In x ips, insert-In x a (sort ips))

dedup_after-In :
    (x last : IpAddr) (rest : List IpAddr)
    → In x (last ∷ dedup_after last rest) ↔ In x (last ∷ rest)
unfolding dedup_after
dedup_after-In x last [] = ground arith
dedup_after-In x last (a ∷ rest) = elim (Bool-cases (ip_eq last a)) [
  | inl e ↦ rw e (ground (arith, dedup_after-In x last rest, (ip_eq_iff last a).0 e))
  | inr e ↦ rw e (ground (arith, dedup_after-In x a rest))
]

-- Where nothing was found there is an error; else the addresses are in strictly ascending order,
-- and an address is one of them exactly when it was found.
pub resolve_server_ips-Ascending :
    (host : Str) (port : ℕ) (x : IpAddr) (found : List IpAddr)
    → ((found ≡ []) × ((e : TunnelError) × (resolve_server_ips host port (ok found) ≡ err e)))
      ⊎ ((ips : List IpAddr) × (resolve_server_ips host port (ok found) ≡ ok ips)
          × (ips ≢ [])
          × Ascending ips
          × (In x ips ↔ In x found))
unfolding resolve_server_ips dedup
resolve_server_ips-Ascending host port x found = go (sort found) refl
  where
    go :
        (s : List IpAddr)
        → sort found ≡ s
        → ((found ≡ []) × ((e : TunnelError) × (resolve_server_ips host port (ok found) ≡ err e)))
          ⊎ ((ips : List IpAddr) × (resolve_server_ips host port (ok found) ≡ ok ips)
              × (ips ≢ [])
              × Ascending ips
              × (In x ips ↔ In x found))
    go [] e = inl (empty found e, (other (codes "No addresses resolved for " ++ host), rw e refl))
      where
        empty : (f : List IpAddr) → sort f ≡ [] → f ≡ []
        empty [] e = refl
        empty (a ∷ f) e = absurd ((rw e at ((sort-In a (a ∷ f)).1 (inl refl))))
    go (a ∷ s) e = inr (
      a ∷ dedup_after a s,
      rw e refl,
      ground arith,
      dedup_after-Ascending a s (rw e at (sort-Ordered found)),
      ground (arith, dedup_after-In x a s, rw e at (sort-In x found)),
    )
