-- ===== src/Prelude/Io/Steps.antt =====
-- Actions taken apart: what a chain that succeeds has read, and chains that dial nothing.
use easy_connection.Prelude.{
  ℕ, ◌≡◌, ◌∙◌, refl, arith, List, ◌++◌, length, Bytes, length-take, take-append-drop, ap,
  take_exact, drop_exact, length-append, Result, ok, err,
}
use easy_connection.Prelude.Io.{Target, Conn, Action, ◌>>=◌, read_exact}

module _ {E A B : Type 0} (f : A → Action E B) where
  -- An action of which the end is known.
  abbrev ended : Result A E → Conn → Action E A
  ended r d c = (r, d)

  after_ok :
      (r : Result A E) (d : Conn) (b : B)
      → ((ended r d >>= f) d).0 ≡ ok b
      → (a : A) × (r ≡ ok a) × ((f a d).0 ≡ ok b) × ((ended r d >>= f) d ≡ f a d)
  after_ok (ok a) d b h = (a, refl, h, refl)
  after_ok (err e) d b h = cc

  after_keeps :
      (r : Result A E) (d c : Conn)
      → d.dialed ≡ c.dialed
      → ((a : A) (d : Conn) → (f a d).1.dialed ≡ d.dialed)
      → ((ended r d >>= f) d).1.dialed ≡ c.dialed
  after_keeps (ok a) d c h k = k a d ∙ h
  after_keeps (err e) d c h k = h

  after_err : (r : Result A E) (d : Conn) (e : E) → r ≡ err e → ((ended r d >>= f) d) ≡ (err e, d)
  after_err (ok a) d e h = cc
  after_err (err x) d e h = ground arith

module _ {E A B : Type 0} (m : Action E A) (f : A → Action E B) (c : Conn) where
  -- What a chain does once its first action is known.
  pub bind_to : (a : A) (d : Conn) → m c ≡ (ok a, d) → (m >>= f) c ≡ f a d
  bind_to a d h = ap (λ r. (ended f r.0 r.1 >>= f) r.1) h

  pub bind_err : (e : E) → (m c).0 ≡ err e → (m >>= f) c ≡ (err e, (m c).1)
  bind_err e h = after_err f (m c).0 (m c).1 e h

  pub bind_ok :
      (b : B)
      → ((m >>= f) c).0 ≡ ok b
      → (a : A) × ((m c).0 ≡ ok a) × ((f a (m c).1).0 ≡ ok b) × ((m >>= f) c ≡ f a (m c).1)
  bind_ok b h = after_ok f (m c).0 (m c).1 b h

  pub bind_keeps :
      (m c).1.dialed ≡ c.dialed
      → ((a : A) (d : Conn) → (f a d).1.dialed ≡ d.dialed)
      → ((m >>= f) c).1.dialed ≡ c.dialed
  bind_keeps h k = after_keeps f (m c).0 (m c).1 c h k

-- Two first actions that do the same.
pub bind_same :
    {E A B : Type 0} (m n : Action E A) (f : A → Action E B) (c d : Conn)
    → m c ≡ n d
    → (m >>= f) c ≡ (n >>= f) d
bind_same m n f c d h = ap (λ r. (ended f r.0 r.1 >>= f) r.1) h

module _ {E : Type 0} (eof : E) (n : ℕ) (c : Conn) where
  pub read_exact_keeps : (read_exact eof n c).1.dialed ≡ c.dialed
  read_exact_keeps = ground arith

  pub read_exact_ok :
      (b : Bytes)
      → (read_exact eof n c).0 ≡ ok b
      → (c.incoming ≡ b ++ (read_exact eof n c).1.incoming) × (length b ≡ n)
  read_exact_ok b h = ground (arith, take-append-drop n c.incoming, length-take n c.incoming)

pub read_exact_front :
    {E : Type 0} (eof : E) (n : ℕ) (b rest out : Bytes) (dialed : List Target)
    → length b ≡ n
    → read_exact eof n (record { incoming = b ++ rest; outgoing = out; dialed = dialed })
      ≡ (ok b, record { incoming = rest; outgoing = out; dialed = dialed })
read_exact_front eof n b rest out dialed h =
    ground (arith, take_exact n b rest h, drop_exact n b rest h, length-append b rest)

pub read_then :
    {E A : Type 0} (eof : E) (n : ℕ) (f : Bytes → Action E A) (b rest out : Bytes)
    (dialed : List Target)
    → length b ≡ n
    → (read_exact eof n >>= f) (record { incoming = b ++ rest; outgoing = out; dialed = dialed })
      ≡ f b (record { incoming = rest; outgoing = out; dialed = dialed })
read_then eof n f b rest out dialed h =
    bind_to (read_exact eof n) f (record { incoming = b ++ rest; outgoing = out; dialed = dialed })
      b (record { incoming = rest; outgoing = out; dialed = dialed })
      (read_exact_front eof n b rest out dialed h)
