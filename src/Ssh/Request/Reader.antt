-- ===== src/Ssh/Request/Reader.antt =====
-- How a host reads a head: lines up to an empty one.
use easy_connection.Prelude.{
  ℕ, zero, suc, ◌+◌, ◌/◌, ◌%◌, ◌≡◌, refl, arith, Bool, true, false, not, ◌&&◌, Option, none, some,
  List, [], ◌∷◌, ◌++◌, ◌==◌, ltb, if◌then◌else◌, is_empty, Bytes, Bool-cases, inl, inr,
}
use easy_connection.Prelude.Text.{Str, utf8_char, utf8, all, show_digits}
use easy_connection.Ssh.Request.{is_graphic}

-- No carriage return and no line feed.
abbrev pub in_line : ℕ → Bool
in_line c = not (c == 13) && not (c == 10)

abbrev pub is_line : Str → Bool
is_line s = all in_line s

-- What stands in front of the first CR LF, and behind it.
unfoldable pub cut : Str → Option (Str × Str)
cut [] = none
cut (c ∷ []) = none
cut (c ∷ d ∷ s) =
    let rest = cut (d ∷ s) in
    if (c == 13) && (d == 10)
    then some ([], s)
    else elim rest [ none ↦ none | some p ↦ some (c ∷ p.0, p.1) ]

-- A text is read as lines that are not empty, an empty one, and a body.
abbrev pub IsRead : List Str → Str → Str → Type 0
IsRead [] body s = cut s ≡ some ([], body)
IsRead (l ∷ ls) body s =
    (is_empty l ≡ false) × ((rest : Str) × (cut s ≡ some (l, rest)) × IsRead ls body rest)

pub cut-line : (l rest : Str) → is_line l ≡ true → cut (l ++ (13 ∷ 10 ∷ rest)) ≡ some (l, rest)
unfolding cut
cut-line [] rest h = refl
cut-line (c ∷ []) rest h = ground (arith, h)
cut-line (c ∷ d ∷ l) rest h = ground (arith, h, cut-line (d ∷ l) rest)

-- Lines, each with its CR LF, an empty one, and a body.
abbrev pub written : List Str → Str → Str
written [] body = 13 ∷ 10 ∷ body
written (l ∷ ls) body = l ++ (13 ∷ 10 ∷ written ls body)

abbrev pub AreLines : List Str → Type 0
AreLines [] = Unit {0}
AreLines (l ∷ ls) = (is_empty l ≡ false) × (is_line l ≡ true) × AreLines ls

pub written-IsRead : (ls : List Str) (body : Str) → AreLines ls → IsRead ls body (written ls body)
written-IsRead [] body h = cut-line [] body refl
written-IsRead (l ∷ ls) body (e, h, hs) =
    (e, (written ls body, cut-line l (written ls body) h, written-IsRead ls body hs))

pub AreLines-append : (ls ms : List Str) → AreLines ls → AreLines ms → AreLines (ls ++ ms)
AreLines-append [] ms h k = k
AreLines-append (l ∷ ls) ms (e, h, hs) k = (e, h, AreLines-append ls ms hs k)

pub all-append :
    (f : ℕ → Bool) (s t : Str) → all f s ≡ true → all f t ≡ true → all f (s ++ t) ≡ true
all-append f [] t h k = k
all-append f (c ∷ s) t h k = elim (Bool-cases (f c)) [
  | inl y ↦ rw (y, all-append f s t (rw y at h) k) refl
  | inr n ↦ absurd (cc (rw n at h))
]

pub is_empty-append : (s t : Str) → is_empty t ≡ false → is_empty (s ++ t) ≡ false
is_empty-append [] t h = h
is_empty-append (c ∷ s) t h = refl

pub is_line-digits :
    (rounds n : ℕ) (s : Str) → is_line s ≡ true → is_line (show_digits rounds n s) ≡ true
unfolding show_digits
is_line-digits zero n s h = h
is_line-digits (suc rounds) n s h =
    let first : is_line ((b'0' + n % 10) ∷ s) ≡ true = ground (arith, h) in
    elim (Bool-cases (ltb n 10)) [
      | inl e ↦ rw e first
      | inr e ↦ rw e (is_line-digits rounds (n / 10) _ first)
    ]

-- A character of printable ASCII that is no space.
abbrev pub is_printable : ℕ → Bool
is_printable c = not (ltb c 33) && ltb c 127

pub char-printable :
    (c : ℕ) (bs : Bytes) (b : Bool)
    → all is_graphic bs ≡ b
    → all is_graphic (utf8_char c ++ bs) ≡ is_printable c && b
unfolding utf8_char
char-printable c bs b e = ground (arith, e)

pub utf8-printable : (s : Str) → all is_graphic (utf8 s) ≡ all is_printable s
unfolding utf8
utf8-printable [] = refl
utf8-printable (c ∷ s) = char-printable c (utf8 s) (all is_printable s) (utf8-printable s)

pub printable-line : (s : Str) → all is_printable s ≡ true → is_line s ≡ true
printable-line [] h = refl
printable-line (c ∷ s) h = ground (arith, h, printable-line s)
