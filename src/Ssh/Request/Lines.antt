-- ===== src/Ssh/Request/Lines.antt =====
-- The head of a request, as a host reads it.
use mathlib.Core.Path.{subst, sym}
use easy_connection.Prelude.{
  ℕ, ◌≡◌, refl, ◌∙◌, ap, Bool, true, false, not, ◌&&◌, Option, none, some, List, [], ◌∷◌, ◌++◌,
  ◌==◌, if◌then◌else◌, is_empty, Bytes, contains, length, Bool-cases, inl, inr, append_assoc,
}
use easy_connection.Prelude.Text.{Str, codes, all, trim, show_u16, show_usize}
use easy_connection.Ssh.Request.Reader.{
  in_line, is_line, IsRead, written, AreLines, written-IsRead, AreLines-append, all-append,
  is_empty-append, is_line-digits, is_printable, utf8-printable, printable-line,
}
use easy_connection.Ssh.Request.{
  ZoneHttpRequest, starts_bracket, bracketed, host_header, zone_line, type_line, default_path,
  first_lines, last_lines, http_request,
}

-- The header of the zone: where the id without the spaces around it is not empty and printable.
abbrev pub zone_header : Option Str → List Str
zone_header none = []
zone_header (some id) =
    if not (is_empty (trim id)) && all is_printable (trim id)
    then (codes "X-Zone-Id: " ++ trim id) ∷ []
    else []

abbrev pub type_header : Option Str → List Str
type_header none = []
type_header (some ct) = (codes "Content-Type: " ++ ct) ∷ []

abbrev pub length_header : Option Bytes → List Str
length_header none = []
length_header (some body) = (codes "Content-Length: " ++ show_usize (length body)) ∷ []

-- The request line, and the headers that every request has.
abbrev pub request_line : ZoneHttpRequest → Str
request_line req = req.method ++ (codes " " ++ (default_path req.path ++ codes " HTTP/1.1"))

abbrev pub own_headers : ZoneHttpRequest → List Str
own_headers req =
    (codes "Host: " ++ host_header req.host req.port req.https)
    ∷ codes "Connection: close"
    ∷ codes "User-Agent: smart_config/1.0"
    ∷ codes "Accept: */*"
    ∷ []

abbrev pub head_of : ZoneHttpRequest → List Str
head_of req =
    request_line req
    ∷ (own_headers req
        ++ (zone_header req.zone_id ++ (type_header req.content_type ++ length_header req.body)))

abbrev pub IsLineIf : Option Str → Type 0
IsLineIf none = Unit {0}
IsLineIf (some s) = is_line s ≡ true

-- No line break in what a caller puts into the head, but for the id of the zone.
pub record IsOneLine (req : ZoneHttpRequest) : Type 0 where
  pub method_line : is_line req.method ≡ true
  pub host_line : is_line req.host ≡ true
  pub path_line : is_line req.path ≡ true
  pub content_line : IsLineIf req.content_type

bracketed-line : (host : Str) → is_line host ≡ true → is_line (bracketed host) ≡ true
bracketed-line host h = elim (Bool-cases (contains host b':' && not (starts_bracket host))) [
  | inl y ↦ rw y (all-append in_line host (codes "]") h refl)
  | inr n ↦ rw n h
]

host_header-line :
    (host : Str) (port : ℕ) (https : Bool)
    → is_line host ≡ true
    → is_line (host_header host port https) ≡ true
unfolding host_header show_u16
host_header-line host port https h = elim (Bool-cases (port == (if https then 443 else 80))) [
  | inl y ↦ rw y (bracketed-line host h)
  | inr n ↦ rw n (
      all-append in_line (bracketed host) (codes ":" ++ show_u16 port) (bracketed-line host h)
        (is_line-digits 5 port [] refl))
]

request_line-line :
    (req : ZoneHttpRequest)
    → IsOneLine req
    → (is_empty (request_line req) ≡ false) × (is_line (request_line req) ≡ true)
request_line-line req h = (
  is_empty-append req.method _ refl,
  all-append in_line req.method _ h.method_line (
      all-append in_line (default_path req.path) (codes " HTTP/1.1") (path req.path h.path_line)
        refl),
)
  where
    path : (s : Str) → is_line s ≡ true → is_line (default_path s) ≡ true
    path [] e = refl
    path (c ∷ s) e = e

zone_header-AreLines : (zone_id : Option Str) → AreLines (zone_header zone_id)
zone_header-AreLines none = tt
zone_header-AreLines (some id) =
    elim (Bool-cases (not (is_empty (trim id)) && all is_printable (trim id))) [
      | inl y ↦ rw y (refl, printable-line (trim id) (and_right _ _ y), tt)
      | inr n ↦ rw n tt
    ]
  where
    and_right : (a b : Bool) → a && b ≡ true → b ≡ true
    and_right true b e = e
    and_right false b e = absurd (cc e)

type_header-AreLines : (ct : Option Str) → IsLineIf ct → AreLines (type_header ct)
type_header-AreLines none h = tt
type_header-AreLines (some ct) h = (refl, h, tt)

length_header-AreLines : (body : Option Bytes) → AreLines (length_header body)
unfolding show_usize
length_header-AreLines none = tt
length_header-AreLines (some body) = (refl, is_line-digits 20 (length body) [] refl, tt)

head_of-AreLines : (req : ZoneHttpRequest) → IsOneLine req → AreLines (head_of req)
head_of-AreLines req h =
    let (some_line, one) = request_line-line req h in
    let rest = AreLines-append (zone_header req.zone_id) _ (zone_header-AreLines req.zone_id) (
      AreLines-append (type_header req.content_type) _
        (type_header-AreLines req.content_type h.content_line) (length_header-AreLines req.body)) in
    let host = host_header-line req.host req.port req.https h.host_line in
    (some_line, one, (refl, host, (refl, refl, (refl, refl, (refl, refl, rest)))))

-- The texts that the source puts between the parts, cut into lines.
head_written :
    (method path host tail : Str)
    → (method
          ++ (codes " "
              ++ (path
                  ++ (codes " HTTP/1.1\r\nHost: "
                      ++ (host
                          ++ codes
                              "\r\nConnection: close\r\nUser-Agent: smart_config/1.0\r\nAccept: */*\r\n")))))
        ++ tail
      ≡ (method ++ (codes " " ++ (path ++ codes " HTTP/1.1")))
        ++ (codes "\r\nHost: "
            ++ (host
                ++ (codes "\r\nConnection: close\r\nUser-Agent: smart_config/1.0\r\nAccept: */*\r\n"
                    ++ tail)))
head_written method path host tail =
    let behind : Str =
      codes "\r\nConnection: close\r\nUser-Agent: smart_config/1.0\r\nAccept: */*\r\n" in
    let from_host : Str = codes "\r\nHost: " ++ (host ++ (behind ++ tail)) in
    append_assoc method _ tail
    ∙ ap (λ s. method ++ (codes " " ++ s))
        (append_assoc path _ tail
          ∙ ap (λ s. path ++ (codes " HTTP/1.1\r\nHost: " ++ s)) (append_assoc host behind tail))
    ∙ sym (
        append_assoc method (codes " " ++ (path ++ codes " HTTP/1.1")) from_host
        ∙ ap (λ s. method ++ (codes " " ++ s)) (append_assoc path (codes " HTTP/1.1") from_host))

module _ (lossy : Bytes → Str) where
  abbrev pub body_text : Option Bytes → Str
  body_text none = []
  body_text (some body) = lossy body

  last_written :
      (body : Option Bytes) → last_lines lossy body ≡ written (length_header body) (body_text body)
  unfolding last_lines
  last_written none = refl
  last_written (some body) = refl

  type_written :
      (ct : Option Str) (ls : List Str) (body : Str)
      → type_line ct ++ written ls body ≡ written (type_header ct ++ ls) body
  type_written none ls body = refl
  type_written (some ct) ls body =
      ap (λ s. codes "Content-Type: " ++ s) (append_assoc ct (codes "\r\n") (written ls body))

  zone_written :
      (zone_id : Option Str) (ls : List Str) (body : Str)
      → zone_line zone_id ++ written ls body ≡ written (zone_header zone_id ++ ls) body
  unfolding zone_line
  zone_written none ls body = refl
  zone_written (some id) ls body =
      rw (utf8-printable (trim id))
        (elim (Bool-cases (not (is_empty (trim id)) && all is_printable (trim id))) [
          | inl y ↦ rw y (
              ap (λ s. codes "X-Zone-Id: " ++ s)
                (append_assoc (trim id) (codes "\r\n") (written ls body)))
          | inr n ↦ rw n refl
        ])

  first_written :
      (req : ZoneHttpRequest) (ls : List Str) (body : Str)
      → first_lines req ++ written ls body
        ≡ written (request_line req ∷ (own_headers req ++ ls)) body
  unfolding first_lines
  first_written req ls body =
      head_written req.method (default_path req.path) (host_header req.host req.port req.https)
        (written ls body)

  -- A host reads a request as the request line, the Host header and the three headers that are the
  -- same in every request, then X-Zone-Id with the id without the spaces around it exactly where
  -- that is not empty and of printable ASCII without a space, then the type and the length if
  -- there are any, and the body: so an id is never a header of its own. The method, the host, the
  -- path and the type have no line break.
  pub http_request-IsRead :
      (req : ZoneHttpRequest)
      → IsOneLine req
      → IsRead (head_of req) (body_text req.body) (http_request lossy req)
  unfolding http_request
  http_request-IsRead req h =
      let body = body_text req.body in
      let behind = length_header req.body in
      let rest = type_header req.content_type ++ behind in
      let whole : http_request lossy req ≡ written (head_of req) body =
        ap (λ s. first_lines req ++ (zone_line req.zone_id ++ (type_line req.content_type ++ s)))
          (last_written req.body)
        ∙ ap (λ s. first_lines req ++ (zone_line req.zone_id ++ s))
            (type_written req.content_type behind body)
        ∙ ap (λ s. first_lines req ++ s) (zone_written req.zone_id rest body)
        ∙ first_written req (zone_header req.zone_id ++ rest) body in
      subst (IsRead (head_of req) body) (sym whole)
        (written-IsRead (head_of req) body (head_of-AreLines req h))
