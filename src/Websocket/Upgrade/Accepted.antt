-- ===== src/Websocket/Upgrade/Accepted.antt =====
-- What an upgrade that is accepted has read and checked.
use easy_connection.Prelude.{◌≡◌, true, some, ◌++◌, Bytes}
use easy_connection.Prelude.Io.{Conn}
use easy_connection.Prelude.Text.{Str, codes, eq_ignore_ascii_case}
use easy_connection.Websocket.Base64.{base64_encode}
use easy_connection.Websocket.Upgrade.{
  is_101, header_value, header_has_token, crlf2, ends_with, upgrade_request, accept_key,
}

-- The bytes that were read, behind those that were there.
record Read (buf head : Bytes) (c after : Conn) : Type 0 where
  more : Bytes
  grown : head ≡ buf ++ more
  taken : c.incoming ≡ more ++ after.incoming
  ended : ends_with head crlf2 ≡ true
  silent : after.outgoing ≡ c.outgoing

module _ (sha1 : Bytes → Bytes) (lossy : Bytes → Str) where
  -- What a response that is accepted says.
  pub record Answers (key headers : Str) : Type 0 where
    pub status : is_101 headers ≡ true
    pub upgrades : header_has_token headers (codes "upgrade") (codes "websocket") ≡ true
    pub connects : header_has_token headers (codes "connection") (codes "upgrade") ≡ true
    pub got : Str
    pub has_accept : header_value headers (codes "sec-websocket-accept") ≡ some got
    pub accepts : eq_ignore_ascii_case got (accept_key sha1 lossy key) ≡ true

  -- What an accepted upgrade has read and written.
  pub record Upgraded (host path : Str) (key_raw : Bytes) (c after : Conn) : Type 0 where
    pub head : Bytes
    pub taken : c.incoming ≡ head ++ after.incoming
    pub ended : ends_with head crlf2 ≡ true
    pub sent : after.outgoing ≡ c.outgoing ++ upgrade_request host path (base64_encode key_raw)
    pub answered : Answers (base64_encode key_raw) (lossy head)
