-- ===== src/Helper/Spec/Valid.antt =====
-- The check of a specification accepts exactly the valid ones.
use easy_connection.Prelude.{◌↔◌, ◌≡◌, arith, ok, eq_bytes_iff}
use easy_connection.Nft.{tun_name}
use easy_connection.Helper.Spec.{ApplySpec, validate, IsValid}

-- A specification is accepted exactly when it names the helper's own TUN device, has an MTU from
-- 576 to 9000, a prefix of at most 32, an address of the server, and both intercept ports.
pub validate_iff : (s : ApplySpec) → (validate s ≡ ok tt) ↔ IsValid s
unfolding validate
validate_iff s = (
  λ h. ground (arith, eq_bytes_iff s.tun_name tun_name),
  λ h. ground (arith, eq_bytes_iff s.tun_name tun_name),
)
