-- ===== src/Config/Tests.antt =====
-- The theorem on internal/tui/config/validate.go at a port and at a text that wraps to one.
use cloudflared_fips.Prelude.{ℕ, ◌≤◌, ◌%◌, ◌^◌, ◌≡◌, ◌≢◌, ◌↔◌, refl, none, some, arith}
use cloudflared_fips.Prelude.Text.{trim_space}
use cloudflared_fips.Config.{validate_port, port_loop, validate_uuid, is_uuid, after_hex}
use cloudflared_fips.Config.Ports.{value, validate_port-wraps}

-- 2^64 + 443
wrapped_port : validate_port "18446744073709552059" ≡ none
unfolding validate_port port_loop trim_space
wrapped_port = refl

uuid : validate_uuid " 0123abcd-0123-4567-89AB-0123456789ab" ≡ none
unfolding validate_uuid is_uuid after_hex trim_space
uuid = refl

short_uuid : validate_uuid "0123abcd-0123-4567-89AB-0123456789a" ≢ none
unfolding validate_uuid is_uuid after_hex trim_space
short_uuid = λ e. ground arith

validate_port-wraps_example : (validate_port "18446744073709552059" ≡ none) ↔ (
    (n : ℕ) × (value 0 (trim_space "18446744073709552059") ≡ some n)
    × (1 ≤ n % 2 ^ 64)
    × (n % 2 ^ 64 ≤ 65535))
validate_port-wraps_example = validate_port-wraps "18446744073709552059"
