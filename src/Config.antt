-- ===== src/Config.antt =====
-- internal/tui/config/validate.go: the validators of the wizard's fields. A validator returns the
-- error's text, or none.
pub mod Ports
mod Tests
use cloudflared_fips.Prelude.{
  ℕ, zero, suc, ◌+◌, ◌-◌, ◌*◌, ◌%◌, ◌^◌, String, Bool, true, false, not, ◌&&◌, ◌||◌, List, [], ◌∷◌,
  Option, none, some, str_eq, leb, ltb, ◌==◌, if◌then◌else◌,
}
use cloudflared_fips.Prelude.Results.{Result, ok, err}
use cloudflared_fips.Prelude.Text.{concat, trim_space}
use Prim.Native.Char.{code}

abbrev pub is_digit : ℕ → Bool
is_digit c = leb 48 c && leb c 57

abbrev is_hex : ℕ → Bool
is_hex c = is_digit c || leb 97 c && leb c 102 || leb 65 c && leb c 70

-- what follows the given number of hexadecimal digits
pub after_hex : ℕ → String → Option String
after_hex zero s = some s
after_hex (suc n) String.[] = none
after_hex (suc n) (String.◌∷◌ c s) =
    let rest = after_hex n s in if is_hex (code c) then rest else none

abbrev after_dash : String → Option String
after_dash String.[] = none
after_dash (String.◌∷◌ c s) = if code c == 45 then some s else none

abbrev and_then : Option String → (String → Option String) → Option String
and_then none f = none
and_then (some s) f = f s

abbrev ended : Option String → Bool
ended none = false
ended (some s) = str_eq s ""

-- `uuidRe` and `hexIDRe`, anchored at both ends
pub is_uuid : String → Bool
is_uuid s = ended (
    and_then
      (and_then
        (and_then
          (and_then
            (and_then
              (and_then (and_then (and_then (after_hex 8 s) after_dash) (after_hex 4)) after_dash)
              (after_hex 4))
            after_dash)
          (after_hex 4))
        after_dash)
      (after_hex 12))

is_hex_id : String → Bool
is_hex_id s = ended (after_hex 32 s)

pub validate_uuid : String → Option String
validate_uuid s =
    let t = trim_space s in
    if str_eq t ""
    then some "UUID is required"
    else if is_uuid t
    then none
    else some "invalid UUID format (expected xxxxxxxx-xxxx-xxxx-xxxx-xxxxxxxxxxxx)"

validate_hex_id : String → Option String
validate_hex_id s =
    let t = trim_space s in
    if str_eq t ""
    then some "ID is required"
    else if is_hex_id t
    then none
    else some "invalid ID format (expected 32-character hex string)"

-- What `os.Stat` says of a path: nothing there, another error, or whether it is a directory.
pub data Stat : Type 0 where
  missing : Stat
  inaccessible : String → Stat
  present : Bool → Stat

abbrev judge_stat : String → Stat → Option String
judge_stat path missing = some (concat "file not found: " path)
judge_stat path (inaccessible e) = some (concat "cannot access file: " e)
judge_stat path (present is_dir) =
    if is_dir then some (concat "path is a directory, not a file: " path) else none

validate_file_exists : (String → Stat) → String → Option String
validate_file_exists stat s =
    let path = trim_space s in
    if str_eq path "" then some "file path is required" else judge_stat path (stat path)

abbrev judge_parts : Result (String × String) → Option String
judge_parts (err e) = some (concat "invalid address (expected host:port): " e)
judge_parts (ok (host, port)) =
    if str_eq host ""
    then some "host cannot be empty"
    else if str_eq port ""
    then some "port cannot be empty"
    else none

-- `split` is Go's `net.SplitHostPort`.
validate_host_port : (String → Result (String × String)) → String → Option String
validate_host_port split s =
    let t = trim_space s in
    if str_eq t "" then some "address is required" else judge_parts (split t)

validate_non_empty : String → Option String
validate_non_empty s = if str_eq (trim_space s) "" then some "value is required" else none

-- an `int` of 64 bits, of which a number from 2^63 on stands for a negative one
abbrev pub wrap : ℕ → ℕ
wrap n = n % 2 ^ 64

-- the loop, which a character that is no digit ends
pub port_loop : ℕ → String → Option ℕ
port_loop port String.[] = some port
port_loop port (String.◌∷◌ c s) =
    let rest = port_loop (wrap (port * 10 + (code c - 48))) s in
    if is_digit (code c) then rest else none

abbrev judge_port : Option ℕ → Option String
judge_port none = some "port must be a number"
judge_port (some port) =
    if ltb port 1 || ltb 65535 port then some "port must be between 1 and 65535" else none

pub validate_port : String → Option String
validate_port s =
    let t = trim_space s in
    if str_eq t "" then some "port is required" else judge_port (port_loop 0 t)

validate_optional_hex_id : String → Option String
validate_optional_hex_id s = if str_eq (trim_space s) "" then none else validate_hex_id s

validate_optional_host_port : (String → Result (String × String)) → String → Option String
validate_optional_host_port split s =
    if str_eq (trim_space s) "" then none else validate_host_port split s
