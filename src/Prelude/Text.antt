-- ===== src/Prelude/Text.antt =====
-- The operations of Go's `strings` package that the program uses, on native texts.
use Prim.Native.String.{String, slice, ◌++◌ as append}
use Prim.Native.Char.{code}
use Prim.Native.Nat.{ℕ, zero, suc, ◌-◌, ◌/◌, ◌%◌}
use mathlib.Core.Path.{◌≡◌, refl}
use mathlib.Core.Bool.{Bool, true, false, ◌||◌, ◌&&◌}
use mathlib.Core.List.{List, [], ◌∷◌}
use mathlib.Core.Option.{Option, none, some}
use cloudflared_fips.Prelude.Tests.{leb, ◌==◌, if◌then◌else◌}

-- What is left of the text behind the prefix, if it begins with it.
abbrev pub strip_prefix : String → String → Option String
strip_prefix String.[] t = some t
strip_prefix (String.◌∷◌ c s) String.[] = none
strip_prefix (String.◌∷◌ c s) (String.◌∷◌ d t) =
    let rest = strip_prefix s t in if code c == code d then rest else none

-- `strings.HasPrefix(t, s)`
unfoldable pub has_prefix : String → String → Bool
has_prefix t s = elim (strip_prefix s t) [ none ↦ false | some _ ↦ true ]

-- `strings.TrimPrefix(t, s)`: the text itself where it does not begin with the prefix.
unfoldable pub trim_prefix : String → String → String
trim_prefix t s = elim (strip_prefix s t) [ none ↦ t | some r ↦ r ]

-- `strings.Contains(t, s)`: the empty text stands in every text.
unfoldable pub contains : String → String → Bool
contains String.[] String.[] = true
contains String.[] (String.◌∷◌ c s) = false
contains (String.◌∷◌ d t) s = has_prefix (String.◌∷◌ d t) s || contains t s

-- `s + t`
abbrev pub concat : String → String → String
concat s t = append s t

-- `unicode.IsSpace`
is_space : ℕ → Bool
is_space c =
    leb 9 c && leb c 13
    || c == 32
    || c == 0x85
    || c == 0xa0
    || c == 0x1680
    || leb 0x2000 c && leb c 0x200a
    || c == 0x2028
    || c == 0x2029
    || c == 0x202f
    || c == 0x205f
    || c == 0x3000

trim_left : String → String
unfolding is_space
trim_left String.[] = String.[]
trim_left (String.◌∷◌ c s) =
    let rest = trim_left s in if is_space (code c) then rest else String.◌∷◌ c s

abbrev is_empty : String → Bool
is_empty String.[] = true
is_empty (String.◌∷◌ c s) = false

trim_right : String → String
unfolding is_space
trim_right String.[] = String.[]
trim_right (String.◌∷◌ c s) =
    let rest = trim_right s in
    if is_space (code c) && is_empty rest then String.[] else String.◌∷◌ c rest

-- `strings.TrimSpace(s)`
unfoldable pub trim_space : String → String
unfolding trim_left trim_right
trim_space s = trim_right (trim_left s)

-- `strings.SplitN(s, sep, 2)[0]` for a separator of one character
pub split_first : ℕ → String → String
split_first sep String.[] = String.[]
split_first sep (String.◌∷◌ c s) =
    let rest = split_first sep s in if code c == sep then String.[] else String.◌∷◌ c rest

abbrev pub to_front : String → List String → List String
to_front c [] = c ∷ []
to_front c (part ∷ parts) = append c part ∷ parts

-- `strings.SplitN(s, sep, cuts + 1)` for a separator of one character
unfoldable pub split_cuts : ℕ → ℕ → String → List String
split_cuts sep zero s = s ∷ []
split_cuts sep (suc cuts) String.[] = String.[] ∷ []
split_cuts sep (suc cuts) (String.◌∷◌ c s) = elim (code c == sep) [
  | true ↦ String.[] ∷ split_cuts sep cuts s
  | false ↦ to_front (String.◌∷◌ c String.[]) (split_cuts sep (suc cuts) s)
]

-- `s[:strings.LastIndex(s, sep)]` for a separator of one character, if it occurs
unfoldable pub before_last : ℕ → String → Option String
before_last sep String.[] = none
before_last sep (String.◌∷◌ c s) = elim (before_last sep s) [
  | none ↦ if code c == sep then some String.[] else none
  | some r ↦ some (String.◌∷◌ c r)
]

abbrev upper_of : ℕ → String → String
upper_of c text =
    if leb 97 c && leb c 122
    then slice "ABCDEFGHIJKLMNOPQRSTUVWXYZ" (c - 97) (c - 96)
    else if c == 0x131
    then "I"
    else if c == 0x17f
    then "S"
    else text

-- `strings.ToUpper` where the result is compared with ASCII texts: beside the ASCII letters, two
-- letters have an ASCII capital.
pub to_upper : String → String
to_upper String.[] = String.[]
to_upper (String.◌∷◌ c s) =
    let rest = to_upper s in append (upper_of (code c) (String.◌∷◌ c String.[])) rest

abbrev lower_of : ℕ → String → String
lower_of c text =
    if leb 65 c && leb c 90
    then slice "abcdefghijklmnopqrstuvwxyz" (c - 65) (c - 64)
    else if c == 0x130
    then "i"
    else if c == 0x212a
    then "k"
    else text

-- `strings.ToLower`, likewise
unfoldable pub to_lower : String → String
to_lower String.[] = String.[]
to_lower (String.◌∷◌ c s) =
    let rest = to_lower s in append (lower_of (code c) (String.◌∷◌ c String.[])) rest

abbrev digit : ℕ → String
digit k = slice "0123456789" k (suc k)

digits : ℕ → ℕ → String → String
digits zero n text = text
digits (suc fuel) n text =
    let longer = concat (digit (n % 10)) text in
    let rest = digits fuel (n / 10) longer in if n / 10 == 0 then longer else rest

-- `%d` of a number below 2^64, which has at most twenty digits
pub decimal : ℕ → String
unfolding digits
decimal n = digits 20 n ""

printed : decimal 1732637890123456789 ≡ "1732637890123456789"
unfolding decimal digits
printed = refl

raised : to_upper "aes128-gcm-Sha256" ≡ "AES128-GCM-SHA256"
unfolding to_upper
raised = refl

lowered : to_lower "Regional_KEYLESS" ≡ "regional_keyless"
unfolding to_lower
lowered = refl

cut : split_cuts b'.' 2 "1.24.1.0" ≡ "1" ∷ "24" ∷ "1.0" ∷ []
unfolding split_cuts
cut = refl

forwarded : trim_space (split_first b',' " 10.0.0.7 , 172.16.0.1") ≡ "10.0.0.7"
unfolding trim_space split_first
forwarded = refl

host_of : before_last b':' "[::1]:8080" ≡ some "[::1]"
unfolding before_last
host_of = refl

bearer : trim_prefix "Bearer abc" "Bearer " ≡ "abc"
unfolding trim_prefix
bearer = refl
