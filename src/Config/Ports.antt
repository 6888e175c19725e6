-- ===== src/Config/Ports.antt =====
-- Which texts `ValidatePort` of internal/tui/config/validate.go accepts.
use cloudflared_fips.Prelude.{
  ℕ, ◌+◌, ◌-◌, ◌*◌, ◌%◌, ◌^◌, ◌≤◌, ◌≡◌, ◌↔◌, refl, sym, ap, ◌∙◌, inl, inr, String, Option, none,
  some, Bool-cases, Option-cases, str_eq, if◌then◌else◌, arith, eq_iff,
}
use cloudflared_fips.Prelude.Text.{trim_space}
use cloudflared_fips.Config.{is_digit, wrap, port_loop, validate_port}
use Prim.Native.Char.{code}

-- the number that the digits of a text write, behind a number that others have written
pub value : ℕ → String → Option ℕ
value n String.[] = some n
value n (String.◌∷◌ c s) =
    let rest = value (n * 10 + (code c - 48)) s in if is_digit (code c) then rest else none

abbrev wrapped : Option ℕ → Option ℕ
wrapped none = none
wrapped (some n) = some (wrap n)

wrap-step : (n d : ℕ) → wrap (wrap n * 10 + d) ≡ wrap (n * 10 + d)
wrap-step n d = omega arith

port_loop-value : (n : ℕ) (s : String) → port_loop (wrap n) s ≡ wrapped (value n s)
unfolding port_loop value
port_loop-value n String.[] = refl
port_loop-value n (String.◌∷◌ c s) = elim (Bool-cases (is_digit (code c))) [
  | inl e ↦
      rw (port_loop, value, e)
        (ap (λ p. port_loop p s) (wrap-step n (code c - 48))
          ∙ port_loop-value (n * 10 + (code c - 48)) s)
  | inr e ↦ rw (port_loop, value, e) refl
]

value_empty : value 0 "" ≡ some 0
unfolding value
value_empty = refl

some-of : {a b : ℕ} → some a ≡ some b → a ≡ b
some-of e = ground (arith, e)

-- A port is accepted exactly where the text, without the white space around it, is a run of digits
-- whose number lies between 1 and 65535 modulo 2^64: the right ones, and those that wrap to one.
pub validate_port-wraps :
    (s : String)
    → (validate_port s ≡ none)
      ↔ ((n : ℕ) × (value 0 (trim_space s) ≡ some n) × (1 ≤ n % 2 ^ 64) × (n % 2 ^ 64 ≤ 65535))
unfolding validate_port
validate_port-wraps s =
    let t = trim_space s in
    let looped = port_loop-value 0 t in
    elim (Bool-cases (str_eq t "")) [
      | inl e ↦
          let zero_value : value 0 t ≡ some 0 = ap (value 0) ((eq_iff t "").0 e) ∙ value_empty in
          rw (validate_port, e)
            (
              λ p. ground arith,
              λ (n, v, low, high). absurd (let z = some-of (sym zero_value ∙ v) in omega arith),
            )
      | inr e ↦ elim (Option-cases (value 0 t)) [
        | inl v ↦
            rw (validate_port, e, looped, v)
              (λ p. ground arith, λ (n, w, low, high). absurd (ground (arith, w)))
        | inr (n, v) ↦
            rw (validate_port, e, looped, v)
              (
                λ p. (n, refl, ground arith, ground arith),
                λ (m, w, low, high). (let z = some-of w in ground (arith, z)),
              )
      ]
    ]
