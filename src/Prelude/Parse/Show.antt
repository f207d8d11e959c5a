-- ===== src/Prelude/Parse/Show.antt =====
-- The standard library's decimal text of a natural number, which `str::parse::<i64>` reads back.
use Prim.Native.Char.{Char, code}
use Prim.Native.String.{String, [], ◌∷◌}
use k_url.Prelude.{
  ℕ, zero, suc, ◌+◌, ◌*◌, ◌-◌, ◌/◌, ◌%◌, ◌^◌, some, ◌≡◌, ◌≤◌, ◌<◌, ◌∙◌, ap, arith, ltb,
  if◌then◌else◌, Bool-cases, inl, inr, refl, sym,
}
use k_url.Prelude.Int.{pos}
use k_url.Prelude.Parse.{digits, parse_i64}

digit : ℕ → Char
digit zero = "0"
digit (suc zero) = "1"
digit (suc (suc zero)) = "2"
digit (suc (suc (suc zero))) = "3"
digit (suc (suc (suc (suc zero)))) = "4"
digit (suc (suc (suc (suc (suc zero))))) = "5"
digit (suc (suc (suc (suc (suc (suc zero)))))) = "6"
digit (suc (suc (suc (suc (suc (suc (suc zero))))))) = "7"
digit (suc (suc (suc (suc (suc (suc (suc (suc zero)))))))) = "8"
digit _ = "9"

-- The digits of `n`, before `rest`; the fuel is above `n`.
show : ℕ → ℕ → String → String
unfolding digit
show zero n rest = rest
show (suc fuel) n rest =
    let more = show fuel (n / 10) (digit (n % 10) ∷ rest) in
    if ltb n 10 then digit n ∷ rest else more

unfoldable pub to_string : ℕ → String
unfolding show
to_string n = show (suc n) n []

code-digit : (d : ℕ) → d < 10 → code (digit d) ≡ d + 48
unfolding digit
code-digit zero h = ground arith
code-digit (suc zero) h = ground arith
code-digit (suc (suc zero)) h = ground arith
code-digit (suc (suc (suc zero))) h = ground arith
code-digit (suc (suc (suc (suc zero)))) h = ground arith
code-digit (suc (suc (suc (suc (suc zero))))) h = ground arith
code-digit (suc (suc (suc (suc (suc (suc zero)))))) h = ground arith
code-digit (suc (suc (suc (suc (suc (suc (suc zero))))))) h = ground arith
code-digit (suc (suc (suc (suc (suc (suc (suc (suc zero)))))))) h = ground arith
code-digit (suc (suc (suc (suc (suc (suc (suc (suc (suc k))))))))) h = omega arith

digits-digit :
    (acc d : ℕ) (rest : String) → d < 10 → digits acc (digit d ∷ rest) ≡ digits (acc * 10 + d) rest
unfolding digits
digits-digit acc d rest h =
    let e = code-digit d h in
    let back : d + 48 - 48 ≡ d = omega arith in rw (e, back) (ground arith)

digits-show : (fuel n : ℕ) (rest : String) → n < fuel → digits 0 (show fuel n rest) ≡ digits n rest
unfolding show
digits-show zero n rest h = absurd (omega arith)
digits-show (suc fuel) n rest h = elim (Bool-cases (ltb n 10)) [
  | inl small ↦
      rw small (digits-digit 0 n rest (ground arith) ∙ ap (λ m. digits m rest) (omega arith))
  | inr large ↦ rw large (
      digits-show fuel (n / 10) (digit (n % 10) ∷ rest) (ground arith)
      ∙ digits-digit (n / 10) (n % 10) rest (omega arith)
      ∙ ap (λ m. digits m rest) (omega arith))
]

-- The text starts with a digit.
show-digit :
    (fuel n : ℕ) (rest : String)
    → n < fuel
    → (d : ℕ) × (r : String) × (d < 10) × (show fuel n rest ≡ digit d ∷ r)
unfolding show
show-digit zero n rest h = absurd (omega arith)
show-digit (suc fuel) n rest h = elim (Bool-cases (ltb n 10)) [
  | inl small ↦ rw small (n, rest, ground arith, refl)
  | inr large ↦ rw large (show-digit fuel (n / 10) (digit (n % 10) ∷ rest) (ground arith))
]

parse_i64-digits :
    (c : Char) (r : String) (n : ℕ)
    → 48 ≤ code c
    → code c ≤ 57
    → digits 0 (c ∷ r) ≡ some n
    → n < 2 ^ 63
    → parse_i64 (c ∷ r) ≡ some (pos n)
unfolding parse_i64
parse_i64-digits c r n low high whole h = ground arith

-- A number of 64 bits is read back from its text.
pub parse_i64-to_string : (n : ℕ) → n < 2 ^ 63 → parse_i64 (to_string n) ≡ some (pos n)
unfolding to_string digits
parse_i64-to_string n h =
    let (d, r, small, first) = show-digit (suc n) n [] (omega arith) in
    let whole : digits 0 (digit d ∷ r) ≡ some n =
      ap (digits 0) (sym first) ∙ digits-show (suc n) n [] (omega arith) in
    let at = code-digit d small in
    ap parse_i64 first
    ∙ parse_i64-digits (digit d) r n (omega (arith, at)) (omega (arith, at)) whole h
