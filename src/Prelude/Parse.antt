-- ===== src/Prelude/Parse.antt =====
-- The standard library's `str::parse::<i64>`.
pub mod Show
use Prim.Native.Char.{code}
use Prim.Native.String.{String, [], ◌∷◌}
use k_url.Prelude.{
  ℕ, zero, suc, ◌+◌, ◌-◌, ◌*◌, ◌^◌, Option, none, some, ◌≡◌, ◌<◌, arith, ◌&&◌, leb, ltb, ◌==◌,
  if◌then◌else◌,
}
use k_url.Prelude.Int.{ℤ, pos, negsuc}

digits : ℕ → String → Option ℕ
digits acc [] = some acc
digits acc (c ∷ rest) =
    let more = digits (acc * 10 + (code c - 48)) rest in
    if leb 48 (code c) && leb (code c) 57 then more else none

-- At least one digit.
unfoldable pub parse_digits : String → Option ℕ
unfolding digits
parse_digits [] = none
parse_digits (c ∷ rest) = digits 0 (c ∷ rest)

negative : ℕ → Option ℤ
negative zero = some (pos 0)
negative (suc n) = if ltb n (2 ^ 63) then some (negsuc n) else none

-- An optional sign, digits, and a value in range.
unfoldable pub parse_i64 : String → Option ℤ
unfolding parse_digits negative
parse_i64 [] = none
parse_i64 (c ∷ rest) =
    if code c == b'-'
    then elim (parse_digits rest) [ none ↦ none | some n ↦ negative n ]
    else elim (parse_digits (if code c == b'+' then rest else c ∷ rest)) [
      | none ↦ none
      | some n ↦ if ltb n (2 ^ 63) then some (pos n) else none
    ]

-- A number that is read is in the range of an i64.
pub parse_i64_range : (s : String) (n : ℕ) → parse_i64 s ≡ some (pos n) → n < 2 ^ 63
unfolding parse_i64
parse_i64_range [] n h = cc
parse_i64_range (c ∷ rest) n h = ground arith
