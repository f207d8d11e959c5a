-- ===== src/Prelude/Maps.antt =====
-- Tables and hash maps: association lists whose keys have a decidable equality. A write replaces
-- the entry in its place or adds one at the end, so the order of the entries is that of insertion.
use text.Mathlib.Text.{◌==◌ as str_eq}
use text.Mathlib.TextEquality.{eq_iff}
use Prim.Native.Nat.{ℕ}
use Prim.Native.String.{String}
use mathlib.Core.Path.{◌≡◌, refl, ap}
use mathlib.Core.Logic.{◌↔◌}
use mathlib.Core.Bool.{Bool, true, ◌&&◌}
use mathlib.Core.Option.{Option, none, some}
use mathlib.Core.List.{List, [], ◌∷◌}
use native.Mathlib.Omega.{arith}
use k_url.Prelude.Tests.{◌==◌ as nat_beq, ==_iff, if◌then◌else◌}

pub record Keyed {ℓ} (A : Type ℓ) : Type ℓ where
  pub same : A → A → Bool
  pub same_iff : (a b : A) → (same a b ≡ true) ↔ (a ≡ b)

infix 50 ◌==◌
abbrev pub ◌==◌ {ℓ} : {A : Type ℓ} ⦃e : Keyed A⦄ → A → A → Bool
◌==◌ ⦃e⦄ = e.same

pub same_refl {ℓ} : {A : Type ℓ} ⦃e : Keyed A⦄ (a : A) → (a == a) ≡ true
same_refl ⦃e⦄ a = (e.same_iff a a).1 refl

instance abbrev pub nat_key : Keyed ℕ
nat_key = record { same = nat_beq; same_iff = ==_iff }

instance abbrev pub string_key : Keyed String
string_key = record { same = str_eq; same_iff = eq_iff }

pub pair_iff {ℓ κ} :
    {A : Type ℓ} {B : Type κ} (d : Keyed A) (e : Keyed B) (p q : A × B)
    → ((d.same p.0 q.0 && e.same p.1 q.1) ≡ true) ↔ (p ≡ q)
pair_iff d e (a, b) (a', b') = (
  λ h. ground (arith, (d.same_iff a a').0, (e.same_iff b b').0),
  λ h. ground (arith, (d.same_iff a a').1, (e.same_iff b b').1, ap (λ p. p.0) h, ap (λ p. p.1) h),
)

instance abbrev pub pair_key {ℓ κ} :
    {A : Type ℓ} {B : Type κ} ⦃d : Keyed A⦄ ⦃e : Keyed B⦄ → Keyed (A × B)
pair_key ⦃d⦄ ⦃e⦄ = record {
  same = λ p q. d.same p.0 q.0 && e.same p.1 q.1;
  same_iff = pair_iff d e;
}

abbrev pub Map {ℓ κ} : Type ℓ → Type κ → Type (ℓ ⊔ κ)
Map K V = List (K × V)

module _ {ℓ κ} {K : Type ℓ} {V : Type κ} ⦃e : Keyed K⦄ where
  unfoldable pub lookup : K → Map K V → Option V
  lookup key [] = none
  lookup key ((found, value) ∷ rest) = if found == key then some value else lookup key rest

  unfoldable pub insert : K → V → Map K V → Map K V
  insert key value [] = (key, value) ∷ []
  insert key value ((found, old) ∷ rest) =
      if found == key then (key, value) ∷ rest else (found, old) ∷ insert key value rest

  -- Deletes every entry of the key.
  unfoldable pub remove : K → Map K V → Map K V
  remove key [] = []
  remove key ((found, value) ∷ rest) =
      let kept = remove key rest in if found == key then kept else (found, value) ∷ kept

  -- A read after a write.
  pub lookup-insert :
      (key other : K) (value : V) (table : Map K V)
      → lookup other (insert key value table)
        ≡ (if key == other then some value else lookup other table)
  unfolding lookup insert
  lookup-insert key other value [] = refl
  lookup-insert key other value ((found, old) ∷ rest) = ground (
    arith,
    e.same_iff found key,
    e.same_iff found other,
    lookup-insert key other value rest,
    e.same_iff key other,
  )

  pub lookup-remove :
      (key other : K) (table : Map K V)
      → lookup other (remove key table) ≡ (if key == other then none else lookup other table)
  unfolding lookup remove
  lookup-remove key other [] = ground arith
  lookup-remove key other ((found, old) ∷ rest) = ground (
    arith,
    e.same_iff found key,
    e.same_iff found other,
    lookup-remove key other rest,
    e.same_iff key other,
  )

pub ruleset map_laws = (lookup-insert, lookup-remove, same_refl)
