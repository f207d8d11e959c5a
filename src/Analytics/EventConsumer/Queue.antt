-- ===== src/Analytics/EventConsumer/Queue.antt =====
-- The entries that wait in the stream, with distinct ids, and how many of them hold a click.
use k_url.Analytics.EventConsumer.{ClickCodec, parse_click_event}
use k_url.Analytics.Redis.{StreamId, drop, has, take, without}
use k_url.Common.Events.{ClickEvent}
use k_url.Prelude.{
  Bool-cases, List, Option, String, [], ap, arith, false, inl, inr, none, refl, some, suc, sym,
  true, zero, ℕ, ◌++◌, ◌+◌, ◌||◌, ◌∙◌, ◌∷◌, ◌≡◌, ◌⊎◌,
}
use k_url.Prelude.Maps.{same_refl, string_key, ◌==◌}

-- No two entries have the same id.
abbrev pub Unique : List StreamId → Type 0
Unique [] = Unit
Unique (x ∷ xs) = (has x.id xs ≡ false) × Unique xs

abbrev pub In : StreamId → List StreamId → Type 0
In e [] = ⊥
In e (x ∷ xs) = (x ≡ e) ⊎ In e xs

-- An entry with the id of `e` is `e`, and the only one.
abbrev pub Agrees : StreamId → List StreamId → Type 0
Agrees e [] = Unit
Agrees e (x ∷ xs) = ((x.id == e.id) ≡ true → (x ≡ e) × (has e.id xs ≡ false)) × Agrees e xs

In-has : (e : StreamId) (xs : List StreamId) → In e xs → has e.id xs ≡ true
In-has e [] m = elim m [ ]
In-has e (x ∷ xs) (inl p) = ground (arith, ap (λ y. y.id) p, same_refl e.id)
In-has e (x ∷ xs) (inr m) = ground (arith, In-has e xs m)

-- An entry whose id does not occur agrees with any list.
pub absent-Agrees : (e : StreamId) (xs : List StreamId) → has e.id xs ≡ false → Agrees e xs
absent-Agrees e [] h = tt
absent-Agrees e (x ∷ xs) h = ((λ p. ground arith), absent-Agrees e xs (ground arith))

pub Unique-Agrees : (xs : List StreamId) → Unique xs → (e : StreamId) → In e xs → Agrees e xs
Unique-Agrees [] u e m = elim m [ ]
Unique-Agrees (x ∷ xs) u e (inl p) =
    let absent = ap (λ y. has y.id xs) (sym p) ∙ u.0 in
    ((λ h. (p, absent)), absent-Agrees e xs absent)
Unique-Agrees (x ∷ xs) u e (inr m) = (
  λ h. ground (arith, In-has e xs m, u.0, (string_key.same_iff x.id e.id).0 h, ap (λ i. has i xs)),
  Unique-Agrees xs u.1 e m,
)

pub has-app : (id : String) (xs ys : List StreamId) → has id (xs ++ ys) ≡ (has id xs || has id ys)
has-app id [] ys = refl
has-app id (x ∷ xs) ys = ground (arith, has-app id xs ys)

has-without_le :
    (i id : String) (xs : List StreamId) → has i xs ≡ false → has i (without id xs) ≡ false
has-without_le i id [] h = refl
has-without_le i id (x ∷ xs) h = ground (arith, has-without_le i id xs)

pub absent-without : (id : String) (xs : List StreamId) → has id xs ≡ false → without id xs ≡ xs
absent-without id [] h = refl
absent-without id (x ∷ xs) h = ground (arith, absent-without id xs)

-- What is left when the pending entries of an id are removed.
pub without-Unique :
    (id : String) (xs ys : List StreamId) → Unique (xs ++ ys) → Unique (without id xs ++ ys)
without-Unique id [] ys u = u
without-Unique id (x ∷ xs) ys u = elim (Bool-cases (x.id == id)) [
  | inl p ↦ rw p (without-Unique id xs ys u.1)
  | inr p ↦ rw p (
    ground (
      arith,
      u.0,
      has-app x.id xs ys,
      has-app x.id (without id xs) ys,
      has-without_le x.id id xs,
    ),
    without-Unique id xs ys u.1,
  )
]

pub without-Agrees :
    (e : StreamId) (id : String) (xs ys : List StreamId)
    → Agrees e (xs ++ ys)
    → Agrees e (without id xs ++ ys)
without-Agrees e id [] ys a = a
without-Agrees e id (x ∷ xs) ys a = elim (Bool-cases (x.id == id)) [
  | inl p ↦ rw p (without-Agrees e id xs ys a.1)
  | inr p ↦ rw p (
    λ h. (
      (a.0 h).0,
      ground (
        arith,
        (a.0 h).1,
        has-app e.id xs ys,
        has-app e.id (without id xs) ys,
        has-without_le e.id id xs,
      ),
    ),
    without-Agrees e id xs ys a.1,
  )
]

-- An entry that arrives, with a new id.
pub app-Unique :
    (e : StreamId) (xs : List StreamId) → has e.id xs ≡ false → Unique xs → Unique (xs ++ e ∷ [])
app-Unique e [] h u = (refl, tt)
app-Unique e (x ∷ xs) h u = (
  ground (
    arith,
    has-app x.id xs (e ∷ []),
    u.0,
    string_key.same_iff x.id e.id,
    string_key.same_iff e.id x.id,
  ),
  app-Unique e xs (ground arith) u.1,
)

pub app-Agrees :
    (f e : StreamId) (xs : List StreamId)
    → (e.id == f.id) ≡ false
    → Agrees f xs
    → Agrees f (xs ++ e ∷ [])
app-Agrees f e [] h a = ((λ p. ground arith), tt)
app-Agrees f e (x ∷ xs) h a =
    (λ p. ((a.0 p).0, ground (arith, (a.0 p).1, has-app f.id xs (e ∷ []))), app-Agrees f e xs h a.1)

pub In-take : (e : StreamId) (n : ℕ) (xs : List StreamId) → In e (take n xs) → In e xs
In-take e n [] m = elim m [ ]
In-take e zero (x ∷ xs) m = elim m [ ]
In-take e (suc n) (x ∷ xs) (inl p) = inl p
In-take e (suc n) (x ∷ xs) (inr m) = inr (In-take e n xs m)

pub In-app : (e : StreamId) (xs ys : List StreamId) → In e xs ⊎ In e ys → In e (xs ++ ys)
In-app e [] ys (inl m) = elim m [ ]
In-app e [] ys (inr m) = m
In-app e (x ∷ xs) ys (inl (inl p)) = inl p
In-app e (x ∷ xs) ys (inl (inr m)) = inr (In-app e xs ys (inl m))
In-app e (x ∷ xs) ys (inr m) = inr (In-app e xs ys (inr m))

pub take-drop : (n : ℕ) (xs : List StreamId) → take n xs ++ drop n xs ≡ xs
take-drop n [] = refl
take-drop zero (x ∷ xs) = refl
take-drop (suc n) (x ∷ xs) = ap (λ ys. x ∷ ys) (take-drop n xs)

abbrev pub one_if_click : Option ClickEvent → ℕ
one_if_click none = 0
one_if_click (some event) = 1

module _ (codec : ClickCodec) where
  -- How many entries hold a click.
  unfoldable pub waiting : List StreamId → ℕ
  waiting [] = 0
  waiting (x ∷ xs) = one_if_click (parse_click_event codec x) + waiting xs

  pub waiting-app : (xs ys : List StreamId) → waiting (xs ++ ys) ≡ waiting xs + waiting ys
  unfolding waiting
  waiting-app [] ys = omega arith
  waiting-app (x ∷ xs) ys = ground (arith, waiting-app xs ys)

  -- A pending entry is taken out of those that wait.
  pub without-waiting :
      (e : StreamId) (xs ys : List StreamId)
      → Agrees e (xs ++ ys)
      → has e.id xs ≡ true
      → waiting (without e.id xs ++ ys) + one_if_click (parse_click_event codec e)
        ≡ waiting (xs ++ ys)
  unfolding waiting
  without-waiting e [] ys a h = cc
  without-waiting e (x ∷ xs) ys a h = elim (Bool-cases (x.id == e.id)) [
    | inl p ↦ ground (
      arith,
      (a.0 p).0,
      (a.0 p).1,
      has-app e.id xs ys,
      absent-without e.id xs,
      ap (λ y. one_if_click (parse_click_event codec y)) (a.0 p).0,
    )
    | inr p ↦ ground (arith, without-waiting e xs ys a.1)
  ]
