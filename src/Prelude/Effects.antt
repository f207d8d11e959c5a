-- ===== src/Prelude/Effects.antt =====
-- Asynchronous handlers that change a state and may fail: a state and exception monad. What a
-- handler has written before it fails stays written.
use mathlib.Core.Path.{◌≡◌, ap}
use k_url.Prelude.Results.{Result, ok, err}

abbrev pub Exec : Type 0 → Type 0 → Type 0 → Type 0
Exec S E A = S → Result E A × S

module _ {S E A : Type 0} where
  abbrev pub pure : A → Exec S E A
  pure a s = (ok a, s)

  abbrev pub raise : E → Exec S E A
  raise e s = (err e, s)

  abbrev pub lift : Result E A → Exec S E A
  lift r s = (r, s)

  abbrev pub gets : (S → A) → Exec S E A
  gets f s = (ok (f s), s)

abbrev pub modify : {S E : Type 0} → (S → S) → Exec S E (Unit {0})
modify f s = (ok tt, f s)

-- `.map_err(f)` on an awaited result.
abbrev pub catch : {S E F A : Type 0} → (E → F) → Exec S E A → Exec S F A
catch f m s = let (r, s') = m s in (elim r [ ok a ↦ ok a | err e ↦ err (f e) ], s')

module _ {S E A B : Type 0} where
  abbrev pub continue : Result E A → (A → Exec S E B) → Exec S E B
  continue (ok a) f s = f a s
  continue (err e) f s = (err e, s)

  infixl 5 ◌>>=◌ ◌>>◌
  abbrev pub ◌>>=◌ : Exec S E A → (A → Exec S E B) → Exec S E B
  ◌>>=◌ m f s = let (r, s') = m s in continue r f s'

  abbrev pub ◌>>◌ : Exec S E A → Exec S E B → Exec S E B
  m >> k = m >>= λ _. k

  -- A block goes on with a result, and ends with an error.
  pub bind-ok :
      (m : Exec S E A) (f : A → Exec S E B) (s : S) {a : A} {s' : S}
      → m s ≡ (ok a, s')
      → (m >>= f) s ≡ f a s'
  bind-ok m f s p = ap (λ x. continue x.0 f x.1) p

  pub bind-err :
      (m : Exec S E A) (f : A → Exec S E B) (s : S) {e : E} {s' : S}
      → m s ≡ (err e, s')
      → (m >>= f) s ≡ (err e, s')
  bind-err m f s p = ap (λ x. continue x.0 f x.1) p
