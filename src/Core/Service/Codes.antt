-- ===== src/Core/Service/Codes.antt =====
-- The short codes that core/src/grpc.rs makes up.
use Prim.Native.Char.{Char}
use Prim.Native.String.{count}
use Prim.Native.String.count
use k_url.Prelude.{
  ℕ, zero, suc, ◌+◌, ◌*◌, ◌≤◌, String, true, false, Option, none, some, ◌≡◌, refl, ◌∙◌, ap, arith,
  Result-cases, inl, inr,
}
use k_url.Core.Repository.{LinkRepository}
use k_url.Core.Service.{AppState, random_string, generate, generate_short_code, len, retries}

count-random_string : (samples : ℕ → Char) (n i : ℕ) → count (random_string samples n i) ≡ n
unfolding random_string
count-random_string samples zero i = refl
count-random_string samples (suc n) i =
    count.cons (samples i) (random_string samples n (i + 1))
    ∙ ap suc (count-random_string samples n (i + 1))

module _ (db : LinkRepository) where
  -- The links, and what is queued, are as they were.
  pub record Kept (s s' : AppState db) : Type 0 where
    pub rows : (j : String) → db.row s'.store j ≡ db.row s.store j
    pub queue : s'.queue ≡ s.queue
    pub tx_open : s'.tx_open ≡ s.tx_open

  pub Kept-refl : (s : AppState db) → Kept s s
  Kept-refl s = record { rows = λ j. refl; queue = refl; tx_open = refl }

  pub Kept-trans : (s t u : AppState db) → Kept s t → Kept t u → Kept s u
  Kept-trans s t u h k = record {
    rows = λ j. k.rows j ∙ h.rows j;
    queue = k.queue ∙ h.queue;
    tx_open = k.tx_open ∙ h.tx_open;
  }

  abbrev try : String → AppState db → AppState db
  try code s = record s { store = (db.link_exists code s.store).1; drawn = s.drawn + len }

  -- What one try leaves, with its reply.
  Kept-try : (code : String) (s s' : AppState db) → Kept (try code s) s' → Kept s s'
  Kept-try code s s' k = record {
    rows = λ j. k.rows j ∙ db.row-link_exists code j s.store;
    queue = k.queue;
    tx_open = k.tx_open;
  }

  -- A code of six characters that no link has, or none after all the tries.
  abbrev pub Generated : ℕ → AppState db → Option String → AppState db → Type 0
  Generated tries s (some code) s' =
      (db.row s.store code ≡ none) × (count code ≡ len) × (s'.drawn ≤ s.drawn + tries * len)
  Generated tries s none s' = s'.drawn ≡ s.drawn + tries * len

  Generated-try :
      (tries : ℕ) (code : String) (s : AppState db) (o : Option String) (s' : AppState db)
      → Generated tries (try code s) o s'
      → Generated (suc tries) s o s'
  Generated-try tries code s (some c) s' g =
      (rw (db.row-link_exists code c s.store) at g.0, g.1, omega (arith, g.2))
  Generated-try tries code s none s' g = omega (arith, g)

  generate_lem :
      (samples : ℕ → Char) (tries : ℕ) (s : AppState db)
      → Kept s (generate db samples tries s).1
        × Generated tries s (generate db samples tries s).0 (generate db samples tries s).1
  unfolding generate
  generate_lem samples zero s = (Kept-refl s, omega arith)
  generate_lem samples (suc tries) s =
      let code = random_string samples len s.drawn in
      let ih = generate_lem samples tries (try code s) in
      elim (Result-cases (db.link_exists code s.store).0) [
        | inl (false, free) ↦
            rw (free, generate)
              (
                Kept-try code s (try code s) (Kept-refl (try code s)),
                (
                  db.link_exists_absent code s.store free,
                  count-random_string samples len s.drawn,
                  omega arith,
                ),
              )
        | inl (true, taken) ↦
            rw (taken, generate) (Kept-try code s _ ih.0, Generated-try tries code s _ _ ih.1)
        | inr (e, failed) ↦
            rw (failed, generate) (Kept-try code s _ ih.0, Generated-try tries code s _ _ ih.1)
      ]

  -- A generated code has six characters and belongs to no link; there is none only after ten
  -- tries. Trying changes no link and queues nothing.
  pub generate_short_code_lem :
      (samples : ℕ → Char) (s : AppState db)
      → Kept s (generate_short_code db samples s).1
        × Generated retries s
            (generate_short_code db samples s).0
            (generate_short_code db samples s).1
  unfolding generate_short_code
  generate_short_code_lem samples s = generate_lem samples retries s
