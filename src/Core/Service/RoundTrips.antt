-- ===== src/Core/Service/RoundTrips.antt =====
-- The handlers of core/src/grpc.rs one after another.
use k_url.Prelude.{
  String, false, Option, none, some, Result, ok, err, Result-cases, inl, inr, ◌≡◌, ◌⊎◌, arith,
}
use k_url.Prelude.Time.{DateTime}
use k_url.Prelude.Maps.{string_key, same_refl}
use k_url.Common.Rpc.{
  Status, CreateLinkRequest, CreateLinkResponse, GetLinkResponse, not_found, internal,
}
use k_url.Core.Repository.{Link, LinkRepository}
use k_url.Core.Service.{
  AppState, Env, has_expired, timestamp_to_datetime, get_link, create_link, delete_link,
}
use k_url.Core.Service.Create.{create_link_ok}
use k_url.Core.Service.Links.{get_link_ok, get_link_err, row-delete_link}

-- The target, or an internal error where the database fails.
abbrev pub Finds : String → Result Status GetLinkResponse → Type 0
Finds target (ok r) = r.target ≡ target
Finds target (err e) = e.code ≡ internal

-- No link, or an internal error where the database fails.
abbrev pub FindsNone : Result Status GetLinkResponse → Type 0
FindsNone (ok r) = ⊥
FindsNone (err e) = (e.code ≡ not_found) ⊎ (e.code ≡ internal)

module _ (db : LinkRepository) (env : Env db) where
  pub row_found :
      (now later : DateTime) (c : String) (l : Link) (s : AppState db)
      → db.row s.store c ≡ some l
      → has_expired l.expiration now ≡ false
      → Finds l.target (get_link db env now later (record { short_code = c }) s).0
  row_found now later c l s h x =
      elim (Result-cases (get_link db env now later (record { short_code = c }) s).0) [
        | inl (r, found) ↦
            let p = get_link_ok db env now later c s r found in rw found (ground (arith, p.1, p.2))
        | inr (e, failed) ↦ rw failed (ground (arith, get_link_err db env now later c s e failed))
      ]

  row_missing :
      (now later : DateTime) (c : String) (s : AppState db)
      → db.row s.store c ≡ none
      → FindsNone (get_link db env now later (record { short_code = c }) s).0
  row_missing now later c s h =
      elim (Result-cases (get_link db env now later (record { short_code = c }) s).0) [
        | inl (r, found) ↦
            let p = get_link_ok db env now later c s r found in rw found (ground (arith, p.1))
        | inr (e, failed) ↦ rw failed (ground (arith, get_link_err db env now later c s e failed))
      ]

  -- A link that was created is found under the code of the reply, with the target of the request,
  -- until its expiration, as the database keeps it; only a failing database gives another answer.
  pub get_link-create_link :
      (now later now₂ later₂ : DateTime) (q : CreateLinkRequest) (s : AppState db)
      (r : CreateLinkResponse) (x : Option DateTime)
      → (create_link db env now later q s).0 ≡ ok r
      → timestamp_to_datetime db env q.expiration ≡ ok x
      → has_expired (db.kept_at x) now₂ ≡ false
      → Finds q.target
          (get_link db env now₂ later₂
            (record { short_code = r.short_code })
            (create_link db env now later q s).1).0
  get_link-create_link now later now₂ later₂ q s r x h c e =
      let (y, d, stored) = create_link_ok db env now later q s r h in
      row_found now₂ later₂ r.short_code (record { target = q.target; expiration = db.kept_at y }) _
        (rw (stored.rows r.short_code, same_refl r.short_code)) (ground (arith, c, d, e))

  -- A link that was deleted is not found.
  pub get_link-delete_link :
      (now later : DateTime) (c : String) (s : AppState db)
      → (delete_link db (record { short_code = c }) s).0 ≡ ok tt
      → FindsNone
          (get_link db env now later
            (record { short_code = c })
            (delete_link db (record { short_code = c }) s).1).0
  get_link-delete_link now later c s h =
      row_missing now later c _ (rw ((row-delete_link db c c s h).0, same_refl c))
