-- ===== src/Gateway/Create/Replies.antt =====
-- What create of gateway/src/api/create.rs asks of the core service, and what it answers.
use k_url.Common.Rpc.{
  Code, CreateLinkRequest, CreateLinkResponse, Status, Timestamp, invalid_argument,
}
use k_url.Gateway.Create.{
  CreateLinkReq, CreateLinkResp, Expiration, Libraries, RequestError, absolute, already_exists,
  create, create_error, date_time, duration, in_future, internal, parse_target, try_from,
}
use k_url.Gateway.State.{AppState}
use k_url.Prelude.{
  Option, Option-cases, Result, Result-cases, arith, err, inl, inr, none, ok, some, true, ◌+◌, ◌↔◌,
  ◌≡◌, ◌≢◌, ◌⊎◌,
}
use k_url.Prelude.Faults.{Fault, panicked, raised}
use k_url.Prelude.Int.{ltb_ℤ}
use k_url.Prelude.Time.{DateTime}

module _ (lib : Libraries) where
  -- The expiration that is sent on: none where none was given, else the given one as a point in
  -- time, which lies ahead.
  abbrev pub Sent : DateTime → DateTime → Option Expiration → Option Timestamp → Type 0
  Sent now later none x = x ≡ none
  Sent now later (some given) x =
      (t : DateTime) × (absolute lib now (some given) ≡ ok (some t))
      × (ltb_ℤ later t ≡ true)
      × (x ≢ none)
      × (x ≡ lib.try_into t)

  expiration_ok :
      (now later : DateTime) (given : Option Expiration) (at : Option DateTime)
      (x : Option Timestamp)
      → absolute lib now given ≡ ok at
      → in_future lib later at ≡ ok x
      → Sent now later given x
  unfolding absolute in_future
  expiration_ok now later none at x h i = ground arith
  expiration_ok now later (some (date_time t)) none x h i = absurd (ground arith)
  expiration_ok now later (some (duration d)) none x h i = absurd (ground arith)
  expiration_ok now later (some given) (some t) x h i = (
    t,
    h,
    ground (arith, Option-cases (lib.try_into t)),
    ground (arith, Option-cases (lib.try_into t)),
    ground (arith, Option-cases (lib.try_into t)),
  )

  -- The request that is sent has the code that was asked for, the parsed target, and the expiration
  -- as a point in time that lies ahead; it has none only where none was asked for.
  pub try_from_ok :
      (now later : DateTime) (req : CreateLinkReq) (r : CreateLinkRequest)
      → try_from lib now later req ≡ ok r
      → (r.short_code ≡ req.short_code)
        × (lib.parse_url req.target ≡ some r.target)
        × Sent now later req.expiration r.expiration
  unfolding try_from parse_target
  try_from_ok now later req r h = elim (Result-cases (absolute lib now req.expiration)) [
    | inr (e, bad) ↦ absurd (ground arith)
    | inl (at, read) ↦ elim (Result-cases (in_future lib later at)) [
      | inr (e, bad) ↦ absurd (ground arith)
      | inl (x, ahead) ↦ elim (Option-cases (lib.parse_url req.target)) [
        | inl bad ↦ absurd (ground arith)
        | inr (url, parsed) ↦
            let e : r.expiration ≡ x = ground arith in
            (
              ground arith,
              ground arith,
              rw e (expiration_ok now later req.expiration at x read ahead),
            )
      ]
    ]
  ]

  -- What an error of the handler tells of the core service's: 409 that the code is taken, and a
  -- panic that the request was an invalid argument.
  abbrev pub Blames : Fault RequestError → Code → Type 0
  Blames f c =
      ((f ≡ raised already_exists) ↔ (c ≡ Code.already_exists))
      × ((f ≡ panicked) ↔ (c ≡ invalid_argument))
      × ((f ≢ raised already_exists) → (f ≢ panicked) → f ≡ raised internal)

  create_error-Blames : (c : Code) → Blames (create_error lib c) c
  unfolding create_error
  create_error-Blames c = ground arith

  -- A success hands on the code that the core service has given the request, and counts one link.
  pub create_ok :
      (now later : DateTime) (create_link : CreateLinkRequest → Result Status CreateLinkResponse)
      (req : CreateLinkReq) (s : AppState) (resp : CreateLinkResp)
      → (create lib now later create_link req s).0 ≡ ok resp
      → ((q : CreateLinkRequest) × (try_from lib now later req ≡ ok q)
          × (create_link q ≡ ok (record { short_code = resp.short_code })))
        × ((create lib now later create_link req s).1
            ≡ record s { links_created = s.links_created + 1 })
  unfolding create
  create_ok now later create_link req s resp h = elim (Result-cases (try_from lib now later req)) [
    | inr (e, bad) ↦ absurd (ground arith)
    | inl (q, good) ↦ elim (Result-cases (create_link q)) [
      | inr (e, failed) ↦ absurd (ground arith)
      | inl (a, made) ↦ ((q, good, ground arith), ground arith)
    ]
  ]

  -- A failure changes nothing. Either the request was refused before it was sent, or the core
  -- service has failed, and the failure tells how: the handler answers that the link exists exactly
  -- where the core service says so, and panics exactly where it says that the argument is invalid.
  pub create_err :
      (now later : DateTime) (create_link : CreateLinkRequest → Result Status CreateLinkResponse)
      (req : CreateLinkReq) (s : AppState) (f : Fault RequestError)
      → (create lib now later create_link req s).0 ≡ err f
      → ((create lib now later create_link req s).1 ≡ s)
        × ((try_from lib now later req ≡ err f)
            ⊎ ((q : CreateLinkRequest) × (e : Status) × (try_from lib now later req ≡ ok q)
                × (create_link q ≡ err e)
                × Blames f e.code))
  unfolding create
  create_err now later create_link req s f h = elim (Result-cases (try_from lib now later req)) [
    | inr (e, bad) ↦ (ground arith, inl (ground arith))
    | inl (q, good) ↦ elim (Result-cases (create_link q)) [
      | inl (a, made) ↦ absurd (ground arith)
      | inr (e, failed) ↦
          let same : f ≡ create_error lib e.code = ground arith in
          (ground arith, inr (q, e, good, failed, rw same (create_error-Blames e.code)))
    ]
  ]
