-- ===== src/Idempotency.antt =====
-- `IdempotencyService` and `IdempotencyInterceptor` of src/idempotency, around any handler.
pub mod Replay
use chain_verse_backend.Base.{
  ℕ, ◌+◌, String, Bool, true, false, not, ◌&&◌, Option, none, some, List, [], ◌∷◌, ◌===◌, leb,
  is_some, is_blank, if◌then◌else◌,
}
use chain_verse_backend.Http.{
  Failure, Action, Result, ok, raise, throw, throw_if, gets, modify, pure, ◌>>=◌, ◌>>◌, bad_request,
  duplicate_key,
}
use chain_verse_backend.Mongo.{Mongo}

-- The life of a record, 24 hours, in milliseconds.
abbrev pub default_ttl : ℕ
default_ttl = 86400000

-- A document of `IdempotencyKey`, with the body of the response that it holds.
pub record IdempotencyKey (B : Type 0) : Type 0 where
  pub key : String
  pub user_id : String
  pub path : String
  pub status_code : ℕ
  pub response_body : B
  pub expires_at : ℕ

-- What `find` answers with. The interceptor reads a path that `find` never gives.
pub record CachedResponse (B : Type 0) : Type 0 where
  pub status_code : ℕ
  pub response_body : B
  pub path : Option String

-- What the interceptor reads of a request: `@Idempotent()` on the handler, the header, the user.
pub record Request : Type 0 where
  pub is_idempotent : Bool
  pub key : Option String
  pub user : Option String
  pub path : String

pub record Response (B : Type 0) : Type 0 where
  pub status_code : ℕ
  pub body : B

abbrev pub user_of : Request → String
user_of r = elim r.user [ none ↦ "anonymous" | some u ↦ u ]

abbrev pub holds : {B : Type 0} → String → String → IdempotencyKey B → Bool
holds k u r = r.key === k && r.user_id === u

abbrev pub has_key : {B : Type 0} → String → IdempotencyKey B → Bool
has_key k r = r.key === k

abbrev pub is_expired : {B : Type 0} → ℕ → IdempotencyKey B → Bool
is_expired now r = leb r.expires_at now

module _ (db : Mongo) (B W : Type 0) where
  open db use {Store, find_one, insert, delete_many}

  -- The records, the state that the handlers work on, and whether the process has ended.
  pub record Gate : Type 0 where
    pub records : Store (IdempotencyKey B)
    pub world : W
    pub is_down : Bool

  unfoldable pub find_cached : String → String → Action Gate (Option (CachedResponse B))
  find_cached key user s = (
    ok (elim (find_one (holds key user) s.records) [
      | none ↦ none
      | some r ↦
          some
            (record { status_code = r.status_code; response_body = r.response_body; path = none })
    ]),
    s,
  )

  -- `updateOne(…, { $setOnInsert }, { upsert: true })`, with the unique index on the key alone.
  unfoldable pub save_response : ℕ → String → String → String → ℕ → B → Action Gate (Unit {0})
  save_response now key user path status body = do
    present ← gets (λ s. find_one (holds key user) s.records)
    taken ← gets (λ s. find_one (has_key key) s.records)
    if is_some present then pure tt else (do
      throw_if (is_some taken) duplicate_key
      modify (λ s. record s {
        records =
            insert
              (record {
                key = key;
                user_id = user;
                path = path;
                status_code = status;
                response_body = body;
                expires_at = now + default_ttl;
              })
              s.records;
      }))

  -- What the index on `expiresAt` removes in the course of time.
  unfoldable pub expire : ℕ → Gate → Gate
  expire now s = record s { records = delete_many (is_expired now) s.records }

  -- The handler on its part of the state.
  abbrev pub run_handler : Action W (Response B) → Action Gate (Response B)
  run_handler handler s = let (r, w) = handler s.world in (r, record s { world = w })

  -- What becomes of a promise that nobody waits for: Node ends the process on a rejection that
  -- nothing handles, and the program has no handler for one.
  abbrev pub settle_void : Result (Unit {0}) → Gate → Gate
  settle_void (ok _) s = s
  settle_void (raise _) s = record s { is_down = true }

  -- `next.handle()`, and `void this.idempotencyService.save(…)` for its answer.
  unfoldable pub handle : ℕ → Request → String → Action W (Response B) → Action Gate (Response B)
  unfolding save_response
  handle now req key handler s =
      let (r, s') = run_handler handler s in
      elim r [
        | raise e ↦ (raise e, s')
        | ok v ↦
            let (saved, t) = save_response now key (user_of req) req.path v.status_code v.body s' in
            (ok v, settle_void saved t)
      ]

  unfoldable pub intercept : ℕ → Request → Action W (Response B) → Action Gate (Response B)
  unfolding find_cached handle
  intercept now req handler = if not req.is_idempotent then run_handler handler else elim req.key [
    | none ↦ throw (bad_request "X-Idempotency-Key header is required for this endpoint")
    | some key ↦ do
      throw_if (is_blank key) (bad_request "X-Idempotency-Key header is required for this endpoint")
      cached ← find_cached key (user_of req)
      elim cached [
        | none ↦ handle now req key handler
        | some c ↦ do
          throw_if
              (elim c.path [ none ↦ false | some p ↦ not (is_blank p) && not (p === req.path) ])
              (bad_request "Idempotency-Key reuse for different endpoint")
          pure (record { status_code = c.status_code; body = c.response_body })
      ]
  ]
