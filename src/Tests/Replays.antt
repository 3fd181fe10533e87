-- ===== src/Tests/Replays.antt =====
-- A request that is sent again, around a handler that counts its calls.
use chain_verse_backend.Base.{
  ℕ, suc, ◌+◌, ◌<◌, ◌≤◌, ◌≡◌, ◌≢◌, ◌↔◌, ◌⊎◌, Among, String, refl, some, true, false, [], ◌∷◌,
}
use chain_verse_backend.Http.{Action, ok}
use chain_verse_backend.Mongo.Memory.{memory}
use chain_verse_backend.Idempotency.{
  Gate, Request, Response, IdempotencyKey, default_ttl, expire, intercept,
}
use chain_verse_backend.Idempotency.Replay.{Sends, intercept_replay, intercept-is_down_iff}

abbrev created : Response ℕ
created = record { status_code = 201; body = 7 }

abbrev counting : Action ℕ (Response ℕ)
counting n = (ok created, suc n)

abbrev request : String → Request
request user = record { is_idempotent = true; key = some "k"; user = some user; path = "/cart" }

abbrev gate : Gate memory ℕ ℕ
gate = record { records = []; world = 0; is_down = false }

request-Sends : (user : String) → Sends (request user) "k" user
request-Sends user = record { guarded = refl; with_key = refl; some_key = refl; of_user = refl }

abbrev swept : Gate memory ℕ ℕ
swept = expire memory ℕ ℕ 3 (intercept memory ℕ ℕ 0 (request "a") counting gate).1

intercept_replay_example :
    let answer = intercept memory ℕ ℕ 5 (request "a") counting swept in
    (swept.world ≡ 1)
    × (((3 < 0 + default_ttl) × (answer ≡ (ok created, swept)))
        ⊎ ((0 + default_ttl ≤ 3)
            × (answer.0 ≡ (counting swept.world).0)
            × (answer.1.world ≡ (counting swept.world).1)))
intercept_replay_example =
    intercept_replay memory ℕ ℕ 0 3 5 (request "a") (request "a") "k" "a" counting counting gate
      created (request-Sends "a") (request-Sends "a") refl refl

abbrev taken : IdempotencyKey ℕ
taken = record {
  key = "k";
  user_id = "b";
  path = "/cart";
  status_code = 201;
  response_body = 3;
  expires_at = 9;
}

abbrev used : Gate memory ℕ ℕ
used = record { records = taken ∷ []; world = 0; is_down = false }

intercept-is_down_iff_example :
    ((intercept memory ℕ ℕ 5 (request "a") counting used).1.is_down ≡ true) ↔ (
      ((v : Response ℕ) × ((counting used.world).0 ≡ ok v))
      × ((r : IdempotencyKey ℕ) × Among r used.records × (r.key ≡ "k"))
      × ((r : IdempotencyKey ℕ) → Among r used.records → r.key ≡ "k" → r.user_id ≢ "a"))
intercept-is_down_iff_example =
    intercept-is_down_iff memory ℕ ℕ 5 (request "a") "k" "a" counting used (request-Sends "a") refl

ended : (intercept memory ℕ ℕ 5 (request "a") counting used).1.is_down ≡ true
unfolding intercept
ended = refl
