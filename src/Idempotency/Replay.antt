-- ===== src/Idempotency/Replay.antt =====
-- A request that is sent again.
use chain_verse_backend.Base.{
  ℕ, ◌+◌, ◌<◌, ◌≤◌, String, ◌≡◌, ◌≢◌, ◌↔◌, ◌∙◌, ◌⊎◌, ap, refl, sym, inl, inr, Bool, true, false,
  none, some, List, [], ◌∷◌, ◌++◌, ◌===◌, arith, eq_iff, first, Among, Option-cases, Bool-cases,
  drop_all, is_blank, text_refl,
}
use chain_verse_backend.Http.{Action, Result, Result-cases, ok, raise, Failure}
use chain_verse_backend.Mongo.{Mongo}
use chain_verse_backend.Idempotency.{
  IdempotencyKey, Request, Response, user_of, holds, has_key, is_expired, Gate, expire, intercept,
  default_ttl,
}

-- The request is one of the guarded endpoints, with this key, of this user.
pub record Sends (req : Request) (key user : String) : Type 0 where
  pub guarded : req.is_idempotent ≡ true
  pub with_key : req.key ≡ some key
  pub some_key : is_blank key ≡ false
  pub of_user : user_of req ≡ user

abbrev pub entry : {B : Type 0} → ℕ → Request → String → Response B → IdempotencyKey B
entry now req key v = record {
  key = key;
  user_id = user_of req;
  path = req.path;
  status_code = v.status_code;
  response_body = v.body;
  expires_at = now + default_ttl;
}

holds-none :
    {B : Type 0} (key user : String) (l : List (IdempotencyKey B))
    → first (has_key key) l ≡ none
    → first (holds key user) l ≡ none
holds-none key user [] h = refl
holds-none key user (r ∷ l) h = ground (arith, holds-none key user l)

first-eq-some→Among :
    {A : Type 0} (p : A → Bool) (l : List A) (x : A) → first p l ≡ some x → Among x l × (p x ≡ true)
first-eq-some→Among p [] x h = cc
first-eq-some→Among p (y ∷ l) x h = elim (Bool-cases (p y)) [
  | inl good ↦ let same : y ≡ x = ground arith in (inl (sym same), sym (ap p same) ∙ good)
  | inr bad ↦ let (there, good) = first-eq-some→Among p l x (ground arith) in (inr there, good)
]

first-eq-none→false :
    {A : Type 0} (p : A → Bool) (l : List A) (x : A) → first p l ≡ none → Among x l → p x ≡ false
first-eq-none→false p [] x h there = absurd there
first-eq-none→false p (y ∷ l) x h (inl same) = ap p same ∙ ground arith
first-eq-none→false p (y ∷ l) x h (inr there) = first-eq-none→false p l x (ground arith) there

first-drop_expired :
    {B : Type 0} (now : ℕ) (p : IdempotencyKey B → Bool) (l : List (IdempotencyKey B))
    (e : IdempotencyKey B)
    → first p l ≡ none
    → p e ≡ true
    → is_expired now e ≡ false
    → first p (drop_all (is_expired now) (l ++ e ∷ [])) ≡ some e
first-drop_expired now p [] e h k f = ground arith
first-drop_expired now p (r ∷ l) e h k f = ground (arith, first-drop_expired now p l e)

first-drop_gone :
    {B : Type 0} (now : ℕ) (p : IdempotencyKey B → Bool) (l : List (IdempotencyKey B))
    (e : IdempotencyKey B)
    → first p l ≡ none
    → is_expired now e ≡ true
    → first p (drop_all (is_expired now) (l ++ e ∷ [])) ≡ none
first-drop_gone now p [] e h f = ground arith
first-drop_gone now p (r ∷ l) e h f = ground (arith, first-drop_gone now p l e)

module _ (db : Mongo) (B W : Type 0) where
  open db use {all, insert, delete_many, find_one_lem, all-insert, all-delete_many}

  -- Where a record holds an answer, it is given, and nothing is done.
  intercept-held :
      (now : ℕ) (req : Request) (key user : String) (handler : Action W (Response B))
      (s : Gate db B W) (r : IdempotencyKey B)
      → Sends req key user
      → first (holds key user) (all s.records) ≡ some r
      → intercept db B W now req handler s
        ≡ (ok (record { status_code = r.status_code; body = r.response_body }), s)
  unfolding intercept
  intercept-held now req key user handler s r q f =
      ground (arith, find_one_lem (holds key (user_of req)) s.records)

  -- Where none does, the handler answers.
  intercept_unheld :
      (now : ℕ) (req : Request) (key user : String) (handler : Action W (Response B))
      (s : Gate db B W)
      → Sends req key user
      → first (holds key user) (all s.records) ≡ none
      → ((intercept db B W now req handler s).0 ≡ (handler s.world).0)
        × ((intercept db B W now req handler s).1.world ≡ (handler s.world).1)
  unfolding intercept
  intercept_unheld now req key user handler s q none_holds =
      elim (Result-cases (handler s.world).0) [
        | inl (e, bad) ↦ ground (arith, find_one_lem (holds key (user_of req)) s.records)
        | inr (v, good) ↦ elim (Option-cases (first (has_key key) (all s.records))) [
          | inl free ↦ ground (
            arith,
            find_one_lem (holds key (user_of req)) s.records,
            find_one_lem (has_key key) s.records,
          )
          | inr (t, used) ↦ ground (
            arith,
            find_one_lem (holds key (user_of req)) s.records,
            find_one_lem (has_key key) s.records,
          )
        ]
      ]

  -- A first request whose handler answers, where nobody has used the key.
  intercept-fresh :
      (now : ℕ) (req : Request) (key user : String) (handler : Action W (Response B))
      (s : Gate db B W) (v : Response B)
      → Sends req key user
      → first (has_key key) (all s.records) ≡ none
      → first (holds key user) (all s.records) ≡ none
      → (handler s.world).0 ≡ ok v
      → intercept db B W now req handler s ≡ (
        ok v,
        record s { records = insert (entry now req key v) s.records; world = (handler s.world).1 },
      )
  unfolding intercept
  intercept-fresh now req key user handler s v q f g h = ground (
    arith,
    find_one_lem (holds key (user_of req)) s.records,
    find_one_lem (has_key key) s.records,
  )

  -- Where nobody has used the key, a guarded request whose handler answers, and then a guarded
  -- request of the same user with the same key, whatever its path and its handler: the first runs
  -- its handler once; if the index last removed expired records less than 24 hours after the first
  -- request, the second gets the answer of the first and changes nothing; and if it did 24 hours
  -- after it or later, the second runs its own handler and answers as that does.
  pub intercept_replay :
      (now swept later : ℕ) (req again : Request) (key user : String)
      (first_handler second_handler : Action W (Response B)) (s : Gate db B W) (v : Response B)
      → Sends req key user
      → Sends again key user
      → first (has_key key) (all s.records) ≡ none
      → (first_handler s.world).0 ≡ ok v
      → let after : Gate db B W =
          expire db B W swept (intercept db B W now req first_handler s).1 in
        let answer = intercept db B W later again second_handler after in
        (after.world ≡ (first_handler s.world).1)
        × (((swept < now + default_ttl) × (answer ≡ (ok v, after)))
            ⊎ ((now + default_ttl ≤ swept)
                × (answer.0 ≡ (second_handler after.world).0)
                × (answer.1.world ≡ (second_handler after.world).1)))
  unfolding expire
  intercept_replay now swept later req again key user f g s v q r unused answers =
      let none_holds = holds-none key user (all s.records) unused in
      let e : IdempotencyKey B = entry now req key v in
      let after : Gate db B W = record s {
        records = delete_many (is_expired swept) (insert e s.records);
        world = (f s.world).1;
      } in
      let kept : all after.records ≡ drop_all (is_expired swept) (all s.records ++ e ∷ []) =
        all-delete_many (is_expired swept) (insert e s.records)
        ∙ ap (drop_all (is_expired swept)) (all-insert e s.records) in
      rw (intercept-fresh now req key user f s v q unused none_holds answers) (
        refl,
        elim (Bool-cases (is_expired swept e)) [
          | inr fresh ↦ inl (
            ground arith,
            intercept-held later again key user g after e r (
                ap (first (holds key user)) kept
                ∙ first-drop_expired swept (holds key user) (all s.records) e none_holds
                    (ground (arith, eq_iff (user_of req) user, text_refl key)) fresh),
          )
          | inl gone ↦
              let (answer, world) = intercept_unheld later again key user g after r (
                ap (first (holds key user)) kept
                ∙ first-drop_gone swept (holds key user) (all s.records) e none_holds gone) in
              inr (ground arith, answer, world)
        ],
      )

  -- Where the answer is an exception, the records stay as they were.
  pub intercept-raise :
      (now : ℕ) (req : Request) (handler : Action W (Response B)) (s : Gate db B W) (e : Failure)
      → (intercept db B W now req handler s).0 ≡ raise e
      → (intercept db B W now req handler s).1.records ≡ s.records
  unfolding intercept
  intercept-raise now req handler s e h = elim (Result-cases (handler s.world).0) [
    | inl (x, bad) ↦ ground arith
    | inr (v, good) ↦ ground arith
  ]

  -- The handler answers, and the key is on record for other users alone.
  abbrev Ends : String → String → Action W (Response B) → Gate db B W → Type 0
  Ends key user handler s =
      ((v : Response B) × ((handler s.world).0 ≡ ok v))
      × ((r : IdempotencyKey B) × Among r (all s.records) × (r.key ≡ key))
      × ((r : IdempotencyKey B) → Among r (all s.records) → r.key ≡ key → r.user_id ≢ user)

  -- What a request with a key that is not the user's does to the process.
  intercept_unheld-is_down :
      (now : ℕ) (req : Request) (key user : String) (handler : Action W (Response B))
      (s : Gate db B W) (v : Response B) (t : IdempotencyKey B)
      → Sends req key user
      → first (holds key user) (all s.records) ≡ none
      → (handler s.world).0 ≡ ok v
      → first (has_key key) (all s.records) ≡ some t
      → (intercept db B W now req handler s).1.is_down ≡ true
  unfolding intercept
  intercept_unheld-is_down now req key user handler s v t q none_holds good used = ground (
    arith,
    find_one_lem (holds key (user_of req)) s.records,
    find_one_lem (has_key key) s.records,
  )

  intercept_unheld-up :
      (now : ℕ) (req : Request) (key user : String) (handler : Action W (Response B))
      (s : Gate db B W)
      → Sends req key user
      → first (holds key user) (all s.records) ≡ none
      → (first (has_key key) (all s.records) ≡ none)
        ⊎ ((e : Failure) × ((handler s.world).0 ≡ raise e))
      → (intercept db B W now req handler s).1.is_down ≡ s.is_down
  unfolding intercept
  intercept_unheld-up now req key user handler s q none_holds (inr (e, bad)) =
      ground (arith, find_one_lem (holds key (user_of req)) s.records)
  intercept_unheld-up now req key user handler s q none_holds (inl free) =
      elim (Result-cases (handler s.world).0) [
        | inl (e, bad) ↦ ground (arith, find_one_lem (holds key (user_of req)) s.records)
        | inr (v, good) ↦ ground (
          arith,
          find_one_lem (holds key (user_of req)) s.records,
          find_one_lem (has_key key) s.records,
        )
      ]

  ends :
      (now : ℕ) (req : Request) (key user : String) (handler : Action W (Response B))
      (s : Gate db B W)
      → Sends req key user
      → s.is_down ≡ false
      → (intercept db B W now req handler s).1.is_down ≡ true
      → Ends key user handler s
  ends now req key user handler s q up down =
      elim (Option-cases (first (holds key user) (all s.records))) [
        | inr (r, held) ↦
            let same = intercept-held now req key user handler s r q held in
            let still : s.is_down ≡ true =
              ap (λ (a : Result (Response B) × Gate db B W). a.1.is_down) (sym same) ∙ down in
            cc
        | inl none_holds ↦ elim (Result-cases (handler s.world).0) [
          | inl bad ↦
              let still = intercept_unheld-up now req key user handler s q none_holds (inr bad) in
              cc
          | inr answered ↦ elim (Option-cases (first (has_key key) (all s.records))) [
            | inl free ↦
                let still =
                  intercept_unheld-up now req key user handler s q none_holds (inl free) in
                cc
            | inr (t, used) ↦
                let (there, has) = first-eq-some→Among (has_key key) (all s.records) t used in
                (
                  answered,
                  (t, there, (eq_iff t.key key).0 has),
                  λ r among same own.
                      let not_held =
                        first-eq-none→false (holds key user) (all s.records) r none_holds among in
                      let k : (r.key === key) ≡ true = (eq_iff r.key key).1 same in
                      let u : (r.user_id === user) ≡ true = (eq_iff r.user_id user).1 own in
                      ground arith,
                )
          ]
        ]
      ]

  ending :
      (now : ℕ) (req : Request) (key user : String) (handler : Action W (Response B))
      (s : Gate db B W)
      → Sends req key user
      → Ends key user handler s
      → (intercept db B W now req handler s).1.is_down ≡ true
  ending now req key user handler s q ((v, good), (t, there, same), others) =
      elim (Option-cases (first (holds key user) (all s.records))) [
        | inr (r, held) ↦
            let (among, both) = first-eq-some→Among (holds key user) (all s.records) r held in
            absurd (
              others r among ((eq_iff r.key key).0 (ground arith))
                ((eq_iff r.user_id user).0 (ground arith)))
        | inl none_holds ↦ elim (Option-cases (first (has_key key) (all s.records))) [
          | inl free ↦
              let no = first-eq-none→false (has_key key) (all s.records) t free there in
              let yes : has_key key t ≡ true = (eq_iff t.key key).1 same in cc
          | inr (u, used) ↦
              intercept_unheld-is_down now req key user handler s v u q none_holds good used
        ]
      ]

  -- A guarded request with a key ends the process exactly where its handler answers and the key is
  -- on record for other users alone: the record is looked for by key and user, while the index
  -- that it is saved under has the key alone.
  pub intercept-is_down_iff :
      (now : ℕ) (req : Request) (key user : String) (handler : Action W (Response B))
      (s : Gate db B W)
      → Sends req key user
      → s.is_down ≡ false
      → ((intercept db B W now req handler s).1.is_down ≡ true) ↔ (
          ((v : Response B) × ((handler s.world).0 ≡ ok v))
          × ((r : IdempotencyKey B) × Among r (all s.records) × (r.key ≡ key))
          × ((r : IdempotencyKey B) → Among r (all s.records) → r.key ≡ key → r.user_id ≢ user))
  intercept-is_down_iff now req key user handler s q up =
      (ends now req key user handler s q up, ending now req key user handler s q)
