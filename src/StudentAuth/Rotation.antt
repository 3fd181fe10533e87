-- ===== src/StudentAuth/Rotation.antt =====
-- Refresh tokens: rotation and replay.
use chain_verse_backend.Base.{
  ℕ, ◌+◌, ◌*◌, String, ◌≡◌, refl, ◌⊎◌, inl, inr, true, false, none, some, List, [], ◌∷◌, ◌++◌,
  arith, eq_iff, first, amend_first, amend_all, All, Option-cases, Bool-cases, is_blank,
}
use chain_verse_backend.Http.{Failure, cast_error, ok, raise, unauthorized}
use chain_verse_backend.Mongo.{Mongo}
use chain_verse_backend.StudentAuth.{
  is_student, Services, Claims, Student, RefreshToken, Auth, has_hash, in_family,
  generate_token_pair, find_student, refresh_claims, refresh_token_expiry,
}
use chain_verse_backend.StudentAuth.Session.{refresh_token, rotate, revoke, is_kind}

abbrev pub revoked_message : String
revoked_message = "Refresh token has been revoked or already used"

-- Every token of the family is revoked.
abbrev pub IsClosed : String → List RefreshToken → Type 0
IsClosed fam = All (λ t. t.token_family ≡ fam → t.is_revoked ≡ true)

pub amend_all-IsClosed :
    (fam : String) (l : List RefreshToken) → IsClosed fam (amend_all (in_family fam) revoke l)
amend_all-IsClosed fam [] = tt
amend_all-IsClosed fam (t ∷ l) = elim (Bool-cases (in_family fam t)) [
  | inl same ↦ rw same ((λ e. refl), amend_all-IsClosed fam l)
  | inr other ↦
      rw other ((λ e. ground (arith, eq_iff t.token_family fam)), amend_all-IsClosed fam l)
]

module _ (db : Mongo) (env : Services) where
  open db use {all, find_one_lem, all-insert, all-update_one, all-update_many, all-delete_one}

  -- The token reads as a refresh token, and its record is there.
  pub record Presents (now : ℕ) (token : String) (s : Auth db) (stored : RefreshToken)
      : Type 0 where
    pub some_text : is_blank token ≡ false
    pub payload : Claims
    pub reads : env.verify now token ≡ some payload
    pub is_refresh : is_kind "refresh" payload ≡ true
    pub found : first (has_hash (env.sha256 token)) (all s.refresh_tokens) ≡ some stored

  Presents-rotate :
      (now : ℕ) (token : String) (s : Auth db) (t : RefreshToken)
      → Presents now token s t
      → refresh_token db env now token s ≡ rotate db env now t s
  unfolding refresh_token
  Presents-rotate now token s t h =
      ground (arith, find_one_lem (has_hash (env.sha256 token)) s.refresh_tokens)

  rotate-revoked :
      (now : ℕ) (s : Auth db) (t : RefreshToken)
      → t.is_revoked ≡ true
      → rotate db env now t s ≡ (
        raise (unauthorized revoked_message),
        record s {
          refresh_tokens = db.update_many (in_family t.token_family) revoke s.refresh_tokens;
        },
      )
  unfolding rotate
  rotate-revoked now s t r = ground arith

  pub first-revoke_all :
      (h : String) (t : RefreshToken) (fam : String) (l : List RefreshToken)
      → first (has_hash h) l ≡ some t
      → t.token_family ≡ fam
      → first (has_hash h) (amend_all (in_family fam) revoke l) ≡ some (revoke t)
  first-revoke_all h t fam [] f e = ground arith
  first-revoke_all h t fam (x ∷ l) f e =
      ground (arith, eq_iff x.token_family fam, first-revoke_all h t fam l)

  pub first-revoke_one :
      (h : String) (t : RefreshToken) (l : List RefreshToken)
      → first (has_hash h) l ≡ some t
      → first (has_hash h) (amend_first (has_hash h) revoke l) ≡ some (revoke t)
  first-revoke_one h t [] f = ground arith
  first-revoke_one h t (x ∷ l) f = ground (arith, first-revoke_one h t l)

  pub hash_of_first :
      (h : String) (t : RefreshToken) (l : List RefreshToken)
      → first (has_hash h) l ≡ some t
      → t.token_hash ≡ h
  hash_of_first h t [] f = ground arith
  hash_of_first h t (x ∷ l) f = ground (arith, eq_iff x.token_hash h, hash_of_first h t l)

  -- What is found among the tokens is found among more of them.
  pub first-kept :
      (h : String) (t x : RefreshToken) (l : List RefreshToken)
      → first (has_hash h) l ≡ some t
      → first (has_hash h) (l ++ x ∷ []) ≡ some t
  first-kept h t x [] f = ground arith
  first-kept h t x (y ∷ l) f = ground (arith, first-kept h t x l)

  generate_token_pair-first :
      (now : ℕ) (x : Student) (fam : String) (h : String) (t : RefreshToken) (s : Auth db)
      → first (has_hash h) (all s.refresh_tokens) ≡ some t
      → first (has_hash h) (all (generate_token_pair db env now x (some fam) s).1.refresh_tokens)
        ≡ some t
  unfolding generate_token_pair
  generate_token_pair-first now x fam h t s f =
      let jti : String = env.random s.drawn in
      let new : RefreshToken = record {
        token_hash =
            env.sha256 (env.sign now (refresh_claims db env x.id jti) refresh_token_expiry);
        token_family = fam;
        student_id = x.id;
        expires_at = now + refresh_token_expiry * 1000;
        is_revoked = false;
      } in
      ground (arith, all-insert new s.refresh_tokens, first-kept h t new (all s.refresh_tokens) f)

  find_student_cases :
      (id : String) (s : Auth db)
      → ((e : Failure) × (find_student db env id s ≡ (raise e, s)))
        ⊎ (find_student db env id s ≡ (ok none, s))
        ⊎ ((x : Student) × (find_student db env id s ≡ (ok (some x), s)))
  unfolding find_student
  find_student_cases id s = elim (Option-cases (db.to_object_id id)) [
    | inl bad ↦ inl (cast_error id, ground arith)
    | inr (k, e) ↦ elim (Option-cases (db.find_one (is_student k) s.students)) [
      | inl none_there ↦ inr (inl (ground arith))
      | inr (x, f) ↦ inr (inr (x, ground arith))
    ]
  ]

  -- Whatever comes of it, the token is revoked when the rotation is over.
  rotate-first :
      (now : ℕ) (h : String) (s : Auth db) (t : RefreshToken)
      → first (has_hash h) (all s.refresh_tokens) ≡ some t
      → first (has_hash h) (all (rotate db env now t s).1.refresh_tokens) ≡ some (revoke t)
  unfolding rotate
  rotate-first now h s t f = elim (Bool-cases t.is_revoked) [
    | inl r ↦
        rw (r, all-update_many) (first-revoke_all h t t.token_family (all s.refresh_tokens) f refl)
    | inr r ↦
        let used : Auth db = record s {
          refresh_tokens = db.update_one (has_hash t.token_hash) revoke s.refresh_tokens;
        } in
        let g : first (has_hash h) (all used.refresh_tokens) ≡ some (revoke t) = ground (
          arith,
          all-update_one (has_hash t.token_hash) revoke s.refresh_tokens,
          hash_of_first h t (all s.refresh_tokens) f,
          first-revoke_one h t (all s.refresh_tokens) f,
        ) in
        elim (find_student_cases t.student_id used) [
          | inl (e, bad) ↦ ground arith
          | inr (inl bad) ↦ ground arith
          | inr (inr (x, e)) ↦
              ground (arith, generate_token_pair-first now x t.token_family h (revoke t) used g)
        ]
  ]

  -- Where a token reads as a refresh token and the record of its hash is revoked,
  -- `refresh_token` refuses it, and every token of its family is revoked afterwards.
  pub refresh_token-revoked :
      (now : ℕ) (token : String) (s : Auth db) (t : RefreshToken)
      → Presents now token s t
      → t.is_revoked ≡ true
      → ((refresh_token db env now token s).0 ≡ raise (unauthorized revoked_message))
        × IsClosed t.token_family (all (refresh_token db env now token s).1.refresh_tokens)
  refresh_token-revoked now token s t h r =
      rw (Presents-rotate now token s t h, rotate-revoked now s t r, all-update_many)
        (refl, amend_all-IsClosed t.token_family (all s.refresh_tokens))

  -- Where a token reads as a refresh token and the record of its hash is there, a second call
  -- of `refresh_token` with it, while it still reads as a refresh token, is refused, and every
  -- token of its family is revoked then, those that the first call gave out included.
  pub refresh_token-replay :
      (now later : ℕ) (token : String) (s : Auth db) (t : RefreshToken) (c : Claims)
      → Presents now token s t
      → env.verify later token ≡ some c
      → is_kind "refresh" c ≡ true
      → let used : Auth db = (refresh_token db env now token s).1 in
        ((refresh_token db env later token used).0 ≡ raise (unauthorized revoked_message))
        × IsClosed t.token_family (all (refresh_token db env later token used).1.refresh_tokens)
  refresh_token-replay now later token s t c h reads kind =
      refresh_token-revoked later token (refresh_token db env now token s).1 (revoke t)
        (record {
          some_text = h.some_text;
          payload = c;
          reads = reads;
          is_refresh = kind;
          found = rw (Presents-rotate now token s t h) (rotate-first now _ s t h.found);
        })
        refl
