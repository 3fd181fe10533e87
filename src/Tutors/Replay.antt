-- ===== src/Tutors/Replay.antt =====
-- The refresh tokens of tutors: a token that is presented again.
use chain_verse_backend.Base.{
  ℕ, ◌+◌, ◌*◌, String, ◌≡◌, refl, inl, inr, true, false, some, arith, first, Bool-cases, is_blank,
}
use chain_verse_backend.Http.{raise, unauthorized}
use chain_verse_backend.Mongo.{Mongo}
use chain_verse_backend.StudentAuth.{
  Services, Claims, RefreshToken, has_hash, in_family, refresh_token_expiry,
}
use chain_verse_backend.StudentAuth.Session.{is_kind, revoke}
use chain_verse_backend.StudentAuth.Rotation.{
  IsClosed, revoked_message, amend_all-IsClosed, first-revoke_all, first-revoke_one, hash_of_first,
  first-kept,
}
use chain_verse_backend.Tutors.{TutorAccount, TutorAuth, tutor_refresh_claims, generate_tutor_pair}
use chain_verse_backend.Tutors.Session.{refresh_tutor_token, deny, renew}
use chain_verse_backend.Tutors.Keeping.{load_tutor_cases}

module _ (db : Mongo) (env : Services) where
  open db use {all, update_one, find_one_lem, all-insert, all-update_one, all-update_many}

  -- The token reads as a refresh token of the family of its record, which is there.
  pub record Shows (now : ℕ) (token : String) (s : TutorAuth db) (stored : RefreshToken)
      : Type 0 where
    pub some_text : is_blank token ≡ false
    pub payload : Claims
    pub reads : env.verify now token ≡ some payload
    pub is_refresh : is_kind "refresh" payload ≡ true
    pub of_family : payload.token_family ≡ some stored.token_family
    pub some_family : is_blank stored.token_family ≡ false
    pub found : first (has_hash (env.sha256 token)) (all s.refresh_tokens) ≡ some stored

  abbrev closed : String → TutorAuth db → TutorAuth db
  closed fam s = record s {
    refresh_tokens = db.update_many (in_family fam) revoke s.refresh_tokens;
  }

  Shows-revoked :
      (now : ℕ) (token : String) (s : TutorAuth db) (t : RefreshToken)
      → Shows now token s t
      → t.is_revoked ≡ true
      → refresh_tutor_token db env now token s
        ≡ (raise (unauthorized revoked_message), closed t.token_family s)
  unfolding refresh_tutor_token deny
  Shows-revoked now token s t h r =
      ground (arith, find_one_lem (has_hash (env.sha256 token)) s.refresh_tokens)

  Shows-renew :
      (now : ℕ) (token : String) (s : TutorAuth db) (t : RefreshToken)
      → Shows now token s t
      → t.is_revoked ≡ false
      → refresh_tutor_token db env now token s ≡ renew db env now t s
  unfolding refresh_tutor_token
  Shows-renew now token s t h r =
      ground (arith, find_one_lem (has_hash (env.sha256 token)) s.refresh_tokens)

  generate_tutor_pair-first :
      (now : ℕ) (x : TutorAccount) (fam h : String) (t : RefreshToken) (s : TutorAuth db)
      → first (has_hash h) (all s.refresh_tokens) ≡ some t
      → first (has_hash h) (all (generate_tutor_pair db env now x (some fam) s).1.refresh_tokens)
        ≡ some t
  unfolding generate_tutor_pair
  generate_tutor_pair-first now x fam h t s f =
      let jti : String = env.random s.drawn in
      let new : RefreshToken = record {
        token_hash =
            env.sha256 (env.sign now (tutor_refresh_claims x.id fam jti) refresh_token_expiry);
        token_family = fam;
        student_id = x.id;
        expires_at = now + refresh_token_expiry * 1000;
        is_revoked = false;
      } in
      ground
        (arith, all-insert new s.refresh_tokens, first-kept db env h t new (all s.refresh_tokens) f)

  renew-first :
      (now : ℕ) (h : String) (s : TutorAuth db) (t : RefreshToken)
      → first (has_hash h) (all s.refresh_tokens) ≡ some t
      → first (has_hash h) (all (renew db env now t s).1.refresh_tokens) ≡ some (revoke t)
  unfolding renew
  renew-first now h s t f =
      let used : TutorAuth db = record s {
        refresh_tokens = update_one (has_hash t.token_hash) revoke s.refresh_tokens;
      } in
      let g : first (has_hash h) (all used.refresh_tokens) ≡ some (revoke t) = ground (
        arith,
        all-update_one (has_hash t.token_hash) revoke s.refresh_tokens,
        hash_of_first db env h t (all s.refresh_tokens) f,
        first-revoke_one db env h t (all s.refresh_tokens) f,
      ) in
      elim (load_tutor_cases db env t.student_id used) [
        | inl (e, bad) ↦ ground arith
        | inr (x, found) ↦
            ground (arith, generate_tutor_pair-first now x t.token_family h (revoke t) used g)
      ]

  -- Whatever comes of a call, the token is revoked when it is over.
  refresh_tutor_token-first :
      (now : ℕ) (token : String) (s : TutorAuth db) (t : RefreshToken)
      → Shows now token s t
      → first
          (has_hash (env.sha256 token))
          (all (refresh_tutor_token db env now token s).1.refresh_tokens)
        ≡ some (revoke t)
  refresh_tutor_token-first now token s t h = elim (Bool-cases t.is_revoked) [
    | inl r ↦
        rw (Shows-revoked now token s t h r, all-update_many)
          (first-revoke_all db env (env.sha256 token) t t.token_family (all s.refresh_tokens)
            h.found refl)
    | inr r ↦ rw (Shows-renew now token s t h r) (renew-first now (env.sha256 token) s t h.found)
  ]

  -- Where a token reads as a refresh token of the family, not empty, of the record of its
  -- hash, a second call of `refresh_tutor_token` with it, while it still reads as a refresh
  -- token of that family, is refused, and every token of the family is revoked then, whatever
  -- came of the first call.
  pub refresh_tutor_token-replay :
      (now later : ℕ) (token : String) (s : TutorAuth db) (t : RefreshToken) (c : Claims)
      → Shows now token s t
      → env.verify later token ≡ some c
      → is_kind "refresh" c ≡ true
      → c.token_family ≡ some t.token_family
      → let used : TutorAuth db = (refresh_tutor_token db env now token s).1 in
        ((refresh_tutor_token db env later token used).0 ≡ raise (unauthorized revoked_message))
        × IsClosed t.token_family
            (all (refresh_tutor_token db env later token used).1.refresh_tokens)
  refresh_tutor_token-replay now later token s t c h reads kind family =
      let used : TutorAuth db = (refresh_tutor_token db env now token s).1 in
      let again : Shows later token used (revoke t) = record {
        some_text = h.some_text;
        payload = c;
        reads = reads;
        is_refresh = kind;
        of_family = family;
        some_family = h.some_family;
        found = refresh_tutor_token-first now token s t h;
      } in
      rw (Shows-revoked later token used (revoke t) again refl, all-update_many)
        (refl, amend_all-IsClosed t.token_family (all used.refresh_tokens))
