-- ===== src/Guards/Tokens.antt =====
-- Which tokens pass the guards.
use chain_verse_backend.Base.{
  ℕ, String, ◌≡◌, ◌≢◌, refl, ap, ◌∙◌, ◌⊎◌, inl, inr, true, false, Option, some, List, [], ◌∷◌,
  arith, Option-cases, Bool-cases, is_empty,
}
use chain_verse_backend.Http.{ok}
use chain_verse_backend.Mongo.{Mongo}
use chain_verse_backend.Market.{contains}
use chain_verse_backend.StudentAuth.{Services, Claims, Student, refresh_claims, verification_claims}
use chain_verse_backend.StudentAuth.Session.{is_kind}
use chain_verse_backend.Tutors.{TutorAccount, tutor_refresh_claims, tutor_verification_claims}
use chain_verse_backend.Guards.{User, bearer, identity, guard}

identity-some :
    (c : Claims) (u : User)
    → identity c ≡ some u
    → (c.sub ≡ some u.id) × (c.email ≡ some u.email) × (c.role ≡ some u.role)
identity-some c u h = ground arith

-- The claims of a refresh token, and of a mail that verifies an address.
pub record IsAccess (db : Mongo) (env : Services) (c : Claims) : Type 0 where
  pub no_refresh : (id jti : String) → c ≢ refresh_claims db env id jti
  pub no_verification : (x : Student) → c ≢ verification_claims db env x
  pub no_tutor_refresh : (id family jti : String) → c ≢ tutor_refresh_claims id family jti
  pub no_tutor_verification : (x : TutorAccount) → c ≢ tutor_verification_claims x

with_role-IsAccess :
    (db : Mongo) (env : Services) (c : Claims) (r : String) → c.role ≡ some r → IsAccess db env c
with_role-IsAccess db env c r h = record {
  no_refresh = λ id jti e. ground arith;
  no_verification = λ x e. ground arith;
  no_tutor_refresh = λ id family jti e. ground arith;
  no_tutor_verification = λ x e. ground arith;
}

no_roles : (roles : List String) → is_empty roles ≡ true → roles ≡ []
no_roles [] h = refl
no_roles (r ∷ rs) h = ground arith

module _ (db : Mongo) (env : Services) where
  -- Where `guard` lets a request through, its header is a bearer token that the JWT library
  -- reads as claims that are not of the kind of a refresh token, with the id and the role of
  -- the user; the handler names no role or names that one; and the claims are those of no
  -- refresh token and no verification mail, neither of a student nor of a tutor.
  pub guard-ok :
      (now : ℕ) (header : Option String) (roles : List String) (u : User)
      → guard env now header roles ≡ ok u
      → (token : String) × (c : Claims) × (bearer header ≡ some token)
        × (env.verify now token ≡ some c)
        × (is_kind "refresh" c ≡ false)
        × (c.sub ≡ some u.id)
        × (c.role ≡ some u.role)
        × ((roles ≡ []) ⊎ (contains roles u.role ≡ true))
        × IsAccess db env c
  unfolding guard
  guard-ok now header roles u h = elim (Option-cases (bearer header)) [
    | inl bad ↦ ground arith
    | inr (token, sent) ↦ elim (Option-cases (env.verify now token)) [
      | inl bad ↦ ground arith
      | inr (c, reads) ↦ elim (Option-cases (identity c)) [
        | inl bad ↦ ground arith
        | inr (v, named) ↦
            let same : v ≡ u = ground arith in
            let claims = identity-some c u (named ∙ ap some same) in
            (
              token,
              c,
              sent,
              reads,
              ground arith,
              claims.0,
              claims.2,
              elim (Bool-cases (is_empty roles)) [
                | inl e ↦ inl (no_roles roles e)
                | inr e ↦ inr (ground arith)
              ],
              with_role-IsAccess db env c u.role claims.2,
            )
      ]
    ]
  ]
