-- ===== src/Http.antt =====
-- A handler of a Nest service: state passed on, and an exception that ends it. What was written
-- before a throw stays written.
use chain_verse_backend.Base.{
  ◌≡◌, refl, ◌⊎◌, inl, inr, Bool, Option, none, some, String, if◌then◌else◌,
}

-- The exceptions of @nestjs/common that the services throw, with their messages; Mongoose's
-- `CastError` for a text that is no object id; and the duplicate-key error of a unique index.
pub data Failure : Type 0 where
  bad_request unauthorized forbidden not_found conflict not_implemented : String → Failure
  service_unavailable : String → Failure
  cast_error plain_error : String → Failure
  duplicate_key : Failure

pub data Result (A : Type 0) : Type 0 where
  ok : A → Result A
  raise : Failure → Result A

pub Result-cases :
    {A : Type 0} (r : Result A) → ((e : Failure) × (r ≡ raise e)) ⊎ ((a : A) × (r ≡ ok a))
Result-cases (ok a) = inr (a, refl)
Result-cases (raise e) = inl (e, refl)

abbrev pub Action : Type 0 → Type 0 → Type 0
Action S A = S → Result A × S

abbrev pub pure : {S A : Type 0} → A → Action S A
pure a s = (ok a, s)

abbrev pub throw : {S A : Type 0} → Failure → Action S A
throw e s = (raise e, s)

abbrev pub gets : {S A : Type 0} → (S → A) → Action S A
gets f s = (ok (f s), s)

abbrev pub modify : {S : Type 0} → (S → S) → Action S (Unit {0})
modify f s = (ok tt, f s)

-- `if (test) throw e`
abbrev pub throw_if : {S : Type 0} → Bool → Failure → Action S (Unit {0})
throw_if t e s = (if t then raise e else ok tt, s)

-- `if (!value) throw e`, for what a query may not find.
abbrev pub or_throw : {S A : Type 0} → Option A → Failure → Action S A
or_throw none e s = (raise e, s)
or_throw (some a) e s = (ok a, s)

infixl 5 ◌>>=◌ ◌>>◌
abbrev pub ◌>>=◌ : {S A B : Type 0} → Action S A → (A → Action S B) → Action S B
◌>>=◌ m f s = let (r, s') = m s in elim r [ ok a ↦ f a s' | raise e ↦ (raise e, s') ]

abbrev pub ◌>>◌ : {S A B : Type 0} → Action S A → Action S B → Action S B
m >> k = m >>= λ _. k
