-- ===== src/Cached/Slots.antt =====
-- A cache in memory that has every property of the interface, and on which the handlers run.
use chain_verse_backend.Base.{
  ℕ, ◌+◌, ◌<◌, ◌≡◌, ◌≢◌, ◌⊎◌, inl, inr, String, Bool, false, ◌&&◌, none, some, Option, List, [],
  ◌∷◌, arith, eq_iff, ◌===◌, ltb, drop_all, if◌then◌else◌, Option-cases, Bool-cases,
}
use chain_verse_backend.Http.{Result, ok, raise}
use chain_verse_backend.Cached.{Cache}

-- A cache of entries with a time to live.
pub record Slot (V : Type 0) : Type 0 where
  pub key : String
  pub until : ℕ
  pub value : V

abbrev answers : {V : Type 0} → String → ℕ → Slot V → Bool
answers k t x = x.key === k && ltb t x.until

abbrev lookup : {V : Type 0} → String → ℕ → List (Slot V) → Option V
lookup k t [] = none
lookup k t (x ∷ l) = if answers k t x then some x.value else lookup k t l

abbrev read_through :
    {V : Type 0} → ℕ → ℕ → String → Result V → List (Slot V) → Result V × List (Slot V)
read_through now ttl k r b = elim (lookup k now b) [
  | some v ↦ (ok v, b)
  | none ↦ elim r [
    | raise e ↦ (raise e, b)
    | ok v ↦ (ok v, record { key = k; until = now + ttl; value = v } ∷ b)
  ]
]

miss :
    {V : Type 0} (now ttl : ℕ) (k : String) (r : Result V) (b : List (Slot V))
    → lookup k now b ≡ none
    → (read_through now ttl k r b).0 ≡ r
miss now ttl k (ok v) b e = ground (arith, e)
miss now ttl k (raise x) b e = ground (arith, e)

pub read_through_answer :
    {V : Type 0} (now ttl : ℕ) (k : String) (r : Result V) (b : List (Slot V))
    → ((read_through now ttl k r b).0 ≡ r)
      ⊎ ((v : V) × ((read_through now ttl k r b).0 ≡ ok v) × (lookup k now b ≡ some v))
read_through_answer now ttl k r b = elim (Option-cases (lookup k now b)) [
  | inr (v, e) ↦ inr (v, ground (arith, e), e)
  | inl e ↦ inl (miss now ttl k r b e)
]

pub lookup-read_through :
    {V : Type 0} (now ttl : ℕ) (k : String) (r : Result V) (b : List (Slot V)) (q : String) (t : ℕ)
    (v : V)
    → lookup q t (read_through now ttl k r b).1 ≡ some v
    → (lookup q t b ≡ some v) ⊎ ((k ≡ q) × (r ≡ ok v) × (t < now + ttl))
lookup-read_through now ttl k (raise x) b q t v h = elim (Option-cases (lookup k now b)) [
  | inr (w, e) ↦ inl (ground arith)
  | inl e ↦ inl (ground arith)
]
lookup-read_through now ttl k (ok w) b q t v h = elim (Option-cases (lookup k now b)) [
  | inr (u, e) ↦ inl (ground arith)
  | inl e ↦ elim (Bool-cases (k === q && ltb t (now + ttl))) [
    | inl hit ↦ inr (ground (arith, eq_iff k q), ground arith, ground arith)
    | inr past ↦ inl (ground arith)
  ]
]

pub lookup-drop_all :
    {V : Type 0} (k : String) (b : List (Slot V)) (q : String) (t : ℕ) (v : V)
    → lookup q t (drop_all (λ x. x.key === k) b) ≡ some v
    → (k ≢ q) × (lookup q t b ≡ some v)
lookup-drop_all k [] q t v h = cc
lookup-drop_all k (x ∷ b) q t v h = elim (Bool-cases (x.key === k)) [
  | inl gone ↦
      let later : lookup q t (drop_all (λ y. y.key === k) b) ≡ some v = ground arith in
      let (other, there) = lookup-drop_all k b q t v later in
      (other, ground (arith, eq_iff x.key k, eq_iff x.key q, other))
  | inr stays ↦ elim (Bool-cases (answers q t x)) [
    | inl hit ↦ (λ e. ground (arith, eq_iff x.key k, eq_iff x.key q), ground arith)
    | inr past ↦
        let later : lookup q t (drop_all (λ y. y.key === k) b) ≡ some v = ground arith in
        let (other, there) = lookup-drop_all k b q t v later in (other, ground arith)
  ]
]

pub read_through-hit :
    {V : Type 0} (now ttl : ℕ) (k : String) (r : Result V) (b : List (Slot V)) (v : V)
    → lookup k now b ≡ some v
    → (read_through now ttl k r b).0 ≡ ok v
read_through-hit now ttl k r b v e = ground (arith, e)

pub lookup-drop_all_other :
    {V : Type 0} (k : String) (b : List (Slot V)) (q : String) (t : ℕ) (v : V)
    → k ≢ q
    → lookup q t b ≡ some v
    → lookup q t (drop_all (λ x. x.key === k) b) ≡ some v
lookup-drop_all_other k [] q t v other h = h
lookup-drop_all_other k (x ∷ b) q t v other h = elim (Bool-cases (answers q t x)) [
  | inl hit ↦
      let stays : (x.key === k) ≡ false = ground (arith, eq_iff x.key k, eq_iff x.key q, other) in
      ground arith
  | inr past ↦
      let later : lookup q t b ≡ some v = ground arith in
      let kept = lookup-drop_all_other k b q t v other later in ground arith
]

abbrev pub slots : Cache
slots = record {
  Box = λ V. List (Slot V);
  Holds = λ {V} b q t v. lookup q t b ≡ some v;
  read = λ {V}. read_through;
  drop_key = λ {V} k. drop_all (λ x. x.key === k);
  read_answer = λ {V}. read_through_answer;
  Holds-read = λ {V}. lookup-read_through;
  Holds-drop_key = λ {V}. lookup-drop_all;
  read-Holds = λ {V}. read_through-hit;
  Holds-drop_key_other = λ {V}. lookup-drop_all_other;
}
