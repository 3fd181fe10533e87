-- ===== src/Cached.antt =====
-- Handlers behind the cache of src/cache/app-cache.module.ts: what is relied on of `CacheInterceptor`
-- and of `del`, which are not in the repository, and the state of a service beside its part of the
-- cache. No two services share a key.
pub mod Boards
pub mod Age
pub mod Faqs
pub mod Fresh
pub mod Slots
use chain_verse_backend.Base.{ℕ, ◌+◌, ◌≤◌, ◌<◌, ◌≡◌, ◌≢◌, ◌⊎◌, String, List, [], ◌∷◌}
use chain_verse_backend.Http.{Action, Result, ok, raise}

pub record Cache : Type 1 where
  -- What is kept under texts.
  pub Box : Type 0 → Type 0
  -- What a request at a time is answered with if it asks for a key.
  pub Holds : {V : Type 0} → Box V → String → ℕ → V → Type 0
  -- `CacheInterceptor`, for a time, a lifetime, a key and what the handler would answer.
  pub read : {V : Type 0} → ℕ → ℕ → String → Result V → Box V → Result V × Box V
  -- `cache.del(key)`
  pub drop_key : {V : Type 0} → String → Box V → Box V
  -- An answer is the handler's or was kept under the key.
  pub read_answer :
      {V : Type 0} (now ttl : ℕ) (key : String) (r : Result V) (b : Box V)
      → ((read now ttl key r b).0 ≡ r)
        ⊎ ((v : V) × ((read now ttl key r b).0 ≡ ok v) × Holds b key now v)
  -- A request adds at most the handler's answer, under its key and for the lifetime.
  pub Holds-read :
      {V : Type 0} (now ttl : ℕ) (key : String) (r : Result V) (b : Box V) (q : String) (t : ℕ)
      (v : V)
      → Holds (read now ttl key r b).1 q t v
      → Holds b q t v ⊎ ((key ≡ q) × (r ≡ ok v) × (t < now + ttl))
  pub Holds-drop_key :
      {V : Type 0} (key : String) (b : Box V) (q : String) (t : ℕ) (v : V)
      → Holds (drop_key key b) q t v
      → (key ≢ q) × Holds b q t v
  -- What is kept is the answer, and `del` of another key leaves it.
  pub read-Holds :
      {V : Type 0} (now ttl : ℕ) (key : String) (r : Result V) (b : Box V) (v : V)
      → Holds b key now v
      → (read now ttl key r b).0 ≡ ok v
  pub Holds-drop_key_other :
      {V : Type 0} (key : String) (b : Box V) (q : String) (t : ℕ) (v : V)
      → key ≢ q
      → Holds b q t v
      → Holds (drop_key key b) q t v

-- A service and its part of the cache.
pub record Kept (cache : Cache) (S V : Type 0) : Type 0 where
  pub inner : S
  pub box : cache.Box V

module _ (cache : Cache) {V : Type 0} where
  abbrev pub drop_keys : List String → cache.Box V → cache.Box V
  drop_keys [] b = b
  drop_keys (k ∷ ks) b = drop_keys ks (cache.drop_key k b)

  pub Holds-drop_keys :
      (ks : List String) (b : cache.Box V) (q : String) (t : ℕ) (v : V)
      → cache.Holds (drop_keys ks b) q t v
      → cache.Holds b q t v
  Holds-drop_keys [] b q t v h = h
  Holds-drop_keys (k ∷ ks) b q t v h =
      (cache.Holds-drop_key k b q t v (Holds-drop_keys ks (cache.drop_key k b) q t v h)).1

  -- What the keys are after a handler that answers or throws.
  abbrev pub settle : {A : Type 0} → List String → Result A → cache.Box V → cache.Box V
  settle keys (raise e) b = b
  settle keys (ok a) b = drop_keys keys b

  pub Holds-settle :
      {A : Type 0} (ks : List String) (r : Result A) (b : cache.Box V) (q : String) (t : ℕ) (v : V)
      → cache.Holds (settle ks r b) q t v
      → cache.Holds b q t v
  Holds-settle ks (raise e) b q t v h = h
  Holds-settle ks (ok a) b q t v h = Holds-drop_keys ks b q t v h

module _ (cache : Cache) {S V : Type 0} where
  -- A handler that only reads, behind the interceptor.
  unfoldable pub cached_read : ℕ → ℕ → String → (S → Result V) → Action (Kept cache S V) V
  cached_read now ttl key handler s =
      let (r, b) = cache.read now ttl key (handler s.inner) s.box in (r, record s { box = b })

  -- A handler that writes, and drops keys once it has; an exception comes before them.
  unfoldable pub write_and_drop :
      {A : Type 0} → List String → Action S A → Action (Kept cache S V) A
  write_and_drop keys m s =
      let (r, t) = m s.inner in (r, record { inner = t; box = settle cache keys r s.box })

  pub Holds-write_and_drop :
      {A : Type 0} (keys : List String) (m : Action S A) (s : Kept cache S V) (q : String) (t : ℕ)
      (v : V)
      → cache.Holds (write_and_drop keys m s).1.box q t v
      → cache.Holds s.box q t v
  unfolding write_and_drop
  Holds-write_and_drop keys m s q t v h = Holds-settle cache keys (m s.inner).0 s.box q t v h
