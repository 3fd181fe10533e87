-- ===== src/Cached/Fresh.antt =====
-- The list of the FAQs is never out of date: every write drops the key that it is kept under.
use mathlib.Core.Path.{subst}
use chain_verse_backend.Base.{
  ℕ, ◌≡◌, refl, sym, ◌∙◌, ap, ◌⊎◌, inl, inr, String, Bool, List, [], ◌∷◌, ◌===◌, arith, first,
  select, drop_first, amend_first, Option-cases, none,
}
use chain_verse_backend.Http.{Action, Result, ok}
use chain_verse_backend.Mongo.{Mongo}
use chain_verse_backend.Documents.{Shelf}
use chain_verse_backend.Sorting.{Sorter}
use chain_verse_backend.Registries.{CreateEntry, UpdateEntry}
use chain_verse_backend.Cached.{Cache, Kept, write_and_drop, settle, Holds-settle, Holds-drop_keys}
use chain_verse_backend.Cached.Faqs.{
  Faq, faq_cache_key, faq_lifetime, faq_item_key, faq_id, is_active_faq, is_ordered_before, touch,
  update_faq, remove_faq, all_faqs, list_faqs, create_kept_faq, update_kept_faq, remove_kept_faq,
}

pub data FaqRequest (J : Type 0) : Type 0 where
  list_all : FaqRequest J
  add : CreateEntry J → FaqRequest J
  change : String → UpdateEntry J → FaqRequest J
  delete : String → FaqRequest J

pub record FaqCall (J : Type 0) : Type 0 where
  pub now : ℕ
  pub request : FaqRequest J

drop_first-none : {A : Type 0} (p : A → Bool) (l : List A) → first p l ≡ none → drop_first p l ≡ l
drop_first-none p [] h = refl
drop_first-none p (x ∷ l) h = ground (arith, drop_first-none p l)

amend_first-none :
    {A : Type 0} (p : A → Bool) (f : A → A) (l : List A) → first p l ≡ none → amend_first p f l ≡ l
amend_first-none p f [] h = refl
amend_first-none p f (x ∷ l) h = ground (arith, amend_first-none p f l)

module _ (db : Mongo) (sorter : Sorter) (cache : Cache) where
  open db use {all, find_lem, find_one_lem, all-update_one, all-delete_one, to_object_id}

  -- Documents that are the same are listed in the same way.
  all_faqs_congr :
      (s t : Shelf db Faq) → all s.docs ≡ all t.docs → all_faqs db sorter s ≡ all_faqs db sorter t
  all_faqs_congr s t h = ap (sorter.sort is_ordered_before) (
      find_lem is_active_faq s.docs
      ∙ ap (select is_active_faq) h
      ∙ sym (find_lem is_active_faq t.docs))

  -- A write that throws leaves the documents.
  remove_faq-raise :
      (id : String) (s : Shelf db Faq)
      → ((k : String) × ((remove_faq db id s).0 ≡ ok k))
        ⊎ (all (remove_faq db id s).1.docs ≡ all s.docs)
  unfolding remove_faq
  remove_faq-raise id s = elim (Option-cases (to_object_id id)) [
    | inl bad ↦ inr (ground arith)
    | inr (k, good) ↦ elim (Option-cases (db.find_one (λ f. faq_id f === k) s.docs)) [
      | inl missing ↦
          let p : Faq → Bool = λ f. faq_id f === k in
          inr (
            ground (
              arith,
              missing,
              good,
              all-delete_one p s.docs,
              drop_first-none p (all s.docs) (sym (find_one_lem p s.docs) ∙ missing),
            ))
      | inr (f, found) ↦ inl (id, ground arith)
    ]
  ]

  update_faq-raise :
      {J : Type 0} (now : ℕ) (id : String) (payload : UpdateEntry J) (s : Shelf db Faq)
      → ((f : Faq) × ((update_faq db now id payload s).0 ≡ ok f))
        ⊎ (all (update_faq db now id payload s).1.docs ≡ all s.docs)
  unfolding update_faq
  update_faq-raise now id payload s = elim (Option-cases (to_object_id id)) [
    | inl bad ↦ inr (ground arith)
    | inr (k, good) ↦
        let p : Faq → Bool = λ f. faq_id f === k in
        elim (Option-cases (db.find_one p s.docs)) [
          | inl missing ↦ inr (
              ground (
                arith,
                missing,
                good,
                all-update_one p (touch now) s.docs,
                amend_first-none p (touch now) (all s.docs) (sym (find_one_lem p s.docs) ∙ missing),
              ))
          | inr (f, found) ↦ inl (touch now f, ground arith)
        ]
  ]

  abbrev pub FaqDesk : Type 0
  FaqDesk = Kept cache (Shelf db Faq) (List Faq)

  -- What the list is kept as is what it is.
  abbrev pub IsFresh : FaqDesk → Type 0
  IsFresh s =
      (t : ℕ) (v : List Faq) → cache.Holds s.box faq_cache_key t v → v ≡ all_faqs db sorter s.inner

  -- The state after a request.
  unfoldable pub faq_step : {J : Type 0} → ℕ → FaqRequest J → FaqDesk → FaqDesk
  faq_step now list_all s = (list_faqs db sorter cache now s).1
  faq_step now (add p) s = (create_kept_faq db sorter cache p s).1
  faq_step now (change id p) s = (update_kept_faq db sorter cache now id p s).1
  faq_step now (delete id) s = (remove_kept_faq db sorter cache id s).1

  -- Once the key has been dropped, nothing is kept under it.
  settled :
      {A : Type 0} (ks : List String) (a : A) (b : cache.Box (List Faq)) (t : ℕ) (v : List Faq)
      → ¬ cache.Holds (settle cache (faq_cache_key ∷ ks) (ok a) b) faq_cache_key t v
  settled ks a b t v h =
      (cache.Holds-drop_key faq_cache_key b faq_cache_key t v
          (Holds-drop_keys cache ks (cache.drop_key faq_cache_key b) faq_cache_key t v h)).0
        refl

  -- A write that answers drops the key, and one that throws leaves the documents.
  write-IsFresh :
      {A : Type 0} (id : String) (m : Action (Shelf db Faq) A) (s : FaqDesk)
      → IsFresh s
      → ((a : A) × ((m s.inner).0 ≡ ok a)) ⊎ (all (m s.inner).1.docs ≡ all s.inner.docs)
      → IsFresh (write_and_drop cache (faq_cache_key ∷ faq_item_key id ∷ []) m s).1
  unfolding write_and_drop
  write-IsFresh {A} id m s h (inl (a, done)) t v held = absurd (
      settled (faq_item_key id ∷ []) a s.box t v (
        subst
          (λ (r : Result A).
            cache.Holds (settle cache (faq_cache_key ∷ faq_item_key id ∷ []) r s.box) faq_cache_key
              t v)
          done held))
  write-IsFresh id m s h (inr same) t v held =
      h t v (
        Holds-settle cache (faq_cache_key ∷ faq_item_key id ∷ []) (m s.inner).0 s.box faq_cache_key
          t v held)
      ∙ sym (all_faqs_congr (m s.inner).1 s.inner same)

  faq_step-IsFresh :
      {J : Type 0} (now : ℕ) (r : FaqRequest J) (s : FaqDesk)
      → IsFresh s
      → IsFresh (faq_step now r s)
  unfolding faq_step list_faqs create_kept_faq update_kept_faq remove_kept_faq
  faq_step-IsFresh now list_all s h t v held =
      elim (cache.Holds-read now faq_lifetime faq_cache_key (ok (all_faqs db sorter s.inner)) s.box
        faq_cache_key t v held) [ inl before ↦ h t v before | inr (_, new, young) ↦ ground arith ]
  faq_step-IsFresh now (add p) s h t v held = h t v held
  faq_step-IsFresh now (change id p) s h t v held =
      write-IsFresh id (update_faq db now id p) s h (update_faq-raise now id p s.inner) t v held
  faq_step-IsFresh now (delete id) s h t v held =
      write-IsFresh id (remove_faq db id) s h (remove_faq-raise id s.inner) t v held

  unfoldable pub faq_steps : {J : Type 0} → List (FaqCall J) → FaqDesk → FaqDesk
  faq_steps [] s = s
  faq_steps (c ∷ cs) s = faq_steps cs (faq_step c.now c.request s)

  pub faq_steps-IsFresh :
      {J : Type 0} (cs : List (FaqCall J)) (s : FaqDesk) → IsFresh s → IsFresh (faq_steps cs s)
  unfolding faq_steps
  faq_steps-IsFresh [] s h = h
  faq_steps-IsFresh (c ∷ cs) s h =
      faq_steps-IsFresh cs (faq_step c.now c.request s) (faq_step-IsFresh c.now c.request s h)

  -- From a cache that has nothing under the key of the list, after any requests to the FAQs,
  -- the list is answered with the active FAQs of now, in their order.
  pub list_faqs-fresh :
      {J : Type 0} (cs : List (FaqCall J)) (s : FaqDesk) (now : ℕ)
      → ((t : ℕ) (v : List Faq) → ¬ cache.Holds s.box faq_cache_key t v)
      → (list_faqs db sorter cache now (faq_steps cs s)).0
        ≡ ok (all_faqs db sorter (faq_steps cs s).inner)
  unfolding list_faqs
  list_faqs-fresh cs s now empty =
      let t : FaqDesk = faq_steps cs s in
      let fresh : IsFresh t = faq_steps-IsFresh cs s (λ u v held. absurd (empty u v held)) in
      elim (cache.read_answer now faq_lifetime faq_cache_key (ok (all_faqs db sorter t.inner))
        t.box) [
          | inl answered ↦ answered
          | inr (v, answered, held) ↦ answered ∙ ap ok (fresh now v held)
        ]
