-- ===== src/Aid/Single.antt =====
-- One application for a student and a course.
use chain_verse_backend.Base.{
  ℕ, ◌+◌, ◌≤◌, String, ◌≡◌, ◌⊎◌, inl, inr, Bool, true, none, some, List, [], ◌∷◌, arith, first,
  tally, amend_first, drop_first, sym, eq_iff, first-passes, first-eq-none→tally, tally-append,
  tally-drop_first-le, Option-cases, Bool-cases, bit,
}
use mathlib.Core.Path.{subst}
use chain_verse_backend.Aid.{
  AidApplication, AidRepository, AidDesk, CreateFinancialAidDto, UpdateFinancialAidDto,
  new_application, update_fields, apply_for_aid, review_aid, delete_aid,
}
use chain_verse_backend.Aid.Stores.{Contract, has_aid_id, is_aid_for, put_aid}

-- The requests that change applications.
pub data AidRequest : Type 0 where
  apply : ℕ → CreateFinancialAidDto → AidRequest
  review : ℕ → String → UpdateFinancialAidDto → AidRequest
  remove : String → AidRequest

-- No student has two applications for one course.
abbrev pub IsSingle : List AidApplication → Type 0
IsSingle l = (st co : String) → tally (is_aid_for st co) l ≤ 1

-- One application in the place of another: as many for the pair, but for these two.
tally-amend_first-put :
    (p q : AidApplication → Bool) (x : AidApplication) (l : List AidApplication)
    (y : AidApplication)
    → first q l ≡ some y
    → tally p (amend_first q (λ _. x) l) + bit (p y) ≡ tally p l + bit (p x)
tally-amend_first-put p q x [] y f = ground arith
tally-amend_first-put p q x (z ∷ l) y f = elim (Bool-cases (q z)) [
  | inl here ↦ ground arith
  | inr there ↦ ground (arith, tally-amend_first-put p q x l y)
]

-- No application is for the pair, so none is for the pair under other names of it.
tally-none :
    (st co : String) (x : AidApplication) (l : List AidApplication)
    → first (is_aid_for x.student_id x.course_id) l ≡ none
    → is_aid_for st co x ≡ true
    → tally (is_aid_for st co) l ≡ 0
tally-none st co x l f e =
    let student : x.student_id ≡ st = ground (arith, eq_iff x.student_id st) in
    let course : x.course_id ≡ co = ground (arith, eq_iff x.course_id co) in
    rw (← student, ← course) (first-eq-none→tally (is_aid_for x.student_id x.course_id) l f)

put_aid-new :
    (x : AidApplication) (l : List AidApplication)
    → first (is_aid_for x.student_id x.course_id) l ≡ none
    → IsSingle l
    → IsSingle (put_aid x l)
put_aid-new x l f h st co = elim (Option-cases (first (has_aid_id x.id) l)) [
  | inl missing ↦
      ground (arith, h st co, tally-append (is_aid_for st co) l (x ∷ []), tally-none st co x l f)
  | inr (y, held) ↦ ground (
    arith,
    h st co,
    tally-amend_first-put (is_aid_for st co) (has_aid_id x.id) x l y held,
    tally-none st co x l f,
  )
]

pub own_aid_id :
    (id : String) (l : List AidApplication) (x : AidApplication)
    → first (has_aid_id id) l ≡ some x
    → first (has_aid_id x.id) l ≡ some x
own_aid_id id l x f =
    let e : x.id ≡ id = ground (arith, eq_iff x.id id, first-passes (has_aid_id id) l x f) in
    subst (λ k. first (has_aid_id k) l ≡ some x) (sym e) f

put_aid-updated :
    (now : ℕ) (dto : UpdateFinancialAidDto) (x : AidApplication) (l : List AidApplication)
    → first (has_aid_id x.id) l ≡ some x
    → IsSingle l
    → IsSingle (put_aid (update_fields now dto x) l)
put_aid-updated now dto x l f h st co = ground (
  arith,
  h st co,
  tally-amend_first-put (is_aid_for st co) (has_aid_id x.id) (update_fields now dto x) l x f,
)

module _ (repo : AidRepository) (uuid : ℕ → String) (contract : Contract repo) where
  open contract use {
    held, save-ok, held-save, find_by_id_lem, find_by_student_and_course_lem, delete-ok,
    held-delete,
  }

  unfoldable pub serve_aid : AidRequest → AidDesk repo uuid → AidDesk repo uuid
  serve_aid (AidRequest.apply now dto) s = (apply_for_aid repo uuid now dto s).1
  serve_aid (AidRequest.review now id dto) s = (review_aid repo uuid now id dto s).1
  serve_aid (AidRequest.remove id) s = (delete_aid repo uuid id s).1

  unfoldable pub serve_all_aid : List AidRequest → AidDesk repo uuid → AidDesk repo uuid
  serve_all_aid [] s = s
  serve_all_aid (r ∷ rs) s = serve_all_aid rs (serve_aid r s)

  apply_for_aid-held :
      (now : ℕ) (dto : CreateFinancialAidDto) (s : AidDesk repo uuid)
      → first (is_aid_for dto.student_id dto.course_id) (held s.store) ≡ none
      → held (apply_for_aid repo uuid now dto s).1.store
        ≡ put_aid (new_application now (uuid s.drawn) dto) (held s.store)
  unfolding apply_for_aid
  apply_for_aid-held now dto s fresh = ground (
    arith,
    find_by_student_and_course_lem dto.student_id dto.course_id s.store,
    held-save now (new_application now (uuid s.drawn) dto) s.store,
  )

  apply_for_aid-refused :
      (now : ℕ) (dto : CreateFinancialAidDto) (s : AidDesk repo uuid) (x : AidApplication)
      → first (is_aid_for dto.student_id dto.course_id) (held s.store) ≡ some x
      → (apply_for_aid repo uuid now dto s).1 ≡ s
  unfolding apply_for_aid
  apply_for_aid-refused now dto s x there =
      ground (arith, find_by_student_and_course_lem dto.student_id dto.course_id s.store)

  apply_for_aid-IsSingle :
      (now : ℕ) (dto : CreateFinancialAidDto) (s : AidDesk repo uuid)
      → IsSingle (held s.store)
      → IsSingle (held (apply_for_aid repo uuid now dto s).1.store)
  apply_for_aid-IsSingle now dto s h =
      elim (Option-cases (first (is_aid_for dto.student_id dto.course_id) (held s.store))) [
        | inl fresh ↦
            rw (apply_for_aid-held now dto s fresh)
              (put_aid-new (new_application now (uuid s.drawn) dto) (held s.store) fresh h)
        | inr (x, there) ↦ rw (apply_for_aid-refused now dto s x there) h
      ]

  review_aid-missing :
      (now : ℕ) (id : String) (dto : UpdateFinancialAidDto) (s : AidDesk repo uuid)
      → first (has_aid_id id) (held s.store) ≡ none
      → (review_aid repo uuid now id dto s).1 ≡ s
  unfolding review_aid
  review_aid-missing now id dto s missing = ground (arith, find_by_id_lem id s.store)

  review_aid-held :
      (now : ℕ) (id : String) (dto : UpdateFinancialAidDto) (s : AidDesk repo uuid)
      (x : AidApplication)
      → first (has_aid_id id) (held s.store) ≡ some x
      → held (review_aid repo uuid now id dto s).1.store
        ≡ put_aid (update_fields now dto x) (held s.store)
  unfolding review_aid
  review_aid-held now id dto s x there = ground (
    arith,
    find_by_id_lem id s.store,
    save-ok now (update_fields now dto x) s.store,
    held-save now (update_fields now dto x) s.store,
  )

  review_aid-IsSingle :
      (now : ℕ) (id : String) (dto : UpdateFinancialAidDto) (s : AidDesk repo uuid)
      → IsSingle (held s.store)
      → IsSingle (held (review_aid repo uuid now id dto s).1.store)
  review_aid-IsSingle now id dto s h = elim (Option-cases (first (has_aid_id id) (held s.store))) [
    | inl missing ↦ rw (review_aid-missing now id dto s missing) h
    | inr (x, there) ↦
        rw (review_aid-held now id dto s x there)
          (put_aid-updated now dto x (held s.store) (own_aid_id id (held s.store) x there) h)
  ]

  delete_aid_cases :
      (id : String) (s : AidDesk repo uuid)
      → (held (delete_aid repo uuid id s).1.store ≡ held s.store)
        ⊎ (held (delete_aid repo uuid id s).1.store ≡ drop_first (has_aid_id id) (held s.store))
  unfolding delete_aid
  delete_aid_cases id s =
      ground (arith, find_by_id_lem id s.store, delete-ok id s.store, held-delete id s.store)

  delete_aid-IsSingle :
      (id : String) (s : AidDesk repo uuid)
      → IsSingle (held s.store)
      → IsSingle (held (delete_aid repo uuid id s).1.store)
  delete_aid-IsSingle id s h st co = elim (delete_aid_cases id s) [
    | inl same ↦ rw same (h st co)
    | inr gone ↦ rw gone (
        omega
          (arith, h st co, tally-drop_first-le (is_aid_for st co) (has_aid_id id) (held s.store)))
  ]

  serve_aid-IsSingle :
      (r : AidRequest) (s : AidDesk repo uuid)
      → IsSingle (held s.store)
      → IsSingle (held (serve_aid r s).store)
  unfolding serve_aid
  serve_aid-IsSingle (AidRequest.apply now dto) s h = apply_for_aid-IsSingle now dto s h
  serve_aid-IsSingle (AidRequest.review now id dto) s h = review_aid-IsSingle now id dto s h
  serve_aid-IsSingle (AidRequest.remove id) s h = delete_aid-IsSingle id s h

  -- With a repository that keeps the contract, any sequence of applications, reviews and
  -- deletions keeps it so that no student has two applications for one course.
  pub serve_all_aid-IsSingle :
      (rs : List AidRequest) (s : AidDesk repo uuid)
      → IsSingle (held s.store)
      → IsSingle (held (serve_all_aid rs s).store)
  unfolding serve_all_aid
  serve_all_aid-IsSingle [] s h = h
  serve_all_aid-IsSingle (r ∷ rs) s h =
      serve_all_aid-IsSingle rs (serve_aid r s) (serve_aid-IsSingle r s h)
