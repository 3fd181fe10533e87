-- ===== src/Notifications/Pages.antt =====
-- The pages of a user's notifications.
use chain_verse_backend.Base.{
  ℕ, zero, suc, ◌-◌, ◌*◌, ◌≤◌, ◌<◌, String, ◌≡◌, refl, sym, ap, ◌∙◌, ◌⊎◌, inl, inr, Bool, ◌&&◌,
  List, [], ◌∷◌, arith, select, take, drop, length, leb, tally, tally-select, length-select,
  if◌then◌else◌,
}
use chain_verse_backend.Http.{ok}
use chain_verse_backend.Mongo.{Mongo, window}
use chain_verse_backend.Paging.{Page}
use chain_verse_backend.Notifications.{Notification, Inbox, is_note_of, safe_limit, find_by_user_id}

abbrev pub least : ℕ → ℕ → ℕ
least m n = if leb m n then m else n

length-drop : {A : Type 0} (n : ℕ) (l : List A) → length (drop n l) ≡ length l - n
length-drop zero l = omega arith
length-drop (suc n) [] = omega arith
length-drop (suc n) (x ∷ l) = omega (arith, length-drop n l)

length-take-least : {A : Type 0} (m : ℕ) (l : List A) → length (take m l) ≡ least m (length l)
length-take-least zero l = ground arith
length-take-least (suc m) [] = ground arith
length-take-least (suc m) (x ∷ l) = ground (arith, length-take-least m l)

length-window :
    {A : Type 0} (n m : ℕ) (l : List A) → 0 < m → length (window n m l) ≡ least m (length l - n)
length-window n zero l h = absurd (omega arith)
length-window n (suc m) l h =
    length-take-least (suc m) (drop n l) ∙ ap (least (suc m)) (length-drop n l)

window-whole : {A : Type 0} (p m : ℕ) (l : List A) → m ≡ 0 → length (window (p * m) m l) ≡ length l
window-whole p zero l h = length-drop (p * 0) l ∙ omega arith
window-whole p (suc m) l h = absurd (omega arith)

zero_or_pos : (n : ℕ) → (n ≡ 0) ⊎ (0 < n)
zero_or_pos zero = inl refl
zero_or_pos (suc n) = inr (omega arith)

module _ (db : Mongo) where
  open db use {all, length-find_window, tally-find_window, count_lem}

  -- What an answer is read from.
  page-eq :
      (u : String) (p n : ℕ) (s : Inbox db) (r : Page Notification)
      → (find_by_user_id db u p n s).0 ≡ ok r
      → (r.items ≡ db.find_window (is_note_of u) ((p - 1) * safe_limit n) (safe_limit n) s.docs)
        × (r.total ≡ tally (is_note_of u) (all s.docs))
        × (r.limit ≡ safe_limit n)
  unfolding find_by_user_id
  page-eq u p n s r h =
      (ground arith, ground (arith, count_lem (is_note_of u) s.docs), ground arith)

  -- An answer of `find_by_user_id` has as its total the number of the user's notifications and
  -- as its limit the one asked for, but at most 50. It holds only notifications of the user, none
  -- more often than the collection does; for a limit that is not 0 exactly as many as the pages
  -- before leave, up to the limit, and for a limit of 0 all of them.
  pub find_by_user_id-ok :
      (u : String) (p n : ℕ) (s : Inbox db) (r : Page Notification)
      → (find_by_user_id db u p n s).0 ≡ ok r
      → (r.total ≡ tally (is_note_of u) (all s.docs))
        × (r.limit ≡ least n 50)
        × ((q : Notification → Bool)
            → tally q r.items ≤ tally (λ x. is_note_of u x && q x) (all s.docs))
        × (((n ≡ 0) × (length r.items ≡ r.total))
            ⊎ ((0 < n) × (length r.items ≡ least r.limit (r.total - (p - 1) * r.limit))))
  find_by_user_id-ok u p n s r h =
      let (items, total, limit) = page-eq u p n s r h in
      let m : ℕ = safe_limit n in
      let k : ℕ = (p - 1) * m in
      let l : List Notification = select (is_note_of u) (all s.docs) in
      let size : length r.items ≡ length (window k m l) =
        ap length items ∙ length-find_window (is_note_of u) k m s.docs in
      let all_of : length l ≡ r.total = length-select (is_note_of u) (all s.docs) ∙ sym total in
      (
        total,
        limit,
        λ q.
            rw (items, ← tally-select (is_note_of u) q (all s.docs))
              (tally-find_window (is_note_of u) q k m s.docs),
        elim (zero_or_pos n) [
          | inl none_asked ↦
              inl (none_asked, size ∙ window-whole (p - 1) m l (ground arith) ∙ all_of)
          | inr asked ↦ inr (
            asked,
            size
                ∙ length-window k m l (ground arith)
                ∙ ap (λ (t : ℕ). least m (t - k)) all_of
                ∙ ap (λ (w : ℕ). least w (r.total - (p - 1) * w)) (sym limit),
          )
        ],
      )
