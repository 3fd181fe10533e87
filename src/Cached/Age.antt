-- ===== src/Cached/Age.antt =====
-- The list of a board stays as it was kept, whatever is written: no write drops the key that the list
-- is kept under.
use Prim.Native.Char.{code}
use Prim.Native.String.{◌++◌ as text_append}
use mathlib.Core.Path.{subst}
use text.Mathlib.TextLemmas.{cons-append}
use chain_verse_backend.Base.{
  ℕ, suc, ◌<◌, arith, ◌≡◌, ◌≢◌, ◌⊎◌, refl, ap, ◌∙◌, sym, inl, inr, String, List, [], ◌∷◌,
}
use chain_verse_backend.Http.{Action, Result, ok, raise}
use chain_verse_backend.Registries.{
  Ids, Entry, CreateEntry, UpdateEntry, create_item, update_item, remove_item,
}
use chain_verse_backend.Cached.{Cache, Kept, drop_keys, settle, write_and_drop}
use chain_verse_backend.Cached.Boards.{
  Board, Shown, leaderboard, course_categories, privacy_policies, item_key, list_board,
  create_on_board, update_on_board, remove_from_board,
}

pub data BoardWrite (J : Type 0) : Type 0 where
  add : CreateEntry J → BoardWrite J
  change : String → UpdateEntry J → BoardWrite J
  delete : String → BoardWrite J

-- The code of the first letter.
head_code : String → ℕ
head_code String.[] = 0
head_code (String.◌∷◌ c s) = code c

module _ (cache : Cache) where
  open cache use {Box, Holds, Holds-drop_key_other}

  -- The key is none of these.
  abbrev pub IsOther : String → List String → Type 0
  IsOther q [] = Unit
  IsOther q (k ∷ ks) = (k ≢ q) × IsOther q ks

  Holds-drop_others :
      {V : Type 0} (ks : List String) (b : Box V) (q : String) (t : ℕ) (v : V)
      → IsOther q ks
      → Holds b q t v
      → Holds (drop_keys cache ks b) q t v
  Holds-drop_others [] b q t v other h = h
  Holds-drop_others (k ∷ ks) b q t v other h =
      Holds-drop_others ks (cache.drop_key k b) q t v other.1
        (Holds-drop_key_other k b q t v other.0 h)

  Holds-settle_others :
      {V A : Type 0} (ks : List String) (r : Result A) (b : Box V) (q : String) (t : ℕ) (v : V)
      → IsOther q ks
      → Holds b q t v
      → Holds (settle cache ks r b) q t v
  Holds-settle_others ks (raise e) b q t v other h = h
  Holds-settle_others ks (ok a) b q t v other h = Holds-drop_others ks b q t v other h

  Holds-write_others :
      {S V A : Type 0} (ks : List String) (m : Action S A) (s : Kept cache S V) (q : String) (t : ℕ)
      (v : V)
      → IsOther q ks
      → Holds s.box q t v
      → Holds (write_and_drop cache ks m s).1.box q t v
  unfolding write_and_drop
  Holds-write_others ks m s q t v other h = Holds-settle_others ks (m s.inner).0 s.box q t v other h

-- One of the three boards of the program.
abbrev pub IsShipped : Board → Type 0
IsShipped at = (at ≡ leaderboard) ⊎ ((at ≡ course_categories) ⊎ (at ≡ privacy_policies))

-- The keys that are dropped begin with a slash, and the key of the list with a letter.
HasOtherKeys : Board → Type 0
HasOtherKeys at = (at.dropped_key ≢ at.list_key) × ((id : String) → item_key at id ≢ at.list_key)

head_code-append :
    (x y : String) (n : ℕ) → head_code x ≡ suc n → head_code (text_append x y) ≡ suc n
unfolding head_code
head_code-append String.[] y n h = cc
head_code-append (String.◌∷◌ c x) y n h = ap head_code (cons-append c x y) ∙ h

-- 47 is the code of a slash.
slashed :
    (at : Board) (m : ℕ)
    → head_code at.dropped_key ≡ 47
    → head_code at.list_key ≡ m
    → 47 < m
    → HasOtherKeys at
unfolding HasOtherKeys
slashed at m h k other = (
  λ e. let d : 47 ≡ m = sym h ∙ ap head_code e ∙ k in omega arith,
  λ id e.
      let d : 47 ≡ m =
        sym (head_code-append at.dropped_key (text_append "/" id) 46 h) ∙ ap head_code e ∙ k in
      omega arith,
)

leaderboard-HasOtherKeys : HasOtherKeys leaderboard
unfolding head_code
leaderboard-HasOtherKeys = slashed leaderboard 108 refl refl (omega arith)

course_categories-HasOtherKeys : HasOtherKeys course_categories
unfolding head_code
course_categories-HasOtherKeys = slashed course_categories 99 refl refl (omega arith)

privacy_policies-HasOtherKeys : HasOtherKeys privacy_policies
unfolding head_code
privacy_policies-HasOtherKeys = slashed privacy_policies 112 refl refl (omega arith)

shipped-HasOtherKeys : (at : Board) → IsShipped at → HasOtherKeys at
shipped-HasOtherKeys at (inl e) = subst HasOtherKeys (sym e) leaderboard-HasOtherKeys
shipped-HasOtherKeys at (inr (inl e)) = subst HasOtherKeys (sym e) course_categories-HasOtherKeys
shipped-HasOtherKeys at (inr (inr e)) = subst HasOtherKeys (sym e) privacy_policies-HasOtherKeys

module _ {J : Type 0} (cache : Cache) (ids : Ids) (at : Board) where
  -- The state after a write.
  unfoldable pub board_write : BoardWrite J → Shown cache J → Shown cache J
  board_write (add p) s = (create_on_board cache ids at p s).1
  board_write (change id p) s = (update_on_board cache ids at id p s).1
  board_write (delete id) s = (remove_from_board cache ids at id s).1

  unfoldable pub board_writes : List (BoardWrite J) → Shown cache J → Shown cache J
  board_writes [] s = s
  board_writes (w ∷ ws) s = board_writes ws (board_write w s)

  board_write-Holds :
      (w : BoardWrite J) (s : Shown cache J) (t : ℕ) (v : List (Entry J))
      → HasOtherKeys at
      → cache.Holds s.box at.list_key t v
      → cache.Holds (board_write w s).box at.list_key t v
  unfolding board_write create_on_board update_on_board remove_from_board HasOtherKeys
  board_write-Holds (add p) s t v other h =
      Holds-write_others cache (at.dropped_key ∷ []) (create_item ids p) s at.list_key t v
        (other.0, tt) h
  board_write-Holds (change id p) s t v other h =
      Holds-write_others cache (at.dropped_key ∷ item_key at id ∷ []) (update_item at.message id p)
        s at.list_key t v (other.0, (other.1 id, tt)) h
  board_write-Holds (delete id) s t v other h =
      Holds-write_others cache (at.dropped_key ∷ item_key at id ∷ []) (remove_item at.message id) s
        at.list_key t v (other.0, (other.1 id, tt)) h

  board_writes-Holds :
      (ws : List (BoardWrite J)) (s : Shown cache J) (t : ℕ) (v : List (Entry J))
      → HasOtherKeys at
      → cache.Holds s.box at.list_key t v
      → cache.Holds (board_writes ws s).box at.list_key t v
  unfolding board_writes
  board_writes-Holds [] s t v other h = h
  board_writes-Holds (w ∷ ws) s t v other h =
      board_writes-Holds ws (board_write w s) t v other (board_write-Holds w s t v other h)

  -- For each of the three boards: while the cache holds a list for it, the board is answered with
  -- that list, whatever is added to it, changed in it or removed from it in between.
  pub list_board-stale :
      (ws : List (BoardWrite J)) (s : Shown cache J) (now : ℕ) (v : List (Entry J))
      → IsShipped at
      → cache.Holds s.box at.list_key now v
      → (list_board cache ids at now (board_writes ws s)).0 ≡ ok v
  unfolding list_board
  list_board-stale ws s now v shipped h =
      cache.read-Holds now at.lifetime at.list_key _ (board_writes ws s).box v
        (board_writes-Holds ws s now v (shipped-HasOtherKeys at shipped) h)
