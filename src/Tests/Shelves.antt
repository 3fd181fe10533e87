-- ===== src/Tests/Shelves.antt =====
-- Registries and cached lists on concrete requests.
use Prim.Native.Char.{code}
use chain_verse_backend.Base.{
  ℕ, suc, ◌≤◌, ◌≡◌, String, refl, none, some, true, false, List, [], ◌∷◌, ◌++◌, Bool, ltb, length,
  tally, inl,
}
use chain_verse_backend.Http.{Failure, ok, raise}
use chain_verse_backend.Mongo.Memory.{memory, run_of, run_of-injective, suc_of}
use chain_verse_backend.Sorting.Insertion.{by_insertion}
use chain_verse_backend.Registries.{
  Ids, CreateEntry, UpdateEntry, Entry, Registry, add_item, show_item, list_items, serve_item,
}
use chain_verse_backend.Registries.Stores.{contact_messages_routes}
use chain_verse_backend.Registries.Growth
use chain_verse_backend.Registries.Growth.{
  HasUuids, adds_by, serve_calls, serve_item-by_id, serve_calls-HasUuids,
}
use chain_verse_backend.Cached.Slots.{slots}
use chain_verse_backend.Cached.Boards.{Shown, leaderboard, list_board, create_on_board}
use chain_verse_backend.Cached.Age
use chain_verse_backend.Cached.Age.{list_board-stale}
use chain_verse_backend.Cached.Faqs.{Faq, all_faqs, list_faqs}
use chain_verse_backend.Cached.Fresh
use chain_verse_backend.Cached.Fresh.{list_faqs-fresh}
use chain_verse_backend.Tests.Teachers.{services}

-- Object ids that start with a digit.
abbrev is_numbered : String → Bool
is_numbered String.[] = false
is_numbered (String.◌∷◌ c s) = ltb (code c) 58

abbrev ids : Ids
ids = record {
  uuid = λ n. run_of (suc n);
  is_valid_object_id = is_numbered;
  uuid-not_valid = λ n. refl;
  uuid-injective = λ m n e. suc_of (run_of-injective (suc m) (suc n) e);
}

abbrev message : CreateEntry ℕ
message = record { title = "Hello"; description = none; metadata = none }

abbrev kept_message : Entry ℕ
kept_message = record { id = "a"; title = some "Hello"; description = none; metadata = none }

abbrev letters : Registry ℕ
letters = record { items = kept_message ∷ []; drawn = 1 }

abbrev not_there : String
not_there = "ContactMessage item not found"

serve_item-by_id_example :
    (e : Failure) × (serve_item ids services contact_messages_routes not_there 0 none
        (show_item "a")
        letters
      ≡ (raise e, letters))
serve_item-by_id_example =
    serve_item-by_id ids services contact_messages_routes not_there 0 none (show_item "a") letters
      (refl, tt) refl

abbrev letter_calls : List (Growth.ItemCall ℕ)
letter_calls =
    record { now = 0; header = none; request = add_item message }
    ∷ record { now = 1; header = none; request = list_items }
    ∷ []

serve_calls-HasUuids_example :
    (new : List (Entry ℕ)) × ((serve_calls ids services contact_messages_routes not_there
        letter_calls letters).items
      ≡ letters.items ++ new)
    × (length new ≤ tally adds_by letter_calls)
    × HasUuids ids services
        (serve_calls ids services contact_messages_routes not_there letter_calls letters)
serve_calls-HasUuids_example =
    serve_calls-HasUuids ids services contact_messages_routes not_there letter_calls letters
      (refl, tt)

abbrev ranking : Shown slots ℕ
ranking = record { inner = letters; box = [] }

-- The list is asked for, and then grows.
abbrev listed : Shown slots ℕ
listed = (list_board slots ids leaderboard 0 ranking).1

list_board-stale_example :
    (list_board slots ids leaderboard 2
      (Age.board_writes slots ids leaderboard (Age.add message ∷ []) listed)).0
    ≡ ok letters.items
unfolding list_board
list_board-stale_example =
    list_board-stale slots ids leaderboard (Age.add message ∷ []) listed 2 letters.items (inl refl)
      refl

grown :
    length (Age.board_writes slots ids leaderboard (Age.add message ∷ []) listed).inner.items ≡ 2
unfolding Age.board_writes Age.board_write create_on_board list_board
grown = refl

abbrev question : Faq
question = record {
  id = "a";
  question = "?";
  answer = "!";
  is_active = true;
  order = 0;
  created_at = 0;
  updated_at = 0;
}

abbrev help : Fresh.FaqDesk memory by_insertion slots
help = record { inner = record { docs = question ∷ []; minted = 1 }; box = [] }

abbrev no_change : UpdateEntry ℕ
no_change = record { title = none; description = none; metadata = none }

abbrev faq_calls : List (Fresh.FaqCall ℕ)
faq_calls =
    record { now = 0; request = Fresh.list_all }
    ∷ record { now = 1; request = Fresh.change "a" no_change }
    ∷ record { now = 1; request = Fresh.list_all }
    ∷ record { now = 2; request = Fresh.delete "a" }
    ∷ []

list_faqs-fresh_example :
    (list_faqs memory by_insertion slots 2
      (Fresh.faq_steps memory by_insertion slots faq_calls help)).0
    ≡ ok (
        all_faqs memory by_insertion
          (Fresh.faq_steps memory by_insertion slots faq_calls help).inner)
list_faqs-fresh_example =
    list_faqs-fresh memory by_insertion slots faq_calls help 2 (λ t v held. cc)
