-- ===== src/Tests/Aids.antt =====
-- Financial aid with the repository in memory, and with that of the database.
use chain_verse_backend.Base.{ℕ, String, ◌≡◌, refl, none, some, List, [], ◌∷◌, arith}
use chain_verse_backend.Http.{ok}
use chain_verse_backend.Mongo.Memory.{memory, run_of}
use chain_verse_backend.Aid.{
  AidApplication, AidDesk, CreateFinancialAidDto, UpdateFinancialAidDto, update_fields, review_aid,
}
use chain_verse_backend.Aid.Stores.{in_memory, in_memory_contract, mongoose}
use chain_verse_backend.Aid.Single.{AidRequest, IsSingle, serve_all_aid, serve_all_aid-IsSingle}

abbrev plea : CreateFinancialAidDto
plea = record { student_id = "s"; course_id = "c"; reason = "R" }

abbrev approve : UpdateFinancialAidDto
approve = record { reason = none; status = some "approved" }

abbrev reopen : UpdateFinancialAidDto
reopen = record { reason = none; status = some "pending" }

abbrev requests : List AidRequest
requests = AidRequest.apply 0 plea ∷ AidRequest.apply 1 plea ∷ AidRequest.review 2 "" approve ∷ []

abbrev empty_desk : AidDesk in_memory run_of
empty_desk = record { store = []; events = []; drawn = 0 }

serve_all_aid-IsSingle_example :
    IsSingle (serve_all_aid in_memory run_of in_memory_contract requests empty_desk).store
serve_all_aid-IsSingle_example =
    serve_all_aid-IsSingle in_memory run_of in_memory_contract requests empty_desk
      (λ st co. omega arith)

abbrev application : AidApplication
application = record {
  id = "a";
  student_id = "s";
  course_id = "c";
  reason = "R";
  status = "pending";
  created_at = 0;
  updated_at = 0;
}

abbrev desk : AidDesk in_memory run_of
desk = record { store = application ∷ []; events = []; drawn = 1 }

abbrev approved : AidApplication
approved = update_fields 5 approve application

reviewed : (review_aid in_memory run_of 5 "a" approve desk).0 ≡ ok approved
unfolding review_aid
reviewed = refl

abbrev once : AidDesk in_memory run_of
once = (review_aid in_memory run_of 5 "a" approve desk).1

abbrev open_again : AidDesk in_memory run_of
open_again = (review_aid in_memory run_of 6 "a" reopen once).1

abbrev draft : ℕ → String
draft n = ""

abbrev cabinet : AidDesk (mongoose memory) draft
cabinet = record { store = record { docs = []; minted = 0 }; events = []; drawn = 0 }
