-- ===== src/Points.antt =====
-- `PointsService` of src/points/points.service.ts.
use mathlib.Core.Option.{get_or}
use chain_verse_backend.Base.{
  ℕ, String, Bool, true, false, ◌&&◌, Option, none, some, List, [], ◌∷◌, ◌===◌,
}
use chain_verse_backend.Base.Int.{ℤ, pos, ◌+ℤ◌}
use chain_verse_backend.Http.{Action, gets, pure, ◌>>=◌}
use chain_verse_backend.Mongo.{Mongo}
use chain_verse_backend.Documents.{Shelf, add_doc, load_doc, amend_doc, erase_doc}

pub record PointsRecord : Type 0 where
  pub id : String
  pub user_id : String
  pub points : ℤ
  pub reason : String
  pub activity_type : String
  pub metadata : List (String × String)
  pub deleted_at : Option ℕ

-- `CreatePointsDto` and `UpdatePointsDto`
pub record CreatePoints : Type 0 where
  pub user_id : String
  pub points : ℤ
  pub reason : String
  pub activity_type : String
  pub metadata : List (String × String)

pub record UpdatePoints : Type 0 where
  pub points : Option ℤ
  pub reason : Option String
  pub activity_type : Option String
  pub metadata : Option (List (String × String))

pub record PointsSummary : Type 0 where
  pub user_id : String
  pub total_points : ℤ
  pub records : List PointsRecord

-- What the hooks of soft deletion let a query see.
abbrev pub is_kept : PointsRecord → Bool
is_kept r = elim r.deleted_at [ none ↦ true | some _ ↦ false ]

abbrev pub earns : String → PointsRecord → Bool
earns u r = r.user_id === u && is_kept r

abbrev pub sum_points : List PointsRecord → ℤ
sum_points [] = pos 0
sum_points (r ∷ l) = r.points +ℤ sum_points l

abbrev pub put_points : UpdatePoints → PointsRecord → PointsRecord
put_points d r = record r {
  points = get_or d.points r.points;
  reason = get_or d.reason r.reason;
  activity_type = get_or d.activity_type r.activity_type;
  metadata = get_or d.metadata r.metadata;
}

abbrev points_id : PointsRecord → String
points_id r = r.id

abbrev no_points : String
no_points = "Points record not found"

module _ (db : Mongo) where
  open db use {find}

  abbrev pub Book : Type 0
  Book = Shelf db PointsRecord

  unfoldable pub award_points : CreatePoints → Action Book PointsRecord
  unfolding add_doc
  award_points d = add_doc db (λ id. record {
    id = id;
    user_id = d.user_id;
    points = d.points;
    reason = d.reason;
    activity_type = d.activity_type;
    metadata = d.metadata;
    deleted_at = none;
  })

  unfoldable pub find_all_points : Action Book (List PointsRecord)
  find_all_points = gets (λ s. find is_kept s.docs)

  unfoldable pub find_points : String → Action Book PointsRecord
  unfolding load_doc
  find_points id = load_doc db points_id no_points is_kept id

  unfoldable pub get_user_points : String → Action Book PointsSummary
  get_user_points user_id = do
    records ← gets (λ s. find (earns user_id) s.docs)
    pure (record { user_id = user_id; total_points = sum_points records; records = records })

  unfoldable pub update_points : String → UpdatePoints → Action Book PointsRecord
  unfolding amend_doc
  update_points id d = amend_doc db points_id no_points id (put_points d)

  unfoldable pub remove_points : String → Action Book String
  unfolding erase_doc
  remove_points id = erase_doc db points_id no_points id
