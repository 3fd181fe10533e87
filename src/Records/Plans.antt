-- ===== src/Records/Plans.antt =====
-- `SubscriptionPlanService` of src/subscription-plan.
use mathlib.Core.Option.{get_or}
use chain_verse_backend.Base.{
  ℕ, String, Bool, true, false, ◌||◌, Option, none, some, List, is_blank,
}
use chain_verse_backend.Http.{Action, throw_if, gets, ◌>>◌, plain_error}
use chain_verse_backend.Mongo.{Mongo}
use chain_verse_backend.Documents.{Shelf, add_doc, load_doc, amend_doc, erase_doc}

pub record CreatePlan : Type 0 where
  pub name : String
  pub description : String
  pub price : ℕ
  pub duration : ℕ
  pub features : List String

pub record UpdatePlan : Type 0 where
  pub name : Option String
  pub description : Option String
  pub price : Option ℕ
  pub duration : Option ℕ
  pub features : Option (List String)
  pub is_active : Option Bool

pub record SubscriptionPlan : Type 0 where
  pub id : String
  pub name : String
  pub description : String
  pub price : ℕ
  pub duration : ℕ
  pub features : List String
  pub is_active : Bool
  pub deleted_at : Option ℕ

abbrev pub plan_id : SubscriptionPlan → String
plan_id d = d.id

-- What the hooks of soft deletion let a query see.
abbrev pub is_seen_plan : SubscriptionPlan → Bool
is_seen_plan d = elim d.deleted_at [ none ↦ true | some _ ↦ false ]

abbrev pub put_plan : UpdatePlan → SubscriptionPlan → SubscriptionPlan
put_plan payload d = record d {
  name = get_or payload.name d.name;
  description = get_or payload.description d.description;
  price = get_or payload.price d.price;
  duration = get_or payload.duration d.duration;
  features = get_or payload.features d.features;
  is_active = get_or payload.is_active d.is_active;
}

abbrev pub no_plan : String
no_plan = "Subscription plan not found"

module _ (db : Mongo) where
  -- A text that is required may not be empty.
  unfoldable pub create_plan : CreatePlan → Action (Shelf db SubscriptionPlan) SubscriptionPlan
  unfolding add_doc
  create_plan payload = do
    throw_if (is_blank payload.description || is_blank payload.name)
        (plain_error "SubscriptionPlan validation failed")
    add_doc db (λ id. record {
      id = id;
      name = payload.name;
      description = payload.description;
      price = payload.price;
      duration = payload.duration;
      features = payload.features;
      is_active = true;
      deleted_at = none;
    })

  unfoldable pub find_plans : Action (Shelf db SubscriptionPlan) (List SubscriptionPlan)
  find_plans = gets (λ s. db.find is_seen_plan s.docs)

  unfoldable pub find_plan : String → Action (Shelf db SubscriptionPlan) SubscriptionPlan
  unfolding load_doc
  find_plan id = load_doc db plan_id no_plan is_seen_plan id

  unfoldable pub update_plan :
      String → UpdatePlan → Action (Shelf db SubscriptionPlan) SubscriptionPlan
  unfolding amend_doc
  update_plan id payload = amend_doc db plan_id no_plan id (put_plan payload)

  unfoldable pub remove_plan : String → Action (Shelf db SubscriptionPlan) String
  unfolding erase_doc
  remove_plan id = erase_doc db plan_id no_plan id
