-- ===== src/Records/Offers.antt =====
-- `BadgeService` of src/badge and `OrganizationService` of src/organization.
use mathlib.Core.Option.{get_or}
use chain_verse_backend.Base.{
  ℕ, String, Bool, true, false, ◌&&◌, Option, none, some, List, ◌===◌, is_blank,
}
use chain_verse_backend.Http.{Action, throw_if, gets, ◌>>◌, plain_error}
use chain_verse_backend.Mongo.{Mongo}
use chain_verse_backend.Documents.{Shelf, add_doc, load_doc, amend_doc, erase_doc}
use chain_verse_backend.CourseForms.{or_else}

pub record CreateBadge (J : Type 0) : Type 0 where
  pub name : String
  pub description : Option String
  pub image_url : Option String
  pub nft_token_id : Option String
  pub criteria : Option String
  pub metadata : Option J

pub record UpdateBadge (J : Type 0) : Type 0 where
  pub name : Option String
  pub description : Option String
  pub image_url : Option String
  pub nft_token_id : Option String
  pub criteria : Option String
  pub metadata : Option J

pub record Badge (J : Type 0) : Type 0 where
  pub id : String
  pub name : String
  pub description : Option String
  pub image_url : Option String
  pub nft_token_id : Option String
  pub criteria : Option String
  pub metadata : Option J
  pub deleted_at : Option ℕ

module _ {J : Type 0} where
  abbrev pub badge_id : Badge J → String
  badge_id d = d.id

  -- What the hooks of soft deletion let a query see.
  abbrev pub is_seen_badge : Badge J → Bool
  is_seen_badge d = elim d.deleted_at [ none ↦ true | some _ ↦ false ]

  abbrev pub put_badge : UpdateBadge J → Badge J → Badge J
  put_badge payload d = record d {
    name = get_or payload.name d.name;
    description = or_else payload.description d.description;
    image_url = or_else payload.image_url d.image_url;
    nft_token_id = or_else payload.nft_token_id d.nft_token_id;
    criteria = or_else payload.criteria d.criteria;
    metadata = or_else payload.metadata d.metadata;
  }

abbrev pub has_token : {J : Type 0} → String → Badge J → Bool
has_token token d = elim d.nft_token_id [ none ↦ false | some t ↦ t === token ]

abbrev pub no_badge : String
no_badge = "Badge not found"

module _ (db : Mongo) {J : Type 0} where
  -- A text that is required may not be empty.
  unfoldable pub create_badge : CreateBadge J → Action (Shelf db (Badge J)) (Badge J)
  unfolding add_doc
  create_badge payload = do
    throw_if (is_blank payload.name) (plain_error "Badge validation failed")
    add_doc db (λ id. record {
      id = id;
      name = payload.name;
      description = payload.description;
      image_url = payload.image_url;
      nft_token_id = payload.nft_token_id;
      criteria = payload.criteria;
      metadata = payload.metadata;
      deleted_at = none;
    })

  unfoldable pub find_badges : Action (Shelf db (Badge J)) (List (Badge J))
  find_badges = gets (λ s. db.find is_seen_badge s.docs)

  unfoldable pub find_by_nft_token_id : String → Action (Shelf db (Badge J)) (Option (Badge J))
  find_by_nft_token_id token =
      gets (λ s. db.find_one (λ d. has_token token d && is_seen_badge d) s.docs)

  unfoldable pub find_badge : String → Action (Shelf db (Badge J)) (Badge J)
  unfolding load_doc
  find_badge id = load_doc db badge_id no_badge is_seen_badge id

  unfoldable pub update_badge : String → UpdateBadge J → Action (Shelf db (Badge J)) (Badge J)
  unfolding amend_doc
  update_badge id payload = amend_doc db badge_id no_badge id (put_badge payload)

  unfoldable pub remove_badge : String → Action (Shelf db (Badge J)) String
  unfolding erase_doc
  remove_badge id = erase_doc db badge_id no_badge id

pub record CreateOrganization (J : Type 0) : Type 0 where
  pub name : String
  pub description : Option String
  pub website : Option String
  pub logo_url : Option String
  pub metadata : Option J

pub record UpdateOrganization (J : Type 0) : Type 0 where
  pub name : Option String
  pub description : Option String
  pub website : Option String
  pub logo_url : Option String
  pub metadata : Option J

pub record Organization (J : Type 0) : Type 0 where
  pub id : String
  pub name : String
  pub description : Option String
  pub website : Option String
  pub logo_url : Option String
  pub metadata : Option J

module _ {J : Type 0} where
  abbrev pub organization_id : Organization J → String
  organization_id d = d.id

  abbrev pub is_seen_organization : Organization J → Bool
  is_seen_organization d = true

  abbrev pub put_organization : UpdateOrganization J → Organization J → Organization J
  put_organization payload d = record d {
    name = get_or payload.name d.name;
    description = or_else payload.description d.description;
    website = or_else payload.website d.website;
    logo_url = or_else payload.logo_url d.logo_url;
    metadata = or_else payload.metadata d.metadata;
  }

abbrev pub no_organization : String
no_organization = "Organization not found"

module _ (db : Mongo) {J : Type 0} where
  -- A text that is required may not be empty.
  unfoldable pub create_organization :
      CreateOrganization J → Action (Shelf db (Organization J)) (Organization J)
  unfolding add_doc
  create_organization payload = do
    throw_if (is_blank payload.name) (plain_error "Organization validation failed")
    add_doc db (λ id. record {
      id = id;
      name = payload.name;
      description = payload.description;
      website = payload.website;
      logo_url = payload.logo_url;
      metadata = payload.metadata;
    })

  unfoldable pub find_organizations : Action (Shelf db (Organization J)) (List (Organization J))
  find_organizations = gets (λ s. db.find is_seen_organization s.docs)

  unfoldable pub find_organization : String → Action (Shelf db (Organization J)) (Organization J)
  unfolding load_doc
  find_organization id = load_doc db organization_id no_organization is_seen_organization id

  unfoldable pub update_organization :
      String → UpdateOrganization J → Action (Shelf db (Organization J)) (Organization J)
  unfolding amend_doc
  update_organization id payload =
      amend_doc db organization_id no_organization id (put_organization payload)

  unfoldable pub remove_organization : String → Action (Shelf db (Organization J)) String
  unfolding erase_doc
  remove_organization id = erase_doc db organization_id no_organization id
