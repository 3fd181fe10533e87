-- ===== src/Tests/Carts.antt =====
-- The cart on the small shop.
use chain_verse_backend.Base.{◌≡◌, refl, arith, eq_iff, some, List, [], ◌∷◌}
use chain_verse_backend.Http.{ok}
use chain_verse_backend.Mongo.Memory.{memory}
use chain_verse_backend.Cart.{clear_cart}
use chain_verse_backend.Cart.Counts.{IsCounted}
use chain_verse_backend.Cart.Runs.{
  CartRequest, add_to_cart, remove_from_cart, empty_cart, change_in_cart, serve_carts,
  serve_carts-IsCounted,
}
use chain_verse_backend.Tests.Fixtures.{shop}

pub shop-IsCounted : IsCounted memory shop
shop-IsCounted = record {
  named = (refl, tt);
  counted = λ k c f. ground (arith, eq_iff "a" k, eq_iff "aa" k);
}

abbrev cart_requests : List CartRequest
cart_requests =
    add_to_cart "a" "aa"
    ∷ change_in_cart "a" "aa" (some 2)
    ∷ remove_from_cart "a" "a"
    ∷ add_to_cart "aa" "a"
    ∷ empty_cart "a"
    ∷ []

serve_carts-IsCounted_example :
    IsCounted memory (serve_carts memory cart_requests shop)
    × ((clear_cart memory "aa" (serve_carts memory cart_requests shop)).0 ≡ ok "aa")
serve_carts-IsCounted_example = serve_carts-IsCounted memory cart_requests shop "aa" shop-IsCounted
