-- ===== src/Conversation/Products.antt =====
-- app/conversation/alpilab_check_context.py: the hits of the last product search, and the one that is
-- selected.
pub mod Messages
pub mod Details
use alpilab_ai.Base.{
  ℕ, String, Bool, true, false, Option, none, some, List, [], ◌∷◌, ◌==◌, not, ◌&&◌, if◌then◌else◌,
  ltb,
}
use Prim.Native.String.{◌++◌}
use alpilab_ai.Base.Json.{Json, Items, Fields, object, array, nil, cons, lookup}
use alpilab_ai.Base.Lists.{length, get_elem?}
use alpilab_ai.Base.Platform.{Platform, text_at}
use alpilab_ai.Base.Text.{strip, contains_text}

pub record ProductSearchItem : Type 0 where
  pub id : String
  pub brand : String
  pub model : String
  pub model_code : String
  pub name : String

-- An index is never negative in the program, so it is a natural number.
pub record ProductSearchContext : Type 0 where
  pub items : List ProductSearchItem
  pub created_at : Option ℕ
  pub source_tool : String
  pub awaiting_selection : Bool
  pub selected_index : Option ℕ
  pub selected_product_id : Option String

abbrev source_tool_search_products : String
source_tool_search_products = "alpilab_check.search_products"

unfoldable pub format_product_label : ProductSearchItem → String
unfolding strip contains_text
format_product_label item =
    let brand = strip item.brand in
    let model = strip item.model in
    let name = strip item.name in
    let code = strip item.model_code in
    if not (brand == "") && not (model == "")
    then brand ++ (" " ++ model)
    else if not (model == "")
    then model
    else if not (brand == "")
    then brand
    else if not (name == "") && not (contains_text "||" name)
    then name
    else if not (code == "")
    then code
    else "prodotto"

-- `isinstance(x, list)`, `isinstance(x, dict)`
abbrev pub as_list : Option Json → Option Items
as_list (some (array items)) = some items
as_list _ = none

module _ (p : Platform) where
  abbrev item_of : Fields → ProductSearchItem
  item_of entry = record {
    id = text_at p entry "id";
    brand = text_at p entry "brand";
    model = text_at p entry "model";
    model_code = text_at p entry "model_code";
    name = text_at p entry "name";
  }

  abbrev with_entry : Json → List ProductSearchItem → List ProductSearchItem
  with_entry (object entry) rest = if text_at p entry "id" == "" then rest else item_of entry ∷ rest
  with_entry _ rest = rest

  -- The entries that are objects with an id.
  unfoldable pub valid_items : Items → List ProductSearchItem
  valid_items nil = []
  valid_items (cons entry rest) = with_entry entry (valid_items rest)

abbrev pub built : List ProductSearchItem → ℕ → Option ProductSearchContext
built [] now = none
built (item ∷ []) now = some (record {
  items = item ∷ [];
  created_at = some now;
  source_tool = source_tool_search_products;
  awaiting_selection = false;
  selected_index = some 0;
  selected_product_id = some item.id;
})
built (item ∷ other ∷ items) now = some (record {
  items = item ∷ other ∷ items;
  created_at = some now;
  source_tool = source_tool_search_products;
  awaiting_selection = true;
  selected_index = none;
  selected_product_id = none;
})

module _ (p : Platform) (now : ℕ) where
  abbrev pub build_from : Option Items → Option ProductSearchContext
  build_from none = none
  build_from (some raw_items) = built (valid_items p raw_items) now

  -- `apply_product_search_context` writes the result into the session.
  unfoldable pub build_product_search_context : Fields → Option ProductSearchContext
  unfolding valid_items lookup strip
  build_product_search_context payload = build_from (as_list (lookup "items" payload))

abbrev pub select : Option ProductSearchItem → ℕ → ProductSearchContext → ProductSearchContext
select none index context = context
select (some item) index context = record context {
  selected_index = some index;
  selected_product_id = some item.id;
  awaiting_selection = false;
}

unfoldable pub mark_product_selected : ProductSearchContext → ℕ → ProductSearchContext
mark_product_selected context index = select (get_elem? context.items index) index context

abbrev item_at : List ProductSearchItem → Option ℕ → Option ProductSearchItem
item_at items none = none
item_at items (some index) = get_elem? items index

unfoldable pub selected_item : ProductSearchContext → Option ProductSearchItem
selected_item context = item_at context.items context.selected_index
