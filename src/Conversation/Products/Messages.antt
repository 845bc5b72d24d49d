-- ===== src/Conversation/Products/Messages.antt =====
-- app/conversation/alpilab_check_messages.py: the words about products, from what a tool has given.
use alpilab_ai.Base.{
  ℕ, suc, ◌+◌, String, Bool, true, false, Option, none, some, List, [], ◌∷◌, ◌==◌, not, ◌&&◌, ◌||◌,
  if◌then◌else◌, is_some, map, or_else,
}
use Prim.Native.String.{◌++◌}
use alpilab_ai.Base.Json.{Json, Items, Fields, null, boolean, number, object, nil, cons, lookup}
use alpilab_ai.Base.Lists.{length}
use alpilab_ai.Base.Platform.{Platform, str, number_text}
use alpilab_ai.Base.Text.{strip, replace, starts_with, contains_text}
use alpilab_ai.Conversation.Products.{
  ProductSearchItem, ProductSearchContext, format_product_label, as_list, valid_items,
}

abbrev not_found : String
not_found = "Non ho trovato prodotti nel listino per questa ricerca."

abbrev numbered : ℕ → List ProductSearchItem → String
numbered i [] = ""
numbered i (item ∷ items) =
    number_text i ++ (". " ++ (format_product_label item ++ ("\n" ++ numbered (suc i) items)))

unfoldable pub format_disambiguation_message : List ProductSearchItem → String
unfolding number_text format_product_label
format_disambiguation_message items =
    "Ho trovato "
    ++ (number_text (length items) ++ (" modelli:\n" ++ (numbered 1 items ++ "\nQuale intendi?")))

abbrev items_response : List ProductSearchItem → String
items_response [] = not_found
items_response (item ∷ []) = "Ho trovato " ++ (format_product_label item ++ ". Cosa vuoi sapere?")
items_response (item ∷ other ∷ items) = format_disambiguation_message (item ∷ other ∷ items)

abbrev context_items : Option ProductSearchContext → List ProductSearchItem → List ProductSearchItem
context_items none given = given
context_items (some context) given = elim context.items [ [] ↦ given | item ∷ items ↦ item ∷ items ]

module _ (p : Platform) where
  abbrev search_response : Option Items → Option ProductSearchContext → String
  search_response none context = not_found
  search_response (some nil) context = not_found
  search_response (some (cons x xs)) context =
      items_response (context_items context (valid_items p (cons x xs)))

  unfoldable pub format_search_products_response : Fields → Option ProductSearchContext → String
  unfolding format_product_label format_disambiguation_message lookup valid_items
  format_search_products_response payload context =
      search_response (as_list (lookup "items" payload)) context

unfoldable pub format_selection_confirmation : ProductSearchItem → String
unfolding format_product_label
format_selection_confirmation item = "Perfetto, " ++ (format_product_label item ++ ".")

abbrev price_keys : List String
price_keys = "price" ∷ "prezzo" ∷ "cost" ∷ "costo" ∷ "amount" ∷ "importo" ∷ "value" ∷ []

abbrev name_keys : List String
name_keys = "name" ∷ "nome" ∷ "label" ∷ "title" ∷ "description" ∷ "descrizione" ∷ []

module _ (p : Platform) where
  abbrev euro : String → String
  euro formatted = "€" ++ replace "." "," formatted

  abbrev price_text : String → Option String
  price_text text =
      if text == "" then none else if starts_with text "€" then some text else some ("€" ++ text)

  unfoldable pub format_price : Json → Option String
  unfolding replace strip starts_with
  format_price null = none
  format_price (number n) = some (euro (p.two_places n))
  format_price (boolean true) = some (euro "1.00")
  format_price (boolean false) = some (euro "0.00")
  format_price v = price_text (strip (str p v))

  abbrev named : Option Json → String → String
  named none later = later
  named (some null) later = later
  named (some raw) later = let text = strip (str p raw) in if text == "" then later else text

  abbrev name_from : List String → Fields → String
  name_from [] entry = ""
  name_from (key ∷ rest) entry = named (lookup key entry) (name_from rest entry)

  unfoldable pub entry_name : Fields → String
  unfolding lookup strip
  entry_name entry = name_from name_keys entry

  abbrev priced : Option Json → Option String → Option String
  priced none later = later
  priced (some v) later = format_price v

  abbrev price_from : List String → Fields → Option String
  price_from [] entry = none
  price_from (key ∷ rest) entry = priced (lookup key entry) (price_from rest entry)

  -- The first of the price keys decides, even where its value is None.
  unfoldable pub entry_price : Fields → Option String
  unfolding lookup format_price
  entry_price entry = price_from price_keys entry

abbrev pub with_row : Json → List Fields → List Fields
with_row (object row) rows = row ∷ rows
with_row _ rows = rows

abbrev pub objects_of : Items → List Fields
objects_of nil = []
objects_of (cons x xs) = with_row x (objects_of xs)

abbrev pub rows_of : Option Items → List Fields
rows_of none = []
rows_of (some items) = objects_of items

abbrev rows_from : List String → Fields → List Fields
rows_from [] payload = []
rows_from (key ∷ keys) payload =
    alpilab_ai.Base.◌++◌ (rows_of (as_list (lookup key payload))) (rows_from keys payload)

unfoldable pub iter_candidate_rows : Fields → List Fields
unfolding lookup
iter_candidate_rows payload =
    rows_from ("services" ∷ "parts" ∷ "items" ∷ "components" ∷ "options" ∷ []) payload

-- `any(token in text for token in tokens)`
abbrev any_token : List String → String → Bool
any_token [] text = false
any_token (token ∷ tokens) text = contains_text token text || any_token tokens text

module _ (p : Platform) where
  unfoldable pub matches_focus : String → String → Bool
  unfolding contains_text
  matches_focus name focus =
      let lowered = p.lower name in
      if focus == "schermo"
      then any_token ("schermo" ∷ "display" ∷ "vetro" ∷ "lcd" ∷ "screen" ∷ []) lowered
      else if focus == "batteria"
      then any_token ("batteria" ∷ "battery" ∷ "pila" ∷ []) lowered
      else if focus == "manodopera"
      then any_token ("manodopera" ∷ "mano d'opera" ∷ "mano d’opera" ∷ []) lowered
      else if focus == "riparazione"
      then contains_text "riparaz" lowered
      else if focus == "prezzo"
      then not (lowered == "")
      else if focus == "compatibile"
      then contains_text "compatibil" lowered
      else false

  abbrev or_price : Option String → Option String → Option String
  or_price none later = later
  or_price (some price) later = if price == "" then later else some price

  unfoldable pub first_price : List Fields → Option String
  unfolding entry_price
  first_price [] = none
  first_price (row ∷ rows) = or_price (entry_price p row) (first_price rows)
