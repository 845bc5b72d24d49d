-- ===== src/Tests/Products.antt =====
-- Runs of the parser of commands and of the follow-ups, on a machine with the ASCII tables.
use alpilab_ai.Base.{
  ◌-◌, String, true, false, none, some, [], ◌∷◌, ◌≡◌, ◌==◌, ◌&&◌, ◌||◌, refl, leb, if◌then◌else◌,
}
use alpilab_ai.Base.Json.{Fields, field, end, string, object, array, cons, nil}
use alpilab_ai.Base.Platform.{Platform}
use alpilab_ai.Commands.Parser.{
  is_letter, extract_open_target, captured_text, extract_alpilab_check_intent, is_id_char,
  resolve_open_target, parse, normalize, is_forbidden, action, action_command, refused,
  unknown_application, invalid_command,
}
use alpilab_ai.Commands.Intents.{open_tool}
use alpilab_ai.Conversation.Products.{
  ProductSearchContext, build_product_search_context, mark_product_selected,
}
use alpilab_ai.Base.Text.{strip, rstrip_chars, collapse_spaces, replace, contains_text}
use alpilab_ai.Base.Regex.{search, match_start, any_char}
use alpilab_ai.Tools.Executable.{contains}
use alpilab_ai.Conversation.Followup
use alpilab_ai.Conversation.Followup.{
  is_general_conversation, looks_like_product_followup, extract_ordinal, extract_number_index,
}
use alpilab_ai.Commands.Parser.Safety.{IsControlled, parse-IsControlled}
use alpilab_ai.Conversation.Followup.Resolve.{resolve_product_followup, choose}
use alpilab_ai.Conversation.Followup.Selections.{
  Grounded, Reached, searched, followed, IsSelectionSound, resolve_product_followup-Grounded,
  Reached-IsSelectionSound,
}

abbrev pub ascii : Platform
ascii = record {
  uuid = λ n. "id";
  clock = λ n. n;
  isalnum = λ c. (leb 97 c && leb c 122) || (leb 65 c && leb c 90) || (leb 48 c && leb c 57);
  decimal = λ c. if leb 48 c && leb c 57 then some (c - 48) else none;
  lower = λ s. s;
  text_of = λ v. "";
  is_zero = λ n. n == "0";
  two_places = λ n. n;
}

abbrev product : String → String → Fields
product id model =
    field "id" (string id) (field "brand" (string "Apple") (field "model" (string model) end))

abbrev found_phones : Fields
found_phones =
    field "items"
      (array
        (cons (object (product "p-1" "iPhone 12")) (cons (object (product "p-2" "iPhone 13")) nil)))
      end

-- The verb of the rule for a product, `apri`, is taken by the rule for an application before.
parse_test :
    (parse ascii "mostra il prodotto ip-12"
      ≡ action open_tool "alpilab_check.get_product"
          (field "product_id" (string "ip-12") end)
          "mostra il prodotto ip-12")
    × (parse ascii "apri il prodotto ip-12" ≡ refused unknown_application "UNKNOWN_APPLICATION")
    × (parse ascii "apri c:\\windows" ≡ refused invalid_command "INVALID_COMMAND")
unfolding parse strip is_forbidden search normalize rstrip_chars collapse_spaces replace is_letter
    match_start extract_open_target captured_text extract_alpilab_check_intent is_id_char any_char
    resolve_open_target contains contains_text
parse_test = (refl, refl, refl)

abbrev context : ProductSearchContext
context = record {
  items =
      record { id = "p-1"; brand = "Apple"; model = "iPhone 12"; model_code = ""; name = "" }
      ∷ record { id = "p-2"; brand = "Apple"; model = "iPhone 13"; model_code = ""; name = "" }
      ∷ [];
  created_at = some 5;
  source_tool = "alpilab_check.search_products";
  awaiting_selection = true;
  selected_index = none;
  selected_product_id = none;
}

parse-IsControlled_example :
    IsControlled (record {
      type = open_tool;
      target = some "alpilab_check.get_product";
      parameters = field "product_id" (string "ip-12") end;
      raw_text = "mostra il prodotto ip-12";
      confidence = 10;
    })
    × ("mostra il prodotto ip-12" ≡ strip "mostra il prodotto ip-12")
    × ((parse ascii "mostra il prodotto ip-12").outcome ≡ action_command)
    × (is_forbidden ascii (normalize ascii (strip "mostra il prodotto ip-12")) ≡ false)
unfolding parse strip is_forbidden search normalize rstrip_chars collapse_spaces replace is_letter
    match_start extract_open_target captured_text extract_alpilab_check_intent is_id_char
parse-IsControlled_example = parse-IsControlled ascii "mostra il prodotto ip-12" _ refl

resolve_product_followup-Grounded_example :
    (after : ProductSearchContext) × (((resolve_product_followup ascii "quanto costa il secondo"
          (some context)).1
        ≡ some after)
      × Grounded "quanto costa il secondo" context
          ((resolve_product_followup ascii "quanto costa il secondo" (some context)).0, after))
resolve_product_followup-Grounded_example =
    resolve_product_followup-Grounded ascii "quanto costa il secondo" context

reached : Reached ascii (record context {
  selected_index = some 1;
  selected_product_id = some "p-2";
  awaiting_selection = false;
})
unfolding build_product_search_context resolve_product_followup Followup.normalize
    is_general_conversation search looks_like_product_followup extract_ordinal choose
    extract_number_index match_start mark_product_selected
reached = followed {c = context} "il secondo" (searched 5 found_phones refl) refl

Reached-IsSelectionSound_example : IsSelectionSound (record context {
  selected_index = some 1;
  selected_product_id = some "p-2";
  awaiting_selection = false;
})
Reached-IsSelectionSound_example = Reached-IsSelectionSound {p = ascii} reached
