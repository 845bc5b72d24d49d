-- ===== src/Commands/Parser.antt =====
-- app/commands/natural_language_parser.py: from a text to a controlled intent, by rules alone.
pub mod Ids
pub mod Safety
use alpilab_ai.Base.{
  ℕ, String, Bool, true, false, Option, none, some, List, [], ◌∷◌, ◌==◌, not, ◌&&◌, ◌||◌,
  if◌then◌else◌, is_some, leb, ◌=?◌,
}
use alpilab_ai.Base.Json.{Fields, field, end, number, string}
use alpilab_ai.Base.Platform.{Platform}
use alpilab_ai.Base.Regex.{
  Pattern, literal, class_of, many, few, optional, group, boundary, at_start, at_end, either, ◌▸◌,
  spaces, maybe_spaces, any_char, one_of, search, match_start, group_of, fold_case,
}
use alpilab_ai.Base.Text.{strip, replace, collapse_spaces, rstrip_chars, contains_text}
use alpilab_ai.Commands.Intents.{Intent, IntentType, open_application, open_tool}
use alpilab_ai.Tools.Executable.{contains}

pub data ParseOutcome : Type 0 where
  conversation action_command ambiguous command_not_supported : ParseOutcome
  unknown_application invalid_command : ParseOutcome

-- `confidence` counts tenths.
pub record NaturalLanguageParseResult : Type 0 where
  pub outcome : ParseOutcome
  pub intent : Option Intent
  pub error_code : Option String
  pub clarification : Option String
  pub confidence : ℕ

-- in tenths
abbrev pub match_confidence : ℕ
match_confidence = 10

-- `[a-z0-9_\-]`, without regard to case
unfoldable pub is_id_char : ℕ → Bool
unfolding fold_case
is_id_char c =
    let d = fold_case c in (leb 97 d && leb d 122) || (leb 48 d && leb d 57) || d =? 95 || d =? 45

-- `[a-z]`, without regard to case
unfoldable pub is_letter : ℕ → Bool
unfolding fold_case
is_letter c = let d = fold_case c in leb 97 d && leb d 122

abbrev pub question_mark : ℕ → Bool
question_mark c = c =? 63

module _ (p : Platform) where
  -- `\w`
  abbrev pub word_char : ℕ → Bool
  word_char c = p.isalnum c || c =? 95

  abbrev forbidden : List Pattern
  forbidden =
      literal "powershell"
      ∷ (literal "cmd" ▸ maybe_spaces ▸ literal "/c")
      ∷ literal "cmd.exe"
      ∷ literal "os.system"
      ∷ literal "subprocess"
      ∷ (class_of is_letter ▸ literal ":\\")
      ∷ (literal ".exe" ▸ boundary word_char)
      ∷ (literal "shell" ▸ maybe_spaces ▸ literal "=")
      ∷ []

  abbrev pub any_found : List Pattern → String → Bool
  any_found [] s = false
  any_found (r ∷ rs) s = is_some (search r s) || any_found rs s

  unfoldable pub is_forbidden : String → Bool
  is_forbidden s = any_found forbidden s

  unfoldable pub normalize : String → String
  normalize text =
      let value =
        replace "3 u tools" "3utools" (replace "3u tools" "3utools" (p.lower (strip text))) in
      strip (rstrip_chars question_mark (collapse_spaces value))

abbrev pub full_stop : Pattern
full_stop = optional (literal ".") ▸ at_end

abbrev pub open_verb : Pattern
open_verb =
    at_start
    ▸ either (one_of "apri" ("aprimi" ∷ "avvia" ∷ "lancia" ∷ "open" ∷ "launch" ∷ "start" ∷ [])) (
        either (literal "puoi" ▸ spaces ▸ literal "aprire")
          (literal "puoi" ▸ spaces ▸ literal "avviare"))
    ▸ spaces
    ▸ group (few any_char)
    ▸ full_stop

abbrev pub close_verb : Pattern
close_verb = at_start ▸ one_of "chiudi" ("close" ∷ []) ▸ spaces ▸ group (many any_char) ▸ at_end

abbrev pub ambiguous_targets : List String
ambiguous_targets =
    "il programma" ∷ "programma" ∷ "quello" ∷ "quello per iphone" ∷ "quello che usiamo per iphone"
    ∷ "quello che usiamo per l iphone" ∷ "l applicazione" ∷ "applicazione" ∷ []

abbrev pub unsupported_apps : List String
unsupported_apps = "borneo" ∷ "zxw" ∷ "chrome" ∷ "firefox" ∷ "edge" ∷ []

abbrev pub conversation_hints : List String
conversation_hints =
    "non si accende" ∷ "boot loop" ∷ "come posso" ∷ "come controllo" ∷ "pp_vdd" ∷ "diagnostic"
    ∷ "diagnosi" ∷ "problema" ∷ "help" ∷ "aiuto" ∷ "iphone 13" ∷ "iphone" ∷ "samsung" ∷ "display"
    ∷ "alimentazione" ∷ []

abbrev pub search_products : Pattern
search_products =
    at_start
    ▸ one_of "cerca" ("trova" ∷ [])
    ▸ spaces
    ▸ group (few any_char)
    ▸ spaces
    ▸ optional (literal "nel" ▸ spaces)
    ▸ one_of "listino" ("catalogo" ∷ [])
    ▸ full_stop

abbrev pub get_product : Pattern
get_product =
    at_start
    ▸ one_of "mostra" ("apri" ∷ "dammi" ∷ [])
    ▸ spaces
    ▸ optional (literal "il" ▸ spaces)
    ▸ literal "prodotto"
    ▸ spaces
    ▸ group (many is_id_char)
    ▸ full_stop

abbrev pub search_invoices : Pattern
search_invoices =
    at_start
    ▸ one_of "cerca" ("trova" ∷ [])
    ▸ spaces
    ▸ group (few any_char)
    ▸ spaces
    ▸ optional (literal "nelle" ▸ spaces)
    ▸ literal "fatture"
    ▸ full_stop

abbrev pub get_invoice : Pattern
get_invoice =
    at_start
    ▸ one_of "mostra" ("apri" ∷ "dammi" ∷ [])
    ▸ spaces
    ▸ optional (literal "la" ▸ spaces)
    ▸ literal "fattura"
    ▸ spaces
    ▸ group (many is_id_char)
    ▸ full_stop

abbrev pub stripped : Option String → Option String
stripped none = none
stripped (some t) = some (strip t)

-- The text of a pattern's group, stripped: `pattern.match(s).group(1).strip()`.
unfoldable pub captured_text : Pattern → String → Option String
captured_text r s = stripped (group_of (match_start r s))

abbrev pub refused : ParseOutcome → String → NaturalLanguageParseResult
refused outcome code = record {
  outcome = outcome;
  intent = none;
  error_code = some code;
  clarification = none;
  confidence = match_confidence;
}

abbrev pub talk : ℕ → NaturalLanguageParseResult
talk confidence = record {
  outcome = conversation;
  intent = none;
  error_code = none;
  clarification = none;
  confidence = confidence;
}

abbrev pub action : IntentType → String → Fields → String → NaturalLanguageParseResult
action type target parameters raw_text = record {
  outcome = action_command;
  intent = some (record {
    type = type;
    target = some target;
    parameters = parameters;
    raw_text = raw_text;
    confidence = match_confidence;
  });
  error_code = none;
  clarification = none;
  confidence = match_confidence;
}

-- `if "quello" in s`, `any(hint in s for hint in hints)`
abbrev pub any_in : List String → String → Bool
any_in [] s = false
any_in (t ∷ ts) s = contains_text t s || any_in ts s

abbrev query_parameters : String → Fields
query_parameters query = field "query" (string query) (field "limit" (number "20") end)

abbrev pub get_invoice_intent : Option String → String → Option NaturalLanguageParseResult
get_invoice_intent none raw = none
get_invoice_intent (some invoice_id) raw =
    some (
      action open_tool "alpilab_check.get_invoice" (field "invoice_id" (string invoice_id) end) raw)

abbrev pub search_invoices_intent :
    Option String → Option NaturalLanguageParseResult → String → Option NaturalLanguageParseResult
search_invoices_intent none later raw = later
search_invoices_intent (some query) later raw =
    some (action open_tool "alpilab_check.search_invoices" (query_parameters query) raw)

abbrev pub get_product_intent :
    Option String → Option NaturalLanguageParseResult → String → Option NaturalLanguageParseResult
get_product_intent none later raw = later
get_product_intent (some product_id) later raw =
    some (
      action open_tool "alpilab_check.get_product" (field "product_id" (string product_id) end) raw)

abbrev pub search_products_intent :
    Option String → Option NaturalLanguageParseResult → String → Option NaturalLanguageParseResult
search_products_intent none later raw = later
search_products_intent (some query) later raw =
    some (action open_tool "alpilab_check.search_products" (query_parameters query) raw)

unfoldable pub extract_alpilab_check_intent : String → String → Option NaturalLanguageParseResult
extract_alpilab_check_intent s raw =
    search_products_intent (captured_text search_products s)
      (get_product_intent (captured_text get_product s)
        (search_invoices_intent (captured_text search_invoices s)
          (get_invoice_intent (captured_text get_invoice s) raw) raw)
        raw)
      raw

unfoldable pub extract_open_target : String → Option String
extract_open_target s = if s == "3utools" then some "3utools" else captured_text open_verb s

unfoldable pub looks_like_conversation : String → Bool
looks_like_conversation s =
    if contains_text "?" s && not (is_some (match_start open_verb s))
    then true
    else any_in conversation_hints s

abbrev pub parse_words : Option NaturalLanguageParseResult → String → NaturalLanguageParseResult
parse_words (some check_intent) s = check_intent
parse_words none s = if looks_like_conversation s then talk match_confidence else talk 5

abbrev pub asks_which : NaturalLanguageParseResult
asks_which = record {
  outcome = ambiguous;
  intent = none;
  error_code = some "AMBIGUOUS_COMMAND";
  clarification = some "Quale programma vuoi aprire?";
  confidence = match_confidence;
}

module _ (p : Platform) where
  unfoldable pub resolve_open_target : String → String → NaturalLanguageParseResult
  resolve_open_target target raw =
      let s = normalize p target in
      if contains ambiguous_targets s || contains_text "quello" s
      then asks_which
      else if contains unsupported_apps s
      then refused command_not_supported "COMMAND_NOT_SUPPORTED"
      else if s == "3utools"
      then action open_application "3utools" end raw
      else refused unknown_application "UNKNOWN_APPLICATION"

  abbrev pub parse_target : Option String → String → String → NaturalLanguageParseResult
  parse_target (some app_target) s raw = resolve_open_target app_target raw
  parse_target none s raw = parse_words (extract_alpilab_check_intent s raw) s

  abbrev pub parse_normalized : String → String → NaturalLanguageParseResult
  parse_normalized s raw =
      if is_forbidden p s
      then refused invalid_command "INVALID_COMMAND"
      else if is_some (match_start close_verb s)
      then refused command_not_supported "COMMAND_NOT_SUPPORTED"
      else parse_target (extract_open_target s) s raw

  unfoldable pub parse : String → NaturalLanguageParseResult
  parse text =
      let raw = strip text in if raw == "" then talk 0 else parse_normalized (normalize p raw) raw
