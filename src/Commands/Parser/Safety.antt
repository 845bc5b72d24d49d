-- ===== src/Commands/Parser/Safety.antt =====
-- app/commands/natural_language_parser.py with app/commands/tool_resolution.py and the registry of
-- tools: what a parsed text can start.
use alpilab_ai.Base.{
  String, true, ◌||◌, false, Option, none, some, [], ◌≡◌, ◌==◌, refl, sym, ◌∙◌, inl, inr,
  Bool-cases, if_rule, some_injective, is_some,
}
use alpilab_ai.Base.Dict.{get, put}
use alpilab_ai.Base.Regex.{match_start}
use alpilab_ai.Base.Json.{Fields, end, keys, lookup, string}
use alpilab_ai.Base.Platform.{Platform}
use alpilab_ai.Base.Text.{all_chars, strip, contains_text}
use alpilab_ai.Commands.Intents.{Intent, IntentType, open_tool, open_application, resolve_tool_id}
use alpilab_ai.Commands.Parser.Ids.{product_id-all_chars, invoice_id-all_chars}
use alpilab_ai.Commands.Parser.{
  NaturalLanguageParseResult, parse, normalize, is_forbidden, resolve_open_target,
  extract_alpilab_check_intent, extract_open_target, captured_text, is_id_char, search_products,
  get_product, search_invoices, get_invoice, action_command, match_confidence,
  looks_like_conversation, parse_target, parse_words, parse_normalized, close_verb, action, refused,
  talk, asks_which, command_not_supported, unknown_application, invalid_command, ambiguous_targets,
  unsupported_apps, get_invoice_intent, get_product_intent, search_invoices_intent,
  search_products_intent,
}
use alpilab_ai.Tools.Executable.{
  ExecutableToolSpec, resolve_executable, seed_executable, validate_tool_arguments,
  register_executable, windows_3utools_open_tool, alpilab_check_get_invoice_tool,
  alpilab_check_search_invoices_tool, alpilab_check_get_product_tool,
  alpilab_check_search_products_tool, contains, meets, is_subset,
}

-- The intent names an enabled tool of the registry and has exactly the arguments that the tool
-- takes; the identifiers among them are made of letters, digits, `_` and `-`.
pub record IsControlled (intent : Intent) : Type 0 where
  pub tool_id : String
  pub spec : ExecutableToolSpec
  pub resolved : resolve_tool_id intent ≡ some tool_id
  pub registered : resolve_executable tool_id (seed_executable []) ≡ some spec
  pub accepted : validate_tool_arguments spec intent.parameters ≡ none
  pub product_ids :
      (id : String)
      → lookup "product_id" intent.parameters ≡ some (string id)
      → all_chars is_id_char id ≡ true
  pub invoice_ids :
      (id : String)
      → lookup "invoice_id" intent.parameters ≡ some (string id)
      → all_chars is_id_char id ≡ true

-- An intent of the result is controlled and keeps the words of the user.
abbrev AllControlled : String → NaturalLanguageParseResult → Type 0
AllControlled raw r =
    (intent : Intent)
    → r.intent ≡ some intent
    → IsControlled intent × (intent.raw_text ≡ raw) × (r.outcome ≡ action_command)

not_there : {A : Type 0} {id : String} → none ≡ some (string id) → A
not_there h = cc

none-Controlled :
    (raw : String) (r : NaturalLanguageParseResult) → r.intent ≡ none → AllControlled raw r
none-Controlled raw r e intent h = let clash : none ≡ some intent = sym e ∙ h in cc

string_id :
    (a b : String)
    → some (string a) ≡ some (string b)
    → all_chars is_id_char a ≡ true
    → all_chars is_id_char b ≡ true
string_id a b e h = let same : a ≡ b = cc in rw same at h

action-Controlled :
    (type : IntentType) (target raw : String) (parameters : Fields)
    → IsControlled (record {
      type = type;
      target = some target;
      parameters = parameters;
      raw_text = raw;
      confidence = match_confidence;
    })
    → AllControlled raw (action type target parameters raw)
action-Controlled type target raw parameters c intent h =
    rw (sym (some_injective h)) (c, refl, refl)

opens_3utools-IsControlled :
    (raw : String) → AllControlled raw (action open_application "3utools" end raw)
unfolding resolve_tool_id resolve_executable seed_executable validate_tool_arguments
    register_executable get put contains meets is_subset keys lookup
opens_3utools-IsControlled raw = action-Controlled open_application "3utools" raw end (record {
  tool_id = "windows.3utools.open";
  spec = windows_3utools_open_tool;
  resolved = refl;
  registered = refl;
  accepted = refl;
  product_ids = λ id. not_there;
  invoice_ids = λ id. not_there;
})

resolve_open_target-Controlled :
    (p : Platform) (target raw : String) → AllControlled raw (resolve_open_target p target raw)
unfolding resolve_open_target
resolve_open_target-Controlled p target raw =
    let s = normalize p target in
    if_rule (AllControlled raw) (contains ambiguous_targets s || contains_text "quello" s)
      (none-Controlled raw asks_which refl)
      (if_rule (AllControlled raw) (contains unsupported_apps s)
        (none-Controlled raw (refused command_not_supported "COMMAND_NOT_SUPPORTED") refl)
        (if_rule (AllControlled raw) (s == "3utools") (opens_3utools-IsControlled raw)
          (none-Controlled raw (refused unknown_application "UNKNOWN_APPLICATION") refl)))

-- What the rules for the catalogue give, where they give something.
abbrev SomeControlled : String → Option NaturalLanguageParseResult → Type 0
SomeControlled raw none = Unit
SomeControlled raw (some r) = AllControlled raw r

get_invoice_intent-Controlled :
    (o : Option String) (raw : String)
    → ((t : String) → o ≡ some t → all_chars is_id_char t ≡ true)
    → SomeControlled raw (get_invoice_intent o raw)
unfolding resolve_tool_id resolve_executable seed_executable validate_tool_arguments
    register_executable get put contains meets is_subset keys lookup
get_invoice_intent-Controlled none raw h = tt
get_invoice_intent-Controlled (some invoice_id) raw h =
    action-Controlled open_tool "alpilab_check.get_invoice" raw _ (record {
      tool_id = "alpilab_check.get_invoice";
      spec = alpilab_check_get_invoice_tool;
      resolved = refl;
      registered = refl;
      accepted = refl;
      product_ids = λ id. not_there;
      invoice_ids = λ id e. string_id invoice_id id e (h invoice_id refl);
    })

search_invoices_intent-Controlled :
    (o : Option String) (later : Option NaturalLanguageParseResult) (raw : String)
    → SomeControlled raw later
    → SomeControlled raw (search_invoices_intent o later raw)
unfolding resolve_tool_id resolve_executable seed_executable validate_tool_arguments
    register_executable get put contains meets is_subset keys lookup
search_invoices_intent-Controlled none later raw h = h
search_invoices_intent-Controlled (some query) later raw h =
    action-Controlled open_tool "alpilab_check.search_invoices" raw _ (record {
      tool_id = "alpilab_check.search_invoices";
      spec = alpilab_check_search_invoices_tool;
      resolved = refl;
      registered = refl;
      accepted = refl;
      product_ids = λ id. not_there;
      invoice_ids = λ id. not_there;
    })

get_product_intent-Controlled :
    (o : Option String) (later : Option NaturalLanguageParseResult) (raw : String)
    → ((t : String) → o ≡ some t → all_chars is_id_char t ≡ true)
    → SomeControlled raw later
    → SomeControlled raw (get_product_intent o later raw)
unfolding resolve_tool_id resolve_executable seed_executable validate_tool_arguments
    register_executable get put contains meets is_subset keys lookup
get_product_intent-Controlled none later raw h k = k
get_product_intent-Controlled (some product_id) later raw h k =
    action-Controlled open_tool "alpilab_check.get_product" raw _ (record {
      tool_id = "alpilab_check.get_product";
      spec = alpilab_check_get_product_tool;
      resolved = refl;
      registered = refl;
      accepted = refl;
      product_ids = λ id e. string_id product_id id e (h product_id refl);
      invoice_ids = λ id. not_there;
    })

search_products_intent-Controlled :
    (o : Option String) (later : Option NaturalLanguageParseResult) (raw : String)
    → SomeControlled raw later
    → SomeControlled raw (search_products_intent o later raw)
unfolding resolve_tool_id resolve_executable seed_executable validate_tool_arguments
    register_executable get put contains meets is_subset keys lookup
search_products_intent-Controlled none later raw h = h
search_products_intent-Controlled (some query) later raw h =
    action-Controlled open_tool "alpilab_check.search_products" raw _ (record {
      tool_id = "alpilab_check.search_products";
      spec = alpilab_check_search_products_tool;
      resolved = refl;
      registered = refl;
      accepted = refl;
      product_ids = λ id. not_there;
      invoice_ids = λ id. not_there;
    })

extract_alpilab_check_intent-Controlled :
    (s raw : String) → SomeControlled raw (extract_alpilab_check_intent s raw)
unfolding extract_alpilab_check_intent
extract_alpilab_check_intent-Controlled s raw =
    search_products_intent-Controlled (captured_text search_products s) _ raw (
      get_product_intent-Controlled (captured_text get_product s) _ raw (product_id-all_chars s) (
        search_invoices_intent-Controlled (captured_text search_invoices s) _ raw (
          get_invoice_intent-Controlled (captured_text get_invoice s) raw
            (invoice_id-all_chars s))))

parse_words-Controlled :
    (o : Option NaturalLanguageParseResult) (s raw : String)
    → SomeControlled raw o
    → AllControlled raw (parse_words o s)
parse_words-Controlled (some r) s raw h = h
parse_words-Controlled none s raw h =
    if_rule (AllControlled raw) (looks_like_conversation s)
      (none-Controlled raw (talk match_confidence) refl) (none-Controlled raw (talk 5) refl)

parse_target-Controlled :
    (p : Platform) (o : Option String) (s raw : String) → AllControlled raw (parse_target p o s raw)
parse_target-Controlled p none s raw =
    parse_words-Controlled (extract_alpilab_check_intent s raw) s raw
      (extract_alpilab_check_intent-Controlled s raw)
parse_target-Controlled p (some target) s raw = resolve_open_target-Controlled p target raw

parse_normalized-Controlled :
    (p : Platform) (s raw : String) → AllControlled raw (parse_normalized p s raw)
parse_normalized-Controlled p s raw =
    if_rule (AllControlled raw) (is_forbidden p s)
      (none-Controlled raw (refused invalid_command "INVALID_COMMAND") refl)
      (if_rule (AllControlled raw) (is_some (match_start close_verb s))
        (none-Controlled raw (refused command_not_supported "COMMAND_NOT_SUPPORTED") refl)
        (parse_target-Controlled p (extract_open_target s) s raw))

parse-AllControlled : (p : Platform) (text : String) → AllControlled (strip text) (parse p text)
unfolding parse
parse-AllControlled p text =
    let raw = strip text in
    if_rule (AllControlled raw) (raw == "") (none-Controlled raw (talk 0) refl)
      (parse_normalized-Controlled p (normalize p raw) raw)

parse-allowed :
    (p : Platform) (text : String) (intent : Intent)
    → (parse p text).intent ≡ some intent
    → is_forbidden p (normalize p (strip text)) ≡ false
unfolding parse
parse-allowed p text intent h = elim (Bool-cases (is_forbidden p (normalize p (strip text)))) [
  | inr allowed ↦ allowed
  | inl stop ↦ elim (Bool-cases (strip text == "")) [
    | inl blank ↦ let clash : none ≡ some intent = rw blank at h in cc
    | inr words ↦ let clash : none ≡ some intent = rw stop at (rw words at h) in cc
  ]
]

-- Whatever the user writes, an intent that the parser gives names a tool that is registered and
-- enabled, carries exactly the arguments that the tool takes, and keeps the words of the user as its
-- raw text; the outcome is then an action command, and the text, normalized, has none of the
-- forbidden words (a shell, a path, an executable).
pub parse-IsControlled :
    (p : Platform) (text : String) (intent : Intent)
    → (parse p text).intent ≡ some intent
    → IsControlled intent
      × (intent.raw_text ≡ strip text)
      × ((parse p text).outcome ≡ action_command)
      × (is_forbidden p (normalize p (strip text)) ≡ false)
parse-IsControlled p text intent h =
    let c = parse-AllControlled p text intent h in (c.0, c.1, c.2, parse-allowed p text intent h)
