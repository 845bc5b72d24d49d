-- ===== src/Conversation/Products/Details.antt =====
-- app/conversation/alpilab_check_messages.py, `format_get_product_response`: the answer about one
-- product; app/conversation/user_messages.py; and `_success_message_for_tool` of
-- app/conversation/natural_language_service.py.
use alpilab_ai.Base.{
  ℕ, suc, String, Bool, true, false, Option, none, some, List, [], ◌∷◌, ◌==◌, not, ◌&&◌, ◌||◌,
  if◌then◌else◌,
}
use Prim.Native.String.{◌++◌}
use alpilab_ai.Base.Dict.{Dict, get}
use alpilab_ai.Base.Json.{Json, Items, Fields, object, nil, cons, end, field, lookup, string}
use alpilab_ai.Base.Lists.{keep, take}
use alpilab_ai.Base.Platform.{Platform, str, text_at, truthy, number_text}
use alpilab_ai.Base.Text.{strip, contains_text}
use alpilab_ai.Conversation.Products.{ProductSearchContext, as_list}
use alpilab_ai.Conversation.Products.Messages.{
  entry_name, entry_price, iter_candidate_rows, matches_focus, first_price,
  format_search_products_response,
}

abbrev is_empty_dict : Fields → Bool
is_empty_dict end = true
is_empty_dict (field k v rest) = false

abbrev service_line : String → Option String → String
service_line name none = "- " ++ name
service_line name (some price) =
    if price == "" then "- " ++ name else "- " ++ (name ++ (": " ++ price))

-- `"\n".join(lines)`
abbrev join_lines : List String → String
join_lines [] = ""
join_lines (line ∷ []) = line
join_lines (line ∷ next ∷ lines) = line ++ ("\n" ++ join_lines (next ∷ lines))

module _ (p : Platform) where
  abbrev service_lines : List Fields → List String
  service_lines [] = []
  service_lines (row ∷ rows) =
      let rest = service_lines rows in
      let name = entry_name p row in
      if name == "" then rest else service_line name (entry_price p row) ∷ rest

  abbrev payload_label : Fields → String
  payload_label payload =
      let brand = text_at p payload "brand" in
      let model = text_at p payload "model" in
      if not (brand == "") || not (model == "") then strip (brand ++ (" " ++ model)) else ""

  abbrev shown_name : Fields → String
  shown_name payload =
      let raw_name = text_at p payload "name" in
      if not (raw_name == "") && contains_text "||" raw_name then "" else raw_name

  -- `a or b` of texts
  abbrev or_text : String → String → String
  or_text a b = if a == "" then b else a

  abbrev label_or : Option String → String → String
  label_or none later = later
  label_or (some label) later = or_text label later

  unfoldable pub product_name : Fields → Option String → String
  unfolding lookup strip contains_text
  product_name payload product_label =
      label_or product_label
        (or_text (payload_label payload) (or_text (shown_name payload) "prodotto"))

  abbrev focused : String → List Fields → List Fields
  focused focus rows = keep (λ row. matches_focus p (entry_name p row) focus) rows

  abbrev costs : Option String → String → String → String → String
  costs none subject name missing = missing
  costs (some price) subject name missing = subject ++ (name ++ (" costa " ++ (price ++ ".")))

  abbrev services : List Fields → String → String
  services lines name = elim (service_lines (take 12 lines)) [
    | [] ↦ "Non ho trovato servizi per " ++ (name ++ ".")
    | line ∷ rest ↦ "Servizi per " ++ (name ++ (":\n" ++ join_lines (line ∷ rest)))
  ]

  abbrev generic_price : String → String
  generic_price name =
      "Dimmi cosa vuoi sapere sul prezzo di " ++ (name ++ " (batteria, schermo, servizi…).")

  abbrev one_price : Option String → Fields → String → String
  one_price none row name = generic_price name
  one_price (some price) row name =
      let entry = entry_name p row in
      if entry == ""
      then "Per " ++ (name ++ (" il prezzo è " ++ (price ++ ".")))
      else "Per " ++ (name ++ (", " ++ (entry ++ (" costa " ++ (price ++ ".")))))

  abbrev price_answer : List Fields → String → String
  price_answer [] name = generic_price name
  price_answer (row ∷ []) name = one_price (first_price p (row ∷ [])) row name
  price_answer (row ∷ other ∷ rows) name = generic_price name

  abbrev focus_answer : String → List Fields → String → String
  focus_answer focus rows name =
      if focus == "servizi"
      then services rows name
      else if focus == "batteria"
      then costs (first_price p (focused "batteria" rows)) "La batteria per " name
          ("Non ho trovato il prezzo della batteria per " ++ (name ++ "."))
      else if focus == "schermo"
      then costs (first_price p (focused "schermo" rows)) "Lo schermo per " name
          ("Non ho trovato il prezzo dello schermo per " ++ (name ++ "."))
      else if focus == "prezzo"
      then price_answer rows name
      else if focus == "manodopera" || focus == "riparazione" || focus == "compatibile"
      then costs (first_price p (focused focus rows)) ("La " ++ (focus ++ " per ")) name
          ("Non ho trovato il prezzo della " ++ (focus ++ (" per " ++ (name ++ "."))))
      else "Non ho trovato informazioni su " ++ (focus ++ (" per " ++ (name ++ ".")))

  abbrev detail_answer : Option String → List Fields → String → String
  detail_answer none rows name =
      "Ho selezionato " ++ (name ++ ". Dimmi cosa vuoi sapere (batteria, schermo, servizi…).")
  detail_answer (some focus) rows name = focus_answer focus rows name

  unfoldable pub format_get_product_response : Fields → Option String → Option String → String
  unfolding product_name iter_candidate_rows keep matches_focus entry_name first_price entry_price
  format_get_product_response payload detail_focus product_label =
      if is_empty_dict payload
      then "Non ho trovato dettagli per il prodotto richiesto."
      else detail_answer detail_focus (iter_candidate_rows payload)
          (product_name payload product_label)

abbrev error_messages : Dict String
error_messages =
    ("AMBIGUOUS_COMMAND", "Quale programma vuoi aprire?")
    ∷ ("COMMAND_NOT_SUPPORTED", "Questo comando non è ancora supportato.")
    ∷ ("UNKNOWN_APPLICATION", "Non riconosco quell'applicazione.")
    ∷ ("INVALID_COMMAND", "Non posso eseguire comandi di sistema o percorsi arbitrari.")
    ∷ ("AUTHORIZATION_DENIED", "Non sono autorizzato ad eseguire questa azione.")
    ∷ ("TOOL_NOT_FOUND", "Lo strumento richiesto non è registrato.")
    ∷ ("TOOL_DISABLED", "Lo strumento richiesto è disabilitato.")
    ∷ ("CAPABILITY_MISSING", "Il PC Agent non ha la capability necessaria.")
    ∷ ("AGENT_NOT_FOUND", "Non riesco ad aprire 3uTools: il PC Agent non è online.")
    ∷ (
      "EXECUTABLE_NOT_FOUND",
      "Non riesco ad aprire 3uTools: l'applicazione non è disponibile sul PC.",
    )
    ∷ ("PROCESS_START_FAILED", "Non riesco ad aprire 3uTools: avvio dell'applicazione fallito.")
    ∷ ("TOOL_EXECUTION_FAILED", "Non riesco ad aprire 3uTools: esecuzione fallita.")
    ∷ (
      "TOOL_EXECUTION_TIMEOUT",
      "Non riesco ad aprire 3uTools: il PC Agent non ha risposto in tempo.",
    )
    ∷ ("ALPILAB_CHECK_UNAVAILABLE", "Alpilab Check non è disponibile sul PC in questo momento.")
    ∷ ("ALPILAB_CHECK_TIMEOUT", "Alpilab Check non ha risposto in tempo.")
    ∷ ("ALPILAB_CHECK_PROTOCOL_MISMATCH", "Versione bridge Alpilab Check non compatibile.")
    ∷ ("ALPILAB_CHECK_UNAUTHORIZED", "Non sono autorizzato a leggere i dati da Alpilab Check.")
    ∷ ("ALPILAB_CHECK_INVALID_RESPONSE", "Alpilab Check ha restituito una risposta non valida.")
    ∷ ("ALPILAB_CHECK_UPSTREAM_ERROR", "Alpilab Check ha restituito un errore.")
    ∷ []

abbrev or_default : Option String → String
or_default none = "Non riesco a completare la richiesta."
or_default (some words) = words

unfoldable pub error_message : String → String
unfolding get
error_message code = or_default (get error_messages code)

unfoldable pub success_message : Bool → String
success_message dry_run =
    if dry_run
    then "3uTools è configurato correttamente e verrebbe avviato."
    else "Ho aperto 3uTools."

abbrev is_dry_run : Option Json → Bool
is_dry_run (some (string mode)) = mode == "dry_run"
is_dry_run _ = false

abbrev count_items : Items → ℕ
count_items nil = 0
count_items (cons x xs) = suc (count_items xs)

module _ (p : Platform) where
  -- `str(i.get("code") or i.get("id") or "n/d")`
  abbrev either_text : Option Json → String → String
  either_text none later = later
  either_text (some v) later = if truthy p v then str p v else later

  abbrev invoice_code : Json → List String → List String
  invoice_code (object i) rest =
      either_text (lookup "code" i) (either_text (lookup "id" i) "n/d") ∷ rest
  invoice_code _ rest = rest

  -- of the first `n` items
  abbrev sample : ℕ → Items → List String
  sample ℕ.zero items = []
  sample (suc n) nil = []
  sample (suc n) (cons x xs) = invoice_code x (sample n xs)

  abbrev join_commas : List String → String
  join_commas [] = ""
  join_commas (code ∷ []) = code
  join_commas (code ∷ next ∷ codes) = code ++ (", " ++ join_commas (next ∷ codes))

  abbrev invoices_answer : Option Items → String
  invoices_answer none = "Richiesta completata."
  invoices_answer (some nil) = "Non ho trovato fatture per questa ricerca."
  invoices_answer (some (cons x xs)) =
      "Ho trovato "
      ++ (number_text (count_items (cons x xs))
          ++ (" fatture: " ++ (join_commas (sample 3 (cons x xs)) ++ ".")))

  abbrev invoice_id : Option Json → String
  invoice_id none = "n/d"
  invoice_id (some v) = str p v

  abbrev invoice_answer : Fields → String
  invoice_answer payload =
      if is_empty_dict payload
      then "Non ho trovato dettagli per la fattura richiesta."
      else "Dettaglio fattura " ++ (invoice_id (lookup "id" payload) ++ " recuperato.")

  unfoldable pub success_message_for_tool :
      String → Fields → Option String → Option String → Option ProductSearchContext → String
  unfolding success_message format_search_products_response format_get_product_response number_text
      lookup
  success_message_for_tool tool_id payload detail_focus product_label context =
      if tool_id == "windows.3utools.open"
      then success_message (is_dry_run (lookup "mode" payload))
      else if tool_id == "alpilab_check.search_products"
      then format_search_products_response p payload context
      else if tool_id == "alpilab_check.get_product"
      then format_get_product_response p payload detail_focus product_label
      else if tool_id == "alpilab_check.search_invoices"
      then invoices_answer (as_list (lookup "items" payload))
      else if tool_id == "alpilab_check.get_invoice"
      then invoice_answer payload
      else "Richiesta completata."
