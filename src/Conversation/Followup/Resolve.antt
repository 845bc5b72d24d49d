-- ===== src/Conversation/Followup/Resolve.antt =====
-- app/conversation/alpilab_check_followup.py: which product a follow-up is about, and whether it asks
-- for a detail or selects. The context is changed in place, so the resolution comes with it.
use alpilab_ai.Base.{
  ℕ, suc, String, Bool, true, false, Option, none, some, List, [], ◌∷◌, ◌==◌, not, ◌&&◌, ◌||◌,
  if◌then◌else◌, is_some, leb, or_else,
}
use Prim.Native.Char.{Char, code}
use Prim.Native.String as Str
use Prim.Native.String.{◌++◌}
use alpilab_ai.Base.Json.{field, end, string}
use alpilab_ai.Base.Lists.{get_elem?}
use alpilab_ai.Base.Platform.{Platform, number_text}
use alpilab_ai.Base.Text.{strip, contains_text, starts_with, len}
use alpilab_ai.Commands.Intents.{Intent, open_tool}
use alpilab_ai.Commands.Parser.{match_confidence}
use alpilab_ai.Conversation.Products.{
  ProductSearchItem, ProductSearchContext, format_product_label, mark_product_selected,
}
use alpilab_ai.Conversation.Products.Messages.{
  format_disambiguation_message, format_selection_confirmation,
}
use alpilab_ai.Conversation.Followup.{
  normalize, is_general_conversation, has_anaphora, extract_ordinal, extract_number_index,
  extract_detail_focus, is_detail_request, continues, looks_like_product_followup,
  strip_selection_prefixes, extract_model_phrase,
}

pub data FollowUpOutcome : Type 0 where
  no_match action selection clarification : FollowUpOutcome

pub record FollowUpResolution : Type 0 where
  pub outcome : FollowUpOutcome
  pub intent : Option Intent
  pub message : Option String
  pub detail_focus : Option String
  pub product_index : Option ℕ

-- `[a-z0-9]`
abbrev token_char : ℕ → Bool
token_char c = (leb 97 c && leb c 122) || (leb 48 c && leb c 57)

abbrev extend_token : Bool → List String → Char → List String
extend_token true [] c = Str.◌∷◌ c Str.[] ∷ []
extend_token true (t ∷ ts) c = Str.◌∷◌ c t ∷ ts
extend_token false ts c = Str.[] ∷ ts

-- `re.split(r"[^a-z0-9]+", s)`; a run of separators leaves empty tokens between, which the test of
-- the length drops.
abbrev split_tokens : String → List String
split_tokens Str.[] = "" ∷ []
split_tokens (Str.◌∷◌ c s) = extend_token (token_char (code c)) (split_tokens s) c

abbrev long_tokens : List String → List String
long_tokens [] = []
long_tokens (t ∷ ts) = let rest = long_tokens ts in if leb 3 (len t) then t ∷ rest else rest

abbrev all_in : List String → String → Bool
all_in [] s = true
all_in (t ∷ ts) s = contains_text t s && all_in ts s

abbrev is_none_left : List String → Bool
is_none_left [] = true
is_none_left (t ∷ ts) = false

-- `" ".join(part for part in parts if part)`
abbrev join_words : List String → String
join_words [] = ""
join_words (part ∷ parts) =
    let rest = join_words parts in
    if part == "" then rest else if rest == "" then part else part ++ (" " ++ rest)

module _ (p : Platform) where
  unfoldable pub item_search_blob : ProductSearchItem → String
  item_search_blob item =
      normalize p (join_words (item.brand ∷ item.model ∷ item.model_code ∷ item.name ∷ []))

  unfoldable pub fits : String → ProductSearchItem → Bool
  fits query item =
      let blob = item_search_blob item in
      let model = normalize p item.model in
      let label = normalize p (format_product_label item) in
      let tokens = long_tokens (split_tokens query) in
      not (blob == "")
      && (query == model
          || query == label
          || query == blob
          || (not (model == "") && (contains_text query model || contains_text model query))
          || (not (is_none_left tokens) && all_in tokens blob))

  abbrev indexes_from : String → ℕ → List ProductSearchItem → List ℕ
  indexes_from query index [] = []
  indexes_from query index (item ∷ items) =
      let rest = indexes_from query (suc index) items in
      if fits query item then index ∷ rest else rest

  unfoldable pub match_candidate_indexes : String → ProductSearchContext → List ℕ
  match_candidate_indexes phrase context =
      let query = strip_selection_prefixes phrase in
      if leb (len query) 1 then [] else indexes_from query 0 context.items

abbrev ordinal_labels : List String
ordinal_labels = "primo" ∷ "secondo" ∷ "terzo" ∷ "quarto" ∷ "quinto" ∷ []

abbrev ordinal_label : ℕ → String
ordinal_label index = or_else (get_elem? ordinal_labels index) (number_text (suc index))

unfoldable pub ordinal_clarification : ℕ → String
ordinal_clarification index =
    "Non ho un " ++ (ordinal_label index ++ " prodotto tra i risultati della ricerca.")

unfoldable pub model_not_found_message : String → ProductSearchContext → String
model_not_found_message phrase context =
    let cleaned = strip phrase in
    "Non ho trovato "
    ++ ((if cleaned == "" then "quel modello" else cleaned)
        ++ (" tra i risultati della ricerca.\n" ++ format_disambiguation_message context.items))

unfoldable pub make_get_product_intent : String → ProductSearchItem → Intent
make_get_product_intent text item = record {
  type = open_tool;
  target = some "alpilab_check.get_product";
  parameters = field "product_id" (string item.id) end;
  raw_text = text;
  confidence = match_confidence;
}

abbrev pub unmatched : FollowUpResolution
unmatched = record {
  outcome = no_match;
  intent = none;
  message = none;
  detail_focus = none;
  product_index = none;
}

abbrev pub clarify : String → Option ℕ → FollowUpResolution
clarify message index = record {
  outcome = clarification;
  intent = none;
  message = some message;
  detail_focus = none;
  product_index = index;
}

-- What the long conditional comes to: an index or an answer.
pub data Choice : Type 0 where
  chosen : ℕ → Choice
  answered : FollowUpResolution → Choice

-- `not phrase`, for a phrase that may be None
abbrev pub has_text : Option String → Bool
has_text none = false
has_text (some phrase) = not (phrase == "")

abbrev pub or_query : Option String → String → String
or_query none s = s
or_query (some phrase) s = if phrase == "" then s else phrase

abbrev pub only_item : List ProductSearchItem → Choice → Choice
only_item [] later = later
only_item (item ∷ []) later = chosen 0
only_item (item ∷ other ∷ items) later = later

abbrev pub selected_or : Option ℕ → Choice → Choice
selected_or (some index) later = chosen index
selected_or none later = later

abbrev pub resolve_item :
    Option ProductSearchItem → ℕ → Bool → Option String → String → FollowUpResolution
resolve_item none index wants_detail detail_focus text =
    clarify (ordinal_clarification index) (some index)
resolve_item (some item) index true detail_focus text = record {
  outcome = action;
  intent = some (make_get_product_intent text item);
  message = none;
  detail_focus = some (or_else detail_focus "prezzo");
  product_index = some index;
}
resolve_item (some item) index false detail_focus text = record {
  outcome = selection;
  intent = none;
  message = some (format_selection_confirmation item);
  detail_focus = none;
  product_index = some index;
}

-- An index out of range selects nothing.
abbrev pub resolve_choice :
    Choice
    → ProductSearchContext
    → Bool
    → Option String
    → String
    → FollowUpResolution × ProductSearchContext
resolve_choice (answered r) context wants_detail detail_focus text = (r, context)
resolve_choice (chosen index) context wants_detail detail_focus text = (
  resolve_item (get_elem? context.items index) index wants_detail detail_focus text,
  mark_product_selected context index,
)

module _ (p : Platform) where
  abbrev pub or_stripped : List ℕ → Bool → String → ProductSearchContext → List ℕ
  or_stripped (i ∷ is) wants_detail s context = i ∷ is
  or_stripped [] wants_detail s context =
      if wants_detail then [] else match_candidate_indexes p (strip_selection_prefixes s) context

  unfoldable pub name_matches : String → ProductSearchContext → Bool → List ℕ
  name_matches s context wants_detail =
      let model_phrase = extract_model_phrase p s in
      if not (is_some model_phrase)
        && wants_detail
        && (is_some (extract_ordinal p s)
            || is_some (extract_number_index p s)
            || is_some context.selected_index)
      then []
      else or_stripped (match_candidate_indexes p (or_query model_phrase s) context) wants_detail s
          context

  -- no index and no name in the text
  abbrev pub choose_without_name : String → ProductSearchContext → Bool → Choice
  choose_without_name s context wants_detail =
      let prompt = format_disambiguation_message context.items in
      if has_text (extract_model_phrase p s) && not wants_detail
      then answered
          (clarify (model_not_found_message (or_else (extract_model_phrase p s) "") context) none)
      else if context.awaiting_selection && not wants_detail
      then answered (
          clarify
            (if has_anaphora p s || continues p s || starts_with s "e "
              then prompt
              else "Non ho riconosciuto quel modello tra i risultati.\n" ++ prompt)
            none)
      else selected_or context.selected_index (
          only_item context.items
            (answered (if wants_detail then clarify prompt none else unmatched)))

  abbrev pub choose_by_name : List ℕ → String → ProductSearchContext → Bool → Choice
  choose_by_name [] s context wants_detail = choose_without_name s context wants_detail
  choose_by_name (i ∷ []) s context wants_detail = chosen i
  choose_by_name (i ∷ j ∷ is) s context wants_detail =
      answered (clarify (format_disambiguation_message context.items) none)

  unfoldable pub choose : String → ProductSearchContext → Bool → Choice
  choose s context wants_detail = selected_or (extract_number_index p s) (
      selected_or (extract_ordinal p s)
        (choose_by_name (name_matches s context wants_detail) s context wants_detail))

  abbrev pub resolve_text :
      String → String → ProductSearchContext → FollowUpResolution × ProductSearchContext
  resolve_text s text context =
      let detail_focus = extract_detail_focus p s in
      let wants_detail = is_detail_request p s detail_focus in
      if s == "" || is_general_conversation p s
      then (unmatched, context)
      else if not (
          looks_like_product_followup p s context.awaiting_selection
            (is_some context.selected_index))
      then (unmatched, context)
      else resolve_choice (choose s context wants_detail) context wants_detail detail_focus text

  abbrev pub resolve_items :
      List ProductSearchItem
      → String
      → ProductSearchContext
      → FollowUpResolution × ProductSearchContext
  resolve_items [] text context = (unmatched, context)
  resolve_items (item ∷ items) text context = resolve_text (normalize p text) text context

  abbrev pub resolve_context :
      String → Option ProductSearchContext → FollowUpResolution × Option ProductSearchContext
  resolve_context text none = (unmatched, none)
  resolve_context text (some context) =
      let r = resolve_items context.items text context in (r.0, some r.1)

  unfoldable pub resolve_product_followup :
      String → Option ProductSearchContext → FollowUpResolution × Option ProductSearchContext
  resolve_product_followup text context = resolve_context text context
