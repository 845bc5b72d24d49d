-- ===== src/Conversation/Followup.antt =====
-- app/conversation/alpilab_check_followup.py: the patterns, and what they extract from a text.
pub mod Resolve
pub mod Selections
use alpilab_ai.Base.{
  ℕ, ◌+◌, zero, suc, String, Bool, true, false, Option, none, some, List, [], ◌∷◌, ◌==◌, not, ◌&&◌,
  ◌||◌, if◌then◌else◌, is_some, leb, ltb, ◌=?◌,
}
use Prim.Native.Char.{code}
use Prim.Native.Nat.{◌*◌}
use Prim.Native.String as Str
use Prim.Native.String.{◌++◌}
use alpilab_ai.Base.Platform.{Platform}
use alpilab_ai.Base.Regex.{
  Pattern, literal, class_of, many, few, optional, group, boundary, at_start, at_end, either, ◌▸◌,
  spaces, maybe_spaces, any_char, one_of, search, match_start, group_of, fold_case,
}
use alpilab_ai.Base.Text.{
  strip, replace, collapse_spaces, rstrip_chars, contains_text, starts_with, len, drop,
}
use alpilab_ai.Commands.Parser.{question_mark, word_char, any_found, stripped}
use alpilab_ai.Conversation.Products.{ProductSearchItem, ProductSearchContext, format_product_label}

module _ (p : Platform) where
  unfoldable pub normalize : String → String
  unfolding strip replace collapse_spaces rstrip_chars
  normalize text =
      strip
        (rstrip_chars question_mark (collapse_spaces (replace "+" " plus " (p.lower (strip text)))))

  -- `\b`
  abbrev edge : Pattern
  edge = boundary (word_char p)

  -- `\b…\b`
  abbrev word : String → Pattern
  word t = edge ▸ literal t ▸ edge

  abbrev general_conversation_blockers : List Pattern
  general_conversation_blockers =
      literal "non si accende"
      ∷ literal "boot loop"
      ∷ literal "quanto costa riparare"
      ∷ (literal "riparare"
          ▸ spaces
          ▸ optional (literal "un" ▸ spaces)
          ▸ one_of "iphone" ("telefono" ∷ "dispositivo" ∷ "cellulare" ∷ []))
      ∷ (literal "con"
          ▸ spaces
          ▸ optional (either (literal "il" ▸ spaces) (literal "lo" ▸ spaces))
          ▸ literal "schermo rotto")
      ∷ word "schermo rotto"
      ∷ word "il mio iphone"
      ∷ word "ho un iphone"
      ∷ literal "secondo te"
      ∷ literal "conviene riparar"
      ∷ literal "come posso"
      ∷ literal "come controllo"
      ∷ literal "pp_vdd"
      ∷ word "problema"
      ∷ word "diagnosi"
      ∷ word "help"
      ∷ word "aiuto"
      ∷ []

  unfoldable pub is_general_conversation : String → Bool
  is_general_conversation s = any_found p general_conversation_blockers s

  abbrev anaphora_patterns : List Pattern
  anaphora_patterns =
      literal "quello che hai trovato"
      ∷ literal "quello trovato"
      ∷ literal "questo prodotto"
      ∷ literal "tra i risultati"
      ∷ literal "della ricerca"
      ∷ literal "che hai trovato"
      ∷ []

  unfoldable pub has_anaphora : String → Bool
  has_anaphora s = any_found p anaphora_patterns s

  -- `stem[oa]`
  abbrev gendered : String → Pattern
  gendered stem = literal stem ▸ one_of "o" ("a" ∷ [])

  abbrev with_article : String → Pattern
  with_article stem =
      edge ▸ optional (group (literal "e" ▸ spaces)) ▸ literal "il" ▸ spaces ▸ gendered stem ▸ edge

  abbrev without_article : String → Pattern
  without_article stem = edge ▸ gendered stem ▸ edge

  abbrev ordinal_patterns : List (Pattern × ℕ)
  ordinal_patterns =
      (with_article "quint", 4)
      ∷ (with_article "quart", 3)
      ∷ (with_article "terz", 2)
      ∷ (with_article "second", 1)
      ∷ (without_article "quint", 4)
      ∷ (without_article "quart", 3)
      ∷ (without_article "terz", 2)
      ∷ (without_article "second", 1)
      ∷ (without_article "prim", 0)
      ∷ []

  abbrev pub first_found {ℓ} : {A : Type ℓ} → List (Pattern × A) → String → Option A
  first_found [] s = none
  first_found ((r, a) ∷ rs) s = if is_some (search r s) then some a else first_found rs s

  unfoldable pub extract_ordinal : String → Option ℕ
  extract_ordinal s = first_found ordinal_patterns s

  -- `\d`
  abbrev is_digit : ℕ → Bool
  is_digit c = is_some (p.decimal c)

  -- `\d{1,2}`
  abbrev one_or_two_digits : Pattern
  one_or_two_digits = class_of is_digit ▸ optional (class_of is_digit)

  abbrev number_index : Pattern
  number_index =
      at_start
      ▸ maybe_spaces
      ▸ group one_or_two_digits
      ▸ maybe_spaces
      ▸ optional (literal ".")
      ▸ maybe_spaces
      ▸ at_end

  -- `°` or `o`
  abbrev degree : ℕ → Bool
  degree c = c =? 0xb0 || fold_case c =? 111

  abbrev explicit_index : Pattern
  explicit_index =
      at_start
      ▸ either (literal "il" ▸ spaces) (
          either (literal "numero" ▸ spaces)
            (either (literal "n" ▸ class_of degree ▸ maybe_spaces) (literal "#" ▸ maybe_spaces)))
      ▸ group one_or_two_digits
      ▸ maybe_spaces
      ▸ at_end

  abbrev digit_value : Option ℕ → ℕ
  digit_value none = 0
  digit_value (some v) = v

  -- `int(s)` of digits, after the digits that make `value`
  abbrev int_from : ℕ → String → ℕ
  int_from value Str.[] = value
  int_from value (Str.◌∷◌ c s) = int_from (value * 10 + digit_value (p.decimal (code c))) s

  -- `value - 1 if value >= 1 else None`
  abbrev one_less : ℕ → Option ℕ
  one_less zero = none
  one_less (suc n) = some n

  abbrev index_of : Option String → Option ℕ
  index_of none = none
  index_of (some digits) = one_less (int_from 0 digits)

  unfoldable pub extract_number_index : String → Option ℕ
  extract_number_index s =
      if is_some (match_start number_index s)
      then index_of (group_of (match_start number_index s))
      else index_of (group_of (match_start explicit_index s))

  abbrev detail_patterns : List (Pattern × String)
  detail_patterns =
      (word "servizi", "servizi")
      ∷ (either (word "schermo") (either (word "display") (word "vetro")), "schermo")
      ∷ (word "batteria", "batteria")
      ∷ (word "manodopera", "manodopera")
      ∷ (edge ▸ literal "riparazion", "riparazione")
      ∷ (edge ▸ literal "compatibil", "compatibile")
      ∷ (word "prezzo", "prezzo")
      ∷ []

  abbrev followup_price : Pattern
  followup_price =
      either (literal "quanto" ▸ spaces ▸ one_of "costa" ("viene" ∷ "costerebbe" ∷ []))
        (word "costo")

  abbrev followup_show : Pattern
  followup_show = literal "fammi vedere"

  abbrev followup_continuation : Pattern
  followup_continuation =
      at_start
      ▸ optional (literal "e" ▸ spaces)
      ▸ one_of "la" ("il" ∷ "lo" ∷ "i" ∷ "gli" ∷ "un" ∷ "una" ∷ [])
      ▸ spaces
      ▸ many (word_char p)

  abbrev price_focus : Option String → String → Option String
  price_focus (some focus) s = some focus
  price_focus none s = if is_some (search followup_price s) then some "prezzo" else none

  unfoldable pub extract_detail_focus : String → Option String
  extract_detail_focus s = price_focus (first_found detail_patterns s) s

  unfoldable pub is_detail_request : String → Option String → Bool
  is_detail_request s detail_focus = is_some detail_focus || is_some (search followup_show s)

  unfoldable pub continues : String → Bool
  continues s = is_some (match_start followup_continuation s)

  abbrev selection_hints : List Pattern
  selection_hints =
      word "intendo"
      ∷ (edge ▸ literal "scegli" ▸ optional (one_of "o" ("ere" ∷ [])) ▸ edge)
      ∷ word "prendi"
      ∷ word "quello"
      ∷ word "questo"
      ∷ []

  unfoldable pub looks_like_product_followup : String → Bool → Bool → Bool
  looks_like_product_followup s awaiting_selection has_selection =
      is_some (extract_ordinal s)
      || is_some (extract_number_index s)
      || has_anaphora s
      || is_some (extract_detail_focus s)
      || is_some (search followup_price s)
      || is_some (search followup_show s)
      || continues s
      || starts_with s "e "
      || (awaiting_selection && (any_found p selection_hints s || leb (len s) 40))
      || (has_selection && leb (len s) 40)

abbrev without_prefixes : List String → String → String
without_prefixes [] value = value
without_prefixes (prefix ∷ prefixes) value =
    without_prefixes prefixes
      (if starts_with value prefix then strip (drop (len prefix) value) else value)

unfoldable pub strip_selection_prefixes : String → String
strip_selection_prefixes query =
    without_prefixes
      ("e per " ∷ "per " ∷ "e " ∷ "quello " ∷ "questa " ∷ "questo " ∷ "il " ∷ "la " ∷ "lo " ∷ "un "
        ∷ "una " ∷ [])
      query

abbrev model_after_per : Pattern
model_after_per =
    at_start
    ▸ optional (literal "e" ▸ spaces)
    ▸ literal "per"
    ▸ spaces
    ▸ optional
        (either (literal "il" ▸ spaces) (either (literal "lo" ▸ spaces) (literal "la" ▸ spaces)))
    ▸ group (many any_char)
    ▸ at_end

module _ (p : Platform) where
  abbrev model_after_del : Pattern
  model_after_del =
      boundary (word_char p)
      ▸ one_of "del" ("della" ∷ "dello" ∷ [])
      ▸ spaces
      ▸ optional (literal "prodotto" ▸ spaces)
      ▸ group (many any_char)
      ▸ at_end

  abbrev phrase_or : Option String → Option String → Option String
  phrase_or none none = none
  phrase_or none (some phrase) = some (strip_selection_prefixes phrase)
  phrase_or (some phrase) later = some (strip_selection_prefixes phrase)

  unfoldable pub extract_model_phrase : String → Option String
  extract_model_phrase s =
      phrase_or (stripped (group_of (search model_after_del s)))
        (stripped (group_of (match_start model_after_per s)))
