-- ===== src/Commands/Intents.antt =====
-- The intents of app/schemas/commands.py and app/schemas/enums.py, and
-- app/commands/tool_resolution.py.
use alpilab_ai.Base.{
  ℕ, String, Bool, true, false, Option, none, some, [], ◌∷◌, ◌==◌, not, if◌then◌else◌,
}
use alpilab_ai.Base.Dict.{Dict, get}
use alpilab_ai.Base.Json.{Fields}

pub data IntentType : Type 0 where
  conversation open_tool open_application close_tool capture_image save_measurement : IntentType
  show_schema continue_diagnosis stop pause resume reset_diagnostic_flow unknown : IntentType

-- `confidence` counts tenths.
pub record Intent : Type 0 where
  pub type : IntentType
  pub target : Option String
  pub parameters : Fields
  pub raw_text : String
  pub confidence : ℕ

abbrev pub application_tool_map : Dict String
application_tool_map =
    ("3utools", "windows.3utools.open")
    ∷ ("alpilab_check.search_products", "alpilab_check.search_products")
    ∷ ("alpilab_check.get_product", "alpilab_check.get_product")
    ∷ ("alpilab_check.search_invoices", "alpilab_check.search_invoices")
    ∷ ("alpilab_check.get_invoice", "alpilab_check.get_invoice")
    ∷ []

abbrev opens : IntentType → Bool
opens open_tool = true
opens open_application = true
opens _ = false

abbrev mapped_target : Option String → Option String
mapped_target none = none
mapped_target (some target) = if target == "" then none else get application_tool_map target

unfoldable pub resolve_tool_id : Intent → Option String
unfolding get
resolve_tool_id intent = if not (opens intent.type) then none else mapped_target intent.target
