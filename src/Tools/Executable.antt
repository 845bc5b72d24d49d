-- ===== src/Tools/Executable.antt =====
-- app/tools/executable.py and the executable part of app/tools/registry.py.
use alpilab_ai.Base.{
  String, Bool, true, false, Option, none, some, List, [], ◌∷◌, not, ◌&&◌, ◌||◌, ◌==◌,
  if◌then◌else◌, is_some,
}
use alpilab_ai.Base.Dict.{Dict, get, put}
use alpilab_ai.Base.Json.{Fields, keys}

pub data ActionRiskLevel : Type 0 where
  read_only safe confirm_required dangerous : ActionRiskLevel

pub data ToolType : Type 0 where
  microscope thermal_camera multimeter power_supply software_3utools : ToolType
  software_borneo software_zxw alpilab_check generic : ToolType

-- `allowed_argument_keys` is a set: only `contains` reads it.
pub record ExecutableToolSpec : Type 0 where
  pub tool_id : String
  pub name : String
  pub description : String
  pub version : String
  pub tool_type : ToolType
  pub risk_level : ActionRiskLevel
  pub required_capabilities : List String
  pub enabled : Bool
  pub allowed_argument_keys : List String

-- `k in s`
unfoldable pub contains : List String → String → Bool
contains [] k = false
contains (x ∷ xs) k = x == k || contains xs k

-- `xs & ys` is not empty
unfoldable pub meets : List String → List String → Bool
unfolding contains
meets [] ys = false
meets (x ∷ xs) ys = contains ys x || meets xs ys

-- `xs <= ys`
unfoldable pub is_subset : List String → List String → Bool
unfolding contains
is_subset [] ys = true
is_subset (x ∷ xs) ys = contains ys x && is_subset xs ys

abbrev pub forbidden_remote_argument_keys : List String
forbidden_remote_argument_keys =
    "path" ∷ "executable" ∷ "executable_path" ∷ "shell_command" ∷ "command" ∷ "args" ∷ []

-- The arguments are a dict by their type, so the first test of the source is left out.
unfoldable pub validate_tool_arguments : ExecutableToolSpec → Fields → Option String
validate_tool_arguments spec arguments =
    let given = keys arguments in
    if meets given forbidden_remote_argument_keys
    then some "INVALID_ARGUMENTS"
    else if is_subset given spec.allowed_argument_keys && is_subset spec.allowed_argument_keys given
    then none
    else some "INVALID_ARGUMENTS"

abbrev pub safe_test_tool : ExecutableToolSpec
safe_test_tool = record {
  tool_id = "demo.safe_test";
  name = "Safe Test";
  description = "Executes a harmless local test on the PC Agent";
  version = "1.0";
  tool_type = generic;
  risk_level = safe;
  required_capabilities = "safe_test" ∷ [];
  enabled = true;
  allowed_argument_keys = [];
}

abbrev pub windows_3utools_open_tool : ExecutableToolSpec
windows_3utools_open_tool = record {
  tool_id = "windows.3utools.open";
  name = "Open 3uTools";
  description = "Open the locally registered 3uTools installation on the PC Agent";
  version = "1.0";
  tool_type = software_3utools;
  risk_level = confirm_required;
  required_capabilities = "windows_apps" ∷ [];
  enabled = true;
  allowed_argument_keys = [];
}

abbrev pub alpilab_check_search_products_tool : ExecutableToolSpec
alpilab_check_search_products_tool = record {
  tool_id = "alpilab_check.search_products";
  name = "Alpilab Check: Search Products";
  description = "Search products through local Alpilab Check bridge v1";
  version = "1.0";
  tool_type = alpilab_check;
  risk_level = read_only;
  required_capabilities = "alpilab_check" ∷ [];
  enabled = true;
  allowed_argument_keys = "query" ∷ "limit" ∷ [];
}

abbrev pub alpilab_check_get_product_tool : ExecutableToolSpec
alpilab_check_get_product_tool = record {
  tool_id = "alpilab_check.get_product";
  name = "Alpilab Check: Get Product";
  description = "Get product details through local Alpilab Check bridge v1";
  version = "1.0";
  tool_type = alpilab_check;
  risk_level = read_only;
  required_capabilities = "alpilab_check" ∷ [];
  enabled = true;
  allowed_argument_keys = "product_id" ∷ [];
}

abbrev pub alpilab_check_search_invoices_tool : ExecutableToolSpec
alpilab_check_search_invoices_tool = record {
  tool_id = "alpilab_check.search_invoices";
  name = "Alpilab Check: Search Invoices";
  description = "Search invoices through local Alpilab Check bridge v1";
  version = "1.0";
  tool_type = alpilab_check;
  risk_level = read_only;
  required_capabilities = "alpilab_check" ∷ [];
  enabled = true;
  allowed_argument_keys = "query" ∷ "limit" ∷ [];
}

abbrev pub alpilab_check_get_invoice_tool : ExecutableToolSpec
alpilab_check_get_invoice_tool = record {
  tool_id = "alpilab_check.get_invoice";
  name = "Alpilab Check: Get Invoice";
  description = "Get invoice details through local Alpilab Check bridge v1";
  version = "1.0";
  tool_type = alpilab_check;
  risk_level = read_only;
  required_capabilities = "alpilab_check" ∷ [];
  enabled = true;
  allowed_argument_keys = "invoice_id" ∷ [];
}

unfoldable pub register_executable :
    ExecutableToolSpec → Dict ExecutableToolSpec → Dict ExecutableToolSpec
register_executable spec registry = put registry spec.tool_id spec

unfoldable pub get_executable : String → Dict ExecutableToolSpec → Option ExecutableToolSpec
get_executable tool_id registry = get registry tool_id

abbrev enabled_spec : Option ExecutableToolSpec → Option ExecutableToolSpec
enabled_spec none = none
enabled_spec (some spec) = if not spec.enabled then none else some spec

unfoldable pub is_enabled : String → Dict ExecutableToolSpec → Bool
is_enabled tool_id registry = is_some (enabled_spec (get registry tool_id))

unfoldable pub resolve_executable : String → Dict ExecutableToolSpec → Option ExecutableToolSpec
resolve_executable tool_id registry = enabled_spec (get registry tool_id)

unfoldable pub seed_executable : Dict ExecutableToolSpec → Dict ExecutableToolSpec
unfolding register_executable
seed_executable registry = register_executable alpilab_check_get_invoice_tool (
    register_executable alpilab_check_search_invoices_tool (
      register_executable alpilab_check_get_product_tool (
        register_executable alpilab_check_search_products_tool (
          register_executable windows_3utools_open_tool
            (register_executable safe_test_tool registry)))))
