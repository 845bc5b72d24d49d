-- ===== src/Tools/Authorization.antt =====
-- app/security/tool_authorization.py: whether a tool may be sent to an agent.
use alpilab_ai.Base.{
  String, Bool, true, false, Option, none, some, List, [], ◌∷◌, ◌≡◌, not, ◌&&◌, ◌==◌, if◌then◌else◌,
  refl, inl, inr, Bool-cases, ◌↔◌,
}
use alpilab_ai.Base.Lists.{All}
use alpilab_ai.Base.Text.{starts_with, ends_with}
use alpilab_ai.Agent.Payloads.{Capabilities}
use alpilab_ai.Tools.Executable.{
  ActionRiskLevel, read_only, safe, confirm_required, dangerous, ExecutableToolSpec,
}

-- The entries `error` and `capability` of the metadata are fields.
pub record ActionAuthorization : Type 0 where
  pub allowed : Bool
  pub requires_confirmation : Bool
  pub risk_level : ActionRiskLevel
  pub reason : String
  pub error : Option String
  pub capability : Option String

abbrev is_auto_risk : ActionRiskLevel → Bool
is_auto_risk read_only = true
is_auto_risk safe = true
is_auto_risk confirm_required = false
is_auto_risk dangerous = false

abbrev is_confirm_required : ActionRiskLevel → Bool
is_confirm_required read_only = false
is_confirm_required safe = false
is_confirm_required confirm_required = true
is_confirm_required dangerous = false

unfoldable pub is_auto_executable : ExecutableToolSpec → Bool
is_auto_executable tool =
    if is_auto_risk tool.risk_level
    then true
    else if starts_with tool.tool_id "windows." && ends_with tool.tool_id ".open"
    then is_confirm_required tool.risk_level
    else false

-- `agent_capabilities.model_dump().get(name, False)`
unfoldable pub has_capability : Capabilities → String → Bool
has_capability c name =
    if name == "safe_test"
    then c.safe_test
    else if name == "windows_apps"
    then c.windows_apps
    else if name == "alpilab_check"
    then c.alpilab_check
    else if name == "microscope"
    then c.microscope
    else if name == "thermal_camera"
    then c.thermal_camera
    else if name == "multimeter"
    then c.multimeter
    else if name == "power_supply"
    then c.power_supply
    else false

abbrev check_capabilities : ActionRiskLevel → Capabilities → List String → ActionAuthorization
check_capabilities risk c [] = record {
  allowed = true;
  requires_confirmation = false;
  risk_level = risk;
  reason = "authorized";
  error = none;
  capability = none;
}
check_capabilities risk c (required ∷ rest) =
    let later = check_capabilities risk c rest in
    if not (has_capability c required)
    then record {
      allowed = false;
      requires_confirmation = false;
      risk_level = risk;
      reason = "capability_missing";
      error = some "CAPABILITY_MISSING";
      capability = some required;
    }
    else later

unfoldable pub authorize_tool_execution : ExecutableToolSpec → Capabilities → ActionAuthorization
authorize_tool_execution tool c =
    if not tool.enabled
    then record {
      allowed = false;
      requires_confirmation = false;
      risk_level = tool.risk_level;
      reason = "tool_disabled";
      error = some "TOOL_DISABLED";
      capability = none;
    }
    else if not (is_auto_executable tool)
    then record {
      allowed = false;
      requires_confirmation = true;
      risk_level = tool.risk_level;
      reason = "risk_level_not_auto_executable";
      error = some "AUTHORIZATION_DENIED";
      capability = none;
    }
    else check_capabilities tool.risk_level c tool.required_capabilities

-- The risk lets the tool run without a confirmation: it is READ_ONLY or SAFE, or it is
-- CONFIRM_REQUIRED and the tool opens an application of Windows.
pub data RunsAlone (tool : ExecutableToolSpec) : Type 0 where
  reads : tool.risk_level ≡ read_only → RunsAlone tool
  harmless : tool.risk_level ≡ safe → RunsAlone tool
  opens_application :
      tool.risk_level ≡ confirm_required
      → starts_with tool.tool_id "windows." ≡ true
      → ends_with tool.tool_id ".open" ≡ true
      → RunsAlone tool

-- The tool is enabled, its risk lets it run alone, and the agent has each capability it needs.
pub record MayRun (tool : ExecutableToolSpec) (c : Capabilities) : Type 0 where
  pub enabled : tool.enabled ≡ true
  pub alone : RunsAlone tool
  pub capable : All (λ r. has_capability c r ≡ true) tool.required_capabilities

RunsAlone-of_risk :
    (tool : ExecutableToolSpec) (risk : ActionRiskLevel)
    → tool.risk_level ≡ risk
    → is_auto_executable tool ≡ true
    → RunsAlone tool
unfolding is_auto_executable
RunsAlone-of_risk tool read_only e h = reads e
RunsAlone-of_risk tool safe e h = harmless e
RunsAlone-of_risk tool confirm_required e h =
    elim (Bool-cases (starts_with tool.tool_id "windows.")) [
      | inl windows ↦ elim (Bool-cases (ends_with tool.tool_id ".open")) [
        | inl opens ↦ opens_application e windows opens
        | inr other ↦ let refused : false ≡ true = rw (e, windows, other) at h in cc
      ]
      | inr other ↦ let refused : false ≡ true = rw (e, other) at h in cc
    ]
RunsAlone-of_risk tool dangerous e h =
    elim (Bool-cases (starts_with tool.tool_id "windows." && ends_with tool.tool_id ".open")) [
      | inl opens ↦ let refused : false ≡ true = rw (e, opens) at h in cc
      | inr other ↦ let refused : false ≡ true = rw (e, other) at h in cc
    ]

RunsAlone-auto : (tool : ExecutableToolSpec) → RunsAlone tool → is_auto_executable tool ≡ true
unfolding is_auto_executable
RunsAlone-auto tool (reads risk) = rw risk refl
RunsAlone-auto tool (harmless risk) = rw risk refl
RunsAlone-auto tool (opens_application risk windows opens) = rw (risk, windows, opens) refl

check_capabilities-capable :
    (risk : ActionRiskLevel) (c : Capabilities) (rs : List String)
    → (check_capabilities risk c rs).allowed ≡ true
    → All (λ r. has_capability c r ≡ true) rs
check_capabilities-capable risk c [] h = tt
check_capabilities-capable risk c (r ∷ rs) h = elim (Bool-cases (has_capability c r)) [
  | inl has ↦ (has, check_capabilities-capable risk c rs (rw has at h))
  | inr lacks ↦ let refused : false ≡ true = rw lacks at h in cc
]

capable-check_capabilities :
    (risk : ActionRiskLevel) (c : Capabilities) (rs : List String)
    → All (λ r. has_capability c r ≡ true) rs
    → (check_capabilities risk c rs).allowed ≡ true
capable-check_capabilities risk c [] h = refl
capable-check_capabilities risk c (r ∷ rs) h = rw h.0 (capable-check_capabilities risk c rs h.1)

pub allowed-MayRun :
    (tool : ExecutableToolSpec) (c : Capabilities)
    → (authorize_tool_execution tool c).allowed ≡ true
    → MayRun tool c
unfolding authorize_tool_execution is_auto_executable
allowed-MayRun tool c h = elim (Bool-cases tool.enabled) [
  | inl on ↦ elim (Bool-cases (is_auto_executable tool)) [
    | inl auto ↦ record {
      enabled = on;
      alone = RunsAlone-of_risk tool tool.risk_level refl auto;
      capable =
          check_capabilities-capable tool.risk_level c tool.required_capabilities
            (rw auto at (rw on at h));
    }
    | inr held ↦ let refused : false ≡ true = rw held at (rw on at h) in cc
  ]
  | inr off ↦ let refused : false ≡ true = rw off at h in cc
]

MayRun-allowed :
    (tool : ExecutableToolSpec) (c : Capabilities)
    → MayRun tool c
    → (authorize_tool_execution tool c).allowed ≡ true
unfolding authorize_tool_execution is_auto_executable
MayRun-allowed tool c h =
    rw h.enabled rw (RunsAlone-auto tool h.alone)
      (capable-check_capabilities tool.risk_level c tool.required_capabilities h.capable)

-- The server allows a tool on an agent exactly if the tool is enabled; its risk is READ_ONLY or SAFE,
-- or CONFIRM_REQUIRED for a tool whose id begins with `windows.` and ends with `.open`; and the agent
-- declares each capability that the tool requires.
pub authorize_tool_execution-MayRun :
    (tool : ExecutableToolSpec) (c : Capabilities)
    → ((authorize_tool_execution tool c).allowed ≡ true) ↔ MayRun tool c
authorize_tool_execution-MayRun tool c = (allowed-MayRun tool c, MayRun-allowed tool c)
