-- ===== src/Realtime/DeviceContext.antt =====
-- app/schemas/device_context.py: the name shown for a device, and the promotion of a detected one.
use Prim.Native.String.{◌++◌}
use alpilab_ai.Base.{ℕ, String, Option, none, some, if◌then◌else◌}
use alpilab_ai.Base.Text.{is_empty}
use alpilab_ai.Realtime.Payloads.{DetectedDevice, DeviceContext}

-- `if p`: None and "" are dropped
abbrev pub truthy : Option String → Option String
truthy none = none
truthy (some s) = if is_empty s then none else some s

-- `" ".join(parts) if parts else self.id`, over the parts that are left
abbrev join_parts : Option String → Option String → String → String
join_parts none none id = id
join_parts (some brand) none id = brand
join_parts none (some model) id = model
join_parts (some brand) (some model) id = brand ++ (" " ++ model)

unfoldable pub display_name : DetectedDevice → String
display_name d = join_parts (truthy d.brand) (truthy d.model) d.id

unfoldable pub from_detected : DetectedDevice → Option ℕ → DeviceContext
from_detected d associated_at = record {
  id = d.id;
  brand = d.brand;
  model = d.model;
  variant = d.variant;
  serial_number = d.serial_number;
  imei = d.imei;
  color = none;
  storage = none;
  battery_health = none;
  connection_type = d.connection_type;
  source = d.source;
  detected_at = d.detected_at;
  associated_at = associated_at;
  metadata = d.metadata;
}
