-- ===== src/Tests/Pairing.antt =====
-- Pairing: the properties at concrete inputs.
use alpilab_ai.Base.{false, some, ◌↔◌, [], ◌∷◌, not, ◌&&◌, ◌≡◌, refl, ◌==◌}
use alpilab_ai.Base.Exec.{err, ok}
use alpilab_ai.Base.Dict.{get, put}
use alpilab_ai.Base.Text.{strip}
use alpilab_ai.Pairing.Service.{
  Chance, Store, Pairing, invalid_pairing_code, complete, consume_pairing_challenge,
  save_paired_client, revoke, is_authorized,
}
use alpilab_ai.Pairing.OneUse.{challenging, completing, revoking, apply_all, complete_once}
use alpilab_ai.Pairing.Clients.{is_authorized-revoke, is_authorized-complete}
use alpilab_ai.Pairing.ClientAuth.Admission.{Admitted, authorize_session_client-Admitted}
use alpilab_ai.Pairing.ClientAuth.{Settings, authorize_session_client}

abbrev chance : Chance
chance = record {
  code = λ n. "123456";
  token = λ n. "tok";
  client = λ n. "client-1";
  clock = λ n. n;
}

-- The PC shows the code 123456, which lasts until the time 99.
abbrev shown : Store
shown = record {
  challenges =
      ("123456", record { code = "123456"; created_at = 0; expires_at = 99; consumed = false })
      ∷ [];
  clients = [];
  reads = 1;
}

program : Unit {0}
unfolding complete consume_pairing_challenge save_paired_client get put strip
program = tt

abbrev pairing : Pairing
pairing = record {
  client_id = "phone-1";
  client_type = "phone";
  platform = "android";
  device_name = "Telefono";
  status = "authorized";
  revoked = false;
  token = "tok";
}

complete_once_example :
    (complete chance "123456" (some "phone-2") "phone" "ios" "Altro" (
      apply_all chance
        (revoking "phone-1" ∷ challenging "654321" 50 ∷ [])
        (complete chance " 123456" (some "phone-1") "phone" "android" "Telefono" shown).1)).0
    ≡ err invalid_pairing_code
unfolding program
complete_once_example =
    complete_once chance " 123456" "123456" (some "phone-1") (some "phone-2") "phone" "android"
      "Telefono" "phone" "ios" "Altro" pairing (revoking "phone-1" ∷ challenging "654321" 50 ∷ [])
      shown refl refl (refl, (refl, tt))

is_authorized-complete_example :
    is_authorized "phone-1"
      (some "tok")
      (complete chance "123456" (some "phone-1") "phone" "android" "Telefono" shown).1
    ≡ ("tok" == "tok" && not ("tok" == ""))
unfolding program
is_authorized-complete_example =
    is_authorized-complete chance "123456" (some "phone-1") "phone" "android" "Telefono" pairing
      shown "tok" refl

is_authorized-revoke_example :
    is_authorized "phone-1" (some "tok") (
      apply_all chance
        (completing "123456" (some "phone-2") "phone" "ios" "Altro" ∷ [])
        (revoke "phone-1"
          (complete chance "123456" (some "phone-1") "phone" "android" "Telefono" shown).1).1)
    ≡ false
is_authorized-revoke_example =
    is_authorized-revoke chance "phone-1" (some "tok")
      (completing "123456" (some "phone-2") "phone" "ios" "Altro" ∷ [])
      (complete chance "123456" (some "phone-1") "phone" "android" "Telefono" shown).1 (refl, tt)

abbrev settings : Settings
settings = record {
  require_pairing = "1";
  backend = "sqlite";
  store = some (complete chance "123456" (some "phone-1") "phone" "android" "Telefono" shown).1;
  lower = λ s. s;
}

authorize_session_client-Admitted_example :
    (authorize_session_client settings (some "192.168.1.7") "phone-1" "phone" (some "tok") ≡ ok tt)
    ↔ Admitted settings (some "192.168.1.7") "phone-1" "phone" (some "tok")
authorize_session_client-Admitted_example =
    authorize_session_client-Admitted settings (some "192.168.1.7") "phone-1" "phone" (some "tok")
