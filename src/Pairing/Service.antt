-- ===== src/Pairing/Service.antt =====
-- app/pairing/service.py and the tables it writes (app/session/sqlite_store.py). A table is a
-- dictionary by its primary key: INSERT OR REPLACE is `put`. A time in a table is the number that its
-- text stands for. `ORDER BY` is not modelled: `list_clients` gives the clients by first pairing.
use alpilab_ai.Base.{
  ℕ, suc, ◌+◌, String, Bool, true, false, Option, none, some, List, map, not, ◌&&◌, ◌==◌, ltb,
  if◌then◌else◌,
}
use alpilab_ai.Base.Exec.{Result, ok, err}
use alpilab_ai.Base.Text.{strip, is_empty}
use alpilab_ai.Base.Dict.{Dict, get, put, values}
use alpilab_ai.Realtime.DeviceContext.{truthy}

-- What the machine and `secrets` answer: the n-th question gets the n-th value.
pub record Chance : Type 0 where
  pub code : ℕ → String
  pub token : ℕ → String
  pub client : ℕ → String
  pub clock : ℕ → ℕ

pub record Challenge : Type 0 where
  pub code : String
  pub created_at : ℕ
  pub expires_at : ℕ
  pub consumed : Bool

pub record PairedClient : Type 0 where
  pub client_id : String
  pub client_type : String
  pub platform : String
  pub device_name : String
  pub token : String
  pub status : String
  pub revoked : Bool
  pub paired_at : ℕ

-- The two tables, and how often the machine was asked.
pub record Store : Type 0 where
  pub challenges : Dict Challenge
  pub clients : Dict PairedClient
  pub reads : ℕ

-- `PairingError` by its code
pub data PairingError : Type 0 where
  invalid_pairing_code client_not_found : PairingError

pub record Pairing : Type 0 where
  pub client_id : String
  pub client_type : String
  pub platform : String
  pub device_name : String
  pub status : String
  pub revoked : Bool
  pub token : String

-- an empty text stands for the default
abbrev pub or_text : String → String → String
or_text s d = if is_empty s then d else s

module _ (c : Chance) where
  abbrev pub now : Store → ℕ × Store
  now st = (c.clock st.reads, record st { reads = suc st.reads })

  unfoldable pub create_pairing_challenge : String → ℕ → Store → Store
  create_pairing_challenge code expires_at st =
      let (t, st1) = now st in
      record st1 {
        challenges =
            put st1.challenges code
              (record { code = code; created_at = t; expires_at = expires_at; consumed = false });
      }

  -- `ttl` in microseconds; the code and the expiry are what the PC shows
  unfoldable pub start : ℕ → Store → (String × ℕ) × Store
  start ttl st =
      let code = c.code st.reads in
      let (t, st1) = now (record st { reads = suc st.reads }) in
      ((code, t + ttl), create_pairing_challenge code (t + ttl) st1)

  abbrev pub consume_found : String → Option Challenge → Store → Bool × Store
  consume_found code none st = (false, st)
  consume_found code (some ch) st =
      let (t, st1) = now st in
      if ch.consumed then (false, st) else if ltb ch.expires_at t then (false, st1) else (
        true,
        record st1 { challenges = put st1.challenges code (record ch { consumed = true }) },
      )

  unfoldable pub consume_pairing_challenge : String → Store → Bool × Store
  consume_pairing_challenge code st = consume_found code (get st.challenges code) st

  unfoldable pub save_paired_client :
      String → String → String → String → String → String → Store → Store
  save_paired_client client_id client_type platform device_name token status st =
      let (t, st1) = now st in
      record st1 {
        clients = put st1.clients client_id (record {
          client_id = client_id;
          client_type = client_type;
          platform = platform;
          device_name = device_name;
          token = token;
          status = status;
          revoked = false;
          paired_at = t;
        });
      }

  abbrev pub or_client : Option String → Store → String × Store
  or_client (some id) st = (id, st)
  or_client none st = (c.client st.reads, record st { reads = suc st.reads })

  abbrev pub complete_consumed :
      Option String → String → String → String → Bool × Store → Result PairingError Pairing × Store
  complete_consumed client_id client_type platform device_name (false, st) =
      (err invalid_pairing_code, st)
  complete_consumed client_id client_type platform device_name (true, st) =
      let (id, st1) = or_client (truthy client_id) st in
      let token = c.token st1.reads in
      let st2 =
        save_paired_client id (or_text client_type "phone") (or_text platform "unknown")
          (or_text device_name "Device") token "authorized"
          (record st1 { reads = suc st1.reads }) in
      (
        ok (record {
          client_id = id;
          client_type = client_type;
          platform = platform;
          device_name = device_name;
          status = "authorized";
          revoked = false;
          token = token;
        }),
        st2,
      )

  unfoldable pub complete :
      String
      → Option String
      → String
      → String
      → String
      → Store
      → Result PairingError Pairing × Store
  complete code client_id client_type platform device_name st =
      complete_consumed client_id client_type platform device_name
        (consume_pairing_challenge (strip code) st)

abbrev pub revoke_found : String → Option PairedClient → Store → Bool × Store
revoke_found client_id none st = (false, st)
revoke_found client_id (some row) st = (
  true,
  record st {
    clients = put st.clients client_id (record row { revoked = true; status = "revoked" });
  },
)

unfoldable pub revoke_paired_client : String → Store → Bool × Store
revoke_paired_client client_id st = revoke_found client_id (get st.clients client_id) st

unfoldable pub revoke : String → Store → Result PairingError (Unit {0}) × Store
revoke client_id st =
    let (done, st1) = revoke_paired_client client_id st in
    (if done then ok tt else err client_not_found, st1)

unfoldable pub get_paired_client : String → Store → Option PairedClient
get_paired_client client_id st = get st.clients client_id

-- the entry of the list of clients, which has no token
pub record ClientEntry : Type 0 where
  pub client_id : String
  pub client_type : String
  pub platform : String
  pub device_name : String
  pub status : String
  pub revoked : Bool
  pub paired_at : ℕ

unfoldable pub client_entry : PairedClient → ClientEntry
client_entry row = record {
  client_id = row.client_id;
  client_type = row.client_type;
  platform = row.platform;
  device_name = row.device_name;
  status = row.status;
  revoked = row.revoked;
  paired_at = row.paired_at;
}

unfoldable pub list_clients : Store → List ClientEntry
list_clients st = map client_entry (values st.clients)

abbrev pub token_matches : Option String → PairedClient → Bool
token_matches none row = false
token_matches (some token) row = row.token == token

abbrev pub authorized_row : Option String → Option PairedClient → Bool
authorized_row token none = false
authorized_row token (some row) = not row.revoked && token_matches token row

unfoldable pub is_authorized : String → Option String → Store → Bool
is_authorized client_id token st = authorized_row (truthy token) (get_paired_client client_id st)
