-- ===== src/Pairing/ClientAuth.antt =====
-- app/security/client_auth.py: which clients may open the socket of a session. The environment
-- variable and the kind of the session store are arguments.
pub mod Loopback
pub mod Admission
use Prim.Native.Char.{code}
use Prim.Native.String.{[], ◌∷◌}
use alpilab_ai.Base.{
  ℕ, String, Bool, true, false, Option, none, some, not, ◌||◌, ◌&&◌, ◌==◌, ◌≡◌, ◌=?◌, refl, inl,
  inr, if◌then◌else◌, Bool-cases,
}
use alpilab_ai.Base.Exec.{Result, ok, err}
use alpilab_ai.Base.Text.{strip, is_empty, starts_with}
use alpilab_ai.Realtime.DeviceContext.{truthy}
use alpilab_ai.Pairing.Service.{Store, is_authorized}

pub data ClientAuthError : Type 0 where
  pairing_required unauthorized : ClientAuthError

-- What the process runs with: ALPILAB_REQUIRE_CLIENT_PAIRING (empty if it is not set), the kind of the
-- session store, and that store if it is a `SQLiteSessionStore`.
pub record Settings : Type 0 where
  pub require_pairing : String
  pub backend : String
  pub store : Option Store
  pub lower : String → String

unfoldable pub pairing_enforced : Settings → Bool
pairing_enforced s =
    let value = s.lower (strip s.require_pairing) in
    if value == "1" || value == "true" || value == "yes"
    then true
    else if value == "0" || value == "false" || value == "no"
    then false
    else s.backend == "sqlite"

-- `s.split("%")[0]`
unfoldable pub before_percent : String → String
before_percent [] = []
before_percent (c ∷ s) = let rest = before_percent s in if code c =? b'%' then [] else c ∷ rest

abbrev is_bracket : ℕ → Bool
is_bracket c = c =? b'[' || c =? b']'

unfoldable pub lstrip_brackets : String → String
lstrip_brackets [] = []
lstrip_brackets (c ∷ s) = elim (is_bracket (code c)) [ true ↦ lstrip_brackets s | false ↦ c ∷ s ]

unfoldable pub rstrip_brackets : String → String
rstrip_brackets [] = []
rstrip_brackets (c ∷ s) =
    let r = rstrip_brackets s in if is_bracket (code c) && r == "" then [] else c ∷ r

-- `LOOPBACK_HOSTS`
unfoldable pub is_loopback_name : String → Bool
is_loopback_name h = h == "127.0.0.1" || h == "::1" || h == "localhost" || h == "testclient"

-- `h.split("::ffff:", 1)[1]` where the text starts with it
abbrev pub after_mapped : String → String
after_mapped (a ∷ b ∷ c ∷ d ∷ e ∷ f ∷ g ∷ rest) = rest
after_mapped s = []

abbrev pub loopback_found : Settings → Option String → Bool
loopback_found s none = false
loopback_found s (some host) =
    let h = rstrip_brackets (lstrip_brackets (s.lower (before_percent host))) in
    if is_loopback_name h
    then true
    else if starts_with h "::ffff:"
    then is_loopback_name (after_mapped h)
    else false

unfoldable pub is_loopback_host : Settings → Option String → Bool
is_loopback_host s host = loopback_found s (truthy host)

unfoldable pub is_local_hub_ui : Settings → Option String → String → Bool
is_local_hub_ui s host device_type = is_loopback_host s host && s.lower (strip device_type) == "pc"

abbrev pub token_checked : String → Option String → Store → Result ClientAuthError (Unit {0})
token_checked device_id none store = err pairing_required
token_checked device_id (some token) store =
    if not (is_authorized device_id (some token) store) then err unauthorized else ok tt

abbrev pub store_checked : String → Option String → Option Store → Result ClientAuthError (Unit {0})
store_checked device_id token none = err pairing_required
store_checked device_id token (some store) = token_checked device_id token store

unfoldable pub authorize_session_client :
    Settings → Option String → String → String → Option String → Result ClientAuthError (Unit {0})
authorize_session_client s host device_id device_type pairing_token =
    if not (pairing_enforced s)
    then ok tt
    else if is_local_hub_ui s host device_type
    then ok tt
    else store_checked device_id (truthy pairing_token) s.store

pub truthy_given : (o : Option String) (t : String) → truthy o ≡ some t → o ≡ some t
truthy_given none t e = cc
truthy_given (some x) t e = elim (Bool-cases (is_empty x)) [
  | inl blank ↦ let missing : none ≡ some t = rw blank at e in cc
  | inr given ↦ rw given at e
]
