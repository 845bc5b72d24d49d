-- ===== src/Pairing/ClientAuth/Admission.antt =====
-- Which clients are let into a session.
use alpilab_ai.Base.{
  String, Bool, true, false, Option, none, some, not, ◌&&◌, ◌||◌, ◌==◌, ◌≡◌, ◌≢◌, ◌⊎◌, ◌↔◌, refl,
  inl, inr, Bool-cases, arith, eq_iff, if_rule,
}
use alpilab_ai.Base.Exec.{ok, err}
use alpilab_ai.Base.Text.{strip, is_empty}
use alpilab_ai.Realtime.DeviceContext.{truthy}
use alpilab_ai.Pairing.Service.{
  Store, is_authorized, get_paired_client, authorized_row, PairedClient,
}
use alpilab_ai.Pairing.ClientAuth.Loopback.{IsOwn, bare-IsOwn, IsOwn-bare}
use alpilab_ai.Pairing.ClientAuth.{
  Settings, unauthorized, pairing_enforced, before_percent, lstrip_brackets, rstrip_brackets,
  loopback_found, is_loopback_host, is_local_hub_ui, token_checked, store_checked,
  authorize_session_client, truthy_given,
}

-- Pairing is not asked for: the variable turns it off, or says nothing and the store is not SQLite.
pub data NotAsked (value backend : String) : Type 0 where
  turned_off : (value ≡ "0") ⊎ (value ≡ "false") ⊎ (value ≡ "no") → NotAsked value backend
  by_default :
      value ≢ "1" → value ≢ "true" → value ≢ "yes" → backend ≢ "sqlite" → NotAsked value backend

abbrev pub variable : Settings → String
variable s = s.lower (strip s.require_pairing)

-- A host without its zone and its brackets.
abbrev pub bare : Settings → String → String
bare s host = rstrip_brackets (lstrip_brackets (s.lower (before_percent host)))

-- What lets a client in.
pub data Admitted (s : Settings) (host : Option String) (device_id device_type : String)
    (token : Option String) : Type 0 where
  not_asked : NotAsked (variable s) s.backend → Admitted s host device_id device_type token
  local_ui :
      (h : String)
      → host ≡ some h
      → h ≢ ""
      → IsOwn (bare s h)
      → s.lower (strip device_type) ≡ "pc"
      → Admitted s host device_id device_type token
  paired :
      (store : Store) (t : String)
      → s.store ≡ some store
      → token ≡ some t
      → is_authorized device_id (some t) store ≡ true
      → Admitted s host device_id device_type token

enforced-NotAsked : (s : Settings) → pairing_enforced s ≡ false → NotAsked (variable s) s.backend
unfolding pairing_enforced
enforced-NotAsked s h =
    let v = variable s in
    elim (Bool-cases (v == "1" || v == "true" || v == "yes")) [
      | inl on ↦ let clash : true ≡ false = rw on at h in cc
      | inr silent ↦ elim (Bool-cases (v == "0" || v == "false" || v == "no")) [
        | inl off ↦ turned_off (ground (arith, eq_iff v "0", eq_iff v "false", eq_iff v "no"))
        | inr unset ↦
            let other : (s.backend == "sqlite") ≡ false = rw (silent, unset) at h in
            by_default (λ e. ground (arith, eq_iff v "1")) (λ e. ground (arith, eq_iff v "true"))
              (λ e. ground (arith, eq_iff v "yes")) (λ e. ground (arith, eq_iff s.backend "sqlite"))
      ]
    ]

NotAsked-enforced : (s : Settings) → NotAsked (variable s) s.backend → pairing_enforced s ≡ false
unfolding pairing_enforced
NotAsked-enforced s (turned_off (inl e)) = rw e refl
NotAsked-enforced s (turned_off (inr (inl e))) = rw e refl
NotAsked-enforced s (turned_off (inr (inr e))) = rw e refl
NotAsked-enforced s (by_default a b c d) = ground (
  arith,
  eq_iff (variable s) "1",
  eq_iff (variable s) "true",
  eq_iff (variable s) "yes",
  eq_iff s.backend "sqlite",
)

is_empty-blank : (t : String) → is_empty t ≡ true → t ≡ ""
is_empty-blank t h = ground (arith, eq_iff t "")

given_or_blank : (t : String) → ((truthy (some t) ≡ some t) × (t ≢ "")) ⊎ (t ≡ "")
given_or_blank t = elim (Bool-cases (is_empty t)) [
  | inl blank ↦ inr (is_empty-blank t blank)
  | inr given ↦ inl (rw given refl, λ e. let clash : true ≡ false = rw e at given in cc)
]

and_true : (a b : Bool) → (a && b) ≡ true → (a ≡ true) × (b ≡ true)
and_true true b h = (refl, h)
and_true false b h = cc

local-Admitted :
    (s : Settings) (host : Option String) (device_id device_type : String) (token : Option String)
    → is_local_hub_ui s host device_type ≡ true
    → Admitted s host device_id device_type token
unfolding is_local_hub_ui is_loopback_host
local-Admitted s none device_id device_type token e = cc
local-Admitted s (some h) device_id device_type token e =
    let (here, pc) =
      and_true (loopback_found s (truthy (some h))) (s.lower (strip device_type) == "pc") e in
    elim (given_or_blank h) [
      | inl (same, given) ↦
          local_ui h refl given (bare-IsOwn (bare s h) (rw same at here))
            (ground (arith, eq_iff (s.lower (strip device_type)) "pc"))
      | inr blank ↦ let clash : false ≡ true = rw blank at here in cc
    ]

local-is_local_hub_ui :
    (s : Settings) (h device_type : String)
    → h ≢ ""
    → IsOwn (bare s h)
    → s.lower (strip device_type) ≡ "pc"
    → is_local_hub_ui s (some h) device_type ≡ true
unfolding is_local_hub_ui is_loopback_host
local-is_local_hub_ui s h device_type given own pc = elim (given_or_blank h) [
  | inl (same, _) ↦ rw (same, IsOwn-bare own, pc) refl
  | inr blank ↦ absurd (given blank)
]

checked_token :
    (device_id : String) (o : Option String) (store : Store)
    → token_checked device_id o store ≡ ok tt
    → (t : String) × (o ≡ some t) × (is_authorized device_id (some t) store ≡ true)
checked_token device_id none store e = cc
checked_token device_id (some t) store e =
    elim (Bool-cases (is_authorized device_id (some t) store)) [
      | inl granted ↦ (t, refl, granted)
      | inr denied ↦ let refused : err unauthorized ≡ ok tt = rw denied at e in cc
    ]

checked_store :
    (s : Settings) (host : Option String) (device_id device_type : String) (token : Option String)
    (o : Option Store)
    → s.store ≡ o
    → store_checked device_id (truthy token) o ≡ ok tt
    → Admitted s host device_id device_type token
checked_store s host device_id device_type token none found e = cc
checked_store s host device_id device_type token (some store) found e =
    let (t, given, granted) = checked_token device_id (truthy token) store e in
    paired store t found (truthy_given token t given) granted

allowed-Admitted :
    (s : Settings) (host : Option String) (device_id device_type : String) (token : Option String)
    → authorize_session_client s host device_id device_type token ≡ ok tt
    → Admitted s host device_id device_type token
unfolding authorize_session_client
allowed-Admitted s host device_id device_type token e = elim (Bool-cases (pairing_enforced s)) [
  | inr off ↦ not_asked (enforced-NotAsked s off)
  | inl on ↦ elim (Bool-cases (is_local_hub_ui s host device_type)) [
    | inl mine ↦ local-Admitted s host device_id device_type token mine
    | inr other ↦
        checked_store s host device_id device_type token s.store refl (rw (on, other) at e)
  ]
]

no_token : (row : Option PairedClient) → authorized_row none row ≡ false
no_token none = refl
no_token (some row) = ground arith

blank-refused :
    (device_id : String) (store : Store) → is_authorized device_id (some "") store ≢ true
unfolding is_authorized
blank-refused device_id store h = let refused = no_token (get_paired_client device_id store) in cc

-- A token that is authorized passes the store's check.
paired-checked :
    (device_id t : String) (store : Store)
    → is_authorized device_id (some t) store ≡ true
    → store_checked device_id (truthy (some t)) (some store) ≡ ok tt
paired-checked device_id t store granted = elim (given_or_blank t) [
  | inl (given, _) ↦ rw given rw granted refl
  | inr blank ↦ absurd (blank-refused device_id store (rw blank at granted))
]

any_branch :
    (s : Settings) (host : Option String) (device_id device_type : String) (token : Option String)
    → store_checked device_id (truthy token) s.store ≡ ok tt
    → authorize_session_client s host device_id device_type token ≡ ok tt
unfolding authorize_session_client
any_branch s host device_id device_type token h =
    if_rule (λ r. r ≡ ok tt) (not (pairing_enforced s)) refl
      (if_rule (λ r. r ≡ ok tt) (is_local_hub_ui s host device_type) refl h)

Admitted-allowed :
    (s : Settings) (host : Option String) (device_id device_type : String) (token : Option String)
    → Admitted s host device_id device_type token
    → authorize_session_client s host device_id device_type token ≡ ok tt
unfolding authorize_session_client
Admitted-allowed s host device_id device_type token (not_asked h) = rw (NotAsked-enforced s h) refl
Admitted-allowed s host device_id device_type token (local_ui h e given own pc) =
    if_rule (λ r. r ≡ ok tt) (not (pairing_enforced s)) refl
      (rw e rw (local-is_local_hub_ui s h device_type given own pc) refl)
Admitted-allowed s host device_id device_type token (paired store t found e granted) =
    any_branch s host device_id device_type token
      (rw (e, found) (paired-checked device_id t store granted))

-- A client is let into a session exactly if pairing is not asked for (the variable turns it off, or it
-- says nothing and the store is not SQLite), or the client comes from the PC itself, by one of its
-- loopback names or addresses, and says that it is a PC, or it gives a token that is authorized for
-- its id in the SQLite store.
pub authorize_session_client-Admitted :
    (s : Settings) (host : Option String) (device_id device_type : String) (token : Option String)
    → (authorize_session_client s host device_id device_type token ≡ ok tt)
      ↔ Admitted s host device_id device_type token
authorize_session_client-Admitted s host device_id device_type token = (
  allowed-Admitted s host device_id device_type token,
  Admitted-allowed s host device_id device_type token,
)
