-- ===== src/Pairing/Clients.antt =====
-- Who is authorized: the devices that completed a pairing, until they are revoked.
use alpilab_ai.Base.{
  String, Bool, true, false, Option, none, some, List, [], ◌∷◌, not, ◌&&◌, ◌==◌, ◌≡◌, refl, inl,
  inr, arith, eq_refl, ltb, Bool-cases, if_rule,
}
use alpilab_ai.Base.Exec.{Result, ok}
use alpilab_ai.Base.Lists.{All}
use alpilab_ai.Base.Text.{strip}
use alpilab_ai.Base.Dict.{Dict, get, put, get-put_same, get-put_cases}
use alpilab_ai.Realtime.DeviceContext.{truthy}
use alpilab_ai.Pairing.Service.{
  Chance, Challenge, PairedClient, Store, PairingError, Pairing, or_client,
  create_pairing_challenge, consume_found, consume_pairing_challenge, save_paired_client, complete,
  complete_consumed, revoke_found, revoke_paired_client, revoke, is_authorized, authorized_row,
  get_paired_client,
}
use alpilab_ai.Pairing.OneUse.{Call, challenging, completing, revoking, apply, apply_all}

-- No device is paired under the id, or the one that is has been revoked.
abbrev pub IsOut : String → Dict PairedClient → Type 0
IsOut id d = (row : PairedClient) → get d id ≡ some row → row.revoked ≡ true

revoked-IsOut :
    (id k : String) (o : Option PairedClient) (st : Store)
    → get st.clients id ≡ o
    → IsOut k st.clients
    → IsOut k (revoke_found id o st).1.clients
revoked-IsOut id k none st e h = h
revoked-IsOut id k (some row) st e h = λ r found. elim (get-put_cases st.clients id k _ r found) [
  | inl new ↦ rw (← new.1) refl
  | inr old ↦ h r old.1
]

own_revoked-IsOut :
    (id : String) (o : Option PairedClient) (st : Store)
    → get st.clients id ≡ o
    → IsOut id (revoke_found id o st).1.clients
own_revoked-IsOut id none st e = λ r found. cc
own_revoked-IsOut id (some row) st e = λ r found. elim (get-put_cases st.clients id id _ r found) [
  | inl new ↦ rw (← new.1) refl
  | inr old ↦ let same : (id == id) ≡ true = eq_refl id in cc
]

out_refused :
    (token : Option String) (o : Option PairedClient)
    → ((row : PairedClient) → o ≡ some row → row.revoked ≡ true)
    → authorized_row token o ≡ false
out_refused token none h = refl
out_refused token (some row) h = rw (h row refl) refl

row_answer :
    (row : PairedClient) (t : String)
    → row.revoked ≡ false
    → authorized_row (truthy (some t)) (some row) ≡ (row.token == t && not (t == ""))
row_answer row t live = elim (Bool-cases (t == "")) [
  | inl blank ↦ rw (live, blank) (ground arith)
  | inr given ↦ rw (live, given) (ground arith)
]

ok_injective : {x y : Pairing} {r : Result PairingError Pairing} → r ≡ ok x → r ≡ ok y → x ≡ y
ok_injective e k = cc

-- The call may pair a device under the id: a device without an id of its own gets one by chance.
abbrev pairs_as : String → Option String → Bool
pairs_as k none = true
pairs_as k (some id) = id == k

abbrev pub pairs : String → Call → Bool
pairs k (challenging code expires_at) = false
pairs k (completing code id kind platform name) = pairs_as k (truthy id)
pairs k (revoking id) = false

module _ (c : Chance) where
  consumed_clients :
      (code : String) (o : Option Challenge) (st : Store)
      → (consume_found c code o st).1.clients ≡ st.clients
  consumed_clients code none st = refl
  consumed_clients code (some ch) st =
      if_rule {A = Bool × Store} (λ r. r.1.clients ≡ st.clients) ch.consumed refl
        (if_rule {A = Bool × Store} (λ r. r.1.clients ≡ st.clients)
          (ltb ch.expires_at (c.clock st.reads)) refl refl)

  -- the device that a pairing gives, and what its row says
  paired_row :
      (id : Option String) (kind platform name : String) (r : Bool × Store) (x : Pairing)
      → (complete_consumed c id kind platform name r).0 ≡ ok x
      → (row : PairedClient) × (get
            (complete_consumed c id kind platform name r).1.clients
            x.client_id
          ≡ some row)
        × (row.revoked ≡ false)
        × (row.token ≡ x.token)
  unfolding save_paired_client
  paired_row id kind platform name (false, st) x e = cc
  paired_row id kind platform name (true, st) x e =
      rw (← ok_injective refl e) (_, get-put_same _ _ _, refl, refl)

  named-IsOut :
      (id : Option String) (k : String) (st : Store) (row : PairedClient)
      → pairs_as k id ≡ false
      → IsOut k st.clients
      → IsOut k (put (or_client c id st).1.clients (or_client c id st).0 row)
  named-IsOut none k st row other h = cc
  named-IsOut (some id) k st row other h = λ r found.
      elim (get-put_cases st.clients id k row r found) [
        | inl new ↦ let same : (id == k) ≡ true = rw new.0 (eq_refl k) in cc
        | inr old ↦ h r old.1
      ]

  paired-IsOut :
      (id : Option String) (kind platform name k : String) (b : Bool) (st : Store)
      → pairs_as k (truthy id) ≡ false
      → IsOut k st.clients
      → IsOut k (complete_consumed c id kind platform name (b, st)).1.clients
  unfolding save_paired_client
  paired-IsOut id kind platform name k false st other h = h
  paired-IsOut id kind platform name k true st other h = named-IsOut (truthy id) k st _ other h

  apply-IsOut :
      (x : Call) (k : String) (st : Store)
      → pairs k x ≡ false
      → IsOut k st.clients
      → IsOut k (apply c x st).clients
  unfolding apply create_pairing_challenge complete consume_pairing_challenge revoke_paired_client
  apply-IsOut (challenging code expires_at) k st other h = h
  apply-IsOut (completing code id kind platform name) k st other h =
      paired-IsOut id kind platform name k (consume_pairing_challenge c (strip code) st).0
        (consume_pairing_challenge c (strip code) st).1 other
        (rw (consumed_clients (strip code) (get st.challenges (strip code)) st) h)
  apply-IsOut (revoking id) k st other h = revoked-IsOut id k (get st.clients id) st refl h

  apply_all-IsOut :
      (xs : List Call) (k : String) (st : Store)
      → All (λ x. pairs k x ≡ false) xs
      → IsOut k st.clients
      → IsOut k (apply_all c xs st).clients
  unfolding apply_all
  apply_all-IsOut [] k st other h = h
  apply_all-IsOut (x ∷ xs) k st other h =
      apply_all-IsOut xs k (apply c x st) other.1 (apply-IsOut x k st other.0 h)

  -- A revoked device is refused with any token, after any challenges, revocations and pairings of
  -- devices with other ids.
  pub is_authorized-revoke :
      (id : String) (token : Option String) (xs : List Call) (st : Store)
      → All (λ x. pairs id x ≡ false) xs
      → is_authorized id token (apply_all c xs (revoke id st).1) ≡ false
  unfolding is_authorized get_paired_client revoke revoke_paired_client
  is_authorized-revoke id token xs st other = out_refused (truthy token) _ (
      apply_all-IsOut xs id (revoke id st).1 other
        (own_revoked-IsOut id (get st.clients id) st refl))

  -- A device that completes a pairing is authorized with the token it gets, unless that is empty, and
  -- with no other token.
  pub is_authorized-complete :
      (code : String) (id : Option String) (kind platform name : String) (x : Pairing) (st : Store)
      (token : String)
      → (complete c code id kind platform name st).0 ≡ ok x
      → is_authorized x.client_id (some token) (complete c code id kind platform name st).1
        ≡ (x.token == token && not (token == ""))
  unfolding is_authorized get_paired_client complete
  is_authorized-complete code id kind platform name x st token done =
      let (row, found, live, same) = paired_row id kind platform name _ x done in
      rw (found, ← same) (row_answer row token live)
