-- ===== src/Pairing/OneUse.antt =====
-- A pairing code pairs one device: once it is used it is refused, whatever happens until the PC shows
-- the same code again.
use alpilab_ai.Base.{
  ℕ, String, Bool, true, false, Option, none, some, List, [], ◌∷◌, ◌==◌, ◌≡◌, refl, inl, inr, arith,
  ltb, Bool-cases, if_rule, some_injective, sym, ◌∙◌,
}
use alpilab_ai.Base.Exec.{ok, err}
use alpilab_ai.Base.Lists.{All}
use alpilab_ai.Base.Text.{strip}
use alpilab_ai.Base.Dict.{Dict, get, put, get-put, get-put_same, get-put_other}
use alpilab_ai.Realtime.DeviceContext.{truthy}
use alpilab_ai.Pairing.Service.{
  Chance, Challenge, PairedClient, Store, invalid_pairing_code, Pairing, or_client,
  create_pairing_challenge, consume_found, consume_pairing_challenge, save_paired_client, complete,
  complete_consumed, revoke_found, revoke_paired_client,
}

-- What is done to the tables.
pub data Call : Type 0 where
  challenging : String → ℕ → Call
  completing : String → Option String → String → String → String → Call
  revoking : String → Call

-- The code cannot pair: there is a challenge for it that is consumed.
abbrev pub IsSpent : String → Dict Challenge → Type 0
IsSpent code d = (ch : Challenge) × (get d code ≡ some ch) × (ch.consumed ≡ true)

-- The call shows the code again.
abbrev pub shows : String → Call → Bool
shows code (challenging k expires_at) = k == code
shows code (completing k id kind platform name) = false
shows code (revoking id) = false

put-IsSpent :
    (d : Dict Challenge) (code k : String) (ch : Challenge)
    → ch.consumed ≡ true
    → IsSpent k d
    → IsSpent k (put d code ch)
put-IsSpent d code k ch used h = elim (Bool-cases (code == k)) [
  | inl same ↦ (ch, ground (arith, get-put d code k ch), used)
  | inr other ↦ (h.0, get-put_other d code k ch h.0 other h.1, h.2)
]

IsSpent-moved : (k : String) {d d' : Dict Challenge} → d' ≡ d → IsSpent k d → IsSpent k d'
IsSpent-moved k e h = (h.0, rw e h.1, h.2)

revoked_challenges :
    (id : String) (o : Option PairedClient) (st : Store)
    → (revoke_found id o st).1.challenges ≡ st.challenges
revoked_challenges id none st = refl
revoked_challenges id (some row) st = refl

module _ (c : Chance) where
  unfoldable pub apply : Call → Store → Store
  apply (challenging code expires_at) st = create_pairing_challenge c code expires_at st
  apply (completing code id kind platform name) st = (complete c code id kind platform name st).1
  apply (revoking id) st = (revoke_paired_client id st).1

  unfoldable pub apply_all : List Call → Store → Store
  apply_all [] st = st
  apply_all (x ∷ xs) st = apply_all xs (apply x st)

  issued_challenges :
      (id : Option String) (st : Store) → (or_client c id st).1.challenges ≡ st.challenges
  issued_challenges none st = refl
  issued_challenges (some x) st = refl

  consumed_challenges :
      (id : Option String) (kind platform name : String) (r : Bool × Store)
      → (complete_consumed c id kind platform name r).1.challenges ≡ r.1.challenges
  unfolding save_paired_client
  consumed_challenges id kind platform name (false, st) = refl
  consumed_challenges id kind platform name (true, st) = issued_challenges (truthy id) st

  consume-IsSpent :
      (code k : String) (o : Option Challenge) (st : Store)
      → IsSpent k st.challenges
      → IsSpent k (consume_found c code o st).1.challenges
  consume-IsSpent code k none st h = h
  consume-IsSpent code k (some ch) st h =
      if_rule {A = Bool × Store} (λ r. IsSpent k r.1.challenges) ch.consumed h
        (if_rule {A = Bool × Store} (λ r. IsSpent k r.1.challenges)
          (ltb ch.expires_at (c.clock st.reads)) h
          (put-IsSpent st.challenges code k (record ch { consumed = true }) refl h))

  apply-IsSpent :
      (x : Call) (k : String) (st : Store)
      → shows k x ≡ false
      → IsSpent k st.challenges
      → IsSpent k (apply x st).challenges
  unfolding apply create_pairing_challenge complete consume_pairing_challenge revoke_paired_client
  apply-IsSpent (challenging code expires_at) k st other h =
      (h.0, get-put_other st.challenges code k _ h.0 other h.1, h.2)
  apply-IsSpent (completing code id kind platform name) k st other h =
      IsSpent-moved k (consumed_challenges id kind platform name _)
        (consume-IsSpent (strip code) k (get st.challenges (strip code)) st h)
  apply-IsSpent (revoking id) k st other h =
      IsSpent-moved k (revoked_challenges id (get st.clients id) st) h

  apply_all-IsSpent :
      (xs : List Call) (k : String) (st : Store)
      → All (λ x. shows k x ≡ false) xs
      → IsSpent k st.challenges
      → IsSpent k (apply_all xs st).challenges
  unfolding apply_all
  apply_all-IsSpent [] k st other h = h
  apply_all-IsSpent (x ∷ xs) k st other h =
      apply_all-IsSpent xs k (apply x st) other.1 (apply-IsSpent x k st other.0 h)

  consumed-IsSpent :
      (code : String) (o : Option Challenge) (st : Store)
      → (consume_found c code o st).0 ≡ true
      → IsSpent code (consume_found c code o st).1.challenges
  consumed-IsSpent code none st e = cc
  consumed-IsSpent code (some ch) st e = elim (Bool-cases ch.consumed) [
    | inl used ↦ let refused : false ≡ true = rw used at e in cc
    | inr unused ↦ elim (Bool-cases (ltb ch.expires_at (c.clock st.reads))) [
      | inl late ↦ let refused : false ≡ true = rw (unused, late) at e in cc
      | inr timely ↦ rw (unused, timely) (_, get-put_same st.challenges code _, refl)
    ]
  ]

  spent_refused :
      (code : String) (o : Option Challenge) (st : Store)
      → get st.challenges code ≡ o
      → IsSpent code st.challenges
      → (consume_found c code o st).0 ≡ false
  spent_refused code none st e h = refl
  spent_refused code (some ch) st e h =
      let same : ch ≡ h.0 = some_injective (sym e ∙ h.1) in
      let used : ch.consumed ≡ true = rw same h.2 in rw used refl

  refused_consumed :
      (id : Option String) (kind platform name : String) (r : Bool × Store)
      → r.0 ≡ false
      → ((complete_consumed c id kind platform name r).0 ≡ err invalid_pairing_code)
        × ((complete_consumed c id kind platform name r).1.clients ≡ r.1.clients)
  refused_consumed id kind platform name (false, st) e = (refl, refl)
  refused_consumed id kind platform name (true, st) e = cc

  accepted_consumed :
      (id : Option String) (kind platform name : String) (r : Bool × Store) (x : Pairing)
      → (complete_consumed c id kind platform name r).0 ≡ ok x
      → r.0 ≡ true
  accepted_consumed id kind platform name (false, st) x e = cc
  accepted_consumed id kind platform name (true, st) x e = refl

  -- Once a code has paired a device, it is refused to every device that gives it, after any challenges
  -- for other codes, further pairings and revocations.
  pub complete_once :
      (code code' : String) (id id' : Option String) (kind platform name : String)
      (kind' platform' name' : String) (x : Pairing) (xs : List Call) (st : Store)
      → (complete c code id kind platform name st).0 ≡ ok x
      → strip code' ≡ strip code
      → All (λ y. shows (strip code) y ≡ false) xs
      → (complete c code' id' kind' platform' name'
          (apply_all xs (complete c code id kind platform name st).1)).0
        ≡ err invalid_pairing_code
  unfolding complete consume_pairing_challenge
  complete_once code code' id id' kind platform name kind' platform' name' x xs st done same other =
      let used : (consume_found c (strip code) (get st.challenges (strip code)) st).0 ≡ true =
        accepted_consumed id kind platform name _ x done in
      let spent : IsSpent (strip code) (complete c code id kind platform name st).1.challenges =
        IsSpent-moved (strip code) (consumed_challenges id kind platform name _)
          (consumed-IsSpent (strip code) (get st.challenges (strip code)) st used) in
      (refused_consumed id' kind' platform' name' _ (
        spent_refused (strip code') _ _ refl
          (rw same (apply_all-IsSpent xs (strip code) _ other spent)))).0
