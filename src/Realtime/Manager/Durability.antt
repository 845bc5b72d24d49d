-- ===== src/Realtime/Manager/Durability.antt =====
-- Every live session is on disk: the table of snapshots holds, under each session's id, what
-- `persistable_snapshot` gives of the session now.
use alpilab_ai.Base.{
  String, ◌≡◌, refl, false, Option, none, some, inl, inr, arith, ◌==◌, eq_iff, Bool-cases,
}
use alpilab_ai.Base.Dict.{Dict, get, get-put, get-put_cases}
use alpilab_ai.Realtime.Payloads.{Snapshot}
use alpilab_ai.Realtime.State.{SessionData}
use alpilab_ai.Realtime.Manager.{
  Manager, save, persist_found, get_session, set_session, persist_session, persistable_snapshot,
}
use alpilab_ai.Realtime.Manager.Frame.{SameCore}

pub record IsDurable (m : Manager) : Type 0 where
  pub at :
      (sid : String) (s : SessionData) (table : Dict Snapshot)
      → get m.sessions sid ≡ some s
      → m.persistence_store ≡ some table
      → get table sid ≡ some (persistable_snapshot s)

-- What changes neither the sessions nor the table keeps the property.
pub SameCore-IsDurable : {m m' : Manager} → SameCore m m' → IsDurable m → IsDurable m'
SameCore-IsDurable same h = record {
  at = λ sid s table e k. h.at sid s table (rw same.sessions at e) (rw same.store at k);
}

-- The same of every session but one, whose latest change may not have been saved yet.
pub record IsDurableBut (but : String) (m : Manager) : Type 0 where
  pub at :
      (sid : String) (s : SessionData) (table : Dict Snapshot)
      → (but == sid) ≡ false
      → get m.sessions sid ≡ some s
      → m.persistence_store ≡ some table
      → get table sid ≡ some (persistable_snapshot s)

pub IsDurable-IsDurableBut : (sid : String) {m : Manager} → IsDurable m → IsDurableBut sid m
IsDurable-IsDurableBut sid h = record { at = λ j t table _ e k. h.at j t table e k }

pub SameCore-IsDurableBut :
    (sid : String) {m m' : Manager} → SameCore m m' → IsDurableBut sid m → IsDurableBut sid m'
SameCore-IsDurableBut sid same h = record {
  at = λ j s table n e k. h.at j s table n (rw same.sessions at e) (rw same.store at k);
}

pub set_session-IsDurableBut :
    (sid : String) (s : SessionData) (m : Manager)
    → IsDurableBut sid m
    → IsDurableBut sid (set_session sid s m)
unfolding set_session
set_session-IsDurableBut sid s m h = record {
  at = λ j t table n e k. h.at j t table n (ground (arith, get-put m.sessions sid j s)) k;
}

save_at :
    (sid j : String) (s t : SessionData) (m : Manager) (old : Option (Dict Snapshot))
    (table : Dict Snapshot)
    → get m.sessions sid ≡ some s
    → m.persistence_store ≡ old
    → IsDurableBut sid m
    → get m.sessions j ≡ some t
    → save sid s old ≡ some table
    → get table j ≡ some (persistable_snapshot t)
save_at sid j s t m none table found kept h e k = cc
save_at sid j s t m (some tb) table found kept h e k = ground (
  arith,
  get-put tb sid j (persistable_snapshot s),
  eq_iff sid j,
  λ (n : (sid == j) ≡ false). h.at j t tb n e kept,
)

-- Without a session to save, nothing was owed.
none_at :
    (sid j : String) (t : SessionData) (m : Manager) (table : Dict Snapshot)
    → get m.sessions sid ≡ none
    → IsDurableBut sid m
    → get m.sessions j ≡ some t
    → m.persistence_store ≡ some table
    → get table j ≡ some (persistable_snapshot t)
none_at sid j t m table missing h e k = elim (Bool-cases (sid == j)) [
  | inl same ↦ ground (arith, eq_iff sid j)
  | inr other ↦ h.at j t table other e k
]

persist_found-IsDurable :
    (sid : String) (o : Option SessionData) (m : Manager)
    → get m.sessions sid ≡ o
    → IsDurableBut sid m
    → IsDurable (persist_found sid o m)
persist_found-IsDurable sid none m found h = record {
  at = λ j t table e k. none_at sid j t m table found h e k;
}
persist_found-IsDurable sid (some s) m found h = record {
  at = λ j t table e k. save_at sid j s t m m.persistence_store table found refl h e k;
}

-- To persist a session pays what is owed for it.
pub persist_session-IsDurable :
    (sid : String) (m : Manager) → IsDurableBut sid m → IsDurable (persist_session sid m)
unfolding persist_session get_session
persist_session-IsDurable sid m h = persist_found-IsDurable sid (get m.sessions sid) m refl h

-- A session may be written without being saved, if nothing of what is saved of it changes.
pub set_session-IsDurable :
    (sid : String) (s s' : SessionData) (m : Manager)
    → get m.sessions sid ≡ some s
    → persistable_snapshot s' ≡ persistable_snapshot s
    → IsDurable m
    → IsDurable (set_session sid s' m)
unfolding set_session
set_session-IsDurable sid s s' m found same h = record {
  at = λ j t table e k. elim (get-put_cases m.sessions sid j s' t e) [
    | inl (key, new) ↦ rw (← new, same, ← key) (h.at sid s table found k)
    | inr (other, old) ↦ h.at j t table old k
  ];
}
