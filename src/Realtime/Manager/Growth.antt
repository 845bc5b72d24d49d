-- ===== src/Realtime/Manager/Growth.antt =====
-- Sessions only grow: none is lost, its version never falls and its conversation is only added to.
use mathlib.Core.List.{append-nil, append_assoc}
use alpilab_ai.Base.{
  ◌≤◌, String, Option, some, List, [], ◌++◌, ◌≡◌, refl, sym, ◌∙◌, arith, eq_iff, Bool-cases, inl,
  inr, ◌==◌,
}
use alpilab_ai.Base.Platform.{Platform}
use alpilab_ai.Base.Dict.{Dict, get, put, get-put}
use alpilab_ai.Realtime.Payloads.{ChatMessage}
use alpilab_ai.Realtime.Events.{EventType, Payload}
use alpilab_ai.Realtime.State.{SessionData}
use alpilab_ai.Realtime.Manager.{Manager, set_session, announce, persist_session}
use alpilab_ai.Realtime.Manager.Frame.{announce-SameCore}

pub record Extends (s s' : SessionData) : Type 0 where
  pub same_id : s'.session_id ≡ s.session_id
  pub version : s.state_version ≤ s'.state_version
  pub added : List ChatMessage
  pub messages : s'.messages ≡ s.messages ++ added

pub Extends-refl : (s : SessionData) → Extends s s
Extends-refl s = record {
  same_id = refl;
  version = omega arith;
  added = [];
  messages = sym (append-nil s.messages);
}

pub Extends-trans : {a b c : SessionData} → Extends a b → Extends b c → Extends a c
Extends-trans {a} h k = record {
  same_id = k.same_id ∙ h.same_id;
  version = omega arith;
  added = h.added ++ k.added;
  messages = rw (k.messages, h.messages) (append_assoc a.messages h.added k.added);
}

-- Every session of before is there, and extended.
pub record Grows (m m' : Manager) : Type 0 where
  pub at :
      (sid : String) (s : SessionData)
      → get m.sessions sid ≡ some s
      → (s' : SessionData) × (get m'.sessions sid ≡ some s') × Extends s s'

pub sessions-Grows : (m m' : Manager) → m'.sessions ≡ m.sessions → Grows m m'
sessions-Grows m m' e = record { at = λ sid s found. (s, rw e found, Extends-refl s) }

pub Grows-trans : {a b c : Manager} → Grows a b → Grows b c → Grows a c
Grows-trans h k = record {
  at = λ sid s found.
      let (s', found', x) = h.at sid s found in
      let (s'', found'', y) = k.at sid s' found' in (s'', found'', Extends-trans x y);
}

written_at :
    (sid j : String) (s s' t : SessionData) (sessions : Dict SessionData)
    → get sessions sid ≡ some s
    → Extends s s'
    → get sessions j ≡ some t
    → (t' : SessionData) × (get (put sessions sid s') j ≡ some t') × Extends t t'
written_at sid j s s' t sessions found x e = elim (Bool-cases (sid == j)) [
  | inl here ↦
      let same : t ≡ s = ground (arith, eq_iff sid j) in
      (s', ground (arith, get-put sessions sid j s'), rw same x)
  | inr other ↦ (t, ground (arith, get-put sessions sid j s'), Extends-refl t)
]

pub set_session-Grows :
    (sid : String) (s s' : SessionData) (m : Manager)
    → get m.sessions sid ≡ some s
    → Extends s s'
    → Grows m (set_session sid s' m)
unfolding set_session
set_session-Grows sid s s' m found x = record {
  at = λ j t e. written_at sid j s s' t m.sessions found x e;
}

pub sessions-persist_session :
    (sid : String) (m : Manager) → (persist_session sid m).sessions ≡ m.sessions
unfolding persist_session
sessions-persist_session sid m = ground arith

module _ (p : Platform) (sid : String) (ty : EventType) (payload : Payload) where
  pub announce-Grows :
      (source exclude : Option String) (m : Manager)
      → Grows m (announce p sid ty payload source exclude m)
  announce-Grows source exclude m =
      sessions-Grows m _ ((announce-SameCore p sid ty payload source exclude m).sessions)

  -- write, announce, persist
  pub written-Grows :
      (source exclude : Option String) (s s' : SessionData) (m : Manager)
      → get m.sessions sid ≡ some s
      → Extends s s'
      → Grows m
          (persist_session sid (announce p sid ty payload source exclude (set_session sid s' m)))
  written-Grows source exclude s s' m found x = Grows-trans (set_session-Grows sid s s' m found x) (
      sessions-Grows (set_session sid s' m) _ (
        sessions-persist_session sid _
        ∙ (announce-SameCore p sid ty payload source exclude (set_session sid s' m)).sessions))
