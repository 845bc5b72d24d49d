-- ===== src/Base/Dict.antt =====
-- Python's `dict` with string keys, in insertion order: a new key goes to the end, a key that is
-- there keeps its place.
use mathlib.Core.Path.{◌≡◌, refl}
use mathlib.Core.Bool.{Bool, false}
use mathlib.Core.Logic.{◌⊎◌, inl, inr}
use mathlib.Core.Option.{Option, none, some}
use mathlib.Core.List.{List, [], ◌∷◌}
use Prim.Native.String.{String}
use native.Mathlib.Omega.{arith}
use text.Mathlib.Text.{◌==◌}
use text.Mathlib.TextEquality.{eq_iff}
use text.Mathlib.TextPositions.{eq_refl}
use alpilab_ai.Base.Tests.{if◌then◌else◌, is_some, Bool-cases}

abbrev pub Dict {ℓ} : Type ℓ → Type ℓ
Dict V = List (String × V)

module _ {ℓ} {V : Type ℓ} where
  -- `d.get(k)`
  unfoldable pub get : Dict V → String → Option V
  get [] k = none
  get ((j, v) ∷ d) k = if j == k then some v else get d k

  -- `d[k] = v`
  unfoldable pub put : Dict V → String → V → Dict V
  put [] k v = (k, v) ∷ []
  put ((j, w) ∷ d) k v = if j == k then (j, v) ∷ d else (j, w) ∷ put d k v

  -- `d.pop(k, None)`; the caller reads the value by `get`
  unfoldable pub remove : Dict V → String → Dict V
  remove [] k = []
  remove ((j, v) ∷ d) k = let rest = remove d k in if j == k then rest else (j, v) ∷ rest

  -- `d.values()`
  unfoldable pub values : Dict V → List V
  values [] = []
  values ((j, v) ∷ d) = v ∷ values d

  -- `k in d`
  unfoldable pub has : Dict V → String → Bool
  unfolding get
  has d k = is_some (get d k)

  pub get-put :
      (d : Dict V) (k j : String) (v : V) → get (put d k v) j ≡ (if k == j then some v else get d j)
  unfolding get put
  get-put [] k j v = refl
  get-put ((i, w) ∷ d) k j v = ground (arith, eq_iff k j, eq_iff i k, eq_iff i j, get-put d k j v)

  pub get-remove :
      (d : Dict V) (k j : String) → get (remove d k) j ≡ (if k == j then none else get d j)
  unfolding get remove
  get-remove [] k j = ground arith
  get-remove ((i, w) ∷ d) k j = ground (arith, eq_iff k j, eq_iff i k, eq_iff i j, get-remove d k j)

  -- What is read after a write is what was written or what was there.
  pub get-put_cases :
      (d : Dict V) (k j : String) (v w : V)
      → get (put d k v) j ≡ some w
      → ((k ≡ j) × (v ≡ w)) ⊎ (((k == j) ≡ false) × (get d j ≡ some w))
  get-put_cases d k j v w e = elim (Bool-cases (k == j)) [
    | inl same ↦ inl (ground (arith, eq_iff k j), ground (arith, get-put d k j v))
    | inr other ↦ inr (other, ground (arith, get-put d k j v))
  ]

  pub get-remove_cases :
      (d : Dict V) (k j : String) (w : V)
      → get (remove d k) j ≡ some w
      → ((k == j) ≡ false) × (get d j ≡ some w)
  get-remove_cases d k j w e = elim (Bool-cases (k == j)) [
    | inl same ↦ ground (arith, get-remove d k j)
    | inr other ↦ (other, ground (arith, get-remove d k j))
  ]

  pub get-put_same : (d : Dict V) (k : String) (v : V) → get (put d k v) k ≡ some v
  get-put_same d k v = ground (arith, get-put d k k v, eq_refl k)

  -- A new key hides no other.
  pub get-put_new :
      (d : Dict V) (j k : String) (v w : V)
      → get d j ≡ none
      → get d k ≡ some w
      → get (put d j v) k ≡ some w
  get-put_new d j k v w e h = ground (arith, get-put d j k v, eq_iff j k)

  pub get-put_other :
      (d : Dict V) (k j : String) (v w : V)
      → (k == j) ≡ false
      → get d j ≡ some w
      → get (put d k v) j ≡ some w
  get-put_other d k j v w other h = ground (arith, get-put d k j v)

  pub get-remove_same : (d : Dict V) (k : String) → get (remove d k) k ≡ none
  get-remove_same d k = ground (arith, get-remove d k k, eq_refl k)
