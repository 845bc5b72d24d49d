-- ===== src/Base/Members.antt =====
-- Members of the lists that the program builds from dictionaries, filters and comprehensions.
use Prim.Native.String.{String}
use mathlib.Core.Path.{◌≡◌, sym, ap, ◌∙◌}
use mathlib.Core.Logic.{inl, inr}
use mathlib.Core.Bool.{Bool, true}
use mathlib.Core.Option.{some}
use mathlib.Core.List.{List, [], ◌∷◌, map}
pub use mathlib.Core.List.{Memᴰ}
pub use mathlib.Core.List.Memᴰ.{head, tail}
use text.Mathlib.Text.{◌==◌}
use alpilab_ai.Base.Tests.{Bool-cases}
use alpilab_ai.Base.Dict.{Dict, get, values}
use alpilab_ai.Base.Lists.{keep}

module _ {ℓ} {A : Type ℓ} where
  pub Mem-values : (d : Dict A) (k : String) (a : A) → get d k ≡ some a → Memᴰ a (values d)
  unfolding get values
  Mem-values [] k a h = cc
  Mem-values ((j, b) ∷ d) k a h = elim (Bool-cases (j == k)) [
    | inl here ↦ let found : some b ≡ some a = rw here at h in head cc
    | inr later ↦ tail (Mem-values d k a (rw later at h))
  ]

  pub Mem-keep : (p : A → Bool) (xs : List A) (a : A) → p a ≡ true → Memᴰ a xs → Memᴰ a (keep p xs)
  unfolding keep
  Mem-keep p [] a h m = elim m [ ]
  Mem-keep p (x ∷ xs) a h (head e) = rw (sym (ap p e) ∙ h) (head e)
  Mem-keep p (x ∷ xs) a h (tail m) = elim (Bool-cases (p x)) [
    | inl kept ↦ rw kept (tail (Mem-keep p xs a h m))
    | inr dropped ↦ rw dropped (Mem-keep p xs a h m)
  ]

  pub Mem-map {κ} :
      {B : Type κ} (f : A → B) (xs : List A) (a : A) → Memᴰ a xs → Memᴰ (f a) (map f xs)
  Mem-map f [] a m = elim m [ ]
  Mem-map f (x ∷ xs) a (head e) = head (ap f e)
  Mem-map f (x ∷ xs) a (tail m) = tail (Mem-map f xs a m)
