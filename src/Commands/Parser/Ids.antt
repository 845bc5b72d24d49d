-- ===== src/Commands/Parser/Ids.antt =====
-- The groups of a pattern of app/commands/natural_language_parser.py: the characters that the group
-- of a match can hold.
use alpilab_ai.Base.{
  ℕ, String, Bool, true, false, Option, none, some, List, [], ◌∷◌, ◌++◌, ◌≡◌, ◌==◌, ◌&&◌, map, refl,
  sym, ◌∙◌, inl, inr, Bool-cases, some_injective, if_rule, ◌=?◌, ◌⊎◌, is_some, not,
}
use Prim.Native.Char.{Char, code}
use alpilab_ai.Base.Lists.{All, All-map}
use alpilab_ai.Base.Text.{all_chars, strip, lstrip, rstrip, is_space}
use alpilab_ai.Base.Regex.{
  Pattern, Match, class_of, many, few, literal, optional, group, either, followed_by, at_start,
  at_end, boundary, run, most, match_start, head_match, group_of, when, empty_match, continue, join,
  whole_group, after_char, strip_literal, read_char, fold_case, to_list, last_of, later_group,
  least,
}
use alpilab_ai.Commands.Parser.{is_id_char, captured_text, stripped, get_product, get_invoice}
use Prim.Native.String.{[], ◌∷◌}

-- The group of the match has only characters that the test accepts.
abbrev CapturesIn : (ℕ → Bool) → Match → Type 0
CapturesIn q m = (t : String) → m.captured ≡ some t → all_chars q t ≡ true

module _ {ℓ κ} {A : Type ℓ} (P : A → Type κ) where
  All-append : (xs ys : List A) → All P xs → All P ys → All P (xs ++ ys)
  All-append [] ys h k = k
  All-append (x ∷ xs) ys h k = (h.0, All-append xs ys h.1 k)

All-image {ℓ κ μ} :
    {A : Type ℓ} {B : Type μ} (P : A → Type κ) (f : B → A) (xs : List B)
    → All (λ x. P (f x)) xs
    → All P (map f xs)
All-image P f [] h = tt
All-image P f (x ∷ xs) h = (h.0, All-image P f xs h.1)

All-when : (P : Match → Type 0) (b : Bool) (ms : List Match) → All P ms → All P (when b ms)
All-when P true ms h = h
All-when P false ms h = tt

abbrev ReadsIn : (ℕ → Bool) → Match → Type 0
ReadsIn q m = all_chars q m.consumed ≡ true

most-ReadsIn : (q : ℕ → Bool) (s : String) → All (ReadsIn q) (most q s)
unfolding most all_chars
most-ReadsIn q [] = tt
most-ReadsIn q (c ∷ s) = elim (Bool-cases (q (code c))) [
  | inr other ↦ rw other tt
  | inl member ↦ rw member (
      All-append (ReadsIn q) (map (after_char c) (most q s)) _
        (All-image (ReadsIn q) (after_char c) (most q s) (
          All-map (ReadsIn q) (λ m. ReadsIn q (after_char c m)) (most q s) (λ m h. rw member h)
            (most-ReadsIn q s)))
        (rw member refl, tt))
]

-- A group of the pattern reads only characters that the test accepts.
abbrev GroupsIn : (ℕ → Bool) → Pattern → Type 0
GroupsIn q (group r) = (before : Option ℕ) (s : String) → All (ReadsIn q) (run r before s)
GroupsIn q (optional r) = GroupsIn q r
GroupsIn q (either r t) = GroupsIn q r × GroupsIn q t
GroupsIn q (followed_by r t) = GroupsIn q r × GroupsIn q t
GroupsIn q _ = Unit

-- without a group
abbrev NoGroup : Match → Type 0
NoGroup m = m.captured ≡ none

NoGroup-CapturesIn : (q : ℕ → Bool) (m : Match) → NoGroup m → CapturesIn q m
NoGroup-CapturesIn q m e t h = let clash : none ≡ some t = sym e ∙ h in cc

most-NoGroup : (q : ℕ → Bool) (s : String) → All NoGroup (most q s)
unfolding most
most-NoGroup q [] = tt
most-NoGroup q (c ∷ s) = All-when NoGroup (q (code c)) _ (
    All-append NoGroup (map (after_char c) (most q s)) _
      (All-image NoGroup (after_char c) (most q s) (most-NoGroup q s)) (refl, tt))

least-NoGroup : (q : ℕ → Bool) (s : String) → All NoGroup (least q s)
unfolding least
least-NoGroup q [] = tt
least-NoGroup q (c ∷ s) =
    All-when NoGroup (q (code c)) _
      (refl, All-image NoGroup (after_char c) (least q s) (least-NoGroup q s))

read_char-NoGroup :
    (c : Char) (o : Option Match) → All NoGroup (to_list o) → All NoGroup (to_list (read_char c o))
read_char-NoGroup c none h = tt
read_char-NoGroup c (some m) h = h

strip_literal-NoGroup : (t s : String) → All NoGroup (to_list (strip_literal t s))
unfolding strip_literal
strip_literal-NoGroup [] s = (refl, tt)
strip_literal-NoGroup (d ∷ ds) [] = tt
strip_literal-NoGroup (d ∷ ds) (c ∷ s) =
    if_rule (λ o. All NoGroup (to_list o)) (fold_case (code c) =? code d)
      (read_char-NoGroup c (strip_literal ds s) (strip_literal-NoGroup ds s)) tt

later_group-cases :
    (a b : Option String) (t : String) → later_group a b ≡ some t → (b ≡ some t) ⊎ (a ≡ some t)
later_group-cases a none t e = inr e
later_group-cases a (some b) t e = inl e

join-CapturesIn :
    (q : ℕ → Bool) (m n : Match) → CapturesIn q m → CapturesIn q n → CapturesIn q (join m n)
join-CapturesIn q m n h k t e = elim (later_group-cases m.captured n.captured t e) [
  | inl own ↦ k t own
  | inr older ↦ h t older
]

continue-CapturesIn :
    (q : ℕ → Bool) (next : Match → List Match) (ms : List Match)
    → All (CapturesIn q) ms
    → ((m : Match) → All (CapturesIn q) (next m))
    → All (CapturesIn q) (continue next ms)
continue-CapturesIn q next [] h k = tt
continue-CapturesIn q next (m ∷ ms) h k =
    All-append (CapturesIn q) (map (join m) (next m)) _
      (All-image (CapturesIn q) (join m) (next m) (
        All-map (CapturesIn q) (λ n. CapturesIn q (join m n)) (next m)
          (λ n c. join-CapturesIn q m n h.0 c) (k m)))
      (continue-CapturesIn q next ms h.1 k)

module _ (q : ℕ → Bool) where
  silent : (ms : List Match) → All NoGroup ms → All (CapturesIn q) ms
  silent ms h = All-map NoGroup (CapturesIn q) ms (NoGroup-CapturesIn q) h

  run-CapturesIn :
      (r : Pattern) (before : Option ℕ) (s : String)
      → GroupsIn q r
      → All (CapturesIn q) (run r before s)
  unfolding run
  run-CapturesIn (class_of p) before [] g = tt
  run-CapturesIn (class_of p) before (c ∷ s) g =
      silent _ (All-when NoGroup (p (code c)) _ (refl, tt))
  run-CapturesIn (many p) before s g = silent (most p s) (most-NoGroup p s)
  run-CapturesIn (few p) before s g = silent (least p s) (least-NoGroup p s)
  run-CapturesIn (literal t) before s g = silent _ (strip_literal-NoGroup t s)
  run-CapturesIn (optional r) before s g =
      All-append (CapturesIn q) (run r before s) _ (run-CapturesIn r before s g)
        (silent (empty_match s) (refl, tt))
  run-CapturesIn (group r) before s g = All-image (CapturesIn q) whole_group (run r before s) (
      All-map (ReadsIn q) (λ m. CapturesIn q (whole_group m)) (run r before s)
        (λ m h t e. rw (sym (some_injective e)) h) (g before s))
  run-CapturesIn (either r t) before s g =
      All-append (CapturesIn q) (run r before s) _ (run-CapturesIn r before s g.0)
        (run-CapturesIn t before s g.1)
  run-CapturesIn (followed_by r t) before s g =
      continue-CapturesIn q (λ m. run t (last_of before m.consumed) m.left) (run r before s)
        (run-CapturesIn r before s g.0)
        (λ m. run-CapturesIn t (last_of before m.consumed) m.left g.1)
  run-CapturesIn at_start before s g =
      silent _ (All-when NoGroup (not (is_some before)) (empty_match s) (refl, tt))
  run-CapturesIn at_end before s g = silent _ (All-when NoGroup _ (empty_match s) (refl, tt))
  run-CapturesIn (boundary word) before s g =
      silent _ (All-when NoGroup _ (empty_match s) (refl, tt))

group_of-CapturesIn :
    (q : ℕ → Bool) (ms : List Match) (t : String)
    → All (CapturesIn q) ms
    → group_of (head_match ms) ≡ some t
    → all_chars q t ≡ true
group_of-CapturesIn q [] t h e = let clash : none ≡ some t = e in cc
group_of-CapturesIn q (m ∷ ms) t h e = h.0 t e

and_cases : (a b : Bool) → (a && b) ≡ true → (a ≡ true) × (b ≡ true)
and_cases true b h = (refl, h)
and_cases false b h = let clash : false ≡ true = h in cc

-- what is left of a text of accepted characters by `strip`
lstrip-all_chars :
    (q : ℕ → Bool) (s : String) → all_chars q s ≡ true → all_chars q (lstrip s) ≡ true
unfolding lstrip all_chars
lstrip-all_chars q [] h = refl
lstrip-all_chars q (c ∷ s) h =
    if_rule (λ t. all_chars q t ≡ true) (is_space (code c))
      (lstrip-all_chars q s (and_cases (q (code c)) (all_chars q s) h).1) h

rstrip-all_chars :
    (q : ℕ → Bool) (s : String) → all_chars q s ≡ true → all_chars q (rstrip s) ≡ true
unfolding rstrip all_chars
rstrip-all_chars q [] h = refl
rstrip-all_chars q (c ∷ s) h =
    let parts = and_cases (q (code c)) (all_chars q s) h in
    if_rule (λ t. all_chars q t ≡ true) (is_space (code c) && rstrip s == "") refl
      (rw parts.0 (rstrip-all_chars q s parts.1))

stripped-all_chars :
    (q : ℕ → Bool) (o : Option String) (t : String)
    → ((u : String) → o ≡ some u → all_chars q u ≡ true)
    → stripped o ≡ some t
    → all_chars q t ≡ true
unfolding strip
stripped-all_chars q none t k h = let clash : none ≡ some t = h in cc
stripped-all_chars q (some u) t k h =
    rw (sym (some_injective h)) (rstrip-all_chars q (lstrip u) (lstrip-all_chars q u (k u refl)))

captured_text-all_chars :
    (q : ℕ → Bool) (r : Pattern) (s t : String)
    → GroupsIn q r
    → captured_text r s ≡ some t
    → all_chars q t ≡ true
unfolding captured_text match_start
captured_text-all_chars q r s t g h =
    stripped-all_chars q (group_of (match_start r s)) t
      (λ u e. group_of-CapturesIn q (run r none s) u (run-CapturesIn q r none s g) e) h

-- What the rules for a product and for an invoice capture are identifiers.
pub product_id-all_chars :
    (s t : String) → captured_text get_product s ≡ some t → all_chars is_id_char t ≡ true
unfolding run most
product_id-all_chars s t h =
    captured_text-all_chars is_id_char get_product s t
      (
        tt,
        (
          (tt, (tt, tt)),
          (tt, ((tt, tt), (tt, (tt, ((λ before u. most-ReadsIn is_id_char u), (tt, tt)))))),
        ),
      )
      h

pub invoice_id-all_chars :
    (s t : String) → captured_text get_invoice s ≡ some t → all_chars is_id_char t ≡ true
unfolding run most
invoice_id-all_chars s t h =
    captured_text-all_chars is_id_char get_invoice s t
      (
        tt,
        (
          (tt, (tt, tt)),
          (tt, ((tt, tt), (tt, (tt, ((λ before u. most-ReadsIn is_id_char u), (tt, tt)))))),
        ),
      )
      h
