-- ===== src/Base/Regex.antt =====
-- What the program uses of `re`: patterns over code points, matched by backtracking. A match gives
-- all the ends that the backtracking would try, in its order, so the first is the one `re` takes.
-- Repetition is only of one class of characters, as in every pattern of the program.
use Prim.Native.Nat.{ℕ, ◌+◌}
use Prim.Native.Char.{Char, code}
use Prim.Native.String.{String, [], ◌∷◌, ◌++◌ as ◌⊕◌}
use mathlib.Core.Path.{◌≡◌, refl}
use mathlib.Core.Bool.{Bool, true, false, not, ◌&&◌, ◌||◌}
use mathlib.Core.Option.{Option, none, some}
use mathlib.Core.List.{List, [], ◌∷◌, ◌++◌, map}
use text.Mathlib.Text.{◌==◌}
use alpilab_ai.Base.Tests.{leb, ◌=?◌, if◌then◌else◌, is_some}
use alpilab_ai.Base.Text.{is_space}

-- `class_of`, `many` (`+`) and `few` (`+?`) take the test of a class of characters, `boundary` (`\b`)
-- takes the test for `\w`; `literal` is a text without regard to case.
pub data Pattern : Type 0 where
  class_of many few : (ℕ → Bool) → Pattern
  literal : String → Pattern
  optional group : Pattern → Pattern
  either followed_by : Pattern → Pattern → Pattern
  at_start at_end : Pattern
  boundary : (ℕ → Bool) → Pattern

-- what a match has read, what is left, and the text of its last group
pub record Match : Type 0 where
  pub consumed : String
  pub left : String
  pub captured : Option String

-- Without regard to case, besides the letters of both cases, dotless and dotted i, the long s and
-- the Kelvin sign are i, s and k.
unfoldable pub fold_case : ℕ → ℕ
fold_case c =
    if leb 65 c && leb c 90
    then c + 32
    else if c =? 0x130 || c =? 0x131
    then 105
    else if c =? 0x17f
    then 115
    else if c =? 0x212a
    then 107
    else c

-- the character before a place, after a text has been read
unfoldable pub last_of : Option ℕ → String → Option ℕ
last_of before [] = before
last_of before (c ∷ s) = last_of (some (code c)) s

abbrev pub is_word : (ℕ → Bool) → Option ℕ → Bool
is_word word none = false
is_word word (some c) = word c

abbrev pub first_of : String → Option ℕ
first_of [] = none
first_of (c ∷ s) = some (code c)

pub no_match : List Match
no_match = []

abbrev pub empty_match : String → List Match
empty_match s = record { consumed = []; left = s; captured = none } ∷ []

abbrev pub when : Bool → List Match → List Match
when b ms = if b then ms else []

abbrev pub after_char : Char → Match → Match
after_char c m = record m { consumed = c ∷ m.consumed }

abbrev pub whole_group : Match → Match
whole_group m = record m { captured = some m.consumed }

-- The characters of the class from the start on, the longest first.
unfoldable pub most : (ℕ → Bool) → String → List Match
most p [] = []
most p (c ∷ s) =
    let rest = map (after_char c) (most p s) in
    when (p (code c)) (rest ++ (record { consumed = c ∷ []; left = s; captured = none } ∷ []))

-- The same, the shortest first.
unfoldable pub least : (ℕ → Bool) → String → List Match
least p [] = []
least p (c ∷ s) =
    let rest = map (after_char c) (least p s) in
    when (p (code c)) (record { consumed = c ∷ []; left = s; captured = none } ∷ rest)

abbrev pub read_char : Char → Option Match → Option Match
read_char c none = none
read_char c (some m) = some (after_char c m)

unfoldable pub strip_literal : String → String → Option Match
unfolding fold_case
strip_literal [] s = some (record { consumed = []; left = s; captured = none })
strip_literal (d ∷ ds) [] = none
strip_literal (d ∷ ds) (c ∷ s) =
    let rest = strip_literal ds s in if fold_case (code c) =? code d then read_char c rest else none

abbrev pub to_list : Option Match → List Match
to_list none = []
to_list (some m) = m ∷ []

abbrev pub later_group : Option String → Option String → Option String
later_group a none = a
later_group a (some b) = some b

abbrev pub join : Match → Match → Match
join m n = record {
  consumed = m.consumed ⊕ n.consumed;
  left = n.left;
  captured = later_group m.captured n.captured;
}

-- Each match is continued in each way, in order.
abbrev pub continue : (Match → List Match) → List Match → List Match
continue next [] = []
continue next (m ∷ ms) = map (join m) (next m) ++ continue next ms

-- the matches of a pattern at a place, which has the character `before` on its left
unfoldable pub run : Pattern → Option ℕ → String → List Match
unfolding most least strip_literal last_of
run (class_of p) before [] = []
run (class_of p) before (c ∷ s) =
    when (p (code c)) (record { consumed = c ∷ []; left = s; captured = none } ∷ [])
run (many p) before s = most p s
run (few p) before s = least p s
run (literal t) before s = to_list (strip_literal t s)
run (optional r) before s = run r before s ++ empty_match s
run (group r) before s = map whole_group (run r before s)
run (either r t) before s = run r before s ++ run t before s
run (followed_by r t) before s =
    continue (λ m. run t (last_of before m.consumed) m.left) (run r before s)
run at_start before s = when (not (is_some before)) (empty_match s)
run at_end before s = when (s == "" || s == "\n") (empty_match s)
run (boundary word) before s =
    when
      (not (is_word word before && is_word word (first_of s))
        && (is_word word before || is_word word (first_of s)))
      (empty_match s)

abbrev pub head_match : List Match → Option Match
head_match [] = none
head_match (m ∷ ms) = some m

-- `pattern.match(s)`
unfoldable pub match_start : Pattern → String → Option Match
unfolding run
match_start r s = head_match (run r none s)

abbrev pub or_later : List Match → Option Match → Option Match
or_later [] later = later
or_later (m ∷ ms) later = some m

unfoldable pub search_from : Pattern → Option ℕ → String → Option Match
unfolding run
search_from r before [] = or_later (run r before []) none
search_from r before (c ∷ s) = or_later (run r before (c ∷ s)) (search_from r (some (code c)) s)

-- `m.group(1)`, or None without a match
abbrev pub group_of : Option Match → Option String
group_of none = none
group_of (some m) = m.captured

-- `pattern.search(s)`
unfoldable pub search : Pattern → String → Option Match
unfolding search_from
search r s = search_from r none s

-- `\s+`, `\s*`
abbrev pub spaces : Pattern
spaces = many is_space

abbrev pub maybe_spaces : Pattern
maybe_spaces = optional spaces

-- `.`
unfoldable pub any_char : ℕ → Bool
any_char c = not (c =? 10)

infixr 60 ◌▸◌
abbrev pub ◌▸◌ : Pattern → Pattern → Pattern
r ▸ t = followed_by r t

-- one of several texts
abbrev pub one_of : String → List String → Pattern
one_of t [] = literal t
one_of t (u ∷ us) = either (literal t) (one_of u us)

regex_test :
    (group_of (match_start (group (few any_char) ▸ optional (literal ".") ▸ at_end) "abc.")
      ≡ some "abc")
    × (is_some (search (literal "cmd" ▸ maybe_spaces ▸ literal "/c") "x CMD  /c y") ≡ true)
unfolding match_start search any_char is_space
regex_test = (refl, refl)
