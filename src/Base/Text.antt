-- ===== src/Base/Text.antt =====
-- What the program uses of Python's `str`: a text is a list of code points, `len` counts them.
use Prim.Native.Nat.{ℕ, ◌-◌}
use Prim.Native.Char.{code}
use Prim.Native.String.{String, [], ◌∷◌, ◌++◌}
use mathlib.Core.Path.{◌≡◌, refl}
use mathlib.Core.Bool.{Bool, true, false, ◌&&◌, ◌||◌}
use text.Mathlib.Text.{◌==◌}
use alpilab_ai.Base.Tests.{leb, ◌=?◌, if◌then◌else◌}

-- The characters that `str.strip` removes.
unfoldable pub is_space : ℕ → Bool
is_space c =
    (leb 0x09 c && leb c 0x0d)
    || (leb 0x1c c && leb c 0x20)
    || c =? 0x85
    || c =? 0xa0
    || c =? 0x1680
    || (leb 0x2000 c && leb c 0x200a)
    || c =? 0x2028
    || c =? 0x2029
    || c =? 0x202f
    || c =? 0x205f
    || c =? 0x3000

unfoldable pub lstrip : String → String
lstrip [] = []
lstrip (c ∷ s) = let r = lstrip s in if is_space (code c) then r else c ∷ s

unfoldable pub rstrip : String → String
rstrip [] = []
rstrip (c ∷ s) = let r = rstrip s in if is_space (code c) && r == "" then [] else c ∷ r

unfoldable pub strip : String → String
unfolding lstrip rstrip is_space
strip s = rstrip (lstrip s)

-- `not s`
abbrev pub is_empty : String → Bool
is_empty s = s == ""

-- `s[:n]`
unfoldable pub prefix : ℕ → String → String
prefix ℕ.zero s = []
prefix (ℕ.suc n) [] = []
prefix (ℕ.suc n) (c ∷ s) = c ∷ prefix n s

-- `all(p(ch) for ch in s)`
unfoldable pub all_chars : (ℕ → Bool) → String → Bool
all_chars p [] = true
all_chars p (c ∷ s) = p (code c) && all_chars p s

-- `s.startswith(start)`
unfoldable pub starts_with : String → String → Bool
starts_with s [] = true
starts_with [] (d ∷ start) = false
starts_with (c ∷ s) (d ∷ start) = code c =? code d && starts_with s start

-- `s.endswith(end)`
unfoldable pub ends_with : String → String → Bool
ends_with [] end = end == ""
ends_with (c ∷ s) end = (c ∷ s) == end || ends_with s end

-- `f"{a}:{b}"`
unfoldable pub join_colon : String → String → String
join_colon a b = a ++ (":" ++ b)

strip_test : strip "  3.7 V " ≡ "3.7 V"
unfolding strip
strip_test = refl

-- `s[n:]`
unfoldable pub drop : ℕ → String → String
drop ℕ.zero s = s
drop (ℕ.suc n) [] = []
drop (ℕ.suc n) (c ∷ s) = drop n s

-- `len(s)`
unfoldable pub len : String → ℕ
len [] = 0
len (c ∷ s) = ℕ.suc (len s)

-- `s.rstrip(chars)`, for the characters that the test accepts
unfoldable pub rstrip_chars : (ℕ → Bool) → String → String
rstrip_chars p [] = []
rstrip_chars p (c ∷ s) = let r = rstrip_chars p s in if p (code c) && r == "" then [] else c ∷ r

-- `part in s`
unfoldable pub contains_text : String → String → Bool
unfolding starts_with
contains_text part [] = part == ""
contains_text part (c ∷ s) = starts_with (c ∷ s) part || contains_text part s

-- The first `skip` characters belong to an occurrence that is already replaced.
unfoldable pub replace_from : ℕ → String → String → String → String
unfolding starts_with len
replace_from skip old new [] = []
replace_from (ℕ.suc skip) old new (c ∷ s) = replace_from skip old new s
replace_from ℕ.zero old new (c ∷ s) = elim (starts_with (c ∷ s) old) [
  | true ↦ new ++ replace_from (len old - 1) old new s
  | false ↦ c ∷ replace_from 0 old new s
]

-- `s.replace(old, new)`, for an `old` that is not empty
unfoldable pub replace : String → String → String → String
unfolding replace_from
replace old new s = replace_from 0 old new s

unfoldable pub collapse_from : Bool → String → String
unfolding is_space
collapse_from in_run [] = []
collapse_from in_run (c ∷ s) = elim (is_space (code c)) [
  | true ↦ elim in_run [ true ↦ collapse_from true s | false ↦ " " ++ collapse_from true s ]
  | false ↦ c ∷ collapse_from false s
]

-- `re.sub(r"\s+", " ", s)`
unfoldable pub collapse_spaces : String → String
unfolding collapse_from
collapse_spaces s = collapse_from false s

text_test :
    (replace "3 u tools" "3utools" "apri 3 u tools ora" ≡ "apri 3utools ora")
    × (collapse_spaces " a \t b  c" ≡ " a b c")
    × (rstrip_chars (λ c. c =? 63) "ciao??" ≡ "ciao")
    × (contains_text "quello" "apri quello" ≡ true)
unfolding replace collapse_spaces rstrip_chars contains_text
text_test = (refl, refl, refl, refl)
