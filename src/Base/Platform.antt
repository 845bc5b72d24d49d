-- ===== src/Base/Platform.antt =====
-- What the program asks of the machine and of the Unicode tables: `uuid4`, the clock (in
-- microseconds since the epoch), `str.isalnum` of one character, the value of a decimal digit (the
-- `\d` of `re`), `str.lower`, and of a value read from JSON: `str` of one that is no text, whether a
-- number is zero, and a number with two decimals. The n-th question is answered by the n-th value.
use Prim.Native.Nat.{ℕ, zero, suc, ◌/◌, ◌%◌}
use Prim.Native.String.{String, ◌++◌}
use mathlib.Core.Bool.{Bool, true, false, not}
use mathlib.Core.Path.{◌≡◌, refl}
use text.Mathlib.Text.{◌==◌}
use mathlib.Core.Option.{Option, none, some}
use alpilab_ai.Base.Json.{
  Json, Fields, null, boolean, number, string, array, object, nil, cons, end, field, lookup,
}
use alpilab_ai.Base.Text.{strip}
use alpilab_ai.Base.Tests.{leb, ◌=?◌, if◌then◌else◌}

pub record Platform : Type 0 where
  pub uuid : ℕ → String
  pub clock : ℕ → ℕ
  pub isalnum : ℕ → Bool
  pub decimal : ℕ → Option ℕ
  pub lower : String → String
  pub text_of : Json → String
  pub is_zero : String → Bool
  pub two_places : String → String

digit : ℕ → String
digit n =
    if n =? 0
    then "0"
    else if n =? 1
    then "1"
    else if n =? 2
    then "2"
    else if n =? 3
    then "3"
    else if n =? 4
    then "4"
    else if n =? 5
    then "5"
    else if n =? 6
    then "6"
    else if n =? 7
    then "7"
    else if n =? 8
    then "8"
    else "9"

-- `f"{n:02d}"` below 100
two_digits : ℕ → String
unfolding digit
two_digits n = digit (n / 10) ++ digit (n % 10)

-- `strftime("%H:%M")` of a time in UTC
unfoldable pub hour_minute : ℕ → String
unfolding two_digits
hour_minute t =
    let minutes = t / 60_000_000 in
    two_digits (minutes / 60 % 24) ++ (":" ++ two_digits (minutes % 60))

digits_of : ℕ → ℕ → String
unfolding digit
digits_of zero n = ""
digits_of (suc fuel) n =
    let front = digits_of fuel (n / 10) in if leb n 9 then digit n else front ++ digit (n % 10)

-- `str(n)`; a number has at most as many digits as its successor counts
unfoldable pub number_text : ℕ → String
unfolding digits_of
number_text n = digits_of (suc n) n

number_text_test : number_text 120 ≡ "120"
unfolding number_text
number_text_test = refl

-- `str(v)`
abbrev pub str : Platform → Json → String
str p (string s) = s
str p null = "None"
str p (boolean true) = "True"
str p (boolean false) = "False"
str p v = p.text_of v

-- `bool(v)`
abbrev pub truthy : Platform → Json → Bool
truthy p null = false
truthy p (boolean b) = b
truthy p (number n) = not (p.is_zero n)
truthy p (string s) = not (s == "")
truthy p (array nil) = false
truthy p (array (cons x xs)) = true
truthy p (object end) = false
truthy p (object (field k v rest)) = true

abbrev pub text_or_empty : Platform → Option Json → String
text_or_empty p none = ""
text_or_empty p (some v) = if truthy p v then strip (str p v) else ""

-- `str(d.get(k) or "").strip()`
abbrev pub text_at : Platform → Fields → String → String
text_at p d k = text_or_empty p (lookup k d)
