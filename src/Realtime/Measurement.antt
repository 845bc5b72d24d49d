-- ===== src/Realtime/Measurement.antt =====
-- `evaluate_measurement` of app/realtime/state_sync.py: the first number of a text, by the regular
-- expression `-?\d+(?:\.\d+)?`, and the verdict on it.
use Prim.Native.Nat.{◌*◌, ◌^◌}
use Prim.Native.Char.{code}
use Prim.Native.String.{[], ◌∷◌, ◌++◌}
use mathlib.Core.List.{foldl}
use alpilab_ai.Base.{
  ℕ, ◌+◌, String, Bool, true, false, Option, none, some, List, ◌||◌, leb, ◌=?◌, if◌then◌else◌,
}
use alpilab_ai.Base.Lists.{length}
use alpilab_ai.Base.Text.{strip, is_empty}
use alpilab_ai.Base.Exec.{Result, ok, err}
use alpilab_ai.Base.Platform.{Platform}
use alpilab_ai.Realtime.Payloads.{Error, rejected}

-- What the expression matched: -digits.fraction, by the values of the digits.
pub record Number : Type 0 where
  pub negative : Bool
  pub digits : List ℕ
  pub fraction : List ℕ

pub data Sign : Type 0 where
  below zero above : Sign

abbrev decimal_value : List ℕ → ℕ
decimal_value ds = foldl (λ n d. n * 10 + d) 0 ds

-- The sign of `float(match)`. A number rounds to 0 when it is at most half of the least double,
-- 2^-1074.
unfoldable pub float_sign : Number → Sign
float_sign n =
    let k = length n.fraction in
    let v = decimal_value n.fraction + decimal_value n.digits * 10 ^ k in
    if leb (v * 2 ^ 1075) (10 ^ k) then Sign.zero else if n.negative then below else above

module _ (p : Platform) where
  -- the digits that a text starts with, and the rest
  unfoldable pub take_digits : String → List ℕ × String
  take_digits [] = (List.[], [])
  take_digits (c ∷ s) = elim (p.decimal (code c)) [
    | none ↦ (List.[], c ∷ s)
    | some d ↦ let (ds, rest) = take_digits s in (List.◌∷◌ d ds, rest)
  ]

  -- `(?:\.\d+)?`
  unfoldable pub fraction_at : String → List ℕ
  fraction_at [] = List.[]
  fraction_at (c ∷ s) = if code c =? b'.' then (take_digits s).0 else List.[]

  abbrev number_of : Bool → List ℕ × String → Option Number
  number_of negative (List.[], rest) = none
  number_of negative (List.◌∷◌ d ds, rest) =
      some (record { negative = negative; digits = List.◌∷◌ d ds; fraction = fraction_at rest })

  -- the match of the whole expression at the start of a text
  unfoldable pub number_at : String → Option Number
  number_at [] = none
  number_at (c ∷ s) =
      if code c =? b'-'
      then number_of true (take_digits s)
      else number_of false (take_digits (c ∷ s))

  -- `_MEASUREMENT_NUM.search`
  unfoldable pub search : String → Option Number
  search [] = none
  search (c ∷ s) = elim (number_at (c ∷ s)) [ none ↦ search s | some n ↦ some n ]

-- `"V" in s.upper()`: V and v are the characters whose upper case holds a V.
unfoldable pub has_volts : String → Bool
has_volts [] = false
has_volts (c ∷ s) = code c =? b'V' || code c =? b'v' || has_volts s

unfoldable pub status_of : Sign → String
status_of Sign.zero = "FAILED"
status_of above = "PASSED"
status_of below = "INVALID"

unfoldable pub format_measurement : String → String
unfolding has_volts
format_measurement trimmed = if has_volts trimmed then trimmed else trimmed ++ " V"

abbrev pub reject_measurement : String → Error
reject_measurement reason = rejected reason (some "diagnostic_update")

-- The formatted measurement and the status.
unfoldable pub evaluate_measurement : Platform → String → Result Error (String × String)
unfolding search number_at fraction_at take_digits float_sign status_of format_measurement
evaluate_measurement p value =
    let trimmed = strip value in
    if is_empty trimmed
    then err (reject_measurement "measurement value required")
    else elim (search p trimmed) [
      | none ↦ err (reject_measurement "invalid measurement value")
      | some n ↦ ok (format_measurement trimmed, status_of (float_sign n))
    ]
