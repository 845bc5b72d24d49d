-- ===== src/Pairing/ClientAuth/Loopback.antt =====
-- The hosts that app/security/client_auth.py takes for the PC itself.
use Prim.Native.Char.{code}
use Prim.Native.String.{[], ◌∷◌}
use text.Mathlib.TextEquality.{Char-path}
use alpilab_ai.Base.{
  String, true, false, ◌≡◌, ◌⊎◌, refl, inl, inr, Bool-cases, arith, eq_iff, ◌=?◌, if_rule,
  if◌then◌else◌,
}
use alpilab_ai.Base.Text.{starts_with}
use alpilab_ai.Pairing.ClientAuth.{is_loopback_name, after_mapped}

pub data IsThisMachine : String → Type 0 where
  ipv4 : IsThisMachine "127.0.0.1"
  ipv6 : IsThisMachine "::1"
  named : IsThisMachine "localhost"
  tested : IsThisMachine "testclient"

-- a text, then another one
abbrev pub followed : String → String → String
followed [] rest = rest
followed (c ∷ start) rest = c ∷ followed start rest

-- The PC's own address, or an IPv4 one of its own that is written as IPv6.
pub data IsOwn : String → Type 0 where
  direct : {host : String} → IsThisMachine host → IsOwn host
  mapped : {rest : String} → IsThisMachine rest → IsOwn (followed "::ffff:" rest)

name-IsThisMachine : (h : String) → is_loopback_name h ≡ true → IsThisMachine h
unfolding is_loopback_name
name-IsThisMachine h e =
    let found : (h ≡ "127.0.0.1") ⊎ (h ≡ "::1") ⊎ (h ≡ "localhost") ⊎ (h ≡ "testclient") =
      ground (
        arith,
        eq_iff h "127.0.0.1",
        eq_iff h "::1",
        eq_iff h "localhost",
        eq_iff h "testclient",
      ) in
    elim found [
      | inl same ↦ rw same ipv4
      | inr (inl same) ↦ rw same ipv6
      | inr (inr (inl same)) ↦ rw same named
      | inr (inr (inr same)) ↦ rw same tested
    ]

IsThisMachine-name : {h : String} → IsThisMachine h → is_loopback_name h ≡ true
unfolding is_loopback_name
IsThisMachine-name ipv4 = refl
IsThisMachine-name ipv6 = refl
IsThisMachine-name named = refl
IsThisMachine-name tested = refl

starts_with-split :
    (s start : String) → starts_with s start ≡ true → (rest : String) × (s ≡ followed start rest)
unfolding starts_with
starts_with-split s [] e = (s, refl)
starts_with-split [] (d ∷ start) e = cc
starts_with-split (c ∷ s) (d ∷ start) e = elim (Bool-cases (code c =? code d)) [
  | inl same ↦
      let (rest, split) = starts_with-split s start (rw same at e) in
      let first : code c ≡ code d = ground arith in (rest, λ i. Char-path c d first i ∷ split i)
  | inr other ↦ let clash : false ≡ true = rw other at e in cc
]

-- The host of a client that the code takes for this machine.
pub bare-IsOwn :
    (h : String)
    → (if is_loopback_name h
        then true
        else if starts_with h "::ffff:"
        then is_loopback_name (after_mapped h)
        else false)
      ≡ true
    → IsOwn h
bare-IsOwn h e = elim (Bool-cases (is_loopback_name h)) [
  | inl own ↦ direct (name-IsThisMachine h own)
  | inr other ↦ elim (Bool-cases (starts_with h "::ffff:")) [
    | inl as_ipv6 ↦
        let inside : is_loopback_name (after_mapped h) ≡ true = rw (other, as_ipv6) at e in
        let (rest, split) = starts_with-split h "::ffff:" as_ipv6 in
        let own : is_loopback_name rest ≡ true = rw split at inside in
        rw split (mapped (name-IsThisMachine rest own))
    | inr elsewhere ↦ let clash : false ≡ true = rw (other, elsewhere) at e in cc
  ]
]

pub IsOwn-bare :
    {h : String}
    → IsOwn h
    → (if is_loopback_name h
        then true
        else if starts_with h "::ffff:"
        then is_loopback_name (after_mapped h)
        else false)
      ≡ true
unfolding starts_with
IsOwn-bare (direct own) = rw (IsThisMachine-name own) refl
IsOwn-bare (mapped {rest} own) =
    if_rule (λ b. b ≡ true) (is_loopback_name (followed "::ffff:" rest)) refl
      (IsThisMachine-name own)
