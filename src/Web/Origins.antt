-- ===== src/Web/Origins.antt =====
-- The cross-origin part of `configureApp` in src/app-setup.ts: which pages may call the service.
use tutor_app_back.Env.{cors_origins_for, production}
use tutor_app_back.Meetings.Cipher.{push_char}
use tutor_app_back.Prelude.{
  ℕ, ◌≡◌, refl, sym, ◌∙◌, inl, inr, Bool, true, false, ◌&&◌, Option, none, some, List, [], ◌∷◌,
  arith, ◌==◌, if◌then◌else◌, Bool-cases, Option-cases, contains,
}
use tutor_app_back.Model.Text.{Text, ascii, trim, trim-lacks, or_null, text_eq}

-- The `origin` option: `true`, a list, `false`.
pub data Origins : Type 0 where
  any_origin : Origins
  listed : List Text → Origins
  no_origin : Origins

abbrev pub comma : ℕ
comma = 44

abbrev star : Text
star = ascii "*"

-- `origins.split(',')`
abbrev pub split_commas : Text → List Text
split_commas [] = [] ∷ []
split_commas (c ∷ s) = if c == comma then [] ∷ split_commas s else push_char c (split_commas s)

-- `.map((origin) => origin.trim()).filter(Boolean)`
abbrev pub keep_named : List Text → List Text
keep_named [] = []
keep_named (s ∷ rest) = elim (or_null (trim s)) [
  | none ↦ keep_named rest
  | some t ↦ t ∷ keep_named rest
]

abbrev pub list_or_none : List Text → Origins
list_or_none [] = no_origin
list_or_none (o ∷ os) = listed (o ∷ os)

-- Nothing where the start is refused.
unfoldable pub configure_cors : Bool → Text → Option Origins
configure_cors is_production origins =
    if is_production && text_eq (trim origins) star
    then none
    else some (
        if text_eq (trim origins) star
        then any_origin
        else list_or_none (keep_named (split_commas origins)))

-- A named origin: not blank, and no list.
abbrev pub IsNamed : Text → Type 0
IsNamed o = (or_null o ≡ some o) × (contains comma o ≡ false)

abbrev pub AllNamed : List Text → Type 0
AllNamed [] = Unit
AllNamed (o ∷ os) = IsNamed o × AllNamed os

-- A policy under which no page may call the service unless its origin is listed.
abbrev pub IsClosed : Origins → Type 0
IsClosed any_origin = ⊥
IsClosed (listed os) = AllNamed os
IsClosed no_origin = Unit

abbrev LackComma : List Text → Type 0
LackComma [] = Unit
LackComma (s ∷ ss) = (contains comma s ≡ false) × LackComma ss

push_char-LackComma :
    (c : ℕ) (ss : List Text) → (comma == c) ≡ false → LackComma ss → LackComma (push_char c ss)
push_char-LackComma c [] apart lack = (ground (arith, apart), tt)
push_char-LackComma c (s ∷ ss) apart lack = (ground (arith, apart, lack.0), lack.1)

split_commas-LackComma : (s : Text) → LackComma (split_commas s)
split_commas-LackComma [] = (refl, tt)
split_commas-LackComma (c ∷ s) = elim (Bool-cases (c == comma)) [
  | inl here ↦ rw here (refl, split_commas-LackComma s)
  | inr apart ↦
      rw apart
        (push_char-LackComma c (split_commas s) (ground (arith, apart)) (split_commas-LackComma s))
]

or_null-same : (s t : Text) → or_null s ≡ some t → (s ≡ t) × (or_null t ≡ some t)
or_null-same [] t h = absurd (cc)
or_null-same (c ∷ s) t h = ground (arith, h)

keep_named-AllNamed : (ss : List Text) → LackComma ss → AllNamed (keep_named ss)
keep_named-AllNamed [] lack = tt
keep_named-AllNamed (s ∷ ss) (first, rest) = elim (Option-cases (or_null (trim s))) [
  | inl blank ↦ rw (blank, AllNamed, keep_named) (keep_named-AllNamed ss rest)
  | inr (t, named) ↦
      let (same, held) = or_null-same (trim s) t named in
      rw (named, AllNamed, keep_named)
        ((held, rw (sym same) (trim-lacks comma s first)), keep_named-AllNamed ss rest)
]

list_or_none-IsClosed : (os : List Text) → AllNamed os → IsClosed (list_or_none os)
list_or_none-IsClosed [] named = tt
list_or_none-IsClosed (o ∷ os) named = named

unset-no_origin :
    (origins : Option Text)
    → origins ≡ none
    → list_or_none (keep_named (split_commas (cors_origins_for origins production))) ≡ no_origin
unfolding trim
unset-no_origin none h = refl
unset-no_origin (some s) h = absurd (cc)

-- In production the service does not start with every origin allowed: a policy that is accepted lists origins, none blank
-- and none with a comma, or allows no page, and where the variable is not set it allows none.
pub cors-IsClosed :
    (origins : Option Text) (p : Origins)
    → configure_cors true (cors_origins_for origins production) ≡ some p
    → IsClosed p × (origins ≡ none → p ≡ no_origin)
unfolding configure_cors
cors-IsClosed origins p h =
    let text : Text = cors_origins_for origins production in
    elim (Bool-cases (text_eq (trim text) star)) [
      | inl opened ↦ absurd (ground (arith, h, opened))
      | inr closed ↦
          let closed_policy =
            list_or_none-IsClosed (keep_named (split_commas text))
              (keep_named-AllNamed (split_commas text) (split_commas-LackComma text)) in
          let same : list_or_none (keep_named (split_commas text)) ≡ p =
            ground (arith, h, closed) in
          (rw (sym same) closed_policy, λ unset. sym same ∙ unset-no_origin origins unset)
    ]
