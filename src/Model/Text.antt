-- ===== src/Model/Text.antt =====
-- Text as the list of its UTF-16 code units, as JavaScript measures and trims it.
use Prim.Native.Char.{code}
use Prim.Native.String.{String}
use mathlib.Core.List.{reverse, reverse_aux}
use tutor_app_back.Prelude.{
  ℕ, ◌≡◌, refl, Bool, true, false, ◌&&◌, ◌||◌, Option, none, some, List, [], ◌∷◌, arith, leb, ◌==◌,
  if◌then◌else◌, contains,
}

abbrev pub Text : Type 0
Text = List ℕ

-- A literal of the source, in ASCII.
abbrev pub ascii : String → Text
ascii String.[] = []
ascii (String.◌∷◌ c s) = code c ∷ ascii s

-- The code units that `trim` removes: white space and line terminators of ECMA-262.
abbrev pub is_space : ℕ → Bool
is_space c =
    (leb 0x9 c && leb c 0xd)
    || c == 0x20
    || c == 0xa0
    || c == 0x1680
    || (leb 0x2000 c && leb c 0x200a)
    || c == 0x2028
    || c == 0x2029
    || c == 0x202f
    || c == 0x205f
    || c == 0x3000
    || c == 0xfeff

pub trim_start : Text → Text
trim_start [] = []
trim_start (c ∷ s) = if is_space c then trim_start s else c ∷ s

unfoldable pub trim : Text → Text
unfolding trim_start
trim s = reverse (trim_start (reverse (trim_start s)))

-- Trimming adds no code unit.
trim_start-lacks : (c : ℕ) (s : Text) → contains c s ≡ false → contains c (trim_start s) ≡ false
unfolding trim_start
trim_start-lacks c [] h = refl
trim_start-lacks c (d ∷ s) h = ground (arith, h, trim_start-lacks c s)

reverse_aux-lacks :
    (c : ℕ) (s acc : Text)
    → contains c s ≡ false
    → contains c acc ≡ false
    → contains c (reverse_aux s acc) ≡ false
reverse_aux-lacks c [] acc h h' = h'
reverse_aux-lacks c (d ∷ s) acc h h' =
    reverse_aux-lacks c s (d ∷ acc) (ground (arith, h)) (ground (arith, h, h'))

pub trim-lacks : (c : ℕ) (s : Text) → contains c s ≡ false → contains c (trim s) ≡ false
unfolding trim
trim-lacks c s h =
    reverse_aux-lacks c (trim_start (reverse (trim_start s))) []
      (trim_start-lacks c (reverse (trim_start s))
        (reverse_aux-lacks c (trim_start s) [] (trim_start-lacks c s h) refl))
      refl

-- `s || null`: the empty text is falsy.
abbrev pub or_null : Text → Option Text
or_null [] = none
or_null (c ∷ s) = some (c ∷ s)

-- `s === t`
abbrev pub text_eq : Text → Text → Bool
text_eq [] [] = true
text_eq (c ∷ s) (d ∷ t) = c == d && text_eq s t
text_eq [] (d ∷ t) = false
text_eq (c ∷ s) [] = false

pub text_eq_refl : (a : Text) → text_eq a a ≡ true
text_eq_refl [] = refl
text_eq_refl (c ∷ a) = ground (arith, text_eq_refl a)

pub text_eq_sound : (a b : Text) → text_eq a b ≡ true → a ≡ b
text_eq_sound [] [] h = refl
text_eq_sound [] (d ∷ b) h = absurd (cc)
text_eq_sound (c ∷ a) [] h = absurd (cc)
text_eq_sound (c ∷ a) (d ∷ b) h = ground (arith, h, text_eq_sound a b)

pub text_eq-sym : (a b : Text) → text_eq a b ≡ text_eq b a
text_eq-sym [] [] = refl
text_eq-sym [] (d ∷ b) = refl
text_eq-sym (c ∷ a) [] = refl
text_eq-sym (c ∷ a) (d ∷ b) = ground (arith, text_eq-sym a b)

-- `s.startsWith(p)`
abbrev pub starts_with : Text → Text → Bool
starts_with [] s = true
starts_with (c ∷ p) [] = false
starts_with (c ∷ p) (d ∷ s) = c == d && starts_with p s

-- The default of the column of settings.
abbrev pub empty_config : Text
empty_config = ascii "{}"

trim_both_ends : trim (ascii "  a b \n") ≡ ascii "a b"
unfolding trim
trim_both_ends = refl
