-- ===== src/Base/Text.antt =====
-- Python text as its list of code points: whitespace, case, stripping, searching and splitting.
use Prim.Native.Nat.{ℕ, ◌+◌, ◌-◌, ◌/◌, ◌%◌}
use Prim.Native.Char.{code}
use Prim.Native.String.{String}
use mathlib.Core.Path.{◌∙◌, ◌≡◌, refl, ap}
use mathlib.Core.Bool.{Bool, true, false, not, ◌&&◌, ◌||◌}
use mathlib.Core.Option.{Option, none, some}
use mathlib.Core.List.{List, [], ◌∷◌, ◌++◌, reverse, reverse-cons, reverse-reverse, reverse-append}
use native.Mathlib.Omega.{arith}
use mathlib.Core.Logic.{inl, inr}
use basket_recovery_ea.Base.Lists.{all, all-append}
use basket_recovery_ea.Base.Tests.{ltb, leb, ◌==◌, if◌then◌else◌, Bool-cases}

abbrev pub Text : Type 0
Text = List ℕ

-- The code points of a literal.
abbrev pub codes : String → Text
codes String.[] = []
codes (String.◌∷◌ c s) = code c ∷ codes s

abbrev pub within : ℕ → ℕ → ℕ → Bool
within lo hi c = leb lo c && leb c hi

-- `str.isspace` at one character, which `strip` and the pattern `\s` share.
unfoldable pub is_space : ℕ → Bool
is_space c =
    within 9 13 c
    || within 28 32 c
    || c == 0x85
    || c == 0xa0
    || c == 0x1680
    || within 0x2000 0x200a c
    || c == 0x2028
    || c == 0x2029
    || c == 0x202f
    || c == 0x205f
    || c == 0x3000

abbrev pub is_digit : ℕ → Bool
is_digit c = within b'0' b'9' c

-- `\w` at an ASCII character.
abbrev pub is_word : ℕ → Bool
is_word c = within b'a' b'z' c || within b'A' b'Z' c || is_digit c || c == b'_'

abbrev pub is_ascii : ℕ → Bool
is_ascii c = ltb c 128

abbrev pub lower_char : ℕ → ℕ
lower_char c = if within b'A' b'Z' c then c + 32 else c

abbrev pub upper_char : ℕ → ℕ
upper_char c = if within b'a' b'z' c then c - 32 else c

-- `str.lower` and `str.upper` on ASCII text.
unfoldable pub lower : Text → Text
lower [] = []
lower (c ∷ t) = lower_char c ∷ lower t

unfoldable pub upper : Text → Text
upper [] = []
upper (c ∷ t) = upper_char c ∷ upper t

unfoldable pub text_eq : Text → Text → Bool
text_eq [] [] = true
text_eq (c ∷ s) (d ∷ t) = c == d && text_eq s t
text_eq _ _ = false

pub text_eq_refl : (s : Text) → text_eq s s ≡ true
unfolding text_eq
text_eq_refl [] = refl
text_eq_refl (c ∷ s) = ground (arith, text_eq_refl s)

pub text_eq→eq : (s t : Text) → text_eq s t ≡ true → s ≡ t
unfolding text_eq
text_eq→eq [] [] h = refl
text_eq→eq [] (d ∷ t) h = cc
text_eq→eq (c ∷ s) [] h = cc
text_eq→eq (c ∷ s) (d ∷ t) h = ground (arith, text_eq→eq s t)

pub text_eq_comm : (s t : Text) → text_eq s t ≡ text_eq t s
unfolding text_eq
text_eq_comm [] [] = refl
text_eq_comm [] (d ∷ t) = refl
text_eq_comm (c ∷ s) [] = refl
text_eq_comm (c ∷ s) (d ∷ t) = ground (arith, text_eq_comm s t)

pub text_eq-swap : (s t : Text) → text_eq s t ≡ false → text_eq t s ≡ false
text_eq-swap s t h = text_eq_comm t s ∙ h

-- The text without its leading whitespace, and without that at both ends (`str.strip`).
unfoldable pub skip_spaces : Text → Text
unfolding is_space
skip_spaces [] = []
skip_spaces (c ∷ t) = if is_space c then skip_spaces t else c ∷ t

unfoldable pub strip : Text → Text
unfolding skip_spaces
strip t = reverse (skip_spaces (reverse (skip_spaces t)))

abbrev pub is_solid : ℕ → Bool
is_solid c = not (is_space c)

skip_spaces-solid : (t : Text) → all is_solid t ≡ true → skip_spaces t ≡ t
unfolding skip_spaces
skip_spaces-solid [] h = refl
skip_spaces-solid (c ∷ t) h = ground arith

all-reverse : (t : Text) → all is_solid t ≡ true → all is_solid (reverse t) ≡ true
all-reverse [] h = refl
all-reverse (c ∷ t) h =
    rw (reverse-cons c t)
      (all-append is_solid (reverse t) (c ∷ []) (all-reverse t (ground arith)) (ground arith))

-- A text without whitespace is stripped already.
pub strip-solid : (t : Text) → all is_solid t ≡ true → strip t ≡ t
unfolding strip
strip-solid t h =
    rw (skip_spaces-solid t h, skip_spaces-solid (reverse t) (all-reverse t h)) (reverse-reverse t)

skip_spaces-skip_spaces : (t : Text) → skip_spaces (skip_spaces t) ≡ skip_spaces t
unfolding skip_spaces
skip_spaces-skip_spaces [] = refl
skip_spaces-skip_spaces (c ∷ t) = ground (arith, skip_spaces-skip_spaces t)

-- The whitespace in front of a text ends before its last character, if that is solid.
skip_spaces-snoc :
    (t : Text) (c : ℕ) → is_space c ≡ false → (u : Text) × (skip_spaces (t ++ c ∷ []) ≡ u ++ c ∷ [])
unfolding skip_spaces
skip_spaces-snoc [] c h = ([], rw h refl)
skip_spaces-snoc (d ∷ t) c h =
    let rest = skip_spaces-snoc t c h in
    elim (Bool-cases (is_space d)) [ inl e ↦ (rest.0, rw e rest.1) | inr e ↦ (d ∷ t, rw e refl) ]

solid-first : (c : ℕ) (t : Text) → is_space c ≡ false → skip_spaces (c ∷ t) ≡ c ∷ t
unfolding skip_spaces
solid-first c t h = rw h refl

-- The stripping behind a solid character leaves it in front.
tail-stripped :
    (c : ℕ) (t : Text)
    → is_space c ≡ false
    → skip_spaces (reverse (skip_spaces (reverse (c ∷ t))))
      ≡ reverse (skip_spaces (reverse (c ∷ t)))
tail-stripped c t h =
    let last = skip_spaces-snoc (reverse t) c h in
    let front : reverse (skip_spaces (reverse (c ∷ t))) ≡ c ∷ reverse last.0 =
      ap (λ r. reverse (skip_spaces r)) (reverse-cons c t)
      ∙ ap reverse last.1
      ∙ reverse-append last.0 (c ∷ []) in
    rw front (solid-first c (reverse last.0) h)

skip_spaces-tail :
    (t : Text)
    → skip_spaces (reverse (skip_spaces (reverse (skip_spaces t))))
      ≡ reverse (skip_spaces (reverse (skip_spaces t)))
unfolding skip_spaces
skip_spaces-tail [] = refl
skip_spaces-tail (c ∷ t) = elim (Bool-cases (is_space c)) [
  | inl e ↦ rw e (skip_spaces-tail t)
  | inr e ↦ rw e (tail-stripped c t e)
]

pub strip-strip : (t : Text) → strip (strip t) ≡ strip t
unfolding strip
strip-strip t =
    let u = skip_spaces (reverse (skip_spaces t)) in
    ap (λ x. reverse (skip_spaces (reverse x))) (skip_spaces-tail t)
    ∙ ap (λ x. reverse (skip_spaces x)) (reverse-reverse u)
    ∙ ap reverse (skip_spaces-skip_spaces (reverse (skip_spaces t)))

-- `t.startswith(p)`, with what follows the prefix.
unfoldable pub after_prefix : Text → Text → Option Text
after_prefix [] t = some t
after_prefix (p ∷ ps) [] = none
after_prefix (p ∷ ps) (c ∷ t) = if p == c then after_prefix ps t else none

-- `needle in t`.
unfoldable pub contains : Text → Text → Bool
unfolding after_prefix
contains needle [] = elim (after_prefix needle []) [ none ↦ false | some _ ↦ true ]
contains needle (c ∷ t) = elim (after_prefix needle (c ∷ t)) [
  | none ↦ contains needle t
  | some _ ↦ true
]

-- `t.split("\n")`.
add_to_first : ℕ → List Text → List Text
add_to_first c [] = (c ∷ []) ∷ []
add_to_first c (l ∷ ls) = (c ∷ l) ∷ ls

unfoldable pub split_lines : Text → List Text
unfolding add_to_first
split_lines [] = [] ∷ []
split_lines (c ∷ t) = let rest = split_lines t in if c == 10 then [] ∷ rest else add_to_first c rest

-- The UTF-8 encoding of one character and of a text (`str.encode("utf-8")`).
unfoldable pub utf8_char : ℕ → List ℕ
utf8_char c =
    if ltb c 0x80
    then c ∷ []
    else if ltb c 0x800
    then (0xc0 + c / 0x40) ∷ (0x80 + c % 0x40) ∷ []
    else if ltb c 0x10000
    then (0xe0 + c / 0x1000) ∷ (0x80 + c / 0x40 % 0x40) ∷ (0x80 + c % 0x40) ∷ []
    else (0xf0 + c / 0x40000)
      ∷ (0x80 + c / 0x1000 % 0x40)
      ∷ (0x80 + c / 0x40 % 0x40)
      ∷ (0x80 + c % 0x40)
      ∷ []

unfoldable pub utf8 : Text → List ℕ
unfolding utf8_char
utf8 [] = []
utf8 (c ∷ t) = utf8_char c ++ utf8 t
