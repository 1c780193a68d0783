-- ===== src/Prelude/Strings.antt =====
-- A Python `str` as the list of its code points.
use Prim.Native.Nat.{ℕ, ◌≤◌}
use Prim.Native.Char.{code}
use Prim.Native.String.{String}
use mathlib.Core.Path.{◌≡◌, refl}
use mathlib.Core.Logic.{◌≢◌, ◌↔◌, ◌⊎◌, inl, inr}
use mathlib.Core.Bool.{Bool, true, false, not, ◌&&◌, ◌||◌}
use mathlib.Core.List.{List, [], ◌∷◌, ◌++◌, reverse, reverse-reverse}
use native.Mathlib.Omega.{arith}
use ai_document_analysis.Prelude.Lists.{All, All-reverse}
use ai_document_analysis.Prelude.Tests.{leb, nat_eq, Eq, if◌then◌else◌}

abbrev pub Text : Type 0
Text = List ℕ

-- A literal of the source.
abbrev pub codes : String → Text
codes String.[] = []
codes (String.◌∷◌ c s) = code c ∷ codes s

unfoldable pub text_eq : Text → Text → Bool
text_eq [] [] = true
text_eq (a ∷ s) (b ∷ t) = nat_eq a b && text_eq s t
text_eq s t = false

text_eq_sound : (s t : Text) → text_eq s t ≡ true → s ≡ t
unfolding text_eq
text_eq_sound [] [] h = refl
text_eq_sound (a ∷ s) (b ∷ t) h = ground (arith, text_eq_sound s t)
text_eq_sound [] (b ∷ t) h = cc
text_eq_sound (a ∷ s) [] h = cc

text_eq_self : (s : Text) → text_eq s s ≡ true
unfolding text_eq
text_eq_self [] = refl
text_eq_self (a ∷ s) = ground (arith, text_eq_self s)

pub text_eq_iff : (s t : Text) → (text_eq s t ≡ true) ↔ (s ≡ t)
text_eq_iff s t = (text_eq_sound s t, λ e. rw e (text_eq_self t))

instance abbrev pub text-Eq : Eq Text
text-Eq = record { test = text_eq; test_iff = text_eq_iff _ _ }

-- `str.isspace` for one character: Unicode whitespace.
is_space : ℕ → Bool
is_space c =
    (leb 9 c && leb c 13)
    || (leb 28 c && leb c 32)
    || nat_eq c 0x85
    || nat_eq c 0xa0
    || nat_eq c 0x1680
    || (leb 0x2000 c && leb c 0x200a)
    || nat_eq c 0x2028
    || nat_eq c 0x2029
    || nat_eq c 0x202f
    || nat_eq c 0x205f
    || nat_eq c 0x3000

lstrip : Text → Text
lstrip [] = []
lstrip (c ∷ t) = let rest = lstrip t in if is_space c then rest else c ∷ t

-- `text.strip()`
unfoldable pub strip : Text → Text
unfolding lstrip is_space
strip t = reverse (lstrip (reverse (lstrip t)))

unfoldable pub starts_with : Text → Text → Bool
starts_with [] t = true
starts_with (a ∷ s) [] = false
starts_with (a ∷ s) (b ∷ t) = nat_eq a b && starts_with s t

-- `sep in text`
unfoldable pub contains : Text → Text → Bool
unfolding starts_with
contains sep [] = starts_with sep []
contains sep (c ∷ t) = starts_with sep (c ∷ t) || contains sep t

-- Texts with one stem are told apart by their endings.
pub text_eq-append : (p s t : Text) → text_eq (p ++ s) (p ++ t) ≡ text_eq s t
unfolding text_eq
text_eq-append [] s t = refl
text_eq-append (c ∷ p) s t = ground (arith, text_eq-append p s t)

-- Printable ASCII without the space, and the characters outside the basic plane.
abbrev pub IsVisible : ℕ → Type 0
IsVisible c = ((33 ≤ c) × (c ≤ 126)) ⊎ (65536 ≤ c)

is_space-visible : (c : ℕ) → IsVisible c → is_space c ≡ false
unfolding is_space
is_space-visible c (inl (low, high)) = ground arith
is_space-visible c (inr high) = ground arith

lstrip-visible : (t : Text) → All IsVisible t → lstrip t ≡ t
unfolding lstrip
lstrip-visible [] h = refl
lstrip-visible (c ∷ t) h = rw (is_space-visible c h.0)

-- A text of visible characters has nothing to strip.
pub strip-visible : (t : Text) → All IsVisible t → strip t ≡ t
unfolding strip
strip-visible t h =
    rw (lstrip-visible t h, lstrip-visible (reverse t) (All-reverse IsVisible t h))
      (reverse-reverse t)

-- A test that a character does not stand in a text.
abbrev pub excludes : ℕ → Text → Bool
excludes d [] = true
excludes d (c ∷ t) = not (nat_eq c d) && excludes d t

pub All-excludes : (d : ℕ) (t : Text) → excludes d t ≡ true → All (λ c. c ≢ d) t
All-excludes d [] h = tt
All-excludes d (c ∷ t) h =
    let (other, rest) : (nat_eq c d ≡ false) × (excludes d t ≡ true) =
      (ground (arith, h), ground (arith, h)) in
    (λ e. ground (arith, other, e), All-excludes d t rest)

-- A text is parted at a separator in one way, where the separator is not in the first part.
pub until_separator :
    (d : ℕ) (a b x y : Text)
    → All (λ c. c ≢ d) a
    → All (λ c. c ≢ d) b
    → a ++ d ∷ x ≡ b ++ d ∷ y
    → (a ≡ b) × (x ≡ y)
until_separator d [] [] x y ha hb e = (refl, cc)
until_separator d [] (c ∷ b) x y ha hb e = absurd (hb.0 cc)
until_separator d (c ∷ a) [] x y ha hb e = absurd (ha.0 cc)
until_separator d (c ∷ a) (c' ∷ b) x y ha hb e =
    let (same, rest) = until_separator d a b x y ha.1 hb.1 cc in (cc (same, e), rest)
