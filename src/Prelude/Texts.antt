-- ===== src/Prelude/Texts.antt =====
-- Texts as lists of code points, with Python's `strip`.
use Prim.Native.Nat.{ℕ}
use Prim.Native.Char.{code}
use Prim.Native.String.{String}
use mathlib.Core.Path.{◌≡◌, refl}
use mathlib.Core.Bool.{Bool, true, false, not, ◌&&◌, ◌||◌}
use mathlib.Core.List.{List, [], ◌∷◌, reverse, reverse_aux}
use native.Mathlib.Omega.{arith}
use mathlib.Core.Logic.{inl, inr}
use advisoryhub.Prelude.Tests.{◌==◌, leb, if◌then◌else◌, Bool-cases}

abbrev pub Text : Type 0
Text = List ℕ

-- The blank text.
abbrev pub blank : Text
blank = []

-- The code points of a literal.
abbrev pub codes : String → Text
codes String.[] = []
codes (String.◌∷◌ c s) = code c ∷ codes s

-- The truth value of a `str`.
abbrev pub is_blank : Text → Bool
is_blank [] = true
is_blank (c ∷ s) = false

-- `str ==`
abbrev pub text_eq : Text → Text → Bool
text_eq [] [] = true
text_eq (a ∷ s) (b ∷ t) = a == b && text_eq s t
text_eq _ _ = false

-- The code points that `str.isspace` accepts.
unfoldable pub is_space : ℕ → Bool
is_space c =
    leb 9 c && leb c 13
    || leb 28 c && leb c 32
    || c == 0x85
    || c == 0xa0
    || c == 0x1680
    || leb 0x2000 c && leb c 0x200a
    || c == 0x2028
    || c == 0x2029
    || c == 0x202f
    || c == 0x205f
    || c == 0x3000

unfoldable pub lstrip : Text → Text
lstrip [] = []
lstrip (c ∷ s) = if is_space c then lstrip s else c ∷ s

-- `str.strip()`
unfoldable pub strip : Text → Text
unfolding lstrip is_space
strip s = reverse (lstrip (reverse (lstrip s)))

pub text_eq_refl : (s : Text) → text_eq s s ≡ true
text_eq_refl [] = refl
text_eq_refl (c ∷ s) = ground (arith, text_eq_refl s)

pub text_eq_sound : (s t : Text) → text_eq s t ≡ true → s ≡ t
text_eq_sound [] [] h = refl
text_eq_sound [] (b ∷ t) h = ground arith
text_eq_sound (a ∷ s) [] h = ground arith
text_eq_sound (a ∷ s) (b ∷ t) h = ground (arith, text_eq_sound s t)

-- Whether some code point is not white space.
abbrev pub has_text : Text → Bool
has_text [] = false
has_text (c ∷ s) = not (is_space c) || has_text s

has_text-reverse_aux :
    (s t : Text) → has_text s || has_text t ≡ true → has_text (reverse_aux s t) ≡ true
has_text-reverse_aux [] t h = h
has_text-reverse_aux (c ∷ s) t h = has_text-reverse_aux s (c ∷ t) (ground (arith, h))

has_text-reverse : (s : Text) → has_text s ≡ true → has_text (reverse s) ≡ true
has_text-reverse s h = has_text-reverse_aux s [] (ground (arith, h))

has_text-lstrip : (s : Text) → has_text s ≡ true → has_text (lstrip s) ≡ true
unfolding lstrip
has_text-lstrip [] h = h
has_text-lstrip (c ∷ s) h = ground (arith, has_text-lstrip s)

has_text-not-blank : (s : Text) → has_text s ≡ true → is_blank s ≡ false
has_text-not-blank [] h = ground arith
has_text-not-blank (c ∷ s) h = refl

-- What is left after `strip` is visible, if anything is.
has_text-lstrip_left : (s : Text) → is_blank (lstrip s) ≡ false → has_text (lstrip s) ≡ true
unfolding lstrip
has_text-lstrip_left [] h = ground (arith, h)
has_text-lstrip_left (c ∷ s) h = ground (arith, h, has_text-lstrip_left s)

is_blank-reverse_aux :
    (s t : Text) → is_blank s ≡ true → is_blank t ≡ true → is_blank (reverse_aux s t) ≡ true
is_blank-reverse_aux [] t h k = k
is_blank-reverse_aux (c ∷ s) t h k = ground (arith, h)

pub has_text-strip : (s : Text) → is_blank (strip s) ≡ false → has_text (strip s) ≡ true
unfolding strip
has_text-strip s h =
    let back = reverse (lstrip s) in
    has_text-reverse (lstrip back) (
      has_text-lstrip_left back (elim (Bool-cases (is_blank (lstrip back))) [
        | inr some_left ↦ some_left
        | inl gone ↦ ground (arith, h, is_blank-reverse_aux (lstrip back) [] gone refl)
      ]))

pub is_blank-strip-text : (s : Text) → has_text s ≡ true → is_blank (strip s) ≡ false
unfolding strip
is_blank-strip-text s h =
    let front = lstrip s in
    let back = lstrip (reverse front) in
    has_text-not-blank (reverse back) (
      has_text-reverse back
        (has_text-lstrip (reverse front) (has_text-reverse front (has_text-lstrip s h))))

-- What begins with a visible character is not blank after `strip`.
is_blank-strip : (c : ℕ) (s : Text) → is_space c ≡ false → is_blank (strip (c ∷ s)) ≡ false
is_blank-strip c s h = is_blank-strip-text (c ∷ s) (ground (arith, h))

pub is_blank-strip_upper_a : (s : Text) → is_blank (strip (65 ∷ s)) ≡ false
unfolding is_space
is_blank-strip_upper_a s = is_blank-strip 65 s refl
