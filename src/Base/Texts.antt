-- ===== src/Base/Texts.antt =====
-- C strings, as the bytes in front of their NUL, and what the C library does with them.
use Prim.Native.Nat.{ℕ}
use mathlib.Core.Path.{◌≡◌, refl}
use mathlib.Core.Bool.{Bool, true, false, ◌&&◌}
use mathlib.Core.List.{List, [], ◌∷◌}
use native.Mathlib.Omega.{arith}
use ncku_operating_system.Base.Tests.{◌==◌, if◌then◌else◌, ==_iff}

abbrev pub Text : Type 0
Text = List ℕ

-- `strcmp(a, b) == 0`.
unfoldable pub text_eq : Text → Text → Bool
text_eq [] [] = true
text_eq [] (c ∷ b) = false
text_eq (c ∷ a) [] = false
text_eq (c ∷ a) (d ∷ b) = c == d && text_eq a b

-- The part of a line in front of its first newline: `buffer[strcspn(buffer, "\n")] = 0`.
unfoldable pub cut_line : Text → Text
cut_line [] = []
cut_line (c ∷ rest) = let tail = cut_line rest in if c == 10 then [] else c ∷ tail

pub eq_of_text_eq : (a b : Text) → text_eq a b ≡ true → a ≡ b
unfolding text_eq
eq_of_text_eq [] [] e = refl
eq_of_text_eq [] (c ∷ b) e = absurd (cc e)
eq_of_text_eq (c ∷ a) [] e = absurd (cc e)
eq_of_text_eq (c ∷ a) (d ∷ b) e =
    let tails : text_eq a b ≡ true = ground arith in
    let heads : c ≡ d = ground arith in rw (heads, eq_of_text_eq a b tails) refl

pub text_eq_refl : (a : Text) → text_eq a a ≡ true
unfolding text_eq
text_eq_refl [] = refl
text_eq_refl (c ∷ a) =
    let same : (c == c) ≡ true = (==_iff c c).1 refl in rw (same, text_eq_refl a) refl
