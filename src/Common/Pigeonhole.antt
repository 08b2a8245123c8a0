-- ===== src/Common/Pigeonhole.antt =====
-- Counting: distinct ids that all lie in a list are no more than its entries, and where they are as
-- many they are all of them.
use ticket_booking_system.Common.Tests.{◌==◌, if◌then◌else◌, Bool-cases, ==→eq}
use ticket_booking_system.Common.Lists.{length, contains, IsDistinct}
use Prim.Native.Nat.{ℕ, suc, ◌≤◌}
use mathlib.Core.Path.{◌≡◌}
use mathlib.Core.Logic.{inl, inr}
use mathlib.Core.Bool.{true, false}
use mathlib.Core.List.{List, [], ◌∷◌}
use native.Mathlib.Omega.{arith}

remove : List ℕ → ℕ → List ℕ
remove [] a = []
remove (x ∷ xs) a = let rest = x ∷ remove xs a in if x == a then xs else rest

length-remove :
    (xs : List ℕ) (a : ℕ) → contains xs a ≡ true → length xs ≡ suc (length (remove xs a))
unfolding remove
length-remove [] a h = cc
length-remove (x ∷ xs) a h = ground (arith, length-remove xs a)

contains-remove :
    (xs : List ℕ) (a b : ℕ)
    → (a == b) ≡ false
    → contains xs b ≡ true
    → contains (remove xs a) b ≡ true
unfolding remove
contains-remove [] a b ne h = h
contains-remove (x ∷ xs) a b ne h = ground (arith, contains-remove xs a b ne)

abbrev pub Within : List ℕ → List ℕ → Type 0
Within xs ys = (a : ℕ) → contains xs a ≡ true → contains ys a ≡ true

pub length-Within : (xs ys : List ℕ) → IsDistinct xs → Within xs ys → length xs ≤ length ys
length-Within [] ys d w = omega arith
length-Within (x ∷ xs) ys d w =
    omega
      (arith, length-remove ys x (w x (ground arith)), length-Within xs (remove ys x) d.1 shrunk)
  where
    shrunk : Within xs (remove ys x)
    shrunk a h = ground (arith, contains-remove ys x a, w a, ==→eq x a)

pub Within-full :
    (xs ys : List ℕ) → IsDistinct xs → Within xs ys → length ys ≤ length xs → Within ys xs
Within-full xs ys d w l a h = elim (Bool-cases (contains xs a)) [
  | inl e ↦ e
  | inr e ↦ absurd (omega (arith, length-Within (a ∷ xs) ys (e, d) larger))
]
  where
    larger : Within (a ∷ xs) ys
    larger b m = ground (arith, w b, ==→eq a b)
