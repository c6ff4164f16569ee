-- ===== src/Prelude/Members.antt =====
-- Members of lists of texts: the test `in` and the relation, slices, and the texts of a list that a
-- set does not hold.
use Prim.Native.Nat.{ℕ, zero, suc, ◌+◌, ◌≤◌, ◌<◌}
use Prim.Native.String.{String}
use mathlib.Core.Path.{◌≡◌, refl, sym}
use mathlib.Core.Logic.{◌⊎◌, inl, inr}
use mathlib.Core.Bool.{true, false}
use mathlib.Core.List.{List, [], ◌∷◌, ◌++◌, Memᴰ}
use mathlib.Core.List.Memᴰ.{head, tail, cases_cons, not-nil}
use native.Mathlib.Omega.{arith}
use text.Mathlib.Text.{◌==◌}
use text.Mathlib.TextEquality.{eq_iff}
use stock_content.Prelude.Tests.{if◌then◌else◌, one_of, Bool-cases}

pub one_of-Mem : (x : String) (l : List String) → Memᴰ x l → one_of x l ≡ true
one_of-Mem x [] m = absurd (not-nil m)
one_of-Mem x (y ∷ l) m = elim (cases_cons m) [
  | inl e ↦ rw ((eq_iff x y).1 e) refl
  | inr t ↦ let r = one_of-Mem x l t in ground arith
]

pub Mem-one_of : (x : String) (l : List String) → one_of x l ≡ true → Memᴰ x l
Mem-one_of x [] h = absurd (ground arith)
Mem-one_of x (y ∷ l) h = elim (Bool-cases (x == y)) [
  | inl e ↦ head ((eq_iff x y).0 e)
  | inr e ↦ tail (Mem-one_of x l (rw e at h))
]

module _ {ℓ} {A : Type ℓ} where
  abbrev pub length : List A → ℕ
  length [] = 0
  length (x ∷ l) = suc (length l)

  -- `l[:n]`
  abbrev pub take : ℕ → List A → List A
  take zero l = []
  take (suc n) [] = []
  take (suc n) (x ∷ l) = x ∷ take n l

  -- `l[n:]`
  abbrev pub drop : ℕ → List A → List A
  drop zero l = l
  drop (suc n) [] = []
  drop (suc n) (x ∷ l) = drop n l

  pub Mem-slices : (a : A) (n : ℕ) (l : List A) → Memᴰ a l → Memᴰ a (take n l) ⊎ Memᴰ a (drop n l)
  Mem-slices a zero l m = inr m
  Mem-slices a (suc n) [] m = absurd (not-nil m)
  Mem-slices a (suc n) (x ∷ l) m = elim (cases_cons m) [
    | inl e ↦ inl (head e)
    | inr t ↦ elim (Mem-slices a n l t) [ inl h ↦ inl (tail h) | inr h ↦ inr h ]
  ]

  pub Mem-take : (a : A) (n : ℕ) (l : List A) → Memᴰ a (take n l) → Memᴰ a l
  Mem-take a zero l m = absurd (not-nil m)
  Mem-take a (suc n) [] m = m
  Mem-take a (suc n) (x ∷ l) m = elim (cases_cons m) [
    | inl e ↦ head e
    | inr t ↦ tail (Mem-take a n l t)
  ]

  pub Mem-drop : (a : A) (n : ℕ) (l : List A) → Memᴰ a (drop n l) → Memᴰ a l
  Mem-drop a zero l m = m
  Mem-drop a (suc n) [] m = m
  Mem-drop a (suc n) (x ∷ l) m = tail (Mem-drop a n l m)

  pub length-drop : (n : ℕ) (l : List A) → length (drop n l) ≤ length l
  length-drop zero l = omega arith
  length-drop (suc n) [] = omega arith
  length-drop (suc n) (x ∷ l) = omega (arith, length-drop n l)

  pub length-append : (l m : List A) → length (l ++ m) ≡ length l + length m
  length-append [] m = omega arith
  length-append (x ∷ l) m = omega (arith, length-append l m)

-- how many places of a list hold a text that is not in the set
abbrev pub unlisted : List String → List String → ℕ
unlisted q [] = 0
unlisted q (x ∷ u) = (if one_of x q then 0 else 1) + unlisted q u

pub unlisted-cons : (p : String) (q u : List String) → unlisted (p ∷ q) u ≤ unlisted q u
unlisted-cons p q [] = omega arith
unlisted-cons p q (x ∷ u) = ground (arith, unlisted-cons p q u)

pub unlisted_falls :
    (p : String) (q u : List String)
    → Memᴰ p u
    → one_of p q ≡ false
    → unlisted (p ∷ q) u < unlisted q u
unlisted_falls p q [] m h = absurd (not-nil m)
unlisted_falls p q (x ∷ u) m h = elim (cases_cons m) [
  | inl e ↦
      let r : x == p ≡ true = (eq_iff x p).1 (sym e) in
      let s : one_of x q ≡ false = rw (← e) h in let t = unlisted-cons p q u in ground arith
  | inr t ↦ let s = unlisted_falls p q u t h in ground arith
]

pub unlisted-le-length : (q u : List String) → unlisted q u ≤ length u
unlisted-le-length q [] = omega arith
unlisted-le-length q (x ∷ u) = ground (arith, unlisted-le-length q u)
