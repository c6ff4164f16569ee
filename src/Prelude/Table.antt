-- ===== src/Prelude/Table.antt =====
-- What the repositories use of a database session: rows under a primary key. The database is not
-- part of the program, so it is a record of operations with the laws that its documentation gives.
use Prim.Native.Nat.{ℕ, zero, suc}
use Prim.Native.String.{String}
use mathlib.Core.Path.{◌≡◌, refl}
use mathlib.Core.Bool.{Bool, true, false}
use mathlib.Core.Logic.{inl, inr}
use mathlib.Core.Option.{Option, none, some}
use mathlib.Core.List.{List, [], ◌∷◌}
use native.Mathlib.Omega.{arith}
use text.Mathlib.Text.{◌==◌}
use text.Mathlib.TextEquality.{eq_iff}
use stock_content.Prelude.Tests.{if◌then◌else◌, Bool-cases}

-- Each of the selected pairs is a row of the table that passes the filter.
abbrev pub Selected {ℓ} :
    {Row : Type ℓ} → (String → Option Row) → (Row → Bool) → List (String × Row) → Type ℓ
Selected get p [] = Unit
Selected get p ((k, r) ∷ l) = (get k ≡ some r) × (p r ≡ true) × Selected get p l

-- `get` is `session.get(Row, key)`; `put` is what a committed transaction leaves after
-- `session.add(row)` or after writes to the attributes of a loaded row; `scalar` is
-- `session.scalar(select(Row).where(p))`, and `select` is
-- `session.scalars(select(Row).where(p).order_by(…).limit(n).with_for_update(skip_locked=True))`,
-- of which nothing is assumed of the order, nor that every row that passes is returned: rows
-- that another transaction has locked are skipped.
pub record Table (Row : Type 0) : Type 1 where
  pub State : Type 0
  pub get : State → String → Option Row
  pub put : State → String → Row → State
  pub scalar : (Row → Bool) → State → Option (String × Row)
  pub select : (Row → Bool) → ℕ → State → List (String × Row)
  pub get-put :
      (s : State) (k j : String) (r : Row)
      → get (put s k r) j ≡ (if k == j then some r else get s j)
  pub scalar-some :
      (p : Row → Bool) (s : State) (k : String) (r : Row)
      → scalar p s ≡ some (k, r)
      → (get s k ≡ some r) × (p r ≡ true)
  pub scalar-none :
      (p : Row → Bool) (s : State) (k : String) (r : Row)
      → scalar p s ≡ none
      → get s k ≡ some r
      → p r ≡ false
  pub select-rows : (p : Row → Bool) (n : ℕ) (s : State) → Selected (get s) p (select p n s)

-- An association list meets the laws.
module _ {Row : Type 0} where
  abbrev assoc_get : List (String × Row) → String → Option Row
  assoc_get [] k = none
  assoc_get ((j, r) ∷ s) k = if j == k then some r else assoc_get s k

  abbrev assoc_put : List (String × Row) → String → Row → List (String × Row)
  assoc_put [] k r = (k, r) ∷ []
  assoc_put ((j, q) ∷ s) k r = if j == k then (k, r) ∷ s else (j, q) ∷ assoc_put s k r

  pub get-put_assoc :
      (s : List (String × Row)) (k j : String) (r : Row)
      → assoc_get (assoc_put s k r) j ≡ (if k == j then some r else assoc_get s j)
  get-put_assoc [] k j r = refl
  get-put_assoc ((i, q) ∷ s) k j r =
      ground (arith, eq_iff k j, eq_iff i k, eq_iff i j, get-put_assoc s k j r)

  abbrev kept : (Row → Bool) → Option Row → Option Row
  kept p none = none
  kept p (some r) = if p r then some r else none

  -- the first rows of `l` that pass, as `s` holds them
  abbrev pick : (Row → Bool) → ℕ → List (String × Row) → List (String × Row) → List (String × Row)
  pick p n s [] = []
  pick p n s ((k, _) ∷ l) = elim (kept p (assoc_get s k)) [
    | none ↦ pick p n s l
    | some r ↦ elim n [ zero ↦ [] | suc m ↦ (k, r) ∷ pick p m s l ]
  ]

  abbrev head_of : List (String × Row) → Option (String × Row)
  head_of [] = none
  head_of (x ∷ _) = some x

  module _ (p : Row → Bool) (s l : List (String × Row)) (k : String) where
    abbrev next_pick : ℕ → Option Row → List (String × Row)
    next_pick n o = elim o [
      | none ↦ pick p n s l
      | some r ↦ elim n [ zero ↦ [] | suc m ↦ (k, r) ∷ pick p m s l ]
    ]

    next_pick-rows :
        (n : ℕ) (o : Option Row)
        → ((m : ℕ) → Selected (assoc_get s) p (pick p m s l))
        → assoc_get s k ≡ o
        → Selected (assoc_get s) p (next_pick n (kept p o))
    next_pick-rows n none ih e = ih n
    next_pick-rows zero (some r) ih e = elim (Bool-cases (p r)) [
      | inl y ↦ rw y tt
      | inr x ↦ rw x (ih 0)
    ]
    next_pick-rows (suc m) (some r) ih e = elim (Bool-cases (p r)) [
      | inl y ↦ rw y (e, y, ih m)
      | inr x ↦ rw x (ih (suc m))
    ]

  pub pick-rows :
      (p : Row → Bool) (n : ℕ) (s l : List (String × Row)) → Selected (assoc_get s) p (pick p n s l)
  pick-rows p n s [] = tt
  pick-rows p n s ((k, _) ∷ l) =
      next_pick-rows p s l k n (assoc_get s k) (λ m. pick-rows p m s l) refl

  pick-none :
      (p : Row → Bool) (s l : List (String × Row)) (k : String) (q r : Row)
      → pick p 1 s l ≡ []
      → assoc_get l k ≡ some q
      → assoc_get s k ≡ some r
      → p r ≡ false
  pick-none p s [] k q r none_left here there = cc
  pick-none p s ((j, _) ∷ l) k q r none_left here there =
      ground (arith, eq_iff j k, pick-none p s l k q r)

  head_of-none : (l : List (String × Row)) → head_of l ≡ none → l ≡ []
  head_of-none [] h = refl
  head_of-none (x ∷ l) h = cc

  head_of-some :
      (p : Row → Bool) (s l : List (String × Row)) (k : String) (r : Row)
      → Selected (assoc_get s) p l
      → head_of l ≡ some (k, r)
      → (assoc_get s k ≡ some r) × (p r ≡ true)
  head_of-some p s [] k r rows h = cc
  head_of-some p s ((j, q) ∷ l) k r rows h = ground arith

  pub assoc_scalar-some :
      (p : Row → Bool) (s : List (String × Row)) (k : String) (r : Row)
      → head_of (pick p 1 s s) ≡ some (k, r)
      → (assoc_get s k ≡ some r) × (p r ≡ true)
  assoc_scalar-some p s k r = head_of-some p s (pick p 1 s s) k r (pick-rows p 1 s s)

  pub assoc_scalar-none :
      (p : Row → Bool) (s : List (String × Row)) (k : String) (r : Row)
      → head_of (pick p 1 s s) ≡ none
      → assoc_get s k ≡ some r
      → p r ≡ false
  assoc_scalar-none p s k r h e = pick-none p s s k r r (head_of-none (pick p 1 s s) h) e e

abbrev pub assoc_table : (Row : Type 0) → Table Row
assoc_table Row = record {
  State = List (String × Row);
  get = assoc_get;
  put = assoc_put;
  scalar = λ p s. head_of (pick p 1 s s);
  select = λ p n s. pick p n s s;
  get-put = get-put_assoc;
  scalar-some = assoc_scalar-some;
  scalar-none = assoc_scalar-none;
  select-rows = λ p n s. pick-rows p n s s;
}
