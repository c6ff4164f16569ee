-- ===== src/Prelude/Batch.antt =====
-- A write to each of the rows that a query returned.
use Prim.Native.String.{String}
use mathlib.Core.Path.{◌≡◌, refl, ◌∙◌, ap, sym}
use mathlib.Core.Logic.{◌⊎◌, inl, inr}
use mathlib.Core.Bool.{Bool, true}
use mathlib.Core.Option.{some}
use mathlib.Core.List.{List, [], ◌∷◌, Memᴰ}
use mathlib.Core.List.Memᴰ.{cases_cons, not-nil}
use native.Mathlib.Omega.{arith}
use text.Mathlib.Text.{◌==◌}
use text.Mathlib.TextEquality.{eq_iff}
use text.Mathlib.TextPositions.{eq_refl}
use stock_content.Prelude.Tests.{Bool-cases}
use stock_content.Prelude.Table.{Table, Selected}

-- the selected rows as they are after the write
unfoldable pub map_rows {ℓ} :
    {Row : Type ℓ} → (Row → Row) → List (String × Row) → List (String × Row)
map_rows f [] = []
map_rows f ((k, r) ∷ l) = (k, f r) ∷ map_rows f l

module _ {Row : Type 0} (db : Table Row) where
  open db use {State, get, put, get-put}

  unfoldable pub put_all : (Row → Row) → State → List (String × Row) → State
  put_all f s [] = s
  put_all f s ((k, r) ∷ l) = put (put_all f s l) k (f r)

  -- The row under `k` is left, or was selected and is rewritten.
  pub put_all-cases :
      (f : Row → Row) (p : Row → Bool) (s : State) (l : List (String × Row)) (k : String)
      → Selected (get s) p l
      → (get (put_all f s l) k ≡ get s k)
        ⊎ ((r : Row) × (get s k ≡ some r) × (p r ≡ true) × (get (put_all f s l) k ≡ some (f r)))
  unfolding put_all
  put_all-cases f p s [] k h = inl refl
  put_all-cases f p s ((j, r) ∷ l) k h = elim (Bool-cases (j == k)) [
    | inl e ↦
        let put_k : get (put (put_all f s l) j (f r)) k ≡ some (f r) =
          get-put (put_all f s l) j k (f r) ∙ rw e in
        let there : get s k ≡ some r = rw (← (eq_iff j k).0 e) h.0 in inr (r, there, h.1, put_k)
    | inr e ↦ rw (get-put (put_all f s l) j k (f r), e) (put_all-cases f p s l k h.2)
  ]

  -- a write to one row, seen from any row
  pub put-cases :
      (s : State) (j k : String) (r : Row)
      → ((j ≡ k) × (get (put s j r) k ≡ some r)) ⊎ (get (put s j r) k ≡ get s k)
  put-cases s j k r = elim (Bool-cases (j == k)) [
    | inl e ↦ inl ((eq_iff j k).0 e, get-put s j k r ∙ (rw e))
    | inr e ↦ inr (get-put s j k r ∙ (rw e))
  ]

  -- What a claim hands out is stored, and was made of a row that passed the filter.
  pub put_all-map_rows :
      (f : Row → Row) (p : Row → Bool) (s : State) (l : List (String × Row)) (k : String)
      (row : Row)
      → Selected (get s) p l
      → Memᴰ (k, row) (map_rows f l)
      → (get (put_all f s l) k ≡ some row)
        × ((old : Row) × (get s k ≡ some old) × (p old ≡ true) × (row ≡ f old))
  unfolding put_all map_rows
  put_all-map_rows f p s [] k row h m = absurd (not-nil m)
  put_all-map_rows f p s ((j, r) ∷ l) k row (there, passes, h) m = elim (cases_cons m) [
    | inl e ↦
        let same : k ≡ j = ap (λ (x : String × Row). x.0) e in
        let made : row ≡ f r = ap (λ (x : String × Row). x.1) e in
        (
          get-put (put_all f s l) j k (f r) ∙ rw (same, eq_refl j, made) refl,
          (r, rw same there, passes, made),
        )
    | inr t ↦
        let (stored, (old, was, q, made)) = put_all-map_rows f p s l k row h t in
        (
          get-put (put_all f s l) j k (f r) ∙ elim (Bool-cases (j == k)) [
            | inl e ↦
                let one : some r ≡ some old = sym there ∙ rw ((eq_iff j k).0 e) was in
                let same : r ≡ old = ground arith in rw (e, made, same) refl
            | inr e ↦ rw e stored
          ],
          (old, was, q, made),
        )
  ]
