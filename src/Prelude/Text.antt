-- ===== src/Prelude/Text.antt =====
-- Texts cut to a length, integers that may be negative, and dictionaries of payloads.
use Prim.Native.Nat.{ℕ, zero, suc}
use Prim.Native.String.{String}
use mathlib.Core.Path.{◌≡◌, refl}
use mathlib.Core.Option.{Option, none, some}
use mathlib.Core.List.{List, [], ◌∷◌}
use native.Mathlib.Omega.{arith}
use text.Mathlib.Text.{◌==◌}
use text.Mathlib.TextEquality.{eq_iff}
use stock_content.Prelude.Tests.{if◌then◌else◌}

-- `text[:n]`
abbrev pub prefix : ℕ → String → String
prefix zero s = ""
prefix (suc n) String.[] = ""
prefix (suc n) (String.◌∷◌ c s) = String.◌∷◌ c (prefix n s)

-- `negsuc n` is -(n + 1).
pub data ℤ : Type 0 where
  pos : ℕ → ℤ
  negsuc : ℕ → ℤ

-- A `dict` with `str` keys, in order of insertion.
module _ {ℓ} {V : Type ℓ} where
  -- `d.get(key)`
  abbrev pub dict_get : List (String × V) → String → Option V
  dict_get [] k = none
  dict_get ((j, v) ∷ d) k = if j == k then some v else dict_get d k

  -- `{**d, key: value}`
  abbrev pub dict_set : List (String × V) → String → V → List (String × V)
  dict_set [] k v = (k, v) ∷ []
  dict_set ((j, w) ∷ d) k v = if j == k then (j, v) ∷ d else (j, w) ∷ dict_set d k v

  pub dict_get-dict_set :
      (d : List (String × V)) (k j : String) (v : V)
      → dict_get (dict_set d k v) j ≡ (if k == j then some v else dict_get d j)
  dict_get-dict_set [] k j v = refl
  dict_get-dict_set ((i, w) ∷ d) k j v =
      ground (arith, eq_iff k j, eq_iff i k, eq_iff i j, dict_get-dict_set d k j v)
