-- ===== src/Prelude/Same.antt =====
-- Equality of texts as a decision.
use mathlib.Core.Path.{◌≡◌, refl, ap}
use mathlib.Core.Option.{Option, none, some}
use Prim.Native.String.{String}
use mathlib.Core.Bool.{true, false≢true}
use mathlib.Core.Logic.{inl, inr}
use text.Mathlib.Text.{◌==◌}
use text.Mathlib.TextEquality.{eq_iff}
use stock_content.Prelude.Tests.{Bool-cases, opt_eq}

unfoldable pub String-discrete : Discrete String
String-discrete a b = elim (Bool-cases (a == b)) [
  | inl e ↦ yes ((eq_iff a b).0 e)
  | inr e ↦ no (λ p. false≢true (rw (← e) ((eq_iff a b).1 p)))
]

pub opt_eq→≡ : (a b : Option String) → opt_eq a b ≡ true → a ≡ b
opt_eq→≡ none none h = refl
opt_eq→≡ (some a) (some b) h = ap some ((eq_iff a b).0 h)
opt_eq→≡ none (some b) h = cc
opt_eq→≡ (some a) none h = cc
