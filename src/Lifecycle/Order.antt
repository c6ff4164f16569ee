-- ===== src/Lifecycle/Order.antt =====
-- The order of events.
use stock_content.Prelude.{◌≡◌, refl, ap, String, true, false, ◌||◌, arith}
use Prim.Native.Char.{Char, code}
use Prim.Native.Nat.{compare, Ordering}
use text.Mathlib.TextEquality.{codes_equal}
use stock_content.Lifecycle.{KnowledgeLifecycleEvent, text_lt, earlier}

pub text_lt_asym : (s t : String) → text_lt s t ≡ true → text_lt t s ≡ false
text_lt_asym String.[] String.[] h = refl
text_lt_asym String.[] (String.◌∷◌ d t) h = refl
text_lt_asym (String.◌∷◌ c s) String.[] h = ground arith
text_lt_asym (String.◌∷◌ c s) (String.◌∷◌ d t) h = ground (arith, text_lt_asym s t)

pub text_lt_between : (s t u : String) → text_lt s u ≡ true → (text_lt s t || text_lt t u) ≡ true
text_lt_between String.[] String.[] u h = h
text_lt_between String.[] (String.◌∷◌ d t) u h = refl
text_lt_between (String.◌∷◌ c s) t String.[] h = ground arith
text_lt_between (String.◌∷◌ c s) String.[] (String.◌∷◌ e u) h = refl
text_lt_between (String.◌∷◌ c s) (String.◌∷◌ d t) (String.◌∷◌ e u) h =
    ground (arith, text_lt_between s t u)

same_code : (c d : Char) → code c ≡ code d → c ≡ d
same_code c d h =
    codes_equal c d (let p : compare (code c) (code d) ≡ Ordering.eq = ground arith in p)

pub text_lt_connected : (s t : String) → text_lt s t ≡ false → text_lt t s ≡ false → s ≡ t
text_lt_connected String.[] String.[] h g = refl
text_lt_connected String.[] (String.◌∷◌ d t) h g = ground arith
text_lt_connected (String.◌∷◌ c s) String.[] h g = ground arith
text_lt_connected (String.◌∷◌ c s) (String.◌∷◌ d t) h g =
    let (p, q, r) : (code c ≡ code d) × (text_lt s t ≡ false) × (text_lt t s ≡ false) =
      ground arith in
    ap (λ (x : Char × String). String.◌∷◌ x.0 x.1)
      (λ i. (same_code c d p i, text_lt_connected s t q r i))

pub earlier_asym : (a b : KnowledgeLifecycleEvent) → earlier a b ≡ true → earlier b a ≡ false
unfolding earlier
earlier_asym a b h = ground (arith, text_lt_asym a.lifecycle_event_id b.lifecycle_event_id)

-- an event between two others comes after the first or before the last
pub earlier_between :
    (a b c : KnowledgeLifecycleEvent) → earlier a c ≡ true → (earlier a b || earlier b c) ≡ true
unfolding earlier
earlier_between a b c h =
    ground (arith, text_lt_between a.lifecycle_event_id b.lifecycle_event_id c.lifecycle_event_id)

pub earlier_connected :
    (a b : KnowledgeLifecycleEvent)
    → earlier a b ≡ false
    → earlier b a ≡ false
    → a.lifecycle_event_id ≡ b.lifecycle_event_id
unfolding earlier
earlier_connected a b h g =
    let (p, q) : (text_lt a.lifecycle_event_id b.lifecycle_event_id ≡ false)
        × (text_lt b.lifecycle_event_id a.lifecycle_event_id ≡ false) =
      ground arith in
    text_lt_connected a.lifecycle_event_id b.lifecycle_event_id p q
