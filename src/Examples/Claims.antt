-- ===== src/Examples/Claims.antt =====
-- The history of a claim.
use mathlib.Core.List.{Perm}
use stock_content.Prelude.{◌≡◌, String, false, Option, none, some, List, [], ◌∷◌, ok, raised, ◌⊎◌}
use stock_content.Claims.{ClaimStateEvent, value_error, validate_event_chain}
use stock_content.Claims.Chain.{IsChain, validate_event_chain-orders}

abbrev id_of : ClaimStateEvent → String
id_of event = event.payload

abbrev hash_of : String → ClaimStateEvent → String
hash_of id event = id

abbrev event_with : String → Option String → ClaimStateEvent
event_with payload previous = record {
  claim_id = "claim";
  event_type = "CREATED";
  payload = payload;
  known_from = some 10;
  business_valid_from = some 5;
  business_valid_to = some 50;
  known_to = none;
  source_available_from = some 8;
  previous_event_hash = previous;
  event_id = payload;
  event_hash = payload;
  legacy_history_incomplete = false;
}

abbrev first : ClaimStateEvent
first = event_with "a" none

abbrev second : ClaimStateEvent
second = event_with "b" (some "a")

validate_event_chain-orders_example :
    ((ordered : List ClaimStateEvent) × (validate_event_chain id_of hash_of (second ∷ first ∷ [])
        ≡ ok ordered)
      × IsChain none ordered
      × Perm ordered (second ∷ first ∷ []))
    ⊎ (validate_event_chain id_of hash_of (second ∷ first ∷ []) ≡ raised value_error)
validate_event_chain-orders_example =
    validate_event_chain-orders id_of hash_of (second ∷ first ∷ [])

abbrev orphan : ClaimStateEvent
orphan = event_with "b" (some "lost")
