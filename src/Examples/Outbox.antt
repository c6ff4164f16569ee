-- ===== src/Examples/Outbox.antt =====
-- A signal that is enqueued, claimed, retried and delivered.
use stock_content.Prelude.{String, none, some, [], ◌∷◌, arith}
use stock_content.Prelude.Table.{Table, assoc_table}
use stock_content.Outbox.{publishing, published, Payload, SignalOutboxRow, new_row}
use stock_content.Outbox.Moves.{claims, retries, run}
use stock_content.Outbox.Delivery.{IsSound, Sound, run-IsSound}

abbrev db : Table SignalOutboxRow
db = assoc_table SignalOutboxRow

abbrev id_of_signal : String → String
id_of_signal s = s

abbrev body : Payload
body = record {
  signal_id = some "sig";
  content_snapshot_id = some "snap";
  claim_id = none;
  signal_schema_version = none;
  rest = "{}";
}

abbrev queued : SignalOutboxRow
queued = unfold new_row in new_row id_of_signal 0 body

abbrev leased : SignalOutboxRow
leased = record queued { status = publishing; lease_owner = some "a"; lease_expires_at = some 100 }

leased-IsSound : IsSound leased
unfolding new_row
leased-IsSound = ground arith

run-IsSound_example : Sound (
    db.get
      (run db id_of_signal
        (("sig", leased) ∷ [])
        (retries "sig" "a" "boom" 50 ∷ claims "b" 10 60 200 ∷ []))
      "sig")
run-IsSound_example =
    run-IsSound db id_of_signal (("sig", leased) ∷ [])
      (retries "sig" "a" "boom" 50 ∷ claims "b" 10 60 200 ∷ []) "sig" leased-IsSound

abbrev sent : SignalOutboxRow
sent = record queued { status = published; published_at = some 50; next_attempt_at = none }

abbrev changed : Payload
changed = record body { rest = "{1}" }
