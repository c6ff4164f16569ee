-- ===== src/Examples/Queue.antt =====
-- A task that one worker leaves and another takes over, and requests under idempotency keys.
use stock_content.Prelude.{ℕ, ◌≡◌, refl, String, true, none, some, List, [], ◌∷◌, arith, ok}
use stock_content.Prelude.Table.{Table, assoc_table}
use stock_content.Queue.{
  ContentTask, pending, running, succeeded, claimable, fail, Redaction, to_dict, keyed_row,
  key_taken, violates, claim_pending, claim_first, lease_to, create,
}
use stock_content.Queue.Moves.{writes, run}
use stock_content.Queue.Fence.{Takeover, claim_pending-takes_over}
use stock_content.Queue.Invariant.{IsQueued, Queued, run-IsQueued}
use stock_content.Queue.Create.{create_again}

abbrev pub db : Table ContentTask
db = assoc_table ContentTask

abbrev iso : ℕ → String
iso now = "2026-01-01T00:00:00+00:00"

abbrev fresh : ContentTask
fresh = record {
  task_id = "t";
  source_type = "bilibili";
  source_ref = "BV1";
  status = pending;
  stage = "queued";
  progress = 0;
  retry_count = 0;
  max_retries = 3;
  error = none;
  options = "{}";
  result = "{}";
  checkpoint = [];
  input_hash = none;
  idempotency_key = some "key";
  request_hash = some "hash";
  task_kind = "video_pipeline";
  source_platform = "legacy";
  canonical_source_ref = none;
  credential_ref_hash = none;
  locator_secret_hash = none;
  source_identity_hash = "0";
  trace_id = none;
  lease_owner = none;
  lease_expires_at = none;
  fencing_token = 0;
}

-- leased to `a` until 100
abbrev pub leased : ContentTask
leased = record fresh {
  status = running;
  lease_owner = some "a";
  lease_expires_at = some 100;
  fencing_token = 1;
}

abbrev pub rows : List (String × ContentTask)
rows = ("t", leased) ∷ []

lapsed_claimable : claimable 150 "video_pipeline" leased ≡ true
unfolding claimable
lapsed_claimable = refl

-- `b` claims at 150; whatever `a` then tries with its token 1 is refused
taken_over :
    claim_pending db rows 150 "b" "video_pipeline" 60
    ≡ (("t", lease_to 150 "b" 60 leased) ∷ [], some (lease_to 150 "b" 60 leased))
unfolding claim_pending claim_first claimable
taken_over = refl

claim_pending-takes_over_example :
    Takeover db rows
      (("t", lease_to 150 "b" 60 leased) ∷ [])
      150
      "b"
      "video_pipeline"
      60
      (lease_to 150 "b" 60 leased)
claim_pending-takes_over_example =
    claim_pending-takes_over db rows (("t", lease_to 150 "b" 60 leased) ∷ []) 150 "b"
      "video_pipeline" 60 (lease_to 150 "b" 60 leased) taken_over

leased-IsQueued : IsQueued leased
leased-IsQueued = ground arith

run-IsQueued_example :
    Queued (db.get (run db rows (writes iso 50 "t" "a" 1 (fail "asr" "boom") ∷ [])) "t")
run-IsQueued_example =
    run-IsQueued db rows (writes iso 50 "t" "a" 1 (fail "asr" "boom") ∷ []) "t" leased-IsQueued

abbrev done : ContentTask
done = record fresh { status = succeeded; progress = 100 }

-- a redaction that leaves every text as it is, and one that cuts every text
abbrev plain : Redaction
plain = record { redact_text = λ s. s; redact_json = λ s. s; redact_dict = λ d. d }

abbrev blunt : Redaction
blunt = record { redact_text = λ s. "<redacted>"; redact_json = λ s. s; redact_dict = λ d. d }

create_again_example :
    (create db plain [] [] fresh ≡ ok (("t", to_dict plain fresh) ∷ [], fresh))
    × (create db plain (("t", to_dict plain fresh) ∷ []) (("t", to_dict plain fresh) ∷ []) fresh
        ≡ ok (("t", to_dict plain fresh) ∷ [], to_dict plain fresh))
unfolding to_dict keyed_row violates key_taken
create_again_example =
    create_again db plain [] [] (("t", to_dict plain fresh) ∷ []) fresh fresh "key" refl refl refl
      refl refl refl
