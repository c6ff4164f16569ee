-- ===== src/Examples/Publication.antt =====
-- A publication that is assembled, sealed and published.
mod UnitOfWork
use mathlib.Core.List.{Memᴰ}
use mathlib.Core.List.Memᴰ.{cases_cons, not-nil}
use stock_content.Prelude.{
  raised, sym, ◌∙◌, ◌⊎◌, inl, inr, arith, eq_iff, ◌≡◌, refl, String, none, some, List, [], ◌∷◌,
  Outcome, ok,
}
use stock_content.Prelude.Table.{Table, assoc_table}
use stock_content.Publication.{
  PublicationState, value_error, save_manifest, assembling, projecting, sealing, ready, published,
  ContentPublicationRun, ManifestRow, Payload, SealedSignalRow, post_init, new_run, transition,
  save_in_session, seal, save_sealed_signals,
}
use stock_content.Publication.History.{Steps, done, step, Keeps, history-Keeps}
use stock_content.Publication.Sealing.{AllSealed, Keeps as Keeps_rows, save_in_session-unseals}
use stock_content.Publication.Sealable.{IsSealable, Filed, save_sealed_signals_returns}
use stock_content.Publication.UnitOfWork.{
  PublishError, Request, Writers, Database, signal_keyed_set, verify_sealed, save, project,
  seal_signals, make_ready, publish_row, publish_once,
}
use stock_content.Publication.Idempotence.{SealedAs, publish_again}
use stock_content.Publication.Fresh.{IsPublished, publish_new}

abbrev name_of : String → String → String → String
name_of snapshot_id query_hash policy = "pub_1"

abbrev fresh : ContentPublicationRun
fresh = record {
  content_snapshot_id = "snap";
  query_hash = "q";
  signal_policy_version = "v1";
  state = assembling;
  manifest_hash = none;
  version = 1;
  publication_run_id = "pub_1";
}

abbrev projected : ContentPublicationRun
projected = record fresh { state = projecting; version = 2 }

abbrev sealed : ContentPublicationRun
sealed = record fresh { state = sealing; version = 3 }

abbrev complete : ContentPublicationRun
complete = record fresh { state = ready; version = 4; manifest_hash = some "h" }

sealed_steps : Steps name_of fresh sealed
unfolding transition post_init
sealed_steps =
    let one : transition name_of fresh projecting none ≡ ok projected = refl in
    let two : transition name_of projected sealing none ≡ ok sealed = refl in
    step projecting none one (step sealing none two done)

complete_steps : Steps name_of sealed complete
unfolding transition post_init
complete_steps =
    let one : transition name_of sealed ready (some "h") ≡ ok complete = refl in
    step ready (some "h") one done

history-Keeps_example : Keeps name_of fresh sealed × Keeps name_of sealed complete
unfolding new_run post_init
history-Keeps_example =
    history-Keeps name_of "snap" "q" "v1" fresh sealed complete refl refl sealed_steps
      complete_steps

abbrev public : ContentPublicationRun
public = record complete { state = published; version = 6 }

public_steps : Steps name_of public (record public { manifest_hash = some "other" })
unfolding transition post_init
public_steps =
    let one : transition name_of public published (some "other")
        ≡ ok (record public { manifest_hash = some "other" }) =
      refl in
    step published (some "other") one done

abbrev manifests : Table ManifestRow
manifests = assoc_table ManifestRow

abbrev manifest_saved : ManifestRow
manifest_saved = record {
  publication_run_id = "pub_1";
  content_snapshot_id = "snap";
  query_hash = "q";
  signal_policy_version = "v1";
  manifest_hash = "h";
  manifest = "{}";
  created_at = 5;
}

abbrev signals : Table SealedSignalRow
signals = assoc_table SealedSignalRow

abbrev signal_name : String → String → String
signal_name run_id signal_id = signal_id

abbrev signal : Payload
signal = record {
  signal_id = some "s1";
  claim_id = none;
  signal_schema_version = some "v4";
  schema_version = none;
  rest = "{}";
}

abbrev signal_row : SealedSignalRow
signal_row = record {
  sealed_signal_id = "s1";
  publication_run_id = "pub_1";
  signal_id = "s1";
  content_snapshot_id = "snap";
  claim_id = none;
  schema_version = "v4";
  payload = signal;
  created_at = 5;
}

abbrev second : Payload
second = record signal { signal_id = some "s2" }

either_signal : (p : Payload) → Memᴰ p (signal ∷ second ∷ []) → (p ≡ signal) ⊎ (p ≡ second)
either_signal p m = elim (cases_cons m) [
  | inl e ↦ inl e
  | inr t ↦ elim (cases_cons t) [ inl e ↦ inr e | inr n ↦ absurd (not-nil n) ]
]

two_signals-IsSealable : IsSealable signals signal_name [] fresh (signal ∷ second ∷ [])
two_signals-IsSealable = record {
  named = λ p m. elim (either_signal p m) [ inl e ↦ rw e refl | inr e ↦ rw e refl ];
  agrees = λ p m row there. absurd (let n : none ≡ some row = there in cc);
  once = λ p q m n same. elim (either_signal p m) [
    | inl e ↦ elim (either_signal q n) [
      | inl f ↦ e ∙ sym f
      | inr f ↦ absurd (
          let d : "s1" ≡ "s2" = rw (e, f) at same in let t = (eq_iff "s1" "s2").1 d in ground arith)
    ]
    | inr e ↦ elim (either_signal q n) [
      | inl f ↦ absurd (
          let d : "s2" ≡ "s1" = rw (e, f) at same in let t = (eq_iff "s2" "s1").1 d in ground arith)
      | inr f ↦ e ∙ sym f
    ]
  ];
}

save_sealed_signals_returns_example :
    (t : signals.State) × (save_sealed_signals signals signal_name [] fresh 5 (signal ∷ second ∷ [])
      ≡ ok t)
    × AllSealed signals signal_name t fresh (signal ∷ second ∷ [])
    × Keeps_rows signals [] t
    × Filed signals signal_name t
    × (save_sealed_signals signals signal_name t fresh 9 (signal ∷ second ∷ []) ≡ ok t)
save_sealed_signals_returns_example =
    save_sealed_signals_returns signals signal_name (λ a b c same. same) [] fresh 5 9
      (signal ∷ second ∷ []) (λ k row there. absurd (let n : none ≡ some row = there in cc))
      two_signals-IsSealable

abbrev runs : Table ContentPublicationRun
runs = assoc_table ContentPublicationRun

abbrev other : ContentPublicationRun
other = record complete { manifest_hash = some "other" }

save_in_session-unseals_example :
    (t : runs.State) × (t2 : runs.State) × (save_in_session runs (("pub_1", complete) ∷ []) other
      ≡ raised value_error)
    × (save_in_session runs (("pub_1", complete) ∷ []) fresh ≡ ok t)
    × (runs.get t "pub_1" ≡ some fresh)
    × (save_in_session runs t other ≡ ok t2)
    × (runs.get t2 "pub_1" ≡ some other)
save_in_session-unseals_example =
    save_in_session-unseals runs (("pub_1", complete) ∷ []) complete fresh other "h" "other" refl
      refl refl refl refl refl refl refl
