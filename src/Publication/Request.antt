-- ===== src/Publication/Request.antt =====
-- The run of a request that is published.
use stock_content.Prelude.{
  ℕ, ◌+◌, ◌≤◌, ◌≡◌, refl, arith, String, true, not, ◌||◌, Option, none, some, filled, ok, eq_refl,
}
use stock_content.Prelude.Table.{Table}
use stock_content.Publication.{
  PublicationState, assembling, ContentPublicationRun, post_init, new_run, transition,
  save_in_session, same_identity, first_of, count, same_state, leads_to, is_ready, present,
}
use stock_content.Publication.UnitOfWork.{Request}

-- a request whose texts and hash are not empty
pub record IsComplete (hash_of : Request → String) (q : Request) : Type 0 where
  pub snapshot : filled q.content_snapshot_id ≡ true
  pub query : filled q.query_hash ≡ true
  pub policy : filled q.signal_policy_version ≡ true
  pub hash : filled (hash_of q) ≡ true

module _ (id_of : String → String → String → String) (hash_of : Request → String)
    (q : Request) where
  abbrev pub run_id : String
  run_id = id_of q.content_snapshot_id q.query_hash q.signal_policy_version

  -- the run of the request on its way
  abbrev pub run_at : PublicationState → Option String → ℕ → ContentPublicationRun
  run_at state manifest_hash version = record {
    content_snapshot_id = q.content_snapshot_id;
    query_hash = q.query_hash;
    signal_policy_version = q.signal_policy_version;
    state = state;
    manifest_hash = manifest_hash;
    version = version;
    publication_run_id = run_id;
  }

  pub new_run_returns :
      IsComplete hash_of q
      → new_run id_of q.content_snapshot_id q.query_hash q.signal_policy_version
        ≡ ok (run_at assembling none 1)
  unfolding new_run post_init
  new_run_returns c = rw (c.snapshot, c.query, c.policy) refl

  pub transition_returns :
      (from target : PublicationState) (h : Option String) (n : ℕ)
      → IsComplete hash_of q
      → filled run_id ≡ true
      → 1 ≤ n
      → leads_to from target ≡ true
      → (not (is_ready target) || present h) ≡ true
      → transition id_of (run_at from none n) target h
        ≡ ok (run_at target (first_of h none) (n + count (not (same_state target from))))
  unfolding transition post_init
  transition_returns from target h n c f v l p =
      rw (l, p, c.snapshot, c.query, c.policy, f, eq_refl run_id) (ground arith)

module _ (runs : Table ContentPublicationRun) where
  pub save_fresh :
      (s : runs.State) (run : ContentPublicationRun)
      → runs.get s run.publication_run_id ≡ none
      → runs.scalar (λ row. same_identity row run) s ≡ none
      → save_in_session runs s run ≡ ok (runs.put s run.publication_run_id run)
  unfolding save_in_session
  save_fresh s run e n = rw (save_in_session, e, n) refl

  pub save_over :
      (s : runs.State) (run row : ContentPublicationRun)
      → runs.get s run.publication_run_id ≡ some row
      → same_identity row run ≡ true
      → row.manifest_hash ≡ none
      → save_in_session runs s run
        ≡ ok (
            runs.put s run.publication_run_id (record row {
              state = run.state;
              manifest_hash = run.manifest_hash;
              version = run.version;
            }))
  unfolding save_in_session
  save_over s run row e i m = rw (save_in_session, e, i, m) refl
