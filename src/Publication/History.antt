-- ===== src/Publication/History.antt =====
-- What the transitions of a publication run keep.
use stock_content.Prelude.{
  ◌+◌, ◌≤◌, ◌≡◌, refl, ◌∙◌, String, Bool, true, false, ◌&&◌, ◌||◌, not, Option, none, arith, ok,
  raised, filled, eq_iff,
}
use stock_content.Publication.{
  PublicationState, assembling, failed_retryable, failed_terminal, publishing, published,
  ContentPublicationRun, leads_to, same_state, is_ready, present, first_of, count, post_init,
  new_run, transition,
}

-- the ends of a publication
abbrev pub is_final : PublicationState → Bool
is_final published = true
is_final failed_terminal = true
is_final _ = false

module _ (id_of : String → String → String → String) where
  -- a sequence of transitions of one run, with the hash given to each
  pub data Steps : ContentPublicationRun → ContentPublicationRun → Type 0 where
    done : {run : ContentPublicationRun} → Steps run run
    step :
        {run run' run2 : ContentPublicationRun} (target : PublicationState) (h : Option String)
        → transition id_of run target h ≡ ok run'
        → Steps run' run2
        → Steps run run2

  -- What holds of a run after any transitions from `start`: its identity is that of the start, its
  -- version has not fallen, and it has a manifest if it is ready, or if the start had one.
  pub record Keeps (start run : ContentPublicationRun) : Type 0 where
    pub snapshot : run.content_snapshot_id ≡ start.content_snapshot_id
    pub query : run.query_hash ≡ start.query_hash
    pub policy : run.signal_policy_version ≡ start.signal_policy_version
    pub run_id : run.publication_run_id ≡ start.publication_run_id
    pub versions : start.version ≤ run.version
    pub sealed : is_ready run.state ≡ true → present run.manifest_hash ≡ true
    pub hash_kept : present start.manifest_hash ≡ true → present run.manifest_hash ≡ true

  -- a run whose identifier is set
  abbrev pub IsNamed : ContentPublicationRun → Type 0
  IsNamed run = filled run.publication_run_id ≡ true

  -- the run after a transition
  abbrev pub moved :
      ContentPublicationRun → PublicationState → Option String → ContentPublicationRun
  moved run target h = record run {
    state = target;
    manifest_hash = first_of h run.manifest_hash;
    version = run.version + count (not (same_state target run.state));
  }

  post_init-named :
      (run run' : ContentPublicationRun) → IsNamed run → post_init id_of run ≡ ok run' → run' ≡ run
  unfolding post_init
  post_init-named run run' n e = ground arith

  pub transition-ok :
      (run run' : ContentPublicationRun) (target : PublicationState) (h : Option String)
      → IsNamed run
      → transition id_of run target h ≡ ok run'
      → ((same_state target run.state || leads_to run.state target) ≡ true)
        × ((not (is_ready target) || present h || present run.manifest_hash) ≡ true)
        × (run' ≡ moved run target h)
  unfolding transition
  transition-ok run run' target h n e =
      go (same_state target run.state || leads_to run.state target) refl
        (not (is_ready target) || present h || present run.manifest_hash) refl
    where
      go :
          (b : Bool)
          → (same_state target run.state || leads_to run.state target) ≡ b
          → (c : Bool) → (not (is_ready target) || present h || present run.manifest_hash) ≡ c
          → (b ≡ true) × (c ≡ true) × (run' ≡ moved run target h)
      go false p c q = absurd (let k : raised _ ≡ ok run' = rw (transition, p) at e in ground arith)
      go true p false q =
          absurd (let k : raised _ ≡ ok run' = rw (transition, p, q) at e in ground arith)
      go true p true q =
          let k : post_init id_of (moved run target h) ≡ ok run' = rw (transition, p, q) at e in
          (refl, refl, post_init-named (moved run target h) run' n k)

  first_of-present : (a b : Option String) → present b ≡ true → present (first_of a b) ≡ true
  first_of-present a b h = ground arith

  sealed_hash :
      (target : PublicationState) (a b : Option String)
      → (not (is_ready target) || present a || present b) ≡ true
      → is_ready target ≡ true
      → present (first_of a b) ≡ true
  sealed_hash target a b h r = ground arith

  Keeps-moved :
      (start run : ContentPublicationRun) (target : PublicationState) (h : Option String)
      → (not (is_ready target) || present h || present run.manifest_hash) ≡ true
      → Keeps start run
      → Keeps start (moved run target h)
  Keeps-moved start run target h s k = record {
    snapshot = k.snapshot;
    query = k.query;
    policy = k.policy;
    run_id = k.run_id;
    versions = omega (arith, k.versions);
    sealed = sealed_hash target h run.manifest_hash s;
    hash_kept = λ p. first_of-present h run.manifest_hash (k.hash_kept p);
  }

  Keeps-along :
      (start run run' : ContentPublicationRun)
      → Steps run run'
      → IsNamed run
      → Keeps start run
      → Keeps start run'
  Keeps-along start run run' done n k = k
  Keeps-along start run run2 (step {run' = run'} target h e more) n k =
      let (_, s, w) = transition-ok run run' target h n e in
      let q : Keeps start run' = rw w (Keeps-moved start run target h s k) in
      Keeps-along start run' run2 more (rw w n) q

  pub fresh-facts :
      (snapshot_id query_hash policy : String) (run : ContentPublicationRun)
      → filled (id_of snapshot_id query_hash policy) ≡ true
      → new_run id_of snapshot_id query_hash policy ≡ ok run
      → IsNamed run × (run.state ≡ assembling) × (run.content_snapshot_id ≡ snapshot_id)
  unfolding new_run post_init
  fresh-facts snapshot_id query_hash policy run f e = ground arith

  Keeps-refl :
      (run : ContentPublicationRun)
      → (is_ready run.state ≡ true → present run.manifest_hash ≡ true)
      → Keeps run run
  Keeps-refl run s = record {
    snapshot = refl;
    query = refl;
    policy = refl;
    run_id = refl;
    versions = omega arith;
    sealed = s;
    hash_kept = λ p. p;
  }

  -- A new run keeps its identity through every sequence of transitions, its version never falls, a
  -- ready run has a manifest, and a run that has a manifest keeps one; the hypothesis on `id_of`
  -- says that an identifier is not empty.
  pub history-Keeps :
      (snapshot_id query_hash policy : String) (start run run' : ContentPublicationRun)
      → filled (id_of snapshot_id query_hash policy) ≡ true
      → new_run id_of snapshot_id query_hash policy ≡ ok start
      → Steps start run
      → Steps run run'
      → Keeps start run × Keeps run run'
  history-Keeps snapshot_id query_hash policy start run run' f e before after =
      let (n, st, _) = fresh-facts snapshot_id query_hash policy start f e in
      let k : Keeps start start = Keeps-refl start (λ r. absurd (ground arith)) in
      let k1 = Keeps-along start start run before n k in
      (k1, Keeps-along run run run' after (rw (k1.run_id) n) (Keeps-refl run k1.sealed))

  final-stays :
      (s t : PublicationState) → is_final s ≡ true → (same_state t s || leads_to s t) ≡ true → t ≡ s
  final-stays s t f h = ground arith

  same_state_refl : (s : PublicationState) → same_state s s ≡ true
  same_state_refl s = ground arith

  -- The state and the version of a published or terminally failed run never change again, whatever
  -- transitions follow.
  pub final_is_final :
      (run run' : ContentPublicationRun)
      → IsNamed run
      → is_final run.state ≡ true
      → Steps run run'
      → (run'.state ≡ run.state) × (run'.version ≡ run.version)
  final_is_final run run' n f done = (refl, refl)
  final_is_final run run2 n f (step {run' = run'} target h e more) =
      let (a, s, w) = transition-ok run run' target h n e in
      let same : target ≡ run.state = final-stays run.state target f a in
      let (st, ve) = final_is_final run' run2 (rw w n) (rw (w, same) f) more in
      (st ∙ rw w same, ve ∙ rw (w, same, same_state_refl run.state) (omega arith))

  -- a run that `post_init` accepts as it is
  abbrev pub IsValid : ContentPublicationRun → Type 0
  IsValid run =
      ((filled run.content_snapshot_id && filled run.query_hash && filled run.signal_policy_version)
        ≡ true)
      × IsNamed run
      × (run.publication_run_id
          ≡ id_of run.content_snapshot_id run.query_hash run.signal_policy_version)
      × (1 ≤ run.version)

  abbrev expected_id : ContentPublicationRun → String
  expected_id run = id_of run.content_snapshot_id run.query_hash run.signal_policy_version

  post_init-IsValid : (run : ContentPublicationRun) → IsValid run → post_init id_of run ≡ ok run
  unfolding post_init
  post_init-IsValid run (a, n, i, v) =
      ground (arith, eq_iff run.publication_run_id (expected_id run))

  transition-moves :
      (run : ContentPublicationRun) (target : PublicationState)
      → IsValid run
      → leads_to run.state target ≡ true
      → is_ready target ≡ false
      → (transition id_of run target none ≡ ok (moved run target none))
        × IsValid (moved run target none)
  unfolding transition
  transition-moves run target (a, n, i, v) l r =
      let valid : IsValid (moved run target none) = (a, n, i, omega (arith, v)) in
      let pass : (same_state target run.state || leads_to run.state target) ≡ true =
        rw l (ground arith) in
      (rw (pass, r) (post_init-IsValid (moved run target none) valid), valid)

  -- A valid run without a manifest that is being assembled can be published without one, by a
  -- failure and a retry that goes on at publishing.
  pub publishes_unsealed :
      (run : ContentPublicationRun)
      → IsValid run
      → run.state ≡ assembling
      → run.manifest_hash ≡ none
      → (run' : ContentPublicationRun) × Steps run run'
        × (run'.state ≡ published)
        × (run'.manifest_hash ≡ none)
  publishes_unsealed run v s m =
      let r1 = moved run failed_retryable none in
      let r2 = moved r1 publishing none in
      let r3 = moved r2 published none in
      let (e1, v1) = transition-moves run failed_retryable v (rw s refl) refl in
      let (e2, v2) = transition-moves r1 publishing v1 refl refl in
      let (e3, v3) = transition-moves r2 published v2 refl refl in
      (
        r3,
        step failed_retryable none e1 (step publishing none e2 (step published none e3 done)),
        refl,
        m,
      )
