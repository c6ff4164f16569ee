-- ===== src/Pipeline/Sequence.antt =====
-- Stages one after another, and the loop of `process` as such a sequence.
use stock_content.Prelude.{
  ℕ, ◌+◌, ◌≡◌, refl, ap, ◌∙◌, String, true, false, List, [], ◌∷◌, ◌++◌, arith, one_of, eq_iff,
}
use stock_content.Pipeline.Run.{Context, Ended, returned, failed, PipelineStage, enter}
use stock_content.Pipeline.Process.{completed_prefix, walk}

abbrev pub AllKnown : List String → List String → Type 0
AllKnown [] known = Unit
AllKnown (n ∷ ns) known = (one_of n known ≡ true) × AllKnown ns known

-- none of the names is among the others
abbrev pub Apart : List String → List String → Type 0
Apart [] known = Unit
Apart (n ∷ ns) known = (one_of n known ≡ false) × Apart ns known

one_of-∷ : (n m : String) (l : List String) → one_of n l ≡ true → one_of n (m ∷ l) ≡ true
one_of-∷ n m l h = ground arith

AllKnown-∷ : (m : String) (ns l : List String) → AllKnown ns l → AllKnown ns (m ∷ l)
AllKnown-∷ m [] l h = tt
AllKnown-∷ m (n ∷ ns) l (h, hs) = (one_of-∷ n m l h, AllKnown-∷ m ns l hs)

pub AllKnown-refl : (ns : List String) → AllKnown ns ns
AllKnown-refl [] = tt
AllKnown-refl (n ∷ ns) = (rw ((eq_iff n n).1 refl) refl, AllKnown-∷ n ns ns (AllKnown-refl ns))

pub Apart-[] : (ns : List String) → Apart ns []
Apart-[] [] = tt
Apart-[] (n ∷ ns) = (refl, Apart-[] ns)

module _ {S : Type 0} where
  abbrev pub bind_end : Ended S → (Context S → Ended S) → Ended S
  bind_end (failed c e) next = failed c e
  bind_end (returned c) next = next c

  -- the stages one after another
  abbrev pub run_all : List (PipelineStage S) → Context S → Ended S
  run_all [] c = returned c
  run_all (s ∷ stages) c = bind_end (s.execute (enter s.name c)) (run_all stages)

  abbrev pub stage_names : List (PipelineStage S) → List String
  stage_names [] = []
  stage_names (s ∷ stages) = s.name ∷ stage_names stages

  abbrev pub finish : Ended S → Ended S
  finish o = bind_end o (λ c. returned (enter "completed" c))

  run_all-enter :
      (name : String) (stages : List (PipelineStage S)) (c : Context S)
      → finish (run_all stages (enter name c)) ≡ finish (run_all stages c)
  run_all-enter name [] c = refl
  run_all-enter name (s ∷ stages) c = refl

  pub walk-run_all :
      (total : ℕ) (completed : List String) (index : ℕ) (stages : List (PipelineStage S))
      (c : Context S)
      → Apart (stage_names stages) completed
      → (walk total completed index stages c).1 ≡ finish (run_all stages c)
  unfolding walk
  walk-run_all total completed index [] c a = refl
  walk-run_all total completed index (s ∷ stages) c (a, rest) =
      go (s.execute (enter s.name c)) refl
        (λ x. walk-run_all total completed (index + 1) stages x rest)
    where
      go :
          (o : Ended S)
          → s.execute (enter s.name c) ≡ o
          → ((x : Context S)
              → (walk total completed (index + 1) stages x).1 ≡ finish (run_all stages x))
          → (walk total completed index (s ∷ stages) c).1 ≡ finish (bind_end o (run_all stages))
      go (failed c' e) h next = rw (walk, a, h) refl
      go (returned c') h next = rw (walk, a, h) (next c')

  pub walk-skips :
      (total : ℕ) (completed : List String) (index : ℕ) (pre post : List (PipelineStage S))
      (c : Context S)
      → AllKnown (stage_names pre) completed
      → Apart (stage_names post) completed
      → (walk total completed index (pre ++ post) c).1 ≡ finish (run_all post c)
  unfolding walk
  walk-skips total completed index [] post c k a = walk-run_all total completed index post c a
  walk-skips total completed index (s ∷ pre) post c (k, ks) a =
      rw (walk, k)
        (walk-skips total completed (index + 1) pre post (enter s.name c) ks a
          ∙ run_all-enter s.name post c)

  completed_prefix-Apart :
      (validated : List String) (post : List (PipelineStage S))
      → Apart (stage_names post) validated
      → completed_prefix validated post ≡ []
  unfolding completed_prefix
  completed_prefix-Apart validated [] a = refl
  completed_prefix-Apart validated (s ∷ post) (a, rest) = rw (completed_prefix, a) refl

  pub completed_prefix-append :
      (validated : List String) (pre post : List (PipelineStage S))
      → AllKnown (stage_names pre) validated
      → Apart (stage_names post) validated
      → completed_prefix validated (pre ++ post) ≡ stage_names pre
  unfolding completed_prefix
  completed_prefix-append validated [] post k a = completed_prefix-Apart validated post a
  completed_prefix-append validated (s ∷ pre) post (k, ks) a =
      rw (completed_prefix, k)
        (ap (λ l. s.name ∷ l) (completed_prefix-append validated pre post ks a))

  pub run_all-append :
      (pre post : List (PipelineStage S)) (c c' : Context S)
      → run_all pre c ≡ returned c'
      → run_all (pre ++ post) c ≡ run_all post c'
  run_all-append [] post c c' h = ap (run_all post) (let p : c ≡ c' = ground arith in p)
  run_all-append (s ∷ pre) post c c' h =
      go (s.execute (enter s.name c)) h (λ x. run_all-append pre post x c')
    where
      go :
          (o : Ended S)
          → bind_end o (run_all pre) ≡ returned c'
          → ((x : Context S)
              → run_all pre x ≡ returned c'
              → run_all (pre ++ post) x ≡ run_all post c')
          → bind_end o (run_all (pre ++ post)) ≡ run_all post c'
      go (failed x e) g next = absurd (ground arith)
      go (returned x) g next = next x g
