-- ===== src/Verification/Once.antt =====
-- Enqueueing claims for a provider again.
use mathlib.Core.List.{Memᴰ}
use mathlib.Core.List.Memᴰ.{not-nil}
use stock_content.Prelude.{
  ◌⊎◌, ℕ, ◌≡◌, refl, ap, sym, ◌∙◌, subst, String, Bool, true, false, ◌&&◌, not, Option, none, some,
  List, [], ◌∷◌, arith, if◌then◌else◌, Outcome, ok, raised, ◌>>=◌, bind_ok, Option-cases,
  Bool-cases, inl, inr,
}
use stock_content.Prelude.Table.{Table}
use stock_content.Prelude.Batch.{put-cases}
use stock_content.Verification.{VerificationResult, JobRow, ResultRow}
use stock_content.Verification.Enqueue.{
  EnqueueError, integrity_error, FinancialClaim, is_quant_verifiable, job_for, new_job, present,
  traced, insert_job, trace_job, enqueue_job, enqueue_result, with_created, enqueue_one, enqueue,
}
use stock_content.Verification.Created.{Reports, Retraced, enqueue-Reports}

module _ (jobs : Table JobRow) where
  open jobs use {State, get, put, scalar, scalar-some, scalar-none}

  -- there is a job for the claim and the provider
  abbrev pub HasJob : State → String → String → Type 0
  HasJob j claim_id provider =
      (k : String) × (row : JobRow) × (get j k ≡ some row) × (job_for claim_id provider row ≡ true)

  abbrev Grows : State → State → Type 0
  Grows j j' =
      (claim_id provider : String) → HasJob j claim_id provider → HasJob j' claim_id provider

  Grows-new : (j : State) (k : String) (row : JobRow) → get j k ≡ none → Grows j (put j k row)
  Grows-new j k row free c p (i, r, e, h) = elim (put-cases jobs j k i row) [
    | inl (q, _) ↦ absurd (let n : none ≡ some r = sym free ∙ ap (get j) q ∙ e in ground arith)
    | inr q ↦ (i, r, q ∙ e, h)
  ]

  job_for-traced :
      (trace_id : Option String) (c p : String) (row : JobRow)
      → job_for c p row ≡ true
      → job_for c p (traced trace_id row) ≡ true
  job_for-traced trace_id c p row h =
      elim (Bool-cases (present trace_id && not (present row.trace_id))) [
        | inl q ↦ rw q h
        | inr q ↦ rw q h
      ]

  Grows-traced :
      (j : State) (k : String) (row : JobRow) (trace_id : Option String)
      → get j k ≡ some row
      → Grows j (put j k (traced trace_id row))
  Grows-traced j k row trace_id there c p (i, r, e, h) =
      elim (put-cases jobs j k i (traced trace_id row)) [
        | inl (q, n) ↦
            let same : some row ≡ some r = sym there ∙ ap (get j) q ∙ e in
            let w : r ≡ row = ground arith in
            (i, traced trace_id row, n, job_for-traced trace_id c p row (rw (← w) h))
        | inr q ↦ (i, r, q ∙ e, h)
      ]

  HasJob-scalar :
      (j : State) (c p k : String) (row : JobRow)
      → scalar (λ r. job_for c p r) j ≡ some (k, row)
      → HasJob j c p
  HasJob-scalar j c p k row e =
      let (there, h) = scalar-some (λ r. job_for c p r) j k row e in (k, row, there, h)

  insert-Grows :
      (j j' : State) (b : Bool) (row : JobRow) (o : Option (String × JobRow))
      → insert_job jobs j row o ≡ ok (j', b)
      → Grows j j'
  unfolding insert_job
  insert-Grows j j' b row (some x) h = subst (Grows j) (let q : j ≡ j' = cc in q) (λ c p has. has)
  insert-Grows j j' b row none h = elim (Option-cases (get j row.job_id)) [
    | inl e ↦
        let g : ◌≡◌ {A = Outcome EnqueueError (State × Bool)} (ok (put j row.job_id row, true))
            (ok (j', b)) =
          rw e at h in
        subst (Grows j) (let q : put j row.job_id row ≡ j' = cc in q) (Grows-new j row.job_id row e)
    | inr (r, e) ↦ absurd (
        let g : ◌≡◌ {A = Outcome EnqueueError (State × Bool)} (raised integrity_error)
            (ok (j', b)) =
          rw e at h in
        ground arith)
  ]

  insert_old :
      (j j' : State) (b : Bool) (row : JobRow) (x : String × JobRow)
      → insert_job jobs j row (some x) ≡ ok (j', b)
      → (j ≡ j') × (b ≡ false)
  unfolding insert_job
  insert_old j j' b row x h = ((let q : j ≡ j' = cc in q), (let q : b ≡ false = cc in q))

  -- what the second half of a branch leaves
  traced_ok :
      (j j' : State) (trace_id : Option String) (b : Bool) (c p : String)
      (o : Option (String × JobRow)) (id : Option String)
      → scalar (λ r. job_for c p r) j ≡ o
      → trace_job jobs j trace_id b o ≡ ok (j', id)
      → Grows j j' × HasJob j c p × (b ≡ false → id ≡ none)
  unfolding trace_job
  traced_ok j j' trace_id b c p none id e h = absurd (ground arith)
  traced_ok j j' trace_id b c p (some (k, row)) id e h =
      let there = (scalar-some (λ r. job_for c p r) j k row e).0 in
      (
        subst (Grows j) (let q : put j k (traced trace_id row) ≡ j' = cc in q)
            (Grows-traced j k row trace_id there),
        HasJob-scalar j c p k row e,
        λ f. let q : (if b then some row.job_id else none) ≡ id = cc in sym q ∙ rw f refl,
      )

  -- after a verifiable claim is enqueued its job is there, and it was created only if there was none
  enqueue_job_ok :
      (j j' : State) (current : ℕ) (provider : String) (trace_id : Option String)
      (claim : FinancialClaim) (id : Option String)
      → enqueue_job jobs j current provider trace_id claim ≡ ok (j', id)
      → Grows j j'
        × HasJob j' claim.claim_id provider
        × (HasJob j claim.claim_id provider → id ≡ none)
  unfolding enqueue_job
  enqueue_job_ok j j' current provider trace_id claim id h =
      let p = λ (row : JobRow). job_for claim.claim_id provider row in
      let ((m, b), e, g) =
        bind_ok (insert_job jobs j (new_job current provider trace_id claim) (scalar p j)) _
          (j', id) h in
      let (grows, has, created) =
        traced_ok m j' trace_id b claim.claim_id provider (scalar p m) id refl g in
      (
        λ c q x.
            grows c q
              (insert-Grows j m b (new_job current provider trace_id claim) (scalar p j) e c q x),
        grows claim.claim_id provider has,
        λ (k, row, there, q). created (old (scalar p j) refl e k row there q),
      )
    where
      old :
          {m : State} {b : Bool} (o : Option (String × JobRow))
          → scalar (λ row. job_for claim.claim_id provider row) j ≡ o
          → insert_job jobs j (new_job current provider trace_id claim) o ≡ ok (m, b)
          → (k : String) (row : JobRow) → get j k ≡ some row
          → job_for claim.claim_id provider row ≡ true
          → b ≡ false
      old none n e k row there q = absurd (
          let miss = scalar-none (λ r. job_for claim.claim_id provider r) j k row n there in
          ground arith)
      old {m = m} {b = b} (some x) n e k row there q = (insert_old j m b _ x e).1

module _ (jobs : Table JobRow) (results : Table ResultRow)
    (digest : String → String → VerificationResult → String) (unset : String) where
  -- each claim that Quant verifies has a job
  abbrev AllHave : jobs.State → String → List FinancialClaim → Type 0
  AllHave j provider [] = Unit
  AllHave j provider (claim ∷ claims) =
      (is_quant_verifiable claim ≡ true → HasJob jobs j claim.claim_id provider)
      × AllHave j provider claims

  enqueue_one_ok :
      (s t : jobs.State × results.State) (current : ℕ) (provider : String)
      (trace_id : Option String) (claim : FinancialClaim) (id : Option String)
      → enqueue_one jobs results digest unset s current provider trace_id claim ≡ ok (t, id)
      → Grows jobs s.0 t.0
        × (is_quant_verifiable claim ≡ true → HasJob jobs t.0 claim.claim_id provider)
        × ((is_quant_verifiable claim ≡ true → HasJob jobs s.0 claim.claim_id provider) → id ≡ none)
  unfolding enqueue_one
  enqueue_one_ok s t current provider trace_id claim id h =
      elim (Bool-cases (is_quant_verifiable claim)) [
        | inl q ↦
            let ((j, i), e, g) =
              bind_ok (enqueue_job jobs s.0 current provider trace_id claim)
                (λ r. ok ((r.0, s.1), r.1)) (t, id) (rw (enqueue_one, q) at h) in
            let (grows, has, created) =
              enqueue_job_ok jobs s.0 j current provider trace_id claim i e in
            let w : j ≡ t.0 = ap (λ x. x.0) (let v : (j, s.1) ≡ t = cc in v) in
            let v : i ≡ id = cc in
            (
              subst (Grows jobs s.0) w grows,
              λ _. subst (λ x. HasJob jobs x claim.claim_id provider) w has,
              λ f. sym v ∙ created (f q),
            )
        | inr q ↦
            let (r, e, g) =
              bind_ok (enqueue_result results digest unset s.1 current provider trace_id claim)
                (λ r. ok ((s.0, r), none)) (t, id) (rw (enqueue_one, q) at h) in
            let w : s.0 ≡ t.0 = ap (λ x. x.0) (let v : (s.0, r) ≡ t = cc in v) in
            let v : none ≡ id = cc in
            (
              subst (Grows jobs s.0) w (λ c p x. x),
              λ p. absurd (let n : true ≡ false = sym p ∙ q in ground arith),
              λ f. sym v,
            )
      ]

  enqueue_leaves :
      (s t : jobs.State × results.State) (current : ℕ) (provider : String)
      (trace_id : Option String) (claims : List FinancialClaim) (ids : List String)
      → enqueue jobs results digest unset s current provider trace_id claims ≡ ok (t, ids)
      → Grows jobs s.0 t.0 × AllHave t.0 provider claims
  unfolding enqueue
  enqueue_leaves s t current provider trace_id [] ids h =
      let q : s ≡ t = cc in
      (subst (λ (x : jobs.State × results.State). Grows jobs s.0 x.0) q (λ c p x. x), tt)
  enqueue_leaves s t current provider trace_id (claim ∷ claims) ids h =
      let ((m, i), e, g) =
        bind_ok (enqueue_one jobs results digest unset s current provider trace_id claim)
          (λ r. enqueue jobs results digest unset r.0 current provider trace_id claims >>= λ rest.
            ok (rest.0, with_created jobs r.1 rest.1))
          (t, ids) h in
      let ((u, l), e2, g2) =
        bind_ok (enqueue jobs results digest unset m current provider trace_id claims)
          (λ rest. ok (rest.0, with_created jobs i rest.1)) (t, ids) g in
      let (grows, has, _) = enqueue_one_ok s m current provider trace_id claim i e in
      let (more, all) = enqueue_leaves m u current provider trace_id claims l e2 in
      subst
        (λ (x : jobs.State × results.State).
          Grows jobs s.0 x.0 × AllHave x.0 provider (claim ∷ claims))
        (let q : u ≡ t = cc in q)
        ((λ c p x. more c p (grows c p x)), ((λ q. more claim.claim_id provider (has q)), all))

  AllHave-Grows :
      (j j' : jobs.State) (provider : String) (claims : List FinancialClaim)
      → Grows jobs j j'
      → AllHave j provider claims
      → AllHave j' provider claims
  AllHave-Grows j j' provider [] grows h = tt
  AllHave-Grows j j' provider (claim ∷ claims) grows (h, hs) =
      ((λ q. grows claim.claim_id provider (h q)), AllHave-Grows j j' provider claims grows hs)

  enqueue_none :
      (s t : jobs.State × results.State) (current : ℕ) (provider : String)
      (trace_id : Option String) (claims : List FinancialClaim) (ids : List String)
      → AllHave s.0 provider claims
      → enqueue jobs results digest unset s current provider trace_id claims ≡ ok (t, ids)
      → ids ≡ []
  unfolding enqueue
  enqueue_none s t current provider trace_id [] ids all h = cc
  enqueue_none s t current provider trace_id (claim ∷ claims) ids (has, all) h =
      let ((m, i), e, g) =
        bind_ok (enqueue_one jobs results digest unset s current provider trace_id claim)
          (λ r. enqueue jobs results digest unset r.0 current provider trace_id claims >>= λ rest.
            ok (rest.0, with_created jobs r.1 rest.1))
          (t, ids) h in
      let ((u, l), e2, g2) =
        bind_ok (enqueue jobs results digest unset m current provider trace_id claims)
          (λ rest. ok (rest.0, with_created jobs i rest.1)) (t, ids) g in
      let (grows, _, created) = enqueue_one_ok s m current provider trace_id claim i e in
      let n : i ≡ none = created has in
      let rest : l ≡ [] =
        enqueue_none m u current provider trace_id claims l
          (AllHave-Grows s.0 m.0 provider claims grows all) e2 in
      let q : with_created jobs i l ≡ ids = cc in sym q ∙ ap (with_created jobs i) rest ∙ rw n refl

  -- each claim is not verified by Quant, or has a job
  abbrev pub AllServed : jobs.State → String → List FinancialClaim → Type 0
  AllServed j provider [] = Unit
  AllServed j provider (claim ∷ claims) =
      ((is_quant_verifiable claim ≡ false) ⊎ HasJob jobs j claim.claim_id provider)
      × AllServed j provider claims

  AllHave-AllServed :
      (j : jobs.State) (provider : String) (claims : List FinancialClaim)
      → AllHave j provider claims
      → AllServed j provider claims
  AllHave-AllServed j provider [] h = tt
  AllHave-AllServed j provider (claim ∷ claims) (has, h) = (
    elim (Bool-cases (is_quant_verifiable claim)) [ inl q ↦ inr (has q) | inr q ↦ inl q ],
    AllHave-AllServed j provider claims h,
  )

  -- When claims were enqueued for a provider, each of them has a job or is not verified by Quant, and a job
  -- that was not reported as created is as it was before, up to a trace that it had not. When they are
  -- enqueued for it again, whatever the time and the trace, no job is reported, and the jobs are those that
  -- were there, each as it was up to a trace that it had not.
  pub enqueue_once :
      (s t u : jobs.State × results.State) (now later : ℕ) (provider : String)
      (trace_id trace_id' : Option String) (claims : List FinancialClaim) (ids ids' : List String)
      → enqueue jobs results digest unset s now provider trace_id claims ≡ ok (t, ids)
      → enqueue jobs results digest unset t later provider trace_id' claims ≡ ok (u, ids')
      → AllServed t.0 provider claims
        × Reports jobs s.0 t.0 ids
        × (ids' ≡ [])
        × ((k : String) → Retraced (jobs.get t.0 k) (jobs.get u.0 k))
  enqueue_once s t u now later provider trace_id trace_id' claims ids ids' h g =
      let all = (enqueue_leaves s t now provider trace_id claims ids h).1 in
      let none_new = enqueue_none t u later provider trace_id' claims ids' all g in
      (
        AllHave-AllServed t.0 provider claims all,
        enqueue-Reports jobs results digest unset s t now provider trace_id claims ids h,
        none_new,
        λ k.
            elim (enqueue-Reports jobs results digest unset t u later provider trace_id' claims ids'
              g k) [ inl m ↦ absurd (not-nil (subst (λ l. Memᴰ k l) none_new m)) | inr r ↦ r ],
      )
