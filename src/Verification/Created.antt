-- ===== src/Verification/Created.antt =====
-- What `enqueue` changes in the jobs.
use mathlib.Core.List.{Memᴰ}
use mathlib.Core.List.Memᴰ.{head, tail, not-nil, cases_cons}
use mathlib.Core.Path.{subst₂}
use stock_content.Prelude.{
  ℕ, ◌≡◌, refl, ap, sym, ◌∙◌, subst, String, Bool, true, false, ◌&&◌, not, Option, none, some, List,
  [], ◌∷◌, arith, Outcome, ok, raised, ◌>>=◌, if◌then◌else◌, bind_ok, Option-cases, Bool-cases, inl,
  inr, ◌⊎◌,
}
use stock_content.Prelude.Table.{Table}
use stock_content.Prelude.Batch.{put-cases}
use stock_content.Verification.{VerificationResult, JobRow, ResultRow}
use stock_content.Verification.Enqueue.{
  EnqueueError, integrity_error, FinancialClaim, is_quant_verifiable, job_for, new_job, present,
  traced, insert_job, trace_job, enqueue_job, enqueue_result, with_created, enqueue_one, enqueue,
}

-- The row is as it was up to a trace that it had not, or there is still none.
abbrev pub Retraced : Option JobRow → Option JobRow → Type 0
Retraced none o = o ≡ none
Retraced (some row) o =
    (trace_id : Option String) × (o ≡ some (record row { trace_id = trace_id }))
    × ((trace_id ≡ row.trace_id) ⊎ (present row.trace_id ≡ false))

Retraced-refl : (o : Option JobRow) → Retraced o o
Retraced-refl none = refl
Retraced-refl (some row) = (row.trace_id, refl, inl refl)

Retraced-trans : (a b c : Option JobRow) → Retraced a b → Retraced b c → Retraced a c
Retraced-trans none b c h g = subst (λ x. Retraced x c) h g
Retraced-trans (some row) b c (t, e, w) g =
    let (t', e', w') : Retraced (some (record row { trace_id = t })) c =
      subst (λ x. Retraced x c) e g in
    (
      t',
      e',
      elim w' [
        | inr q ↦ elim w [ inl p ↦ inr (ap present (sym p) ∙ q) | inr p ↦ inr p ]
        | inl q ↦ elim w [ inl p ↦ inl (q ∙ p) | inr p ↦ inr p ]
      ],
    )

Retraced-traced :
    (trace_id : Option String) (row : JobRow) → Retraced (some row) (some (traced trace_id row))
Retraced-traced trace_id row = elim (Bool-cases (present trace_id && not (present row.trace_id))) [
  | inl q ↦ rw q (trace_id, refl, inr (ground arith))
  | inr q ↦ rw q (row.trace_id, refl, inl refl)
]

module _ (jobs : Table JobRow) where
  open jobs use {State, get, put, scalar, scalar-some, scalar-none}

  -- the key is one of those that are reported, or its row is as it was up to a trace
  abbrev pub Reports : State → State → List String → Type 0
  Reports j j' ids = (k : String) → Memᴰ k ids ⊎ Retraced (get j k) (get j' k)

  put-Retraced :
      (j : State) (k0 : String) (row : JobRow) (trace_id : Option String) (k : String)
      → get j k0 ≡ some row
      → Retraced (get j k) (get (put j k0 (traced trace_id row)) k)
  put-Retraced j k0 row trace_id k e = elim (put-cases jobs j k0 k (traced trace_id row)) [
    | inl (same, w) ↦
        let there : get j k ≡ some row = ap (get j) (sym same) ∙ e in
        rw (there, w) (Retraced-traced trace_id row)
    | inr w ↦ rw w (Retraced-refl (get j k))
  ]

  -- what the second half of a branch leaves
  trace_job_ok :
      (m j' : State) (trace_id : Option String) (b : Bool) (c p : String)
      (o : Option (String × JobRow)) (id : Option String)
      → scalar (λ r. job_for c p r) m ≡ o
      → trace_job jobs m trace_id b o ≡ ok (j', id)
      → (k0 : String) × (row : JobRow) × (get m k0 ≡ some row)
        × (job_for c p row ≡ true)
        × (put m k0 (traced trace_id row) ≡ j')
        × ((if b then some row.job_id else none) ≡ id)
  unfolding trace_job
  trace_job_ok m j' trace_id b c p none id e h = absurd (ground arith)
  trace_job_ok m j' trace_id b c p (some (k0, row)) id e h =
      let (there, q) = scalar-some (λ r. job_for c p r) m k0 row e in
      (
        k0,
        row,
        there,
        q,
        let w : put m k0 (traced trace_id row) ≡ j' = cc in w,
        let w : (if b then some row.job_id else none) ≡ id = cc in w,
      )

  -- a job that was just inserted is reported
  inserted-Reports :
      (j : State) (new row : JobRow) (c p k0 : String) (trace_id : Option String)
      → scalar (λ r. job_for c p r) j ≡ none
      → get (put j new.job_id new) k0 ≡ some row
      → job_for c p row ≡ true
      → Reports j (put (put j new.job_id new) k0 (traced trace_id row)) (row.job_id ∷ [])
  inserted-Reports j new row c p k0 trace_id free there q =
      elim (put-cases jobs j new.job_id k0 new) [
        | inr w ↦ absurd (
            let miss = scalar-none (λ r. job_for c p r) j k0 row free (sym w ∙ there) in
            let t : ◌≡◌ {A = Bool} true false = sym q ∙ miss in cc)
        | inl (same, w) ↦
            let one : some new ≡ some row = sym w ∙ there in
            let new_row : new ≡ row = cc in
            let id : row.job_id ≡ k0 = ap (λ (x : JobRow). x.job_id) (sym new_row) ∙ same in
            λ k. elim (put-cases jobs (put j new.job_id new) k0 k (traced trace_id row)) [
              | inl (at, _) ↦ inl (head (sym at ∙ sym id))
              | inr left ↦ elim (put-cases jobs j new.job_id k new) [
                | inl (at, _) ↦ inl (head (sym at ∙ same ∙ sym id))
                | inr kept ↦ inr (rw (left, kept) (Retraced-refl (get j k)))
              ]
            ]
      ]

  insert_job-Reports :
      (j m j' : State) (new : JobRow) (b : Bool) (c p : String) (trace_id : Option String)
      (o : Option (String × JobRow)) (id : Option String)
      → scalar (λ r. job_for c p r) j ≡ o
      → insert_job jobs j new o ≡ ok (m, b)
      → trace_job jobs m trace_id b (scalar (λ r. job_for c p r) m) ≡ ok (j', id)
      → Reports j j' (with_created jobs id [])
  unfolding insert_job
  insert_job-Reports j m j' new b c p trace_id (some x) id n h g =
      let same : j ≡ m = cc in
      let (k0, row, there, _, w, _) = trace_job_ok m j' trace_id b c p _ id refl g in
      λ k. inr (
        subst (λ x. Retraced (get j k) (get x k)) w
          (subst (λ x. Retraced (get j k) (get (put x k0 (traced trace_id row)) k)) same
            (put-Retraced j k0 row trace_id k (ap (λ x. get x k0) same ∙ there))))
  insert_job-Reports j m j' new b c p trace_id none id n h g =
      elim (Option-cases (get j new.job_id)) [
        | inr (r, e) ↦ absurd (
            let t : ◌≡◌ {A = Outcome EnqueueError (State × Bool)} (raised integrity_error)
                (ok (m, b)) =
              rw e at h in
            ground arith)
        | inl e ↦
            let t : ◌≡◌ {A = Outcome EnqueueError (State × Bool)} (ok (put j new.job_id new, true))
                (ok (m, b)) =
              rw e at h in
            let at : put j new.job_id new ≡ m = cc in
            let yes : true ≡ b = cc in
            let (k0, row, there, q, w, i) = trace_job_ok m j' trace_id b c p _ id refl g in
            let made : some row.job_id ≡ id = rw (← yes) at i in
            let reports =
              inserted-Reports j new row c p k0 trace_id n (ap (λ x. get x k0) at ∙ there) q in
            subst (λ x. Reports j j' (with_created jobs x [])) made
              (subst (λ x. Reports j x (row.job_id ∷ []))
                (ap (λ x. put x k0 (traced trace_id row)) at ∙ w) reports)
      ]

module _ (jobs : Table JobRow) (results : Table ResultRow)
    (digest : String → String → VerificationResult → String) (unset : String) where
  enqueue_one-Reports :
      (s t : jobs.State × results.State) (current : ℕ) (provider : String)
      (trace_id : Option String) (claim : FinancialClaim) (id : Option String)
      → enqueue_one jobs results digest unset s current provider trace_id claim ≡ ok (t, id)
      → Reports jobs s.0 t.0 (with_created jobs id [])
  unfolding enqueue_one enqueue_job
  enqueue_one-Reports s t current provider trace_id claim id h =
      elim (Bool-cases (is_quant_verifiable claim)) [
        | inl q ↦
            let ((j, i), e, g) =
              bind_ok (enqueue_job jobs s.0 current provider trace_id claim)
                (λ r. ok ((r.0, s.1), r.1)) (t, id) (rw (enqueue_one, q) at h) in
            let ((m, b), e1, e2) =
              bind_ok
                (insert_job jobs s.0 (new_job current provider trace_id claim)
                  (jobs.scalar (λ row. job_for claim.claim_id provider row) s.0))
                _ (j, i) e in
            let w : j ≡ t.0 = ap (λ x. x.0) (let v : (j, s.1) ≡ t = cc in v) in
            let v : i ≡ id = cc in
            subst₂ (λ x y. Reports jobs s.0 x (with_created jobs y [])) w v
              (insert_job-Reports jobs s.0 m j (new_job current provider trace_id claim) b
                claim.claim_id provider trace_id _ i refl e1 e2)
        | inr q ↦
            let (r, e, g) =
              bind_ok (enqueue_result results digest unset s.1 current provider trace_id claim)
                (λ r. ok ((s.0, r), none)) (t, id) (rw (enqueue_one, q) at h) in
            let w : s.0 ≡ t.0 = ap (λ x. x.0) (let v : (s.0, r) ≡ t = cc in v) in
            λ k. inr (
              subst (λ x. Retraced (jobs.get s.0 k) (jobs.get x k)) w
                (Retraced-refl (jobs.get s.0 k)))
      ]

  with_created-Mem :
      (i : Option String) (l : List String) (k : String)
      → Memᴰ k (with_created jobs i []) ⊎ Memᴰ k l
      → Memᴰ k (with_created jobs i l)
  with_created-Mem none l k (inl m) = absurd (not-nil m)
  with_created-Mem none l k (inr m) = m
  with_created-Mem (some id) l k (inl m) = elim (cases_cons m) [
    | inl e ↦ head e
    | inr n ↦ absurd (not-nil n)
  ]
  with_created-Mem (some id) l k (inr m) = tail m

  pub enqueue-Reports :
      (s t : jobs.State × results.State) (current : ℕ) (provider : String)
      (trace_id : Option String) (claims : List FinancialClaim) (ids : List String)
      → enqueue jobs results digest unset s current provider trace_id claims ≡ ok (t, ids)
      → Reports jobs s.0 t.0 ids
  unfolding enqueue
  enqueue-Reports s t current provider trace_id [] ids h =
      let q : s ≡ t = cc in
      λ k. inr (
        subst (λ (x : jobs.State × results.State). Retraced (jobs.get s.0 k) (jobs.get x.0 k)) q
          (Retraced-refl (jobs.get s.0 k)))
  enqueue-Reports s t current provider trace_id (claim ∷ claims) ids h =
      let ((m, i), e, g) =
        bind_ok (enqueue_one jobs results digest unset s current provider trace_id claim)
          (λ r. enqueue jobs results digest unset r.0 current provider trace_id claims >>= λ rest.
            ok (rest.0, with_created jobs r.1 rest.1))
          (t, ids) h in
      let ((u, l), e2, g2) =
        bind_ok (enqueue jobs results digest unset m current provider trace_id claims)
          (λ rest. ok (rest.0, with_created jobs i rest.1)) (t, ids) g in
      let first = enqueue_one-Reports s m current provider trace_id claim i e in
      let others = enqueue-Reports m u current provider trace_id claims l e2 in
      subst₂ (λ (x : jobs.State × results.State) y. Reports jobs s.0 x.0 y)
        (let q : u ≡ t = cc in q) (let q : with_created jobs i l ≡ ids = cc in q)
        (λ k. elim (first k) [
          | inl n ↦ inl (with_created-Mem i l k (inl n))
          | inr a ↦ elim (others k) [
            | inl n ↦ inl (with_created-Mem i l k (inr n))
            | inr b ↦ inr (Retraced-trans (jobs.get s.0 k) (jobs.get m.0 k) (jobs.get u.0 k) a b)
          ]
        ])
