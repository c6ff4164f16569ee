-- ===== src/Snapshot/Heads/Latest.antt =====
-- The latest snapshot of a head.
use mathlib.Core.List.{Memᴰ}
use mathlib.Core.List.Memᴰ.{head, tail, cases_cons, not-nil}
use stock_content.Prelude.{
  ℕ, ◌≡◌, ◌↔◌, refl, ap, sym, ◌∙◌, subst, String, Bool, true, false, ◌&&◌, ◌||◌, Option, none, some,
  List, [], ◌∷◌, arith, ltb, nat_eq, ◌==◌, eq_iff, if◌then◌else◌, Bool-cases, Option-cases, inl,
  inr, ◌⊎◌,
}
use stock_content.Prelude.Table.{Table}
use stock_content.Snapshot.Heads.{
  TextOrder, ContentSourceHeadRow, HeadValues, head_row, is_newer, update_verified, update_latest,
  update_loaded, update_latest_loaded, upsert,
}

-- who writes the head: a save of a snapshot or a verification, through an upsert or on the loaded row
pub data Writer : Type 0 where
  saves saves_loaded verifies verifies_loaded : Writer

module _ (lt : String → String → Bool) where
  abbrev pub update_by : Writer → HeadValues → ContentSourceHeadRow → ContentSourceHeadRow
  update_by saves = update_latest lt
  update_by saves_loaded = update_latest_loaded lt
  update_by verifies = update_verified lt
  update_by verifies_loaded = update_loaded lt

  abbrev point : ContentSourceHeadRow → ℕ × String
  point h = (h.updated_at, h.latest_snapshot_id)

  abbrev point_of : HeadValues → ℕ × String
  point_of v = (v.updated_at, v.snapshot_id)

  abbrev before : ℕ × String → ℕ × String → Bool
  before (t, a) (u, b) = ltb t u || nat_eq u t && lt a b

  point-update :
      (w : Writer) (v : HeadValues) (h : ContentSourceHeadRow)
      → point (update_by w v h) ≡ (if before (point h) (point_of v) then point_of v else point h)
  unfolding update_latest update_latest_loaded update_verified update_loaded is_newer
  point-update saves v h = ground arith
  point-update saves_loaded v h = ground arith
  point-update verifies v h = ground arith
  point-update verifies_loaded v h = ground arith

  module _ (order : TextOrder lt) where
    before_asym : (p q : ℕ × String) → before p q ≡ true → before q p ≡ false
    before_asym (t, a) (u, b) h = ground (arith, order.asym a b)

    before_irrefl : (p : ℕ × String) → before p p ≡ false
    before_irrefl p =
        let a = before_asym p p in elim (Bool-cases (before p p)) [ inl h ↦ a h | inr h ↦ h ]

    not_before : (p q r : ℕ × String) → before p q ≡ false → before q r ≡ false → before p r ≡ false
    not_before (t, a) (u, b) (v, c) h g = ground (arith, order.between a b c)

    before_connected : (p q : ℕ × String) → before p q ≡ false → before q p ≡ false → p ≡ q
    before_connected (t, a) (u, b) h g =
        let e : t ≡ u = ground arith in
        let (x, y) : (lt a b ≡ false) × (lt b a ≡ false) = ground arith in
        let f : a ≡ b = order.connected a b x y in λ i. (e i, f i)

    module _ (db : Table ContentSourceHeadRow) (k : String) where
      open db use {State, get, put, get-put}

      -- the calls, the last one first
      unfoldable pub run : State → List (Writer × HeadValues) → State
      run s [] = s
      run s ((w, v) ∷ calls) = upsert lt db (update_by w) (run s calls) v

      -- a call for the source under `k`
      abbrev Candidate : List (Writer × HeadValues) → ℕ × String → Type 0
      Candidate calls p =
          (c : Writer × HeadValues) × Memᴰ c calls
          × (c.1.source_identity_hash ≡ k)
          × (point_of c.1 ≡ p)

      abbrev IsGreatest : List (Writer × HeadValues) → ℕ × String → Type 0
      IsGreatest calls p =
          Candidate calls p × ((q : ℕ × String) → Candidate calls q → before p q ≡ false)

      abbrev IsHead : List (Writer × HeadValues) → Option ContentSourceHeadRow → Type 0
      IsHead calls none = (p : ℕ × String) → Candidate calls p → ⊥
      IsHead calls (some h) = IsGreatest calls (point h)

      earlier_call :
          (c : Writer × HeadValues) (calls : List (Writer × HeadValues)) (p : ℕ × String)
          → Candidate calls p
          → Candidate (c ∷ calls) p
      earlier_call c calls p (d, m, e, f) = (d, tail m, e, f)

      this_or_earlier :
          (w : Writer) (v : HeadValues) (calls : List (Writer × HeadValues)) (p : ℕ × String)
          → Candidate ((w, v) ∷ calls) p
          → ((v.source_identity_hash ≡ k) × (point_of v ≡ p)) ⊎ Candidate calls p
      this_or_earlier w v calls p (d, m, e, f) = elim (cases_cons m) [
        | inl same ↦ inl (rw (← ap (λ (x : Writer × HeadValues). x.1) same) (e, f))
        | inr t ↦ inr (d, t, e, f)
      ]

      abbrev pub written : Writer → HeadValues → Option ContentSourceHeadRow → ContentSourceHeadRow
      written w v none = head_row v
      written w v (some h) = update_by w v h

      pub get-upsert :
          (w : Writer) (s : State) (v : HeadValues)
          → get (upsert lt db (update_by w) s v) k
            ≡ (if v.source_identity_hash == k then some (written w v (get s k)) else get s k)
      unfolding upsert
      get-upsert w s v = elim (Option-cases (get s v.source_identity_hash)) [
        | inl q ↦
            rw (upsert, q, get-put s v.source_identity_hash k (head_row v))
              (elim (Bool-cases (v.source_identity_hash == k)) [
                | inl e ↦ rw e (
                    rw (let t : get s k ≡ _ = rw ((eq_iff v.source_identity_hash k).0 e) at q in t)
                      refl)
                | inr e ↦ rw e refl
              ])
        | inr (h, q) ↦
            rw (upsert, q, get-put s v.source_identity_hash k (update_by w v h))
              (elim (Bool-cases (v.source_identity_hash == k)) [
                | inl e ↦ rw e (
                    rw (let t : get s k ≡ _ = rw ((eq_iff v.source_identity_hash k).0 e) at q in t)
                      refl)
                | inr e ↦ rw e refl
              ])
      ]

      written-IsHead :
          (w : Writer) (v : HeadValues) (calls : List (Writer × HeadValues))
          (o : Option ContentSourceHeadRow)
          → v.source_identity_hash ≡ k
          → IsHead calls o
          → IsGreatest ((w, v) ∷ calls) (point (written w v o))
      written-IsHead w v calls none e h = (
        ((w, v), head refl, e, refl),
        λ q c. elim (this_or_earlier w v calls q c) [
          | inl (_, f) ↦ rw (← f) (before_irrefl (point_of v))
          | inr c' ↦ absurd (h q c')
        ],
      )
      written-IsHead w v calls (some h) e (c, last) =
          elim (Bool-cases (before (point h) (point_of v))) [
            | inl newer ↦
                subst (IsGreatest ((w, v) ∷ calls)) (sym (point-update w v h ∙ (rw newer))) (
                  ((w, v), head refl, e, refl),
                  λ q c'. elim (this_or_earlier w v calls q c') [
                    | inl (_, f) ↦ rw (← f) (before_irrefl (point_of v))
                    | inr c'' ↦
                        not_before (point_of v) (point h) q
                          (before_asym (point h) (point_of v) newer) (last q c'')
                  ],
                )
            | inr older ↦
                subst (IsGreatest ((w, v) ∷ calls)) (sym (point-update w v h ∙ (rw older))) (
                  earlier_call (w, v) calls (point h) c,
                  λ q c'. elim (this_or_earlier w v calls q c') [
                    | inl (_, f) ↦ rw (← f) older
                    | inr c'' ↦ last q c''
                  ],
                )
          ]

      other-IsHead :
          (w : Writer) (v : HeadValues) (calls : List (Writer × HeadValues))
          (o : Option ContentSourceHeadRow)
          → v.source_identity_hash == k ≡ false
          → IsHead calls o
          → IsHead ((w, v) ∷ calls) o
      other-IsHead w v calls none e h = λ p c. elim (this_or_earlier w v calls p c) [
        | inl (same, _) ↦ let t = (eq_iff v.source_identity_hash k).1 same in ground arith
        | inr c' ↦ h p c'
      ]
      other-IsHead w v calls (some h) e (c, last) = (
        earlier_call (w, v) calls (point h) c,
        λ p c'. elim (this_or_earlier w v calls p c') [
          | inl (same, _) ↦ let t = (eq_iff v.source_identity_hash k).1 same in ground arith
          | inr c'' ↦ last p c''
        ],
      )

      run-IsHead :
          (s : State) (calls : List (Writer × HeadValues))
          → get s k ≡ none
          → IsHead calls (get (run s calls) k)
      unfolding run
      run-IsHead s [] e = rw e (λ p (c, m, _, _). not-nil m)
      run-IsHead s ((w, v) ∷ calls) e =
          let ih = run-IsHead s calls e in
          elim (Bool-cases (v.source_identity_hash == k)) [
            | inl here ↦
                rw (get-upsert w (run s calls) v, here)
                  (written-IsHead w v calls (get (run s calls) k)
                    ((eq_iff v.source_identity_hash k).0 here) ih)
            | inr away ↦
                rw (get-upsert w (run s calls) v, away)
                  (other-IsHead w v calls (get (run s calls) k) away ih)
          ]

      abbrev pub latest : Option ContentSourceHeadRow → Option (ℕ × String)
      latest none = none
      latest (some h) = some (point h)

      same_head :
          (calls calls' : List (Writer × HeadValues)) (o o' : Option ContentSourceHeadRow)
          → ((c : Writer × HeadValues) → Memᴰ c calls ↔ Memᴰ c calls')
          → IsHead calls o
          → IsHead calls' o'
          → latest o ≡ latest o'
      same_head calls calls' none none same h g = refl
      same_head calls calls' none (some y) same h ((c, m, e, f), _) =
          absurd (h (point y) (c, (same c).1 m, e, f))
      same_head calls calls' (some x) none same ((c, m, e, f), _) g =
          absurd (g (point x) (c, (same c).0 m, e, f))
      same_head calls calls' (some x) (some y) same ((c, m, e, f), last) ((d, n, i, j), last') =
          ap some (
            before_connected (point x) (point y) (last (point y) (d, (same d).1 n, i, j))
              (last' (point x) (c, (same c).0 m, e, f)))

      -- Two sequences of the same writes to the head of a source that has none yet, in whatever order and
      -- however often each is made, leave the same latest snapshot with the same time.
      pub run_order :
          (s : State) (calls calls' : List (Writer × HeadValues))
          → get s k ≡ none
          → ((c : Writer × HeadValues) → Memᴰ c calls ↔ Memᴰ c calls')
          → latest (get (run s calls) k) ≡ latest (get (run s calls') k)
      run_order s calls calls' e same =
          same_head calls calls' (get (run s calls) k) (get (run s calls') k) same
            (run-IsHead s calls e) (run-IsHead s calls' e)
