-- ===== src/Publication/Sealable.antt =====
-- Saving the signals of a run, and saving them again.
use mathlib.Core.List.{Memᴰ}
use mathlib.Core.List.Memᴰ.{head, tail}
use stock_content.Prelude.{
  ℕ, ◌≡◌, refl, ap, sym, ◌∙◌, String, true, false, Option, none, some, List, [], ◌∷◌, arith, ok,
  filled, is_some, inl, inr, Option-cases, eq_iff, eq_refl, opt_eq, ◌⊎◌, subst,
}
use stock_content.Prelude.Table.{Table}
use stock_content.Prelude.Batch.{put-cases}
use stock_content.Publication.{
  ContentPublicationRun, Payload, SealedSignalRow, same_payload, id_text, seal, save_sealed_signals,
  sealed_for, sealed_row,
}
use stock_content.Publication.Sealing.{Keeps, IsSealed, AllSealed, save_sealed_signals-seals}

opt_eq_refl : (o : Option String) → opt_eq o o ≡ true
opt_eq_refl none = refl
opt_eq_refl (some a) = eq_refl a

same_payload_refl : (p : Payload) → same_payload p p ≡ true
same_payload_refl p =
    rw
      (
        opt_eq_refl p.signal_id,
        opt_eq_refl p.claim_id,
        opt_eq_refl p.signal_schema_version,
        opt_eq_refl p.schema_version,
        eq_refl p.rest,
      )
      refl

module _ (signals : Table SealedSignalRow) (sealed_id_of : String → String → String) where
  open signals use {State, get, put, scalar, scalar-some}

  -- every row stands under the identifier of its run and its signal
  abbrev pub Filed : State → Type 0
  Filed s =
      (k : String) (row : SealedSignalRow)
      → get s k ≡ some row
      → k ≡ sealed_id_of row.publication_run_id row.signal_id

  -- what is stored of the signal of `p`, if anything, is `p`
  abbrev pub Agrees : State → ContentPublicationRun → Payload → Type 0
  Agrees s run p =
      (row : SealedSignalRow)
      → get s (sealed_id_of run.publication_run_id (id_text p)) ≡ some row
      → row.payload ≡ p

  none_sealed :
      (s : State) (run : ContentPublicationRun) (p : Payload)
      → Filed s
      → get s (sealed_id_of run.publication_run_id (id_text p)) ≡ none
      → is_some (scalar (λ row. sealed_for run (id_text p) row) s) ≡ false
  none_sealed s run p filed e =
      elim (Option-cases (scalar (λ row. sealed_for run (id_text p) row) s)) [
        | inl n ↦ rw n refl
        | inr ((k, row), n) ↦ absurd (
            let (there, passes) = scalar-some (λ row. sealed_for run (id_text p) row) s k row n in
            let r : row.publication_run_id ≡ run.publication_run_id =
              ground (arith, eq_iff row.publication_run_id run.publication_run_id) in
            let i : row.signal_id ≡ id_text p = ground (arith, eq_iff row.signal_id (id_text p)) in
            let at : get s (sealed_id_of run.publication_run_id (id_text p)) ≡ some row =
              ap (get s) (sym (filed k row there ∙ rw (r, i) refl)) ∙ there in
            cc)
      ]

  -- saving a signal that agrees
  seal_returns :
      (s : State) (run : ContentPublicationRun) (now : ℕ) (p : Payload)
      → Filed s
      → filled (id_text p) ≡ true
      → Agrees s run p
      → let id = sealed_id_of run.publication_run_id (id_text p) in
        (t : State) × (seal signals sealed_id_of s run now p ≡ ok t)
        × Filed t
        × ((j : String) (row : SealedSignalRow)
            → get t j ≡ some row
            → (get s j ≡ some row) ⊎ ((j ≡ id) × (row.payload ≡ p)))
  unfolding seal
  seal_returns s run now p filed f a =
      let id = sealed_id_of run.publication_run_id (id_text p) in
      elim (Option-cases (get s id)) [
        | inl e ↦
            let new = sealed_row id run p now in
            (
              put s id new,
              rw (seal, f, e, none_sealed s run p filed e) refl,
              λ j row there. elim (put-cases signals s id j new) [
                | inl (q, w) ↦
                    let same : new ≡ row = let one : some new ≡ some row = sym w ∙ there in cc in
                    subst
                      (λ (x : SealedSignalRow). j ≡ sealed_id_of x.publication_run_id x.signal_id)
                      same (sym q)
                | inr q ↦ filed j row (sym q ∙ there)
              ],
              λ j row there. elim (put-cases signals s id j new) [
                | inl (q, w) ↦
                    let same : new ≡ row = let one : some new ≡ some row = sym w ∙ there in cc in
                    inr (sym q, ap (λ (x : SealedSignalRow). x.payload) (sym same))
                | inr q ↦ inl (sym q ∙ there)
              ],
            )
        | inr (row, e) ↦
            (s, rw (seal, f, e, a row e, same_payload_refl p) refl, filed, λ j r there. inl there)
      ]

  -- Signals of one run that can be saved: each has an identifier and agrees with what is stored, and two of
  -- one identifier are the same.
  pub record IsSealable (s : State) (run : ContentPublicationRun) (ps : List Payload) : Type 0 where
    pub named : (p : Payload) → Memᴰ p ps → filled (id_text p) ≡ true
    pub agrees : (p : Payload) → Memᴰ p ps → Agrees s run p
    pub once : (p q : Payload) → Memᴰ p ps → Memᴰ q ps → id_text p ≡ id_text q → p ≡ q

  seal_again :
      (t : State) (run : ContentPublicationRun) (now : ℕ) (p : Payload)
      → filled (id_text p) ≡ true
      → IsSealed signals sealed_id_of t run p
      → seal signals sealed_id_of t run now p ≡ ok t
  unfolding seal
  seal_again t run now p f (row, e, same) = rw (seal, f, e, same, same_payload_refl p) refl

  save_again :
      (t : State) (run : ContentPublicationRun) (now : ℕ) (ps : List Payload)
      → ((p : Payload) → Memᴰ p ps → filled (id_text p) ≡ true)
      → AllSealed signals sealed_id_of t run ps
      → save_sealed_signals signals sealed_id_of t run now ps ≡ ok t
  unfolding save_sealed_signals
  save_again t run now [] f h = refl
  save_again t run now (p ∷ ps) f (e, h) =
      rw (seal_again t run now p (f p (head refl)) e)
        (save_again t run now ps (λ q m. f q (tail m)) h)

  module _ (different : (a b c : String) → sealed_id_of a b ≡ sealed_id_of a c → b ≡ c) where
    save_returns :
        (s : State) (run : ContentPublicationRun) (now : ℕ) (ps : List Payload)
        → Filed s
        → IsSealable s run ps
        → (t : State) × (save_sealed_signals signals sealed_id_of s run now ps ≡ ok t) × Filed t
    unfolding save_sealed_signals
    save_returns s run now [] filed h = (s, refl, filed)
    save_returns s run now (p ∷ ps) filed h =
        let (u, e, filed_u, rows) =
          seal_returns s run now p filed (h.named p (head refl)) (h.agrees p (head refl)) in
        let (t, g, filed_t) = save_returns u run now ps filed_u (record {
          named = λ q m. h.named q (tail m);
          agrees = λ q m row there. elim (rows _ row there) [
            | inl old ↦ h.agrees q (tail m) row old
            | inr (j, same) ↦ same ∙ h.once p q (head refl) (tail m) (sym (different _ _ _ j))
          ];
          once = λ q q' m m'. h.once q q' (tail m) (tail m');
        }) in
        (t, rw e g, filed_t)

    -- Signals of a run that can be saved are: the save returns, each is stored with its payload, and no row
    -- is changed. A second save of the same signals, at any time, returns and changes nothing. They can be
    -- saved where each has an identifier and agrees with what is stored for it, two of one identifier are the
    -- same, every stored row stands under the identifier of its run and signal, and different signals of a
    -- run have different ones.
    pub save_sealed_signals_returns :
        (s : State) (run : ContentPublicationRun) (now later : ℕ) (ps : List Payload)
        → Filed s
        → IsSealable s run ps
        → (t : State) × (save_sealed_signals signals sealed_id_of s run now ps ≡ ok t)
          × AllSealed signals sealed_id_of t run ps
          × Keeps signals s t
          × Filed t
          × (save_sealed_signals signals sealed_id_of t run later ps ≡ ok t)
    save_sealed_signals_returns s run now later ps filed h =
        let (t, e, filed_t) = save_returns s run now ps filed h in
        let (all, keeps) = save_sealed_signals-seals signals sealed_id_of s t run now ps e in
        (t, e, all, keeps, filed_t, save_again t run later ps h.named all)
