-- ===== src/Pipeline/Records.antt =====
-- Checkpoints to their dictionary form and back.
use stock_content.Prelude.{
  ℕ, ◌≡◌, refl, ap, sym, ◌∙◌, String, Bool, true, ◌&&◌, Option, none, some, [], ◌∷◌, arith, ok,
  filled, Bool-cases, inl, inr, eq_iff,
}
use stock_content.Pipeline.{CheckpointRecord, Identity}
use stock_content.Pipeline.Checkpoint.{
  text_le, insert_item, sorted_items, identity_mapping, text_or, moment_of, parse_time, to_dict,
  from_dict,
}

abbrev ascending : Identity → Bool
ascending [] = true
ascending (x ∷ []) = true
ascending (x ∷ y ∷ l) = text_le x.0 y.0 && ascending (y ∷ l)

-- what `_identity_mapping` returns: no empty mapping, and the items in order
abbrev pub Canonical : Option Identity → Type 0
Canonical none = Unit
Canonical (some []) = ⊥
Canonical (some (x ∷ l)) = ascending (x ∷ l) ≡ true

sorted_items-ascending : (l : Identity) → ascending l ≡ true → sorted_items l ≡ l
sorted_items-ascending [] h = refl
sorted_items-ascending (x ∷ []) h = refl
sorted_items-ascending (x ∷ y ∷ l) h =
    let (le, rest) : (text_le x.0 y.0 ≡ true) × (ascending (y ∷ l) ≡ true) = ground arith in
    ap (insert_item x) (sorted_items-ascending (y ∷ l) rest) ∙ rw le refl

identity_mapping-Canonical : (o : Option Identity) → Canonical o → identity_mapping o ≡ o
unfolding identity_mapping
identity_mapping-Canonical none h = refl
identity_mapping-Canonical (some []) h = absurd h
identity_mapping-Canonical (some (x ∷ l)) h = ap some (sorted_items-ascending (x ∷ l) h)

text_or-filled : (s default : String) → filled s ≡ true → text_or (some s) default ≡ s
text_or-filled s default h = rw h refl

text_or-empty : (s : String) → text_or (some s) "" ≡ s
text_or-empty s = elim (Bool-cases (filled s)) [
  | inl h ↦ rw h refl
  | inr h ↦ rw h (let e : s ≡ "" = ground (arith, eq_iff s "") in sym e)
]

module _ (isoformat : ℕ → String) (fromisoformat : String → Option ℕ)
    (reads_back : (t : ℕ) → fromisoformat (isoformat t) ≡ some t) where
  parse_time-moment_of :
      (o : Option ℕ)
      → parse_time isoformat fromisoformat (moment_of isoformat fromisoformat o) ≡ ok o
  parse_time-moment_of none = refl
  parse_time-moment_of (some t) = rw (reads_back t) refl

  -- A checkpoint that is stored as a dictionary is read back as it was, where `fromisoformat` reads what
  -- `isoformat` writes, its identities are those that `_identity_mapping` returns, and its version, its
  -- status and its schema are not empty.
  pub from_dict-to_dict :
      (r : CheckpointRecord)
      → filled r.stage_version ≡ true
      → filled r.status ≡ true
      → filled r.schema_version ≡ true
      → Canonical r.model_identity
      → Canonical r.prompt_identity
      → from_dict isoformat fromisoformat (to_dict isoformat fromisoformat r) ≡ ok r
  unfolding from_dict to_dict
  from_dict-to_dict r version status schema model prompt =
      rw
        (
          parse_time-moment_of r.started_at,
          parse_time-moment_of r.finished_at,
          text_or-empty r.stage,
          text_or-filled r.stage_version "1.0.0" version,
          text_or-empty r.public_materialization_hash,
          identity_mapping-Canonical r.model_identity model,
          identity_mapping-Canonical r.prompt_identity prompt,
          text_or-empty r.state_checksum,
          text_or-filled r.status "SUCCEEDED" status,
          text_or-filled r.schema_version "checkpoint.v2" schema,
        )
        refl
