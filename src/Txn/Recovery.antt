-- ===== src/Txn/Recovery.antt =====
-- Recovery after a crash of the process while a transaction is open.
use eleone_sql.Common.{
  ℕ, ◌^◌, ◌<◌, ◌≡◌, refl, ap, sym, ◌∙◌, false, List, [], ◌∷◌, ◌++◌, map, append-nil, none, some,
  Result, ok, err, ◌>>=◌, Result-cases, inl, inr, All,
}
use mathlib.Core.List.{reverse}
use eleone_sql.Bytes.{Bytes}
use eleone_sql.Wal.{Op, read_record}
use eleone_sql.Wal.Replay.{Pending, undo_list, undo_all, replay}
use eleone_sql.Wal.Replay.Events.{
  Event, begin, recover_event, recover_events, recover, FitsEvent, log_bytes, replay-log_bytes,
}
use eleone_sql.Txn.{Store, Txn, begin_txn, rollback_txn, undo_entries, apply_op, state_or_error}
use eleone_sql.Txn.Interface.{Trees, TreeError}
use eleone_sql.Txn.Calls.{Call, run_calls, IsWhole, begin_facts}
use eleone_sql.Txn.Replaying.{
  Step, event, op, IsStep, gathered, scan_steps, recover_events-append, undo_list-op, map-reverse,
  All-reverse,
}
use eleone_sql.Txn.Stepped.{IsStepped, run_calls-IsStepped}

-- The trees that Rollback leaves, or its error.
abbrev pub rolled : (T : Trees) → Store T → Txn → Result TreeError T.State
rolled T st t = let o = rollback_txn T st t in state_or_error T (o.0, o.1.trees)

bind_ok {ℓ} : {E A : Type ℓ} (r : Result E A) → (r >>= ok) ≡ r
bind_ok (ok a) = refl
bind_ok (err e) = refl

module _ (T : Trees) where
  rolled-undo_entries :
      (st : Store T) (t : Txn)
      → t.done ≡ false
      → rolled T st t ≡ state_or_error T (undo_entries T (reverse t.undo) st.trees)
  unfolding rollback_txn state_or_error
  rolled-undo_entries st t h = elim (Result-cases (undo_entries T (reverse t.undo) st.trees).0) [
    | inl (u, e) ↦ rw (h, e, rollback_txn, state_or_error) refl
    | inr (x, e) ↦ rw (h, e, rollback_txn, state_or_error) refl
  ]

  undo_steps :
      (ds : List Step) (s : T.State)
      → All IsStep ds
      → undo_list (apply_op T) (reverse (map op ds)) s
        ≡ state_or_error T (undo_entries T (reverse (map (λ d. d.entry) ds)) s)
  undo_steps ds s h =
      ap (λ l. undo_list (apply_op T) l s) (sym (map-reverse op ds))
      ∙ undo_list-op T (reverse ds) s (All-reverse ds h)
      ∙ ap (λ l. state_or_error T (undo_entries T l s)) (map-reverse (λ (d : Step). d.entry) ds)

  module _ (range : Pending → Pending) (range_nil : range [] ≡ [])
      (range_one : (x : ℕ × List Op) → range (x ∷ []) ≡ x ∷ []) where
    undo_gathered :
        (id : ℕ) (ds : List Step) (s : T.State)
        → undo_all (apply_op T) (range (gathered id ds)) s
          ≡ undo_list (apply_op T) (reverse (map op ds)) s
    unfolding undo_all undo_list
    undo_gathered id [] s = rw range_nil refl
    undo_gathered id (d ∷ ds) s =
        rw (range_one (id, map op (d ∷ ds)))
          (bind_ok (undo_list (apply_op T) (reverse (map op (d ∷ ds))) s))

    scan_log :
        (before : List Event) (first id : ℕ) (ds : List Step) (s s₁ : T.State)
        → recover_events (apply_op T) before [] s ≡ ok ([], s₁)
        → recover_events (apply_op T) ((before ++ begin first ∷ []) ++ map (event id) ds) [] s
          ≡ ok (gathered id ds, s₁)
    unfolding recover_events recover_event
    scan_log before first id ds s s₁ h =
        recover_events-append T (before ++ begin first ∷ []) (map (event id) ds) [] s
        ∙ ap (λ r. r >>= λ q. recover_events (apply_op T) (map (event id) ds) q.0 q.1)
            (recover_events-append T before (begin first ∷ []) [] s
              ∙ ap (λ r. r >>= λ q. recover_events (apply_op T) (begin first ∷ []) q.0 q.1) h)
        ∙ scan_steps T id ds s₁

    recover_lem :
        (before : List Event) (first : ℕ) (st : Store T) (t : Txn) (s s₁ : T.State)
        → recover_events (apply_op T) before [] s ≡ ok ([], s₁)
        → IsStepped T (before ++ begin first ∷ []) st t
        → recover (apply_op T) range st.log s ≡ rolled T (record st { trees = s₁ }) t
    unfolding recover
    recover_lem before first st t s s₁ settled h =
        ap (λ r. r >>= λ q. undo_all (apply_op T) (range q.0) q.1)
          (ap (λ l. recover_events (apply_op T) l [] s) h.logged
            ∙ scan_log before first t.id h.steps s s₁ settled)
        ∙ undo_gathered t.id h.steps s₁
        ∙ undo_steps h.steps s₁ h.valid
        ∙ ap (λ l. state_or_error T (undo_entries T (reverse l) s₁)) (sym h.entries)
        ∙ sym (rolled-undo_entries (record st { trees = s₁ }) t h.still_open)

    -- Whatever the trees do, with a checksum of 32 bits and an order over Go maps that leaves a map
    -- of one entry or none as it is. Let the scan of the log, as it stands at Begin, take the trees
    -- `s` to `s₁` and leave no transaction pending, and let the process die while the transaction
    -- is open, after any Put and Delete calls of which none fails with its record already in the
    -- log. If the log's records fit their fields, then Replay of the file, which may end in a torn
    -- record, on `s` gives the trees, or the error, that Rollback of the transaction gives on `s₁`.
    pub replay-rollback_txn :
        (crc : Bytes → ℕ)
        → ((b : Bytes) → crc b < 2 ^ 32)
        → (st st' : Store T) (t : Txn) (cs : List Call) (torn : Bytes) (s s₁ : T.State)
        → recover_events (apply_op T) st.log [] s ≡ ok ([], s₁)
        → begin_txn T st ≡ some (st', t)
        → IsWhole T cs st' t
        → read_record crc torn ≡ none
        → All FitsEvent (run_calls T cs st' t).0.log
        → let r = run_calls T cs st' t in
          replay (apply_op T) crc range (log_bytes crc r.0.log ++ torn) s
          ≡ rolled T (record r.0 { trees = s₁ }) r.1
    replay-rollback_txn crc crc-lt st st' t cs torn s s₁ settled b whole torn_end fits =
        let r = run_calls T cs st' t in
        let f = begin_facts T st st' t b in
        let start : IsStepped T (st.log ++ begin t.id ∷ []) st' t = record {
          still_open = f.open_txn;
          steps = [];
          logged = f.logged ∙ sym (append-nil (st.log ++ begin t.id ∷ []));
          entries = f.no_undo;
          valid = tt;
        } in
        replay-log_bytes (apply_op T) crc crc-lt range r.0.log torn s fits torn_end
        ∙ recover_lem st.log t.id r.0 r.1 s s₁ settled
            (run_calls-IsStepped (st.log ++ begin t.id ∷ []) cs st' t whole start)
