-- ===== src/Txn/Replaying.antt =====
-- The writes of a transaction as events of the log: what the scan of the log gathers of them, and
-- how it undoes them.
use mathlib.Core.List.{reverse, reverse-append, map-append}
use eleone_sql.Common.{
  refl, inr, append_assoc, inl, ==_iff, ap, sym, Result-cases, ◌∙◌, Bool-cases, append-nil, ◌>>=◌,
  All, All-concat, ◌++◌, map, ◌∷◌, List, ℕ, ◌≡◌, true, [], Option, none, some, ok,
}
use eleone_sql.Bytes.{Bytes}
use eleone_sql.Wal.{Op}
use eleone_sql.Wal.Replay.{apply_undo, undo_list, Pending, pending_add}
use eleone_sql.Wal.Replay.Events.{
  recover_event, recover_events, Event, put, delete, put_op, delete_op,
}
use eleone_sql.Txn.{UndoEntry, apply_op, undo_entry, undo_entries, state_or_error}
use eleone_sql.Txn.Interface.{Trees}

-- A write that succeeded: its undo entry, and the new value, or `none` for a Delete.
pub record Step : Type 0 where
  pub entry : UndoEntry
  pub new_val : Option Bytes

-- Delete has a before-image always.
abbrev pub IsStep : Step → Type 0
IsStep d = d.new_val ≡ none → d.entry.had_prev ≡ true

abbrev pub event : ℕ → Step → Event
event id d = elim d.new_val [
  | some v ↦ put id d.entry.target d.entry.key v d.entry.had_prev d.entry.prev
  | none ↦ delete id d.entry.target d.entry.key d.entry.prev
]

-- What the scan makes of the event.
abbrev pub op : Step → Op
op d = elim d.new_val [
  | some v ↦ put_op d.entry.target d.entry.key v d.entry.had_prev d.entry.prev
  | none ↦ delete_op d.entry.target d.entry.key d.entry.prev
]

module _ (T : Trees) where
  undo_step :
      (e : UndoEntry) (n : Option Bytes) (s : T.State)
      → let d : Step = record { entry = e; new_val = n } in
        IsStep d → apply_undo (apply_op T) (op d) s ≡ state_or_error T (undo_entry T e s)
  unfolding apply_undo apply_op undo_entry state_or_error
  undo_step e none s h = elim (Bool-cases (T.known e.target s)) [
    | inl k ↦ rw (k, h refl) refl
    | inr k ↦ rw k refl
  ]
  undo_step e (some v) s h = elim (Bool-cases (T.known e.target s)) [
    | inl k ↦ elim (Bool-cases e.had_prev) [ inl p ↦ rw (k, p) refl | inr p ↦ rw (k, p) refl ]
    | inr k ↦ elim (Bool-cases e.had_prev) [ inl p ↦ rw (k, p) refl | inr p ↦ rw (k, p) refl ]
  ]

  -- Undoing operations of the log does what the loop of Rollback does with their entries.
  pub undo_list-op :
      (ds : List Step) (s : T.State)
      → All IsStep ds
      → undo_list (apply_op T) (map op ds) s
        ≡ state_or_error T (undo_entries T (map (λ d. d.entry) ds) s)
  unfolding undo_list undo_entries state_or_error
  undo_list-op [] s h = refl
  undo_list-op (d ∷ ds) s h =
      ap (λ r. r >>= λ s'. undo_list (apply_op T) (map op ds) s')
        (undo_step d.entry d.new_val s h.0)
      ∙ (elim (Result-cases (undo_entry T d.entry s).0) [
        | inl (u, e) ↦
            rw (e, state_or_error, undo_entries) (undo_list-op ds (undo_entry T d.entry s).1 h.1)
        | inr (x, e) ↦ rw (e, state_or_error, undo_entries) refl
      ])

pub map-reverse {ℓ} :
    {A B : Type ℓ} (f : A → B) (xs : List A) → map f (reverse xs) ≡ reverse (map f xs)
map-reverse f [] = refl
map-reverse f (x ∷ xs) =
    ap (map f) (reverse-append (x ∷ []) xs)
    ∙ map-append f (reverse xs) (x ∷ [])
    ∙ ap (λ l. l ++ f x ∷ []) (map-reverse f xs)
    ∙ sym (reverse-append (f x ∷ []) (map f xs))

pub All-reverse : (ds : List Step) → All IsStep ds → All IsStep (reverse ds)
All-reverse [] h = tt
All-reverse (d ∷ ds) h =
    rw (reverse-append (d ∷ []) ds) (All-concat IsStep (reverse ds) d (All-reverse ds h.1) h.0)

-- What the scan gathers of the one transaction that is open.
abbrev pub gathered : ℕ → List Step → Pending
gathered id [] = []
gathered id (d ∷ ds) = (id, op d ∷ map op ds) ∷ []

module _ (T : Trees) where
  scan_first :
      (id : ℕ) (e : UndoEntry) (n : Option Bytes) (s : T.State)
      → let d : Step = record { entry = e; new_val = n } in
        recover_event (apply_op T) (event id d) [] s ≡ ok ((id, op d ∷ []) ∷ [], s)
  unfolding recover_event pending_add
  scan_first id e none s = refl
  scan_first id e (some v) s = refl

  scan_next :
      (id : ℕ) (e : UndoEntry) (n : Option Bytes) (ops : List Op) (s : T.State)
      → let d : Step = record { entry = e; new_val = n } in
        recover_event (apply_op T) (event id d) ((id, ops) ∷ []) s
        ≡ ok ((id, ops ++ op d ∷ []) ∷ [], s)
  unfolding recover_event pending_add
  scan_next id e none ops s = rw ((==_iff id id).1 refl)
  scan_next id e (some v) ops s = rw ((==_iff id id).1 refl)

  scan_more :
      (id : ℕ) (ds : List Step) (ops : List Op) (s : T.State)
      → recover_events (apply_op T) (map (event id) ds) ((id, ops) ∷ []) s
        ≡ ok ((id, ops ++ map op ds) ∷ [], s)
  unfolding recover_events
  scan_more id [] ops s = rw append-nil
  scan_more id (d ∷ ds) ops s = rw (scan_next id d.entry d.new_val ops s) (
      scan_more id ds (ops ++ op d ∷ []) s
      ∙ ap (λ l. ok ((id, l) ∷ [], s)) (append_assoc ops (op d ∷ []) (map op ds)))

  pub scan_steps :
      (id : ℕ) (ds : List Step) (s : T.State)
      → recover_events (apply_op T) (map (event id) ds) [] s ≡ ok (gathered id ds, s)
  unfolding recover_events
  scan_steps id [] s = refl
  scan_steps id (d ∷ ds) s = rw (scan_first id d.entry d.new_val s) (scan_more id ds (op d ∷ []) s)

  pub recover_events-append :
      (es fs : List Event) (p : Pending) (s : T.State)
      → recover_events (apply_op T) (es ++ fs) p s
        ≡ (recover_events (apply_op T) es p s >>= λ q. recover_events (apply_op T) fs q.0 q.1)
  unfolding recover_events
  recover_events-append [] fs p s = refl
  recover_events-append (e ∷ es) fs p s = elim (Result-cases (recover_event (apply_op T) e p s)) [
    | inl (q, r) ↦ rw r (recover_events-append es fs q.0 q.1)
    | inr (x, r) ↦ rw r
  ]
