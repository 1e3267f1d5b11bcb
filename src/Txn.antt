-- ===== src/Txn.antt =====
-- internal/txn/txn.go: transactions over the trees of a database and its log.
-- The file system does not fail here: writing to the log and syncing always succeed.
pub mod Interface
pub mod Targets
pub mod Working
pub mod Calls
pub mod Replaying
pub mod Stepped
pub mod Finished
pub mod Recovery
use eleone_sql.Common.{
  ℕ, zero, suc, ◌+◌, ◌%◌, ◌^◌, Bool, true, false, List, [], ◌∷◌, ◌++◌, ltb, if◌then◌else◌, length,
  Option, none, some, Result, ok, err,
}
use mathlib.Core.List.{reverse}
use eleone_sql.Bytes.{Bytes}
use eleone_sql.Txn.Interface.{Trees, TreeError, key_not_found, unknown_target}
use eleone_sql.Wal.Replay.Events.{Event, begin, put, delete, commit, rollback}
use eleone_sql.Wal
use eleone_sql.Wal.{Op}

pub record UndoEntry : Type 0 where
  pub target : Bytes
  pub key : Bytes
  pub had_prev : Bool
  pub prev : Bytes

pub record Txn : Type 0 where
  pub id : ℕ
  pub undo : List UndoEntry
  pub done : Bool

module _ (T : Trees) where
  -- `locked` is whether the global write lock is held.
  pub record Store : Type 0 where
    pub trees : T.State
    pub log : List Event
    pub next_txn_id : ℕ
    pub writes_since_checkpoint : ℕ
    pub locked : Bool

-- A method of a transaction leaves its answer, its store and itself.
abbrev pub Outcome : Trees → Type 0 → Type 0
Outcome T A = Result TreeError A × Store T × Txn

-- The before-image that Get gives, if it gives no other error.
unfoldable pub before_image : Result TreeError Bytes → Result TreeError (Bool × Bytes)
before_image (ok prev) = ok (true, prev)
before_image (err key_not_found) = ok (false, [])
before_image (err e) = err e

-- `err != nil && err != storage.ErrKeyNotFound`: a missing key moves no root.
unfoldable pub or_missing : Result TreeError (Option ℕ) → Result TreeError (Option ℕ)
or_missing (err key_not_found) = ok none
or_missing r = r

module _ (T : Trees) where
  -- `bt.Root() != root` after a call of the tree: a moved root is saved. Where that fails, the tree
  -- stays changed.
  unfoldable pub save_moved :
      Bytes → Result TreeError (Option ℕ) × T.State → Result TreeError (Unit {0}) × T.State
  save_moved target (err e, s) = (err e, s)
  save_moved target (ok none, s) = (ok tt, s)
  save_moved target (ok (some root), s) = T.save target root s

  -- `none` where the caller waits for the lock.
  unfoldable pub begin_txn : Store T → Option (Store T × Txn)
  begin_txn st = elim st.locked [
    | true ↦ none
    | false ↦
        let id = (st.next_txn_id + 1) % 2 ^ 64 in
        some (
          record st { locked = true; next_txn_id = id; log = st.log ++ begin id ∷ [] },
          record { id = id; undo = []; done = false },
        )
  ]

  -- `resolve`, OpenBTree and `bt.Get`.
  unfoldable pub tree_get : Bytes → Bytes → T.State → Result TreeError Bytes
  tree_get target key s = if T.known target s then T.get target key s else err unknown_target

  unfoldable pub txn_get : Bytes → Bytes → Store T → Result TreeError Bytes
  unfolding tree_get
  txn_get target key st = tree_get target key st.trees

  -- What Put does once the before-image is known: log, write, and remember how to undo it.
  unfoldable pub put_after :
      Bytes → Bytes → Bytes → Bool → Bytes → Store T → Txn → Outcome T (Unit {0})
  unfolding save_moved
  put_after target key val had_prev prev st t =
      let logged = st.log ++ put t.id target key val had_prev prev ∷ [] in
      let (r, trees') = save_moved target (T.put target key val st.trees) in
      let st' : Store T = record st { log = logged; trees = trees' } in
      elim r [
        | err e ↦ (err e, st', t)
        | ok u ↦ (
          ok tt,
          st',
          record t {
            undo =
                t.undo
                ++ record { target = target; key = key; had_prev = had_prev; prev = prev } ∷ [];
          },
        )
      ]

  unfoldable pub txn_put : Bytes → Bytes → Bytes → Store T → Txn → Outcome T (Unit {0})
  unfolding before_image txn_get put_after
  txn_put target key val st t = elim (before_image (txn_get target key st)) [
    | err e ↦ (err e, st, t)
    | ok (had_prev, prev) ↦ put_after target key val had_prev prev st t
  ]

  unfoldable pub delete_after : Bytes → Bytes → Bytes → Store T → Txn → Outcome T (Unit {0})
  unfolding save_moved
  delete_after target key prev st t =
      let logged = st.log ++ delete t.id target key prev ∷ [] in
      let (r, trees') = save_moved target (T.delete target key st.trees) in
      let st' : Store T = record st { log = logged; trees = trees' } in
      elim r [
        | err e ↦ (err e, st', t)
        | ok u ↦ (
          ok tt,
          st',
          record t {
            undo =
                t.undo ++ record { target = target; key = key; had_prev = true; prev = prev } ∷ [];
          },
        )
      ]

  unfoldable pub txn_delete : Bytes → Bytes → Store T → Txn → Outcome T (Unit {0})
  unfolding txn_get delete_after
  txn_delete target key st t = elim (txn_get target key st) [
    | err e ↦ (err e, st, t)
    | ok prev ↦ delete_after target key prev st t
  ]

  -- One round of the loop of Rollback.
  unfoldable pub undo_entry : UndoEntry → T.State → Result TreeError (Unit {0}) × T.State
  unfolding or_missing save_moved
  undo_entry e s =
      if T.known e.target s
      then (if e.had_prev
          then save_moved e.target (T.put e.target e.key e.prev s)
          else (let (r, s') = T.delete e.target e.key s in save_moved e.target (or_missing r, s')))
      else (ok tt, s)

  -- The entries come in the order of the loop, the last one first.
  unfoldable pub undo_entries : List UndoEntry → T.State → Result TreeError (Unit {0}) × T.State
  undo_entries [] s = (ok tt, s)
  undo_entries (e ∷ es) s =
      let (r, s') = undo_entry e s in elim r [ err x ↦ (err x, s') | ok u ↦ undo_entries es s' ]

  unfoldable pub commit_txn : Store T → Txn → Outcome T (Unit {0})
  commit_txn st t = elim t.done [
    | true ↦ (ok tt, st, t)
    | false ↦ (
      ok tt,
      record st {
        locked = false;
        log = st.log ++ commit t.id ∷ [];
        writes_since_checkpoint = st.writes_since_checkpoint + length t.undo;
      },
      record t { done = true },
    )
  ]

  unfoldable pub rollback_txn : Store T → Txn → Outcome T (Unit {0})
  rollback_txn st t = elim t.done [
    | true ↦ (ok tt, st, t)
    | false ↦
        let (r, trees') = undo_entries (reverse t.undo) st.trees in
        let t' : Txn = record t { done = true } in
        elim r [
          | err x ↦ (err x, record st { locked = false; trees = trees' }, t')
          | ok u ↦ (
            ok tt,
            record st { locked = false; trees = trees'; log = st.log ++ rollback t.id ∷ [] },
            t',
          )
        ]
  ]

  -- The log that a checkpoint empties.
  unfoldable pub maybe_checkpoint : ℕ → Store T → Store T
  maybe_checkpoint threshold st =
      if ltb st.writes_since_checkpoint threshold
      then st
      else record st { log = []; writes_since_checkpoint = 0 }

  -- A state where the calls have succeeded, or their error.
  unfoldable pub state_or_error : Result TreeError (Unit {0}) × T.State → Result TreeError T.State
  state_or_error (ok u, s) = ok s
  state_or_error (err e, s) = err e

  -- The callback that Open hands to the replay of the log.
  unfoldable pub apply_op : Op → T.State → Result TreeError T.State
  unfolding or_missing save_moved state_or_error
  apply_op op s =
      if T.known op.table s
      then (elim op.type [
        | Wal.put ↦ state_or_error (save_moved op.table (T.put op.table op.key op.val s))
        | Wal.delete ↦
            (let (r, s') = T.delete op.table op.key s in
              state_or_error (save_moved op.table (or_missing r, s')))
        | _ ↦ ok s
      ])
      else ok s
