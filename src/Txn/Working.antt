-- ===== src/Txn/Working.antt =====
-- internal/txn/txn.go: what Put and Delete leave of an open transaction, whatever the trees do.
use eleone_sql.Common.{
  ◌≡◌, refl, ap, ◌∙◌, ℕ, Bool, true, false, List, [], ◌∷◌, ◌++◌, append_assoc, All, All-concat,
  Result-cases, inl, inr,
}
use eleone_sql.Bytes.{Bytes}
use eleone_sql.Wal.Replay.Events.{Event, put, delete}
use eleone_sql.Txn.{
  Store, Txn, before_image, put_after, delete_after, txn_put, txn_delete, txn_get, save_moved,
}
use eleone_sql.Txn.Interface.{Trees}

-- A record of a Put or a Delete of the transaction.
pub data IsWriteOf (id : ℕ) : Event → Type 0 where
  put_of : {t k x p : Bytes} {b : Bool} → IsWriteOf id (put id t k x b p)
  delete_of : {t k p : Bytes} → IsWriteOf id (delete id t k p)

-- Transaction `id` is open and holds the lock, and the log is `before` with its writes after it.
pub record IsWorking (T : Trees) (id : ℕ) (before : List Event) (st : Store T) (t : Txn)
    : Type 0 where
  pub same_id : t.id ≡ id
  pub still_open : t.done ≡ false
  pub locked : st.locked ≡ true
  pub writes : List Event
  pub are_writes : All (IsWriteOf id) writes
  pub logged : st.log ≡ before ++ writes

module _ {T : Trees} (id : ℕ) (before : List Event) (st : Store T) (t : Txn)
    (h : IsWorking T id before st t) where
  -- A call that logged a write.
  logged_write :
      (st' : Store T) (t' : Txn) (e : Event)
      → IsWriteOf t.id e
      → t'.done ≡ t.done
      → t'.id ≡ t.id
      → st'.locked ≡ st.locked
      → st'.log ≡ st.log ++ e ∷ []
      → IsWorking T id before st' t'
  logged_write st' t' e w done same lock log = record {
    same_id = same ∙ h.same_id;
    still_open = done ∙ h.still_open;
    locked = lock ∙ h.locked;
    writes = h.writes ++ e ∷ [];
    are_writes = All-concat (IsWriteOf id) h.writes e h.are_writes (rw h.same_id at w);
    logged = log ∙ ap (λ l. l ++ e ∷ []) h.logged ∙ append_assoc before h.writes (e ∷ []);
  }

  put_after-IsWorking :
      (target key val : Bytes) (b : Bool) (prev : Bytes)
      → let o = put_after T target key val b prev st t in IsWorking T id before o.1 o.2
  unfolding put_after
  put_after-IsWorking target key val b prev =
      elim (Result-cases (save_moved T target (T.put target key val st.trees)).0) [
        | inl (u, e) ↦ rw (e, put_after) (logged_write _ _ _ put_of refl refl refl refl)
        | inr (x, e) ↦ rw (e, put_after) (logged_write _ _ _ put_of refl refl refl refl)
      ]

  delete_after-IsWorking :
      (target key prev : Bytes)
      → let o = delete_after T target key prev st t in IsWorking T id before o.1 o.2
  unfolding delete_after
  delete_after-IsWorking target key prev =
      elim (Result-cases (save_moved T target (T.delete target key st.trees)).0) [
        | inl (u, e) ↦ rw (e, delete_after) (logged_write _ _ _ delete_of refl refl refl refl)
        | inr (x, e) ↦ rw (e, delete_after) (logged_write _ _ _ delete_of refl refl refl refl)
      ]

  pub txn_put-IsWorking :
      (target key val : Bytes)
      → let o = txn_put T target key val st t in IsWorking T id before o.1 o.2
  unfolding txn_put
  txn_put-IsWorking target key val = elim (Result-cases (before_image (txn_get T target key st))) [
    | inr (x, e) ↦ rw (e, txn_put) h
    | inl ((b, prev), e) ↦ rw (e, txn_put) (put_after-IsWorking target key val b prev)
  ]

  pub txn_delete-IsWorking :
      (target key : Bytes) → let o = txn_delete T target key st t in IsWorking T id before o.1 o.2
  unfolding txn_delete
  txn_delete-IsWorking target key = elim (Result-cases (txn_get T target key st)) [
    | inr (x, e) ↦ rw (e, txn_delete) h
    | inl (prev, e) ↦ rw (e, txn_delete) (delete_after-IsWorking target key prev)
  ]
