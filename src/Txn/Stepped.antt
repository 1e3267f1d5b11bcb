-- ===== src/Txn/Stepped.antt =====
-- internal/txn/txn.go: the log and the undo list of a transaction as the writes that it made.
use eleone_sql.Common.{
  ◌≡◌, refl, ap, sym, ◌∙◌, Bool, true, false, List, [], ◌∷◌, ◌++◌, append_assoc, map, none, some,
  ok, Result-cases, inl, inr, All, All-concat,
}
use mathlib.Core.List.{map-append}
use mathlib.Core.Path.{subst}
use eleone_sql.Bytes.{Bytes}
use eleone_sql.Wal.Replay.Events.{Event}
use eleone_sql.Txn.{
  Store, Txn, before_image, put_after, delete_after, txn_put, txn_delete, txn_get, save_moved,
}
use eleone_sql.Txn.Interface.{Trees}
use eleone_sql.Txn.Calls.{Call, put, delete, call, run_calls, IsWhole}
use eleone_sql.Txn.Replaying.{Step, IsStep, event}

-- After `before`, the log has the writes `steps`, and the undo list their entries.
pub record IsStepped (T : Trees) (before : List Event) (st : Store T) (t : Txn) : Type 0 where
  pub still_open : t.done ≡ false
  pub steps : List Step
  pub logged : st.log ≡ before ++ map (event t.id) steps
  pub entries : t.undo ≡ map (λ d. d.entry) steps
  pub valid : All IsStep steps

module _ {T : Trees} (before : List Event) (st : Store T) (t : Txn)
    (h : IsStepped T before st t) where
  -- A call that logged the step and kept its entry.
  stepped :
      (st' : Store T) (t' : Txn) (d : Step)
      → IsStep d
      → t'.done ≡ t.done
      → t'.id ≡ t.id
      → st'.log ≡ st.log ++ event t.id d ∷ []
      → t'.undo ≡ t.undo ++ d.entry ∷ []
      → IsStepped T before st' t'
  stepped st' t' d valid done id log undo = record {
    still_open = done ∙ h.still_open;
    steps = h.steps ++ d ∷ [];
    logged =
        log
        ∙ ap (λ l. l ++ event t.id d ∷ []) h.logged
        ∙ append_assoc before (map (event t.id) h.steps) (event t.id d ∷ [])
        ∙ ap (λ l. before ++ l) (sym (map-append (event t.id) h.steps (d ∷ [])))
        ∙ ap (λ i. before ++ map (event i) (h.steps ++ d ∷ [])) (sym id);
    entries =
        undo
        ∙ ap (λ l. l ++ d.entry ∷ []) h.entries
        ∙ sym (map-append (λ (x : Step). x.entry) h.steps (d ∷ []));
    valid = All-concat IsStep h.steps d h.valid valid;
  }

  put_after-IsStepped :
      (target key val : Bytes) (b : Bool) (prev : Bytes)
      → let o = put_after T target key val b prev st t in o.0 ≡ ok tt → IsStepped T before o.1 o.2
  unfolding put_after
  put_after-IsStepped target key val b prev done =
      elim (Result-cases (save_moved T target (T.put target key val st.trees)).0) [
        | inl (u, e) ↦
            rw (e, put_after)
              (stepped _ _
                (record {
                  entry = record { target = target; key = key; had_prev = b; prev = prev };
                  new_val = some val;
                })
                (λ p. cc) refl refl refl refl)
        | inr (x, e) ↦ cc (rw (e, put_after) at done)
      ]

  delete_after-IsStepped :
      (target key prev : Bytes)
      → let o = delete_after T target key prev st t in o.0 ≡ ok tt → IsStepped T before o.1 o.2
  unfolding delete_after
  delete_after-IsStepped target key prev done =
      elim (Result-cases (save_moved T target (T.delete target key st.trees)).0) [
        | inl (u, e) ↦
            rw (e, delete_after)
              (stepped _ _
                (record {
                  entry = record { target = target; key = key; had_prev = true; prev = prev };
                  new_val = none;
                })
                (λ p. refl) refl refl refl refl)
        | inr (x, e) ↦ cc (rw (e, delete_after) at done)
      ]

  call-IsStepped : (c : Call) → let o = call T c st t in o.0 ≡ ok tt → IsStepped T before o.1 o.2
  unfolding txn_put txn_delete
  call-IsStepped (put target key val) done =
      elim (Result-cases (before_image (txn_get T target key st))) [
        | inr (x, e) ↦ cc (rw (e, txn_put) at done)
        | inl ((b, prev), e) ↦
            rw (e, txn_put) (put_after-IsStepped target key val b prev (rw (e, txn_put) at done))
      ]
  call-IsStepped (delete target key) done = elim (Result-cases (txn_get T target key st)) [
    | inr (x, e) ↦ cc (rw (e, txn_delete) at done)
    | inl (prev, e) ↦
        rw (e, txn_delete) (delete_after-IsStepped target key prev (rw (e, txn_delete) at done))
  ]

pub run_calls-IsStepped :
    {T : Trees} (before : List Event) (cs : List Call) (st : Store T) (t : Txn)
    → IsWhole T cs st t
    → IsStepped T before st t
    → let r = run_calls T cs st t in IsStepped T before r.0 r.1
unfolding run_calls IsWhole
run_calls-IsStepped before [] st t w h = h
run_calls-IsStepped {T} before (c ∷ cs) st t (inl done, w) h =
    run_calls-IsStepped before cs _ _ w (call-IsStepped before st t h c done)
run_calls-IsStepped {T} before (c ∷ cs) st t (inr same, w) h =
    run_calls-IsStepped before cs _ _ w
      (subst (λ (p : Store T × Txn). IsStepped T before p.0 p.1) (sym same) h)
