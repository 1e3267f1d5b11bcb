-- ===== src/Wal/Replay/Fuel.antt =====
-- The fuel of the scan of `Replay` in internal/wal/wal.go.
use eleone_sql.Common.{
  ℕ, zero, suc, ◌≤◌, ◌≡◌, refl, arith, length, none, Option-cases, Result, Result-cases, inl, inr,
}
use eleone_sql.Bytes.{Bytes}
use eleone_sql.Wal.{Op, read_record}
use eleone_sql.Wal.Frame.{read_record_shorter}
use eleone_sql.Wal.Replay.{Pending, replay_record, replay_loop}

module _ {E S : Type 0} (apply : Op → S → Result E S) (crc : Bytes → ℕ)
    (range : Pending → Pending) where
  short_end : (r : Bytes) → length r ≤ 0 → read_record crc r ≡ none
  unfolding read_record
  short_end r h = ground arith

  -- The scan gives the same with any two amounts of fuel that are not below the length of the file.
  pub replay_loop_fuel :
      (fuel more : ℕ) (r : Bytes) (p : Pending) (s : S)
      → length r ≤ fuel
      → length r ≤ more
      → replay_loop apply crc range fuel r p s ≡ replay_loop apply crc range more r p s
  unfolding replay_loop
  replay_loop_fuel zero zero r p s h k = refl
  replay_loop_fuel zero (suc more) r p s h k = rw (short_end r h, replay_loop) refl
  replay_loop_fuel (suc fuel) zero r p s h k = rw (short_end r k, replay_loop) refl
  replay_loop_fuel (suc fuel) (suc more) r p s h k = elim (Option-cases (read_record crc r)) [
    | inl e ↦ rw (e, replay_loop) refl
    | inr ((rec, rest), e) ↦ elim (Result-cases (replay_record apply rec p s)) [
      | inr (x, d) ↦ rw (e, d, replay_loop) refl
      | inl ((p', s'), d) ↦
          rw (e, d, replay_loop)
            (replay_loop_fuel fuel more rest p' s'
              (omega (arith, read_record_shorter crc r rec rest e))
              (omega (arith, read_record_shorter crc r rec rest e)))
    ]
  ]
