-- ===== src/Catalog/Value/Laws.antt =====
-- internal/catalog/value.go: the byte order of sort keys and the order of `Compare`.
use mathlib.Core.Path.{subst₂}
use eleone_sql.Common.{sym, sym, ℕ, ◌≡◌, refl, ◌∙◌, true, false, Ordering, inl, inr}
use eleone_sql.Bytes.{bytes_compare}
use eleone_sql.Encoding.Integers.{compare-encode_int64}
use eleone_sql.Encoding.Floats.{IsOrdinary, compare-encode_float64}
use eleone_sql.Catalog.Value.{
  SqlType, integer, float, text, boolean, unknown, Value, null_value, Payload, IsOfType, sort_key,
  compare_values,
}

module _ (to_float : ℕ → ℕ) where
  abbrev Agree : Value → Value → Type 0
  Agree v w = bytes_compare (sort_key v) (sort_key w) ≡ compare_values to_float v w

  -- Both values hold a value of the type.
  Payload-order :
      (t : SqlType) (v w : Value)
      → Payload t v
      → Payload t w
      → IsOrdinary v.f
      → IsOrdinary w.f
      → Agree v w
  unfolding sort_key compare_values bytes_compare
  Payload-order integer v w (m, hm, ev) (n, hn, ew) ov ow =
      subst₂ Agree (sym ev) (sym ew) (compare-encode_int64 m n hm hn)
  Payload-order float v w (m, hm, ev) (n, hn, ew) ov ow =
      subst₂ Agree (sym ev) (sym ew) (compare-encode_float64 m n (rw ev at ov) (rw ew at ow))
  Payload-order text v w (a, ha, ev) (b, hb, ew) ov ow = subst₂ Agree (sym ev) (sym ew) refl
  Payload-order boolean v w (true, ev) (true, ew) ov ow = subst₂ Agree (sym ev) (sym ew) refl
  Payload-order boolean v w (true, ev) (false, ew) ov ow = subst₂ Agree (sym ev) (sym ew) refl
  Payload-order boolean v w (false, ev) (true, ew) ov ow = subst₂ Agree (sym ev) (sym ew) refl
  Payload-order boolean v w (false, ev) (false, ew) ov ow = subst₂ Agree (sym ev) (sym ew) refl
  Payload-order (unknown n) v w p q ov ow = absurd p

  null_first :
      (t : SqlType) (u : SqlType) (w : Value)
      → Payload t w
      → (bytes_compare (sort_key (null_value u)) (sort_key w) ≡ Ordering.lt)
        × (compare_values to_float (null_value u) w ≡ Ordering.lt)
        × (bytes_compare (sort_key w) (sort_key (null_value u)) ≡ Ordering.gt)
        × (compare_values to_float w (null_value u) ≡ Ordering.gt)
  unfolding sort_key compare_values bytes_compare
  null_first integer u w (n, hn, e) = rw e (refl, refl, refl, refl)
  null_first float u w (n, hn, e) = rw e (refl, refl, refl, refl)
  null_first text u w (n, hn, e) = rw e (refl, refl, refl, refl)
  null_first boolean u w (n, e) = rw e (refl, refl, refl, refl)
  null_first (unknown n) u w p = absurd p

  -- For two values of one column, NULL or not, floats being neither NaN nor -0, the sort keys
  -- compare as bytes exactly as Compare compares the values.
  pub compare-sort_key :
      (t : SqlType) (v w : Value)
      → IsOfType t v
      → IsOfType t w
      → IsOrdinary v.f
      → IsOrdinary w.f
      → bytes_compare (sort_key v) (sort_key w) ≡ compare_values to_float v w
  unfolding sort_key compare_values bytes_compare
  compare-sort_key t v w (inl e) (inl d) ov ow = rw (e, d)
  compare-sort_key t v w (inl e) (inr q) ov ow = let h = null_first t t w q in rw e (h.0 ∙ sym h.1)
  compare-sort_key t v w (inr p) (inl d) ov ow = let h = null_first t t v p in rw d (h.2 ∙ sym h.3)
  compare-sort_key t v w (inr p) (inr q) ov ow = Payload-order t v w p q ov ow
