-- ===== src/Timescale/Order.antt =====
-- Selections of later rows from sorted rows of the table `candles`.
use analytics_system.Prelude.{
  ℕ, suc, zero, ◌≡◌, ◌<◌, ◌≤◌, refl, sym, ap, ◌∙◌, true, false, List, [], ◌∷◌, inl, inr, Bool-cases,
  filter, All, arith, take, drop,
}
use analytics_system.Prelude.Text.{Text}
use analytics_system.Timescale.{Row, Table, selected, insert_by_time, sort_by_time}
use analytics_system.Timescale.Table.{IsStrict, after}

module _ {F : Type 0} where
  filter-All :
      (t : ℕ) (rows : List (Row F)) → All (λ q. t < q.time) rows → filter (after t) rows ≡ rows
  filter-All t [] h = refl
  filter-All t (r ∷ rows) h =
      let here : after t r ≡ true = ground (arith, h.0) in
      rw (here, filter) (ap (◌∷◌ r) (filter-All t rows h.1))

  insert_late :
      (t : ℕ) (r : Row F) (rows : List (Row F))
      → after t r ≡ true
      → filter (after t) (insert_by_time r rows) ≡ insert_by_time r (filter (after t) rows)
  insert_late t r [] late = ground (arith, late)
  insert_late t r (q ∷ rows) late = ground (arith, late, insert_late t r rows late)

  insert_early :
      (t : ℕ) (r : Row F) (rows : List (Row F))
      → after t r ≡ false
      → filter (after t) (insert_by_time r rows) ≡ filter (after t) rows
  insert_early t r [] early = ground (arith, early)
  insert_early t r (q ∷ rows) early = ground (arith, early, insert_early t r rows early)

  filter-sort_by_time :
      (t : ℕ) (rows : List (Row F))
      → filter (after t) (sort_by_time rows) ≡ sort_by_time (filter (after t) rows)
  filter-sort_by_time t [] = refl
  filter-sort_by_time t (r ∷ rows) = elim (Bool-cases (after t r)) [
    | inl late ↦
        insert_late t r (sort_by_time rows) late
        ∙ rw (late, filter) (ap (insert_by_time r) (filter-sort_by_time t rows))
    | inr early ↦
        insert_early t r (sort_by_time rows) early ∙ rw (early, filter) (filter-sort_by_time t rows)
  ]

  filter-selected :
      (symbol iv : Text) (start t end : ℕ) (rows : List (Row F))
      → start ≤ t
      → filter (after t) (filter (selected symbol iv start end) rows)
        ≡ filter (selected symbol iv t end) rows
  filter-selected symbol iv start t end [] low = refl
  filter-selected symbol iv start t end (r ∷ rows) low =
      ground (arith, low, filter-selected symbol iv start t end rows low)

  -- The rows of a later start, sorted, are the later ones of those of the start.
  pub sorted_later :
      (symbol iv : Text) (start t end : ℕ) (rows : Table F)
      → start ≤ t
      → sort_by_time (filter (selected symbol iv t end) rows)
        ≡ filter (after t) (sort_by_time (filter (selected symbol iv start end) rows))
  sorted_later symbol iv start t end rows low =
      ap sort_by_time (sym (filter-selected symbol iv start t end rows low))
      ∙ sym (filter-sort_by_time t (filter (selected symbol iv start end) rows))

  -- The time of the last row, or another time if there is none.
  abbrev pub last_time : ℕ → List (Row F) → ℕ
  last_time t [] = t
  last_time t (r ∷ rows) = last_time r.time rows

  -- The rows after the last row of a page are those that the page leaves.
  pub filter-drop :
      (t n : ℕ) (rows : List (Row F))
      → All (λ q. t < q.time) rows
      → IsStrict rows
      → (t ≤ last_time t (take n rows))
        × (filter (after (last_time t (take n rows))) rows ≡ drop n rows)
  filter-drop t zero rows low strict = (omega arith, filter-All t rows low)
  filter-drop t (suc n) [] low strict = (omega arith, refl)
  filter-drop t (suc n) (r ∷ rows) low strict =
      let (later, rest) = filter-drop r.time n rows strict.0 strict.1 in
      ground (arith, later, rest, low.0)
