-- ===== src/Timescale/Table.antt =====
-- The rows of the table `candles`: one for each symbol, interval and time, and their order.
use analytics_system.Prelude.{
  ℕ, ◌≡◌, ◌≢◌, ◌<◌, refl, Bool, true, false, List, [], ◌∷◌, Option, none, some, inl, inr,
  Bool-cases, Option-cases, ltb, leb, if◌then◌else◌, filter, All, All-mono, any, arith,
}
use analytics_system.Prelude.Text.{Text, text_eq_iff}
use analytics_system.Aggregator.Candle.{Candle}
use analytics_system.Timescale.{
  Row, Table, row_of, conflicts, insert_row, insert_candle, selected, insert_by_time, sort_by_time,
}

-- No two rows conflict.
abbrev pub IsKeyed : {F : Type 0} → Table F → Type 0
IsKeyed [] = Unit {0}
IsKeyed (r ∷ rows) = (any (conflicts r) rows ≡ false) × IsKeyed rows

-- The times grow.
abbrev pub IsStrict : {F : Type 0} → List (Row F) → Type 0
IsStrict [] = Unit {0}
IsStrict (r ∷ rows) = All (λ q. r.time < q.time) rows × IsStrict rows

abbrev pub after : {F : Type 0} → ℕ → Row F → Bool
after t r = ltb t r.time

module _ {F : Type 0} where
  -- `FlushCandle` keeps the rows apart. A candle for a row that is there, and one that the server
  -- refuses, leaves the table as it is; else the candle is the one new row.
  pub insert_candle-IsKeyed :
      (refuses : Table F → Option Text) (c : Candle F) (rows : Table F)
      → IsKeyed rows
      → let (failed, rows') = insert_candle refuses c rows in
        IsKeyed rows'
        × (rows' ≡ elim (refuses rows) [
          | some e ↦ rows
          | none ↦ if any (conflicts (row_of c)) rows then rows else row_of c ∷ rows
        ])
  unfolding insert_candle
  insert_candle-IsKeyed refuses c rows keyed = elim (Option-cases (refuses rows)) [
    | inl taken ↦ elim (Bool-cases (any (conflicts (row_of c)) rows)) [
      | inl there ↦ rw (taken, insert_candle, insert_row, there) (keyed, refl)
      | inr fresh ↦ rw (taken, insert_candle, insert_row, fresh) ((fresh, keyed), refl)
    ]
    | inr (e, refused) ↦ rw (refused, insert_candle) (keyed, refl)
  ]

  All-insert_by_time :
      (P : Row F → Type 0) (r : Row F) (rows : List (Row F))
      → P r
      → All P rows
      → All P (insert_by_time r rows)
  All-insert_by_time P r [] p h = (p, tt)
  All-insert_by_time P r (q ∷ rows) p h = elim (Bool-cases (leb r.time q.time)) [
    | inl low ↦ rw low (p, h)
    | inr high ↦ rw high (h.0, All-insert_by_time P r rows p h.1)
  ]

  pub All-sort_by_time :
      (P : Row F → Type 0) (rows : List (Row F)) → All P rows → All P (sort_by_time rows)
  All-sort_by_time P [] h = tt
  All-sort_by_time P (r ∷ rows) h =
      All-insert_by_time P r (sort_by_time rows) h.0 (All-sort_by_time P rows h.1)

  insert_by_time-IsStrict :
      (r : Row F) (rows : List (Row F))
      → All (λ q. r.time ≢ q.time) rows
      → IsStrict rows
      → IsStrict (insert_by_time r rows)
  insert_by_time-IsStrict r [] apart strict = (tt, tt)
  insert_by_time-IsStrict r (q ∷ rows) apart strict = elim (Bool-cases (leb r.time q.time)) [
    | inl low ↦
        let first : r.time < q.time = ground (arith, apart.0, low) in
        rw low ((first, All-mono (λ x h. omega (arith, first, h)) rows strict.0), strict)
    | inr high ↦ rw high (
      All-insert_by_time (λ x. q.time < x.time) r rows (ground (arith, high)) strict.0,
      insert_by_time-IsStrict r rows apart.1 strict.1,
    )
  ]

  pub All-filter :
      (P : Row F → Type 0) (p : Row F → Bool) (rows : List (Row F))
      → All (λ r. p r ≡ true → P r) rows
      → All P (filter p rows)
  All-filter P p [] h = tt
  All-filter P p (r ∷ rows) h = elim (Bool-cases (p r)) [
    | inl hit ↦ rw (hit, filter) (h.0 hit, All-filter P p rows h.1)
    | inr miss ↦ rw (miss, filter) (All-filter P p rows h.1)
  ]

  conflicts_apart :
      (symbol iv : Text) (start end : ℕ) (r : Row F) (rows : List (Row F))
      → selected symbol iv start end r ≡ true
      → any (conflicts r) rows ≡ false
      → All (λ q. selected symbol iv start end q ≡ true → r.time ≢ q.time) rows
  conflicts_apart symbol iv start end r [] here fresh = tt
  conflicts_apart symbol iv start end r (q ∷ rows) here fresh = (
    λ there same. ground (
      arith,
      text_eq_iff r.symbol symbol,
      text_eq_iff q.symbol symbol,
      text_eq_iff q.symbol r.symbol,
      text_eq_iff r.interval iv,
      text_eq_iff q.interval iv,
      text_eq_iff q.interval r.interval,
      here,
      there,
      fresh,
      same,
    ),
    conflicts_apart symbol iv start end r rows here (ground (arith, fresh)),
  )

  -- The rows of one symbol and interval, sorted, have growing times.
  pub sorted-IsStrict :
      (symbol iv : Text) (start end : ℕ) (rows : Table F)
      → IsKeyed rows
      → IsStrict (sort_by_time (filter (selected symbol iv start end) rows))
  sorted-IsStrict symbol iv start end [] keyed = tt
  sorted-IsStrict symbol iv start end (r ∷ rows) keyed =
      elim (Bool-cases (selected symbol iv start end r)) [
        | inl hit ↦
            rw (hit, filter)
              (insert_by_time-IsStrict r (sort_by_time (filter (selected symbol iv start end) rows))
                (All-sort_by_time (λ q. r.time ≢ q.time)
                  (filter (selected symbol iv start end) rows)
                  (All-filter (λ q. r.time ≢ q.time) (selected symbol iv start end) rows
                    (conflicts_apart symbol iv start end r rows hit keyed.0)))
                (sorted-IsStrict symbol iv start end rows keyed.1))
        | inr miss ↦ rw (miss, filter) (sorted-IsStrict symbol iv start end rows keyed.1)
      ]
