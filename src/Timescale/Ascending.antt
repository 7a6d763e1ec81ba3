-- ===== src/Timescale/Ascending.antt =====
-- Ascending lists of symbols, and what comes behind one of them.
use analytics_system.Prelude.{
  ◌≡◌, refl, sym, ap, subst, ◌∙◌, Bool, true, false, List, [], ◌∷◌, ◌++◌, inl, inr, Bool-cases,
  filter, All, arith,
}
use analytics_system.Prelude.Text.{Text}

in_middle :
    {A : Type 0} (P : A → Type 0) (before rest : List A) (x : A) → All P (before ++ x ∷ rest) → P x
in_middle P [] rest x h = h.0
in_middle P (b ∷ before) rest x h = in_middle P before rest x h.1

-- The order of the symbols.
pub record IsOrder (less : Text → Text → Bool) : Type 0 where
  pub irrefl : (a : Text) → less a a ≡ false
  pub trans : (a b c : Text) → less a b ≡ true → less b c ≡ true → less a c ≡ true

-- The symbols ascend, each once.
abbrev pub IsAscending : (Text → Text → Bool) → List Text → Type 0
IsAscending less [] = Unit {0}
IsAscending less (s ∷ ss) = All (λ x. less s x ≡ true) ss × IsAscending less ss

module _ (less : Text → Text → Bool) (order : IsOrder less) where
  filter_above :
      (t : Text) (ss : List Text) → All (λ x. less t x ≡ true) ss → filter (less t) ss ≡ ss
  filter_above t [] h = refl
  filter_above t (s ∷ ss) h = rw (h.0, filter) (ap (◌∷◌ s) (filter_above t ss h.1))

  -- What comes behind a symbol in an ascending list is what is above it.
  filter_ascending :
      (before rest : List Text) (next : Text)
      → IsAscending less (before ++ next ∷ rest)
      → filter (less next) (before ++ next ∷ rest) ≡ rest
  filter_ascending [] rest next h = rw (order.irrefl next, filter) (filter_above next rest h.0)
  filter_ascending (b ∷ before) rest next h =
      let below : less b next ≡ true = in_middle (λ x. less b x ≡ true) before rest next h.0 in
      elim (Bool-cases (less next b)) [
        | inl above ↦
            let both = order.trans b next b below above in
            let never = order.irrefl b in ground (arith, both, never)
        | inr not_above ↦ rw (not_above, filter) (filter_ascending before rest next h.1)
      ]

  filter-filter :
      (a b : Text) (ss : List Text)
      → less a b ≡ true
      → filter (less b) (filter (less a) ss) ≡ filter (less b) ss
  filter-filter a b [] h = refl
  filter-filter a b (s ∷ ss) h = elim (Bool-cases (less a s)) [
    | inl hit ↦ elim (Bool-cases (less b s)) [
      | inl above ↦ rw (hit, above, filter) (ap (◌∷◌ s) (filter-filter a b ss h))
      | inr other ↦ rw (hit, other, filter) (filter-filter a b ss h)
    ]
    | inr miss ↦ elim (Bool-cases (less b s)) [
      | inl above ↦ let hit = order.trans a b s h above in ground (arith, hit, miss)
      | inr other ↦ rw (miss, other, filter) (filter-filter a b ss h)
    ]
  ]

  All-filter_above : (t : Text) (ss : List Text) → All (λ x. less t x ≡ true) (filter (less t) ss)
  All-filter_above t [] = tt
  All-filter_above t (s ∷ ss) = elim (Bool-cases (less t s)) [
    | inl hit ↦ rw (hit, filter) (hit, All-filter_above t ss)
    | inr miss ↦ rw (miss, filter) (All-filter_above t ss)
  ]

  All-filter_kept :
      (P : Text → Type 0) (t : Text) (ss : List Text) → All P ss → All P (filter (less t) ss)
  All-filter_kept P t [] h = tt
  All-filter_kept P t (s ∷ ss) h = elim (Bool-cases (less t s)) [
    | inl hit ↦ rw (hit, filter) (h.0, All-filter_kept P t ss h.1)
    | inr miss ↦ rw (miss, filter) (All-filter_kept P t ss h.1)
  ]

  filter-IsAscending :
      (t : Text) (ss : List Text) → IsAscending less ss → IsAscending less (filter (less t) ss)
  filter-IsAscending t [] h = tt
  filter-IsAscending t (s ∷ ss) h = elim (Bool-cases (less t s)) [
    | inl hit ↦
        rw (hit, filter)
          (All-filter_kept (λ x. less s x ≡ true) t ss h.0, filter-IsAscending t ss h.1)
    | inr miss ↦ rw (miss, filter) (filter-IsAscending t ss h.1)
  ]

  -- The symbols above a token, from the one behind a page on.
  pub behind_next :
      (token next : Text) (ss before rest : List Text)
      → IsAscending less ss
      → filter (less token) ss ≡ before ++ next ∷ rest
      → filter (less next) ss ≡ rest
  behind_next token next ss before rest up found =
      let below : less token next ≡ true =
        in_middle (λ x. less token x ≡ true) before rest next
          (subst (All (λ x. less token x ≡ true)) found (All-filter_above token ss)) in
      sym (filter-filter token next ss below)
      ∙ ap (filter (less next)) found
      ∙ filter_ascending before rest next
          (subst (IsAscending less) found (filter-IsAscending token ss up))
