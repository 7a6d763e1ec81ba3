-- ===== src/Redis/Laws.antt =====
-- The client of common/redis against the keys that the server holds.
use analytics_system.Prelude.{
  ℕ, ◌≡◌, refl, sym, Bool, true, false, [], ◌∷◌, Option, none, some, ok, inl, inr, ◌⊎◌,
  Option-cases, is_some, Bool-cases, arith,
}
use analytics_system.Prelude.Text.{Text, text_eq}
use analytics_system.Backoff.{RetryNotify, Counters, ErrMaxRetries, execute}
use analytics_system.Backoff.Counts.{execute_keeps, execute_reports}
use analytics_system.Redis.{
  Rdb, Held, State, hold, notify_fail, get_op, set_op, del_op, get, set, del,
}
use analytics_system.Redis.Ops.{
  IsDatabase, text_or_empty, Same, SameBut, notify_fail-Same, notify_fail-SameBut, get_op-Same,
  get_op-ok, get_op-nil, set_op-SameBut, set_op-ok, del_op-SameBut, del_op-ok,
}

module _ {E W : Type 0} {cancelled : E → Type 0} (rdb : Rdb E W) (holds : W → Text → Option Text)
    (database : IsDatabase rdb holds) (lib : (S : Type 0) → RetryNotify E cancelled S)
    (per_attempt_timeout : ℕ) where
  abbrev got : Text → State W → Option (ErrMaxRetries E) × Counters (Held Text W)
  got key s =
      execute (lib (Counters (Held Text W))) per_attempt_timeout (get_op rdb key) notify_fail
        (hold [] s)

  got_keeps :
      (key : Text) (s : State W)
      → Same holds s.world.server (got key s).1.world
        × ((is_some (got key s).0 ≡ true)
            ⊎ ((ctx : Option ℕ) × (v : Held Text W) × Same holds s.world.server v
                × (get_op rdb key ctx v ≡ (none, (got key s).1.world))))
  got_keeps key s =
      execute_keeps per_attempt_timeout (get_op rdb key) notify_fail (Same holds s.world.server)
        (get_op-Same rdb holds database s.world.server key) (notify_fail-Same holds s.world.server)
        (lib (Counters (Held Text W))) (hold [] s) (λ i. refl)

  -- `Get` changes no key.
  pub get_keeps :
      (key : Text) (s : State W) (j : Text)
      → holds (get rdb lib per_attempt_timeout key s).1.world.server j ≡ holds s.world.server j
  unfolding get
  get_keeps key s j =
      let kept : holds (got key s).1.world.1.server j ≡ holds s.world.server j =
        (got_keeps key s).0 j in
      ground (arith, kept)

  got_value :
      (key : Text) (s : State W)
      → (got key s).0 ≡ none
      → holds s.world.server key ≡ some (got key s).1.world.0
  got_value key s e = elim (got_keeps key s).1 [
    | inl failed ↦ ground (arith, failed, e)
    | inr (ctx, v, same, path) ↦
        get_op-ok rdb holds database s.world.server key ctx v (got key s).1.world same path
  ]

  got_nothing :
      (key : Text) (s : State W) (x : ErrMaxRetries E)
      → ((e : E) → cancelled e → rdb.is_nil e ≡ false)
      → (got key s).0 ≡ some x
      → rdb.is_nil x.error ≡ true
      → holds s.world.server key ≡ none
  got_nothing key s x not_nil e nil =
      let reported =
        execute_reports per_attempt_timeout (get_op rdb key) notify_fail (Same holds s.world.server)
          (get_op-Same rdb holds database s.world.server key)
          (notify_fail-Same holds s.world.server) (lib (Counters (Held Text W))) (hold [] s) x
          (λ i. refl) e in
      elim reported [
        | inl c ↦ ground (arith, not_nil x.error c, nil)
        | inr (ctx, v, f, same, failed, which) ↦
            get_op-nil rdb holds database s.world.server key ctx v f same failed
              (rw (sym which) nil)
      ]

  -- A text that `Get` returns is what the key holds, or empty if it holds nothing.
  pub get-ok :
      (key : Text) (s : State W) (v : Text)
      → ((e : E) → cancelled e → rdb.is_nil e ≡ false)
      → (get rdb lib per_attempt_timeout key s).0 ≡ ok v
      → v ≡ text_or_empty (holds s.world.server key)
  unfolding get
  get-ok key s v not_nil e = elim (Option-cases (got key s).0) [
    | inl done ↦ let held = got_value key s done in ground (arith, held, done)
    | inr (x, failed) ↦ elim (Bool-cases (rdb.is_nil x.error)) [
      | inl missing ↦
          let held = got_nothing key s x not_nil failed missing in
          ground (arith, held, failed, missing)
      | inr other ↦ ground (arith, failed, other)
    ]
  ]

  abbrev put : Text → Text → ℕ → State W → Option (ErrMaxRetries E) × Counters (Held Bool W)
  put key value ttl s =
      execute (lib (Counters (Held Bool W))) per_attempt_timeout (set_op rdb key value ttl)
        notify_fail (hold false s)

  put_keeps :
      (key value : Text) (ttl : ℕ) (s : State W)
      → SameBut holds key s.world.server (put key value ttl s).1.world
        × ((is_some (put key value ttl s).0 ≡ true)
            ⊎ ((ctx : Option ℕ) × (v : Held Bool W) × SameBut holds key s.world.server v
                × (set_op rdb key value ttl ctx v ≡ (none, (put key value ttl s).1.world))))
  put_keeps key value ttl s =
      execute_keeps per_attempt_timeout (set_op rdb key value ttl) notify_fail
        (SameBut holds key s.world.server)
        (set_op-SameBut rdb holds database s.world.server key value ttl)
        (notify_fail-SameBut holds key s.world.server) (lib (Counters (Held Bool W))) (hold false s)
        (λ i other. refl)

  -- `Set` changes no other key, whether it fails or not.
  pub set_other :
      (key value : Text) (ttl : ℕ) (s : State W) (j : Text)
      → text_eq key j ≡ false
      → holds (set rdb lib per_attempt_timeout key value ttl s).1.world.server j
        ≡ holds s.world.server j
  unfolding set
  set_other key value ttl s j other =
      let kept : holds (put key value ttl s).1.world.1.server j ≡ holds s.world.server j =
        (put_keeps key value ttl s).0 j other in
      ground (arith, kept)

  -- Without an error of `Set`, the key holds the value.
  pub set-ok :
      (key value : Text) (ttl : ℕ) (s : State W)
      → (set rdb lib per_attempt_timeout key value ttl s).0 ≡ none
      → holds (set rdb lib per_attempt_timeout key value ttl s).1.world.server key ≡ some value
  unfolding set
  set-ok key value ttl s e = elim (put_keeps key value ttl s).1 [
    | inl failed ↦ ground (arith, failed, e)
    | inr (ctx, v, same, path) ↦
        let held =
          set_op-ok rdb holds database key value ttl ctx v (put key value ttl s).1.world path in
        ground (arith, held, e)
  ]

  abbrev deleted : Text → State W → Option (ErrMaxRetries E) × Counters (Held ℕ W)
  deleted key s =
      execute (lib (Counters (Held ℕ W))) per_attempt_timeout (del_op rdb (key ∷ [])) notify_fail
        (hold 0 s)

  deleted_keeps :
      (key : Text) (s : State W)
      → SameBut holds key s.world.server (deleted key s).1.world
        × ((is_some (deleted key s).0 ≡ true)
            ⊎ ((ctx : Option ℕ) × (v : Held ℕ W) × SameBut holds key s.world.server v
                × (del_op rdb (key ∷ []) ctx v ≡ (none, (deleted key s).1.world))))
  deleted_keeps key s =
      execute_keeps per_attempt_timeout (del_op rdb (key ∷ [])) notify_fail
        (SameBut holds key s.world.server) (del_op-SameBut rdb holds database s.world.server key)
        (notify_fail-SameBut holds key s.world.server) (lib (Counters (Held ℕ W))) (hold 0 s)
        (λ i other. refl)

  -- `Del` of one key changes no other key, whether it fails or not.
  pub del_other :
      (key : Text) (s : State W) (j : Text)
      → text_eq key j ≡ false
      → holds (del rdb lib per_attempt_timeout (key ∷ []) s).1.world.server j
        ≡ holds s.world.server j
  unfolding del
  del_other key s j other =
      let kept : holds (deleted key s).1.world.1.server j ≡ holds s.world.server j =
        (deleted_keeps key s).0 j other in
      ground (arith, kept)

  -- Without an error of `Del`, the key holds nothing.
  pub del-ok :
      (key : Text) (n : ℕ) (s : State W)
      → (del rdb lib per_attempt_timeout (key ∷ []) s).0 ≡ ok n
      → holds (del rdb lib per_attempt_timeout (key ∷ []) s).1.world.server key ≡ none
  unfolding del
  del-ok key n s e = elim (deleted_keeps key s).1 [
    | inl failed ↦ ground (arith, failed, e)
    | inr (ctx, v, same, path) ↦
        let held = del_op-ok rdb holds database key ctx v (deleted key s).1.world path in
        ground (arith, held, e)
  ]
