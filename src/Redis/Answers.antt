-- ===== src/Redis/Answers.antt =====
-- The client of common/redis where the server answers every command.
use analytics_system.Prelude.{
  ℕ, ◌≡◌, refl, subst, Bool, true, false, [], List, Option, none, err, is_ok, inl, inr,
  Option-cases, Result-cases,
}
use analytics_system.Prelude.Text.{Text}
use analytics_system.Backoff.{RetryNotify, Counters, execute}
use analytics_system.Backoff.Settles.{Settles, CertainError, execute-Settles}
use analytics_system.Redis.{
  Rdb, Held, State, hold, notify_fail, get_op, set_op, del_op, get, set, del,
}

-- No command fails: the only error is that a key is missing.
pub record IsAnswering {E W : Type 0} (rdb : Rdb E W) : Type 0 where
  pub gets : (k : Text) (e : E) (w : W) → (rdb.get k w).0 ≡ err e → rdb.is_nil e ≡ true
  pub sets : (k v : Text) (ttl : ℕ) (w : W) → (rdb.set k v ttl w).0 ≡ none
  pub dels : (ks : List Text) (e : E) (w : W) → ¬ ((rdb.del ks w).0 ≡ err e)

module _ {E W : Type 0} {cancelled : E → Type 0} (rdb : Rdb E W) (answers : IsAnswering rdb)
    (lib : (S : Type 0) → RetryNotify E cancelled S) (timeout : ℕ) where
  get_op-Settles :
      (key : Text) (ctx : Option ℕ) (v : Held Text W)
      → Settles (λ e. rdb.is_nil e ≡ true) (get_op rdb key ctx v).0
  unfolding get_op
  get_op-Settles key ctx (val, m) = elim (Result-cases (rdb.get key m.server).0) [
    | inl (v, found) ↦ rw (found, Settles, get_op) tt
    | inr (e, missing) ↦
        let nil = answers.gets key e m.server missing in rw (missing, nil, Settles, get_op) nil
  ]

  set_op-Settles :
      (key value : Text) (ttl : ℕ) (ctx : Option ℕ) (v : Held Bool W)
      → Settles (λ e. ⊥) (set_op rdb key value ttl ctx v).0
  unfolding set_op
  set_op-Settles key value ttl ctx (val, m) = rw (answers.sets key value ttl m.server) tt

  del_op-Settles :
      (keys : List Text) (ctx : Option ℕ) (v : Held ℕ W)
      → Settles (λ e. ⊥) (del_op rdb keys ctx v).0
  unfolding del_op
  del_op-Settles keys ctx (val, m) = elim (Result-cases (rdb.del keys m.server).0) [
    | inl (n, done) ↦ rw (done, Settles, del_op) tt
    | inr (e, failed) ↦ absurd (answers.dels keys e m.server failed)
  ]

  -- `Get` and `Del` return a value and `Set` no error.
  pub get-is_ok : (key : Text) (s : State W) → is_ok (get rdb lib timeout key s).0 ≡ true
  unfolding get
  get-is_ok key s =
      let run =
        execute (lib (Counters (Held Text W))) timeout (get_op rdb key) notify_fail (hold [] s) in
      elim (Option-cases run.0) [
        | inl done ↦ rw (done, is_ok, get) refl
        | inr (x, failed) ↦
            let nil : rdb.is_nil x.error ≡ true =
              subst (CertainError (λ e. rdb.is_nil e ≡ true)) failed (
                execute-Settles (λ e. rdb.is_nil e ≡ true) timeout (get_op rdb key) notify_fail
                  (lib (Counters (Held Text W))) (hold [] s) (get_op-Settles key)) in
            rw (failed, nil, is_ok, get) refl
      ]

  pub set-none :
      (key value : Text) (ttl : ℕ) (s : State W) → (set rdb lib timeout key value ttl s).0 ≡ none
  unfolding set
  set-none key value ttl s =
      let run =
        execute (lib (Counters (Held Bool W))) timeout (set_op rdb key value ttl) notify_fail
          (hold false s) in
      elim (Option-cases run.0) [
        | inl done ↦ rw (done, set) refl
        | inr (x, failed) ↦ absurd (
            subst (CertainError (λ e. ⊥)) failed (
              execute-Settles (λ e. ⊥) timeout (set_op rdb key value ttl) notify_fail
                (lib (Counters (Held Bool W))) (hold false s) (set_op-Settles key value ttl)))
      ]

  pub del-is_ok : (keys : List Text) (s : State W) → is_ok (del rdb lib timeout keys s).0 ≡ true
  unfolding del
  del-is_ok keys s =
      let run =
        execute (lib (Counters (Held ℕ W))) timeout (del_op rdb keys) notify_fail (hold 0 s) in
      elim (Option-cases run.0) [
        | inl done ↦ rw (done, is_ok, del) refl
        | inr (x, failed) ↦ absurd (
            subst (CertainError (λ e. ⊥)) failed (
              execute-Settles (λ e. ⊥) timeout (del_op rdb keys) notify_fail
                (lib (Counters (Held ℕ W))) (hold 0 s) (del_op-Settles keys)))
      ]
