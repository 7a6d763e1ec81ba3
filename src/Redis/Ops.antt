-- ===== src/Redis/Ops.antt =====
-- The closures of common/redis that the retry loop calls, against the keys that the server holds.
use analytics_system.Prelude.{
  ℕ, ◌≡◌, ◌∙◌, Bool, true, false, [], ◌∷◌, Option, none, some, ok, err, inl, inr, Option-cases,
  Result-cases, Bool-cases, arith,
}
use analytics_system.Prelude.Text.{Text, text_eq}
use analytics_system.Backoff.{Fault}
use analytics_system.Backoff.Counts.{fault_error}
use analytics_system.Redis.{Rdb, Held, notify_fail, get_op, set_op, del_op}

-- What the documentation of the server says of GET, SET and DEL, where `holds w` is what each key
-- holds and no key expires: a failed SET or DEL may have been done or not.
pub record IsDatabase {E W : Type 0} (rdb : Rdb E W) (holds : W → Text → Option Text) : Type 0 where
  pub get_keeps : (k j : Text) (w : W) → holds (rdb.get k w).1 j ≡ holds w j
  pub get_ok : (k v : Text) (w : W) → (rdb.get k w).0 ≡ ok v → holds w k ≡ some v
  pub get_nil :
      (k : Text) (e : E) (w : W) → (rdb.get k w).0 ≡ err e → rdb.is_nil e ≡ true → holds w k ≡ none
  pub set_other :
      (k v : Text) (ttl : ℕ) (w : W) (j : Text)
      → text_eq k j ≡ false
      → holds (rdb.set k v ttl w).1 j ≡ holds w j
  pub set_ok :
      (k v : Text) (ttl : ℕ) (w : W)
      → (rdb.set k v ttl w).0 ≡ none
      → holds (rdb.set k v ttl w).1 k ≡ some v
  pub del_other :
      (k : Text) (w : W) (j : Text)
      → text_eq k j ≡ false
      → holds (rdb.del (k ∷ []) w).1 j ≡ holds w j
  pub del_ok :
      (k : Text) (n : ℕ) (w : W)
      → (rdb.del (k ∷ []) w).0 ≡ ok n
      → holds (rdb.del (k ∷ []) w).1 k ≡ none

-- What `Get` returns for what a key holds.
abbrev pub text_or_empty : Option Text → Text
text_or_empty none = []
text_or_empty (some v) = v

module _ {W : Type 0} (holds : W → Text → Option Text) where
  -- The server holds what it held at `w`, at every key but those that `skip` allows.
  abbrev pub Same : {V : Type 0} → W → Held V W → Type 0
  Same w (val, m) = (j : Text) → holds m.server j ≡ holds w j

  -- The same, at every key but one.
  abbrev pub SameBut : {V : Type 0} → Text → W → Held V W → Type 0
  SameBut key w (val, m) = (j : Text) → text_eq key j ≡ false → holds m.server j ≡ holds w j

  pub notify_fail-SameBut :
      {E V : Type 0} (key : Text) (w : W) (e : E) (delay tries : ℕ) (v : Held V W)
      → SameBut key w v
      → SameBut key w (notify_fail e delay tries v)
  unfolding notify_fail
  notify_fail-SameBut key w e delay tries (val, m) h = h

  pub notify_fail-Same :
      {E V : Type 0} (w : W) (e : E) (delay tries : ℕ) (v : Held V W)
      → Same w v
      → Same w (notify_fail e delay tries v)
  unfolding notify_fail
  notify_fail-Same w e delay tries (val, m) h = h

module _ {E W : Type 0} (rdb : Rdb E W) (holds : W → Text → Option Text)
    (database : IsDatabase rdb holds) where
  pub get_op-Same :
      (w : W) (key : Text) (ctx : Option ℕ) (v : Held Text W)
      → Same holds w v
      → Same holds w (get_op rdb key ctx v).1
  unfolding get_op
  get_op-Same w key ctx (val, m) h j = elim (Result-cases (rdb.get key m.server).0) [
    | inl (v, e) ↦ ground (arith, database.get_keeps key j m.server, h j)
    | inr (x, e) ↦ ground (arith, database.get_keeps key j m.server, h j)
  ]

  pub get_op-ok :
      (w : W) (key : Text) (ctx : Option ℕ) (v v' : Held Text W)
      → Same holds w v
      → get_op rdb key ctx v ≡ (none, v')
      → holds w key ≡ some v'.0
  unfolding get_op
  get_op-ok w key ctx (val, m) v' h e = elim (Result-cases (rdb.get key m.server).0) [
    | inl (v, f) ↦ ground (arith, database.get_ok key v m.server f, h key)
    | inr (x, f) ↦ ground arith
  ]

  pub get_op-nil :
      (w : W) (key : Text) (ctx : Option ℕ) (v : Held Text W) (f : Fault E)
      → Same holds w v
      → (get_op rdb key ctx v).0 ≡ some f
      → rdb.is_nil (fault_error f) ≡ true
      → holds w key ≡ none
  unfolding get_op
  get_op-nil w key ctx (val, m) f h e nil = elim (Result-cases (rdb.get key m.server).0) [
    | inl (v, g) ↦ ground arith
    | inr (x, g) ↦ elim (Bool-cases (rdb.is_nil x)) [
      | inl missing ↦ ground (arith, database.get_nil key x m.server g missing, h key)
      | inr other ↦ ground arith
    ]
  ]

  pub set_op-SameBut :
      (w : W) (key value : Text) (ttl : ℕ) (ctx : Option ℕ) (v : Held Bool W)
      → SameBut holds key w v
      → SameBut holds key w (set_op rdb key value ttl ctx v).1
  unfolding set_op
  set_op-SameBut w key value ttl ctx (val, m) h j other =
      database.set_other key value ttl m.server j other ∙ h j other

  pub set_op-ok :
      (key value : Text) (ttl : ℕ) (ctx : Option ℕ) (v v' : Held Bool W)
      → set_op rdb key value ttl ctx v ≡ (none, v')
      → holds v'.1.server key ≡ some value
  unfolding set_op
  set_op-ok key value ttl ctx (val, m) v' e =
      elim (Option-cases (rdb.set key value ttl m.server).0) [
        | inl done ↦ ground (arith, database.set_ok key value ttl m.server done)
        | inr (x, failed) ↦ ground arith
      ]

  pub del_op-SameBut :
      (w : W) (key : Text) (ctx : Option ℕ) (v : Held ℕ W)
      → SameBut holds key w v
      → SameBut holds key w (del_op rdb (key ∷ []) ctx v).1
  unfolding del_op
  del_op-SameBut w key ctx (val, m) h j other =
      elim (Result-cases (rdb.del (key ∷ []) m.server).0) [
        | inl (n, e) ↦ ground (arith, database.del_other key m.server j other, h j other)
        | inr (x, e) ↦ ground (arith, database.del_other key m.server j other, h j other)
      ]

  pub del_op-ok :
      (key : Text) (ctx : Option ℕ) (v v' : Held ℕ W)
      → del_op rdb (key ∷ []) ctx v ≡ (none, v')
      → holds v'.1.server key ≡ none
  unfolding del_op
  del_op-ok key ctx (val, m) v' e = elim (Result-cases (rdb.del (key ∷ []) m.server).0) [
    | inl (n, f) ↦ ground (arith, database.del_ok key n m.server f)
    | inr (x, f) ↦ ground arith
  ]
