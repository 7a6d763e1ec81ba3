-- ===== src/Auth/Role/Normal.antt =====
-- What `NormalizeRoles` returns.
use analytics_system.Prelude.{
  ◌≡◌, refl, ◌≢◌, true, false, not, ◌||◌, ◌&&◌, List, [], ◌∷◌, ◌++◌, ok, any, all, All, All-append,
  subst, is_ok, is_nil, ok-injective, Result-cases, sym, ◌∙◌, arith, if◌then◌else◌, Bool-cases, inl,
  inr,
}
use analytics_system.Prelude.Text.{
  Text, text_eq, text_eq_iff, text_eq_refl, to_lower, trim_space, to_lower-to_lower,
}
use analytics_system.Auth.Role.{
  is_valid_role, valid_roles, mem_text, normalize_loop, normalize_roles,
}

abbrev pub IsNodup : List Text → Type 0
IsNodup [] = Unit {0}
IsNodup (x ∷ xs) = (mem_text x xs ≡ false) × IsNodup xs

-- A role in the form in which it is stored.
abbrev pub normal_form : Text → Text
normal_form r = to_lower (trim_space r)

mem_text-append :
    (x : Text) (xs ys : List Text) → mem_text x (xs ++ ys) ≡ (mem_text x xs || mem_text x ys)
mem_text-append x [] ys = refl
mem_text-append x (y ∷ xs) ys = ground (arith, mem_text-append x xs ys)

IsNodup-snoc :
    (xs : List Text) (r : Text) → IsNodup xs → mem_text r xs ≡ false → IsNodup (xs ++ r ∷ [])
IsNodup-snoc [] r h m = (refl, tt)
IsNodup-snoc (x ∷ xs) r h m =
    ground (
      arith,
      IsNodup-snoc xs r h.1,
      mem_text-append x xs (r ∷ []),
      text_eq_iff x r,
      text_eq_iff r x,
    )

normal_form-mem : (r : Text) → is_valid_role (normal_form r) ≡ mem_text (normal_form r) valid_roles
unfolding is_valid_role
normal_form-mem r = rw (to_lower-to_lower (trim_space r)) refl

record IsNormal (rs : List Text) : Type 0 where
  nodup : IsNodup rs
  valid : All (λ r. mem_text r valid_roles ≡ true) rs

add-IsNormal :
    (acc : List Text) (r : Text)
    → IsNormal acc
    → mem_text r valid_roles ≡ true
    → IsNormal (if mem_text r acc then acc else acc ++ r ∷ [])
add-IsNormal acc r h v = elim (Bool-cases (mem_text r acc)) [
  | inl old ↦ rw old h
  | inr new ↦ rw new (record {
    nodup = IsNodup-snoc acc r h.nodup new;
    valid = All-append (λ r. mem_text r valid_roles ≡ true) acc (r ∷ []) h.valid (v, tt);
  })
]

mem_text-add :
    (acc : List Text) (r x : Text)
    → mem_text x (if mem_text r acc then acc else acc ++ r ∷ []) ≡ (mem_text x acc || text_eq x r)
mem_text-add acc r x = elim (Bool-cases (text_eq x r)) [
  | inl same ↦
      subst
        (λ (y : Text).
          mem_text y (if mem_text r acc then acc else acc ++ r ∷ [])
          ≡ (mem_text y acc || text_eq y r))
        (sym ((text_eq_iff x r).0 same))
        (ground (arith, mem_text-append r acc (r ∷ []), text_eq_refl r))
  | inr other ↦ ground (arith, mem_text-append x acc (r ∷ []))
]

normalize_loop-IsNormal :
    (raw acc rs : List Text)
    → normalize_loop raw acc ≡ ok rs
    → IsNormal acc
    → IsNormal rs
      × ((x : Text) → mem_text x rs ≡ (mem_text x acc || any (λ r. text_eq x (normal_form r)) raw))
unfolding normalize_loop
normalize_loop-IsNormal [] acc rs e h =
    (subst IsNormal (ok-injective e) h, λ x. ground (arith, ok-injective e))
normalize_loop-IsNormal (r ∷ raw) acc rs e h = elim (Bool-cases (is_valid_role (normal_form r))) [
  | inl good ↦
      let role = normal_form r in
      let (normal, members) =
        normalize_loop-IsNormal raw (if mem_text role acc then acc else acc ++ role ∷ []) rs
          (rw (good, normalize_loop) at e)
          (add-IsNormal acc role h (sym (normal_form-mem r) ∙ good)) in
      (normal, λ x. ground (arith, members x, mem_text-add acc role x))
  | inr bad ↦ absurd (ground arith)
]

normalize_roles-loop :
    (raw rs : List Text) → normalize_roles raw ≡ ok rs → (normalize_loop raw [] ≡ ok rs) × (rs ≢ [])
unfolding normalize_roles
normalize_roles-loop raw rs e = ground arith

-- Roles that are accepted are lower case names of `ValidRoles`, there is at least one, none stands
-- twice, and they are exactly the normal forms of the given ones.
pub normalize_roles-ok :
    (raw rs : List Text)
    → normalize_roles raw ≡ ok rs
    → (rs ≢ [])
      × IsNodup rs
      × All (λ r. mem_text r valid_roles ≡ true) rs
      × ((x : Text) → mem_text x rs ≡ any (λ r. text_eq x (normal_form r)) raw)
normalize_roles-ok raw rs e =
    let (looped, some_role) = normalize_roles-loop raw rs e in
    let (normal, members) =
      normalize_loop-IsNormal raw [] rs looped (record { nodup = tt; valid = tt }) in
    (some_role, normal.nodup, normal.valid, members)

normalize_loop-is_ok :
    (raw acc : List Text)
    → is_ok (normalize_loop raw acc) ≡ all (λ r. is_valid_role (normal_form r)) raw
unfolding normalize_loop
normalize_loop-is_ok [] acc = refl
normalize_loop-is_ok (r ∷ raw) acc =
    let role = normal_form r in
    ground (arith, normalize_loop-is_ok raw (if mem_text role acc then acc else acc ++ role ∷ []))

loop_keeps_some :
    (r : Text) (raw rs : List Text) → normalize_loop (r ∷ raw) [] ≡ ok rs → is_nil rs ≡ false
loop_keeps_some r raw [] e =
    let members =
      (normalize_loop-IsNormal (r ∷ raw) [] [] e (record { nodup = tt; valid = tt })).1 in
    absurd (ground (arith, members (normal_form r), text_eq_refl (normal_form r)))
loop_keeps_some r raw (x ∷ rs) e = refl

-- The call succeeds exactly if there is a role and each is valid in its normal form.
pub normalize_roles-is_ok :
    (raw : List Text)
    → is_ok (normalize_roles raw)
      ≡ (not (is_nil raw) && all (λ r. is_valid_role (normal_form r)) raw)
unfolding normalize_roles
normalize_roles-is_ok [] = unfold normalize_loop in refl
normalize_roles-is_ok (r ∷ raw) = elim (Result-cases (normalize_loop (r ∷ raw) [])) [
  | inl (rs, e) ↦ ground (arith, normalize_loop-is_ok (r ∷ raw) [], loop_keeps_some r raw rs e)
  | inr (x, e) ↦ ground (arith, normalize_loop-is_ok (r ∷ raw) [])
]
