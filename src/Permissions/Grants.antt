-- ===== src/Permissions/Grants.antt =====
-- What a call of grant_permission of cli/core/queries/permission.py does to the levels that
-- cli/core/permissions/access_control.py finds.
use quinn_ai.Prelude.{
  ℕ, ◌≤◌, String, Bool, true, false, not, Option, none, some, List, [], ◌∷◌, ◌++◌, filter, ◌==◌,
  string_eq, All, Bool-cases, ◌≡◌, refl, ap, sym, subst, ◌∙◌, inl, inr, arith, eq_refl,
}
use quinn_ai.Permissions.Tables.{
  WorkerEntry, Permission, AccessTables, select_one, sql_equal, is_grant_for,
  get_permission_for_grantee, insert_or_replace, accepts_permission, conflicts, grant_permission,
}
use quinn_ai.Permissions.Access.{
  level_of, maximum, check_direct_grant_permission, check_global_permission, check_bead_permission,
}

module _ {ℓ} {A : Type ℓ} (p : A → Bool) where
  select_one-append :
      (xs ys : List A) {x : A} → select_one p xs ≡ some x → select_one p (xs ++ ys) ≡ some x
  unfolding select_one
  select_one-append [] ys found = ground (arith, found)
  select_one-append (a ∷ xs) ys {x} found = elim (Bool-cases (p a)) [
    | inl e ↦ rw e (ground (arith, found, e))
    | inr e ↦ rw e (select_one-append xs ys (ground (arith, found, e)))
  ]

  -- the one that is put behind the rows without it
  select_one-replaced :
      (q : A → Bool) (xs : List A) (new : A)
      → ((x : A) → p x ≡ true → q x ≡ false)
      → p new ≡ true
      → select_one p (filter q xs ++ new ∷ []) ≡ some new
  unfolding select_one
  select_one-replaced q [] new apart at = rw at refl
  select_one-replaced q (x ∷ xs) new apart at = elim (Bool-cases (q x)) [
    | inr e ↦ rw e (select_one-replaced q xs new apart at)
    | inl e ↦ elim (Bool-cases (p x)) [
      | inl f ↦ ground (arith, e, apart x f)
      | inr f ↦ rw (e, f) (select_one-replaced q xs new apart at)
    ]
  ]

  filter-All : (xs : List A) → All (λ x. p x ≡ true) xs → filter p xs ≡ xs
  filter-All [] all = refl
  filter-All (x ∷ xs) (e, all) = rw e (ap (λ ys. x ∷ ys) (filter-All xs all))

second-maximum : (x y : ℕ) (xs : List ℕ) → y ≤ maximum (x ∷ y ∷ xs)
unfolding maximum
second-maximum x y xs = ground arith

direct-check_bead_permission :
    (t : AccessTables) (worker_id bead_id : String) (worker : WorkerEntry)
    → select_one (λ w. w.id == worker_id) t.workers ≡ some worker
    → check_direct_grant_permission t worker_id bead_id ≤ check_bead_permission t worker_id bead_id
unfolding check_bead_permission
direct-check_bead_permission t worker_id bead_id worker known =
    rw (check_bead_permission, known) (search second-maximum)

sql_equal_null : (o : Option String) → sql_equal o none ≡ false
sql_equal_null none = refl
sql_equal_null (some _) = refl

null-conflicts :
    (new p : Permission)
    → new.bead_id ≡ none
    → (p.id == new.id) ≡ false
    → not (conflicts new p) ≡ true
null-conflicts new p null e = rw (e, null, sql_equal_null p.bead_id) refl

null-All :
    (new : Permission) (ps : List Permission)
    → new.bead_id ≡ none
    → All (λ p. (p.id == new.id) ≡ false) ps
    → All (λ p. not (conflicts new p) ≡ true) ps
null-All new [] null fresh = tt
null-All new (p ∷ ps) null (e, fresh) = (null-conflicts new p null e, null-All new ps null fresh)

-- the rows after a grant that is accepted
granted-tables :
    (new : Permission) (t t' : AccessTables)
    → grant_permission new t ≡ some t'
    → t' ≡ insert_or_replace new t
unfolding grant_permission
granted-tables new t t' granted = elim (Bool-cases (accepts_permission new)) [
  | inl e ↦ ground (arith, granted, e)
  | inr e ↦ ground (arith, granted, e)
]

-- A global grant to a worker who has one already, under an id that no row has, is accepted beside
-- the old row and never found: the level of the worker's global permission stays the old one,
-- whatever level the new grant gives.
pub check_global_permission-grant_permission :
    (new old : Permission) (t t' : AccessTables) (worker_id : String)
    → new.bead_id ≡ none
    → All (λ p. (p.id == new.id) ≡ false) t.permissions
    → grant_permission new t ≡ some t'
    → get_permission_for_grantee t none "worker" worker_id ≡ some old
    → (check_global_permission t' worker_id ≡ old.level)
      × (check_global_permission t worker_id ≡ old.level)
unfolding check_global_permission get_permission_for_grantee insert_or_replace
check_global_permission-grant_permission new old t t' worker_id null fresh granted found =
    let kept =
      filter-All (λ p. not (conflicts new p)) t.permissions
        (null-All new t.permissions null fresh) in
    let test : Permission → Bool = is_grant_for none "worker" worker_id in
    (
      subst (λ u. check_global_permission u worker_id ≡ old.level)
          (sym (granted-tables new t t' granted))
          (rw (kept, select_one-append test t.permissions (new ∷ []) found) refl),
      rw found refl,
    )

grant-conflicts :
    (new p : Permission) (bead_id : String)
    → new.bead_id ≡ some bead_id
    → is_grant_for (some bead_id) new.grantee_type new.grantee_id p ≡ true
    → not (conflicts new p) ≡ false
grant-conflicts new p bead_id at same = elim (Bool-cases (p.id == new.id)) [
  | inl e ↦ rw (e) refl
  | inr e ↦ rw (e, at) (ap not same)
]

grant-itself :
    (new : Permission) (bead_id : String)
    → new.bead_id ≡ some bead_id
    → is_grant_for (some bead_id) new.grantee_type new.grantee_id new ≡ true
grant-itself new bead_id at =
    rw (at, eq_refl bead_id, eq_refl new.grantee_type, eq_refl new.grantee_id) refl

-- Right after an accepted grant on a bead it is what is found for its grantee on that bead, whatever
-- was granted before, and a worker who is the grantee has at least its level there.
pub check_bead_permission-grant_permission :
    (new : Permission) (t t' : AccessTables) (bead_id : String) (worker : WorkerEntry)
    → new.bead_id ≡ some bead_id
    → grant_permission new t ≡ some t'
    → (get_permission_for_grantee t' (some bead_id) new.grantee_type new.grantee_id ≡ some new)
      × (new.grantee_type ≡ "worker"
          → select_one (λ w. w.id == new.grantee_id) t.workers ≡ some worker
          → new.level ≤ check_bead_permission t' new.grantee_id bead_id)
unfolding get_permission_for_grantee insert_or_replace check_bead_permission
    check_direct_grant_permission maximum
check_bead_permission-grant_permission new t t' bead_id worker at granted =
    let after = granted-tables new t t' granted in
    let found : get_permission_for_grantee t' (some bead_id) new.grantee_type new.grantee_id
        ≡ some new =
      subst
        (λ u.
          get_permission_for_grantee u (some bead_id) new.grantee_type new.grantee_id ≡ some new)
        (sym after)
        (select_one-replaced (is_grant_for (some bead_id) new.grantee_type new.grantee_id)
          (λ p. not (conflicts new p)) t.permissions new
          (λ p same. grant-conflicts new p bead_id at same) (grant-itself new bead_id at)) in
    let same : t'.workers ≡ t.workers = ap (λ u. u.workers) after in
    (
      found,
      λ kind known.
          subst (λ n. n ≤ check_bead_permission t' new.grantee_id bead_id)
            (ap level_of (
              subst (λ k. get_permission_for_grantee t' (some bead_id) k new.grantee_id ≡ some new)
                kind found))
            (direct-check_bead_permission t' new.grantee_id bead_id worker
              (ap (λ ws. select_one (λ w. w.id == new.grantee_id) ws) same ∙ known)),
    )
