-- ===== src/Delegation/Expiry.antt =====
-- Expired grants: what `expire_delegations` does to the table, and what an expired grant that it did
-- not meet does to `create_delegation_grant` and `revoke_delegation_grant`.
use mathlib.Core.List.{map-id, map-map}
use quinn_ai.Prelude.{
  ℕ, true, false, List, [], ◌∷◌, some, map, filter, All, All-In, All-map, All-mapped, All-get,
  In-filter, ◌≡◌, refl, sym, ap, subst, inl, inr, arith, Bool-cases, Option-cases, ◌==◌, string_eq,
  eq_refl, if◌then◌else◌, ◌∙◌,
}
use quinn_ai.Delegation.Grants.{
  DelegationGrant, Database, is_active, is_unrevoked, is_past, is_due, set_revoked, expire_one,
  expire_each, expire_delegations,
}

abbrev expired_row : ℕ → DelegationGrant → DelegationGrant
expired_row now g = record g {
  revoked_at = some now;
  revoked_by = some "system";
  revoke_reason = some "expired";
}

-- a row, once the rows of a list were expired
expired : ℕ → List DelegationGrant → DelegationGrant → DelegationGrant
expired now [] g = g
expired now (r ∷ rs) g = expired now rs (if g.id == r.id then expired_row now g else g)

expired-hit :
    (now : ℕ) (r : DelegationGrant) (rs : List DelegationGrant) (g : DelegationGrant)
    → (g.id == r.id) ≡ true
    → expired now (r ∷ rs) g ≡ expired now rs (expired_row now g)
unfolding expired
expired-hit now r rs g h = rw h refl

expired-miss :
    (now : ℕ) (r : DelegationGrant) (rs : List DelegationGrant) (g : DelegationGrant)
    → (g.id == r.id) ≡ false
    → expired now (r ∷ rs) g ≡ expired now rs g
unfolding expired
expired-miss now r rs g h = rw h refl

expire_each-grants :
    (now : ℕ) (rs : List DelegationGrant) (db : Database)
    → (expire_each now rs db).grants ≡ map (expired now rs) db.grants
unfolding expire_each expire_one set_revoked expired
expire_each-grants now [] db = sym (map-id db.grants)
expire_each-grants now (r ∷ rs) db =
    expire_each-grants now rs (expire_one now r db) ∙ map-map (expired now rs) _ db.grants

expired-revoked :
    (now : ℕ) (rs : List DelegationGrant) (g : DelegationGrant)
    → is_unrevoked g ≡ false
    → is_unrevoked (expired now rs g) ≡ false
unfolding is_unrevoked
expired-revoked now [] g h = unfold expired in h
expired-revoked now (r ∷ rs) g h = elim (Bool-cases (g.id == r.id)) [
  | inl same ↦
      ap is_unrevoked (expired-hit now r rs g same)
      ∙ expired-revoked now rs (expired_row now g) refl
  | inr other ↦ ap is_unrevoked (expired-miss now r rs g other) ∙ expired-revoked now rs g h
]

-- A row that is still unrevoked is none of the list.
expired-unrevoked :
    (now : ℕ) (rs : List DelegationGrant) (g : DelegationGrant)
    → is_unrevoked (expired now rs g) ≡ true
    → (expired now rs g ≡ g) × All (λ r. (g.id == r.id) ≡ false) rs
expired-unrevoked now [] g h = (unfold expired in refl, tt)
expired-unrevoked now (r ∷ rs) g h = elim (Bool-cases (g.id == r.id)) [
  | inl same ↦
      let off =
        ap is_unrevoked (expired-hit now r rs g same)
        ∙ expired-revoked now rs (expired_row now g) (unfold is_unrevoked in refl) in
      ground (arith, off, h)
  | inr other ↦
      let skip = expired-miss now r rs g other in
      let (same, rest) = expired-unrevoked now rs g (sym (ap is_unrevoked skip) ∙ h) in
      (skip ∙ same, (other, rest))
]

undue-active :
    (now : ℕ) (g : DelegationGrant)
    → is_unrevoked g ≡ true
    → is_due now g ≡ false
    → is_active now g ≡ true
unfolding is_active is_due is_past is_unrevoked
undue-active now g u h = elim (Option-cases g.expires_at) [
  | inl never ↦ ground (arith, u, never)
  | inr (t, at) ↦ ground (arith, u, at, h)
]

-- After `expire_delegations`, every grant that is not revoked is active.
pub expire_delegations-active :
    (now : ℕ) (db : Database)
    → All (λ g. is_unrevoked g ≡ true → is_active now g ≡ true) (expire_delegations now db).1.grants
unfolding expire_delegations
expire_delegations-active now db =
    let rows = filter (is_due now) db.grants in
    subst (All (λ g. is_unrevoked g ≡ true → is_active now g ≡ true))
      (sym (expire_each-grants now rows db))
      (All-mapped (λ g. is_unrevoked g ≡ true → is_active now g ≡ true) (expired now rows) db.grants
        (All-map db.grants
          (λ g i u.
            let (same, others) = expired-unrevoked now rows g u in
            let u' = sym (ap is_unrevoked same) ∙ u in
            ap (is_active now) same
            ∙ undue-active now g u' (elim (Bool-cases (is_due now g)) [
              | inr undue ↦ undue
              | inl due ↦
                  let missed =
                    All-get (λ r. (g.id == r.id) ≡ false) rows others
                      (In-filter (is_due now) db.grants i due) in
                  ground (arith, eq_refl g.id, missed)
            ]))
          (All-In db.grants)))
