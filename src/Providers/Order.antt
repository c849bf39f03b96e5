-- ===== src/Providers/Order.antt =====
-- The order in which cli/providers/registry/selection.py tries the providers.
use quinn_ai.Prelude.{
  String, Bool, true, false, ◌&&◌, ◌||◌, List, [], ◌∷◌, ◌++◌, Option, none, some, Dict, lookup,
  insert, remove, lookup-insert, lookup-remove, map, elem, elem-append, IsDistinct, ◌==◌, string_eq,
  if◌then◌else◌, ◌≡◌, refl, sym, subst, ◌∙◌, inl, inr, arith, Bool-cases, Option-cases, eq_iff,
  eq_refl,
}
use quinn_ai.Providers.Models.{Provider}
use quinn_ai.Providers.Registry.{
  ProviderRegistry, has, list_providers, register, unregister, set_default,
  set_authorized_providers,
}
use quinn_ai.Providers.Selection.{
  is_in_org, add_preferred, add_default, add_remaining, build_provider_order,
}

-- The default provider is a registered one, if there is one.
abbrev pub is_key_of : Dict Provider → Option String → Bool
is_key_of providers none = true
is_key_of providers (some d) = elim (lookup d providers) [ none ↦ false | some _ ↦ true ]

abbrev pub HasDefault : ProviderRegistry → Type 0
HasDefault r = is_key_of r.providers r.default_provider ≡ true

IsDistinct-append :
    (xs : List String) (b : String) → elem b xs ≡ false → IsDistinct xs → IsDistinct (xs ++ b ∷ [])
IsDistinct-append [] b new d = (refl, tt)
IsDistinct-append (x ∷ xs) b new d = (
  elem-append x b xs ∙ ground (arith, new, d.0, eq_iff x b, eq_iff b x),
  IsDistinct-append xs b (ground (arith, new)) d.1,
)

-- a name joins the order unless it stands there or is not authorized
abbrev joined : String → Option (List String) → List String → List String
joined name authorized names =
    if elem name names
    then names
    else if is_in_org name authorized
    then names ++ name ∷ []
    else names

joined-IsDistinct :
    (name : String) (authorized : Option (List String)) (names : List String)
    → IsDistinct names
    → IsDistinct (joined name authorized names)
joined-IsDistinct name authorized names d = elim (Bool-cases (elem name names)) [
  | inl old ↦ rw old d
  | inr new ↦ elim (Bool-cases (is_in_org name authorized)) [
    | inl ours ↦ rw (new, ours) (IsDistinct-append names name new d)
    | inr foreign ↦ rw (new, foreign) d
  ]
]

elem-joined :
    (x name : String) (authorized : Option (List String)) (names : List String)
    → elem x (joined name authorized names)
      ≡ (elem x names || (name == x && is_in_org x authorized))
elem-joined x name authorized names = elim (Bool-cases (name == x)) [
  | inl same ↦
      subst
        (λ n.
          elem x (joined n authorized names) ≡ (elem x names || (n == x && is_in_org x authorized)))
        (sym ((eq_iff name x).0 same)) (own x authorized names)
  | inr other ↦ elim (Bool-cases (elem name names)) [
    | inl old ↦ rw (old, other) (ground arith)
    | inr new ↦ elim (Bool-cases (is_in_org name authorized)) [
      | inl ours ↦
          rw (new, ours, other, elem-append x name names)
            (ground (arith, eq_iff x name, eq_iff name x, other))
      | inr foreign ↦ rw (new, foreign, other) (ground arith)
    ]
  ]
]
  where
    own :
        (x : String) (authorized : Option (List String)) (names : List String)
        → elem x (joined x authorized names) ≡ (elem x names || (x == x && is_in_org x authorized))
    own x authorized names = elim (Bool-cases (elem x names)) [
      | inl old ↦ rw (old, old) refl
      | inr new ↦ elim (Bool-cases (is_in_org x authorized)) [
        | inl ours ↦ rw (new, ours, elem-append x x names, new, eq_refl x) refl
        | inr foreign ↦ rw (new, foreign, new, eq_refl x) refl
      ]
    ]

module _ (authorized : Option (List String)) where
  add_remaining-IsDistinct :
      (others names : List String)
      → IsDistinct names
      → IsDistinct (add_remaining others authorized names)
  unfolding add_remaining
  add_remaining-IsDistinct [] names d = d
  add_remaining-IsDistinct (name ∷ others) names d =
      add_remaining-IsDistinct others (joined name authorized names)
        (joined-IsDistinct name authorized names d)

  elem-add_remaining :
      (x : String) (others names : List String)
      → elem x (add_remaining others authorized names)
        ≡ (elem x names || (elem x others && is_in_org x authorized))
  unfolding add_remaining
  elem-add_remaining x [] names = ground arith
  elem-add_remaining x (name ∷ others) names =
      elem-add_remaining x others (joined name authorized names)
      ∙ rw (elem-joined x name authorized names) (ground (arith, eq_iff x name, eq_iff name x))

  add_default-IsDistinct :
      (d : Option String) (names : List String)
      → IsDistinct names
      → IsDistinct (add_default d authorized names)
  unfolding add_default
  add_default-IsDistinct none names h = h
  add_default-IsDistinct (some name) names h = elim (Bool-cases (name == "")) [
    | inl blank ↦ rw blank h
    | inr named ↦ rw named (joined-IsDistinct name authorized names h)
  ]

  elem-add_default :
      (x : String) (r : ProviderRegistry) (names : List String)
      → HasDefault r
      → (elem x (add_default r.default_provider authorized names)
          || (has r x && is_in_org x authorized))
        ≡ (elem x names || (has r x && is_in_org x authorized))
  unfolding add_default has
  elem-add_default x r names ok = elim (Option-cases r.default_provider) [
    | inl nothing ↦ rw nothing refl
    | inr (d, e) ↦
        let known : has r d ≡ true = subst (λ o. is_key_of r.providers o ≡ true) e ok in
        elim (Bool-cases (d == "")) [
          | inl blank ↦ rw (e, blank) refl
          | inr named ↦ elim (Bool-cases (d == x)) [
            | inl same ↦
                let at_x : has r x ≡ true =
                  subst (λ n. has r n ≡ true) ((eq_iff d x).0 same) known in
                rw (e, named, elem-joined x d authorized names) (ground (arith, same, at_x))
            | inr other ↦ rw (e, named, elem-joined x d authorized names) (ground (arith, other))
          ]
        ]
  ]

  elem-add_preferred :
      (x : String) (r : ProviderRegistry) (preferred : Option String)
      → (elem x (add_preferred r preferred authorized) || (has r x && is_in_org x authorized))
        ≡ (has r x && is_in_org x authorized)
  unfolding add_preferred
  elem-add_preferred x r none = ground arith
  elem-add_preferred x r (some p) = elim (Bool-cases (x == p)) [
    | inl same ↦
        let at_p = (eq_iff x p).0 same in
        subst
          (λ n.
            (elem x (add_preferred r (some n) authorized) || (has r x && is_in_org x authorized))
            ≡ (has r x && is_in_org x authorized))
          at_p (ground (arith, eq_refl x))
    | inr other ↦ ground (arith, other)
  ]

  add_preferred-IsDistinct :
      (r : ProviderRegistry) (preferred : Option String)
      → IsDistinct (add_preferred r preferred authorized)
  unfolding add_preferred
  add_preferred-IsDistinct r none = tt
  add_preferred-IsDistinct r (some p) = ground arith

elem-keys :
    (x : String) (d : Dict Provider)
    → elem x (map (λ (name, _). name) d) ≡ (elim (lookup x d) [ none ↦ false | some _ ↦ true ])
unfolding lookup
elem-keys x [] = refl
elem-keys x ((k, v) ∷ d) = ground (arith, elem-keys x d, eq_iff x k, eq_iff k x)

elem-list_providers : (x : String) (r : ProviderRegistry) → elem x (list_providers r) ≡ has r x
unfolding list_providers has
elem-list_providers x r = elem-keys x r.providers

-- While the default provider is a registered one, the attempt order holds each provider that is
-- registered and authorized, and no other, and none twice.
pub build_provider_order_lem :
    (x : String) (r : ProviderRegistry) (preferred : Option String)
    (authorized : Option (List String))
    → HasDefault r
    → IsDistinct (build_provider_order r preferred authorized)
      × (elem x (build_provider_order r preferred authorized) ≡ (has r x && is_in_org x authorized))
unfolding build_provider_order
build_provider_order_lem x r preferred authorized ok =
    let first = add_preferred r preferred authorized in
    let two = add_default r.default_provider authorized first in
    (
      add_remaining-IsDistinct authorized (list_providers r) two (
          add_default-IsDistinct authorized r.default_provider first
            (add_preferred-IsDistinct authorized r preferred)),
      elem-add_remaining authorized x (list_providers r) two
          ∙ rw (elem-list_providers x r) (
              elem-add_default authorized x r first ok
              ∙ elem-add_preferred authorized x r preferred),
    )

key-insert :
    (name : String) (p : Provider) (d : Option String) (providers : Dict Provider)
    → is_key_of providers d ≡ true
    → is_key_of (insert name p providers) d ≡ true
key-insert name p none providers ok = refl
key-insert name p (some d) providers ok =
    rw (lookup-insert name d p providers, is_key_of) (ground (arith, ok))

key-remove :
    (name : String) (d : Option String) (providers : Dict Provider)
    → is_key_of providers d ≡ true
    → is_key_of
        (remove name providers)
        (if (elim d [ none ↦ false | some x ↦ x == name ]) then none else d)
      ≡ true
key-remove name none providers ok = refl
key-remove name (some d) providers ok = elim (Bool-cases (d == name)) [
  | inl same ↦ rw same refl
  | inr other ↦
      rw (other, lookup-remove name d providers, is_key_of)
        (ground (arith, ok, other, eq_iff name d, eq_iff d name))
]

-- the calls that change the providers or the default
pub data Change : Type 0 where
  registering : Provider → Change
  unregistering defaulting : String → Change
  authorizing : List String → Change

-- `set_default` raises on an unknown name and changes nothing.
unfoldable pub change : Change → ProviderRegistry → ProviderRegistry
unfolding register unregister set_default set_authorized_providers
change (registering p) r = register p r
change (unregistering name) r = unregister name r
change (defaulting name) r = elim (set_default name r) [ none ↦ r | some r' ↦ r' ]
change (authorizing names) r = set_authorized_providers names r

-- When a registry's default, if it has one, is registered, then it still is after any
-- one of the calls register, unregister, set_default and set_authorized_providers; a
-- set_default that is refused counts as a call that changes nothing.
pub change-HasDefault : (c : Change) (r : ProviderRegistry) → HasDefault r → HasDefault (change c r)
unfolding change register unregister set_default set_authorized_providers has
change-HasDefault (registering p) r ok = key-insert p.name p r.default_provider r.providers ok
change-HasDefault (unregistering name) r ok = elim (Bool-cases (has r name)) [
  | inr unknown ↦ rw (unknown, unregister) ok
  | inl known ↦ rw (known, unregister) (key-remove name r.default_provider r.providers ok)
]
change-HasDefault (defaulting name) r ok = elim (Bool-cases (has r name)) [
  | inr unknown ↦ rw (unknown, set_default, change) ok
  | inl known ↦ rw (known, set_default, change) known
]
change-HasDefault (authorizing names) r ok = ok
