-- ===== src/Features/Overrides.antt =====
-- That an override counts at once: libs/feature-flags/src/feature-flags.service.ts.
use saas_backend_blueprint.Prelude.{
  ℕ, ◌≡◌, ◌≢◌, refl, ap, ◌∙◌, inl, inr, String, str_eq, Bool, true, false, List, [], ◌∷◌, ◌++◌,
  Option, none, some, any, where_, any-delete_where, find_last, update_where, delete_where, ok,
  arith, Option-cases, Bool-cases, if◌then◌else◌, eq_iff,
}
use saas_backend_blueprint.Members.Model.{Uuid}
use saas_backend_blueprint.Features.Model.{
  Setting, flag, Value, setting, Field, Entitlements, value_at, Override, is_override,
}
use saas_backend_blueprint.Features.Repository
use saas_backend_blueprint.Features.Repository.{is_active_of, is_unexpired, rewritten}
use saas_backend_blueprint.Features.Service
use saas_backend_blueprint.Features.Service.{Parts, State, Json, patch, tier_of}
use saas_backend_blueprint.Features.Guard

find_last-append {ℓ} :
    {A : Type ℓ} (q : A → Bool) (xs ys : List A)
    → find_last q (xs ++ ys) ≡ elim (find_last q ys) [ none ↦ find_last q xs | some y ↦ some y ]
find_last-append q [] ys = elim (Option-cases (find_last q ys)) [
  | inl e ↦ ground (arith, e)
  | inr (y, e) ↦ ground (arith, e)
]
find_last-append q (x ∷ xs) ys = elim (Option-cases (find_last q ys)) [
  | inl e ↦ ground (arith, e, find_last-append q xs ys)
  | inr (y, e) ↦ ground (arith, e, find_last-append q xs ys)
]

module _ (j : Json) (org : Uuid) (now : ℕ) (key : String) (new : Override) (v : Setting) where
  -- The value of the key in the overrides that count.
  abbrev overridden : List Override → Option Value
  overridden os = value_at key (patch j (where_ (is_active_of org now) os))

  overridden-update_where :
      (os : List Override)
      → j.parse new.value ≡ some v
      → is_unexpired now new.expires_at ≡ true
      → overridden (update_where (is_override org key) (rewritten new) os)
        ≡ (if any (is_override org key) os then some (setting v) else none)
  overridden-update_where [] parses lives = refl
  overridden-update_where (o ∷ os) parses lives = elim (Option-cases (j.parse o.value)) [
    | inl e ↦ ground (arith, e, parses, lives, overridden-update_where os)
    | inr (u, e) ↦ ground (arith, e, parses, lives, overridden-update_where os)
  ]

  overridden-none :
      (os : List Override) → any (is_override org key) os ≡ false → overridden os ≡ none
  overridden-none [] h = refl
  overridden-none (o ∷ os) h = elim (Option-cases (j.parse o.value)) [
    | inl e ↦ ground (arith, h, e, overridden-none os)
    | inr (u, e) ↦ ground (arith, h, e, overridden-none os)
  ]

  overridden-append :
      (os : List Override)
      → j.parse new.value ≡ some v
      → is_unexpired now new.expires_at ≡ true
      → new.org_id ≡ org
      → new.key ≡ key
      → overridden (os ++ new ∷ []) ≡ some (setting v)
  overridden-append [] parses lives same_org same_key =
      ground (arith, parses, lives, same_org, same_key, eq_iff key key)
  overridden-append (o ∷ os) parses lives same_org same_key =
      elim (Option-cases (j.parse o.value)) [
        | inl e ↦ ground (arith, e, overridden-append os parses lives same_org same_key)
        | inr (u, e) ↦ ground (arith, e, overridden-append os parses lives same_org same_key)
      ]

value_at-append :
    (key : String) (xs ys : Entitlements)
    → value_at key (xs ++ ys) ≡ elim (value_at key ys) [ some v ↦ some v | none ↦ value_at key xs ]
value_at-append key xs ys =
    let q = λ (f : Field). str_eq f.key key in
    elim (Option-cases (find_last q ys)) [
      | inl e ↦ ground (arith, e, find_last-append q xs ys)
      | inr (y, e) ↦ ground (arith, e, find_last-append q xs ys)
    ]

module _ (p : Parts) where
  -- The overrides of an organization that count.
  abbrev active_overrides : Uuid → ℕ → State p → Entitlements
  active_overrides org now w =
      patch p.json (where_ (is_active_of org now) (p.overrides.rows w.overrides))

  -- The value of a key is that of its override, or else the plan's.
  computed-value_at :
      (org : Uuid) (key : String) (now : ℕ) (w : State p)
      → value_at key (Service.computed p org now w)
        ≡ elim (value_at key (active_overrides org now w)) [
          | some v ↦ some v
          | none ↦ value_at key (Service.plan_fields p org w)
        ]
  unfolding Service.computed Repository.find_active_by_org
  computed-value_at org key now w =
      let active = patch p.json (Repository.find_active_by_org p.overrides org now w.overrides) in
      value_at-append key (Service.plan_fields p org w) active
      ∙ ap
          (λ os. elim (value_at key (patch p.json os)) [
            | some v ↦ some v
            | none ↦ value_at key (Service.plan_fields p org w)
          ])
          (p.overrides.find_many_law (is_active_of org now) w.overrides)

  -- After the entry of an organization is deleted, its entitlements are computed.
  get_entitlements-invalidated :
      (org : Uuid) (now : ℕ) (w : State p)
      → p.redis.del org w.cache ≢ none
      → (Service.get_entitlements p org now (Service.invalidate_entitlements p org w)).0
        ≡ Service.computed p org now w
  unfolding Service.get_entitlements Service.invalidate_entitlements Service.computed
      Service.plan_fields
  get_entitlements-invalidated org now w reachable = elim (Option-cases (p.redis.del org w.cache)) [
    | inl e ↦ ground (arith, e, reachable)
    | inr (c, e) ↦ elim (p.redis.get_law org now c) [
      | inl f ↦ ground (arith, e, f)
      | inr f ↦ ground (arith, e, f, p.redis.del_law org org now w.cache)
    ]
  ]

  -- An override counts from the moment it is set until it expires: whatever the plan is and whatever was
  -- cached, the entitlements of the organization have its value for its key. Redis deletes the entry.
  pub set_override-get_entitlements :
      (id org : Uuid) (key : String) (value : Setting) (reason : String) (expires_at : Option ℕ)
      (created_by : String) (now : ℕ) (w : State p)
      → p.redis.del org w.cache ≢ none
      → is_unexpired now expires_at ≡ true
      → value_at key
          (Service.get_entitlements p org now
            (Service.set_override p id org key value reason expires_at created_by w)).0
        ≡ some (setting value)
  unfolding Service.set_override Repository.upsert
  set_override-get_entitlements id org key value reason expires_at created_by now w reachable
        lives =
      let new : Override = record {
        id = id;
        org_id = org;
        key = key;
        value = p.json.stringify value;
        reason = reason;
        expires_at = expires_at;
        created_by = created_by;
      } in
      let w1 : State p = record w { overrides = Repository.upsert p.overrides new w.overrides } in
      let os = p.overrides.rows w.overrides in
      let parses = p.json.parse-stringify value in
      let law = p.overrides.upsert_law (is_override org key) new (rewritten new) w.overrides in
      let counts : value_at key (active_overrides org now w1) ≡ some (setting value) =
        elim (Bool-cases (any (is_override org key) os)) [
          | inl there ↦ ground (
            arith,
            there,
            law,
            overridden-update_where p.json org now key new value os parses lives,
          )
          | inr absent ↦ ground (
            arith,
            absent,
            law,
            overridden-append p.json org now key new value os parses lives refl refl,
          )
        ] in
      ap (value_at key) (get_entitlements-invalidated org now w1 reachable)
      ∙ computed-value_at org key now w1
      ∙ ap (λ o. elim o [ some v ↦ some v | none ↦ value_at key (Service.plan_fields p org w1) ])
          counts

  -- The deletion of an override that succeeds gives the plan's value back at once. Redis deletes the entry.
  pub delete_override-get_entitlements :
      (org : Uuid) (key : String) (now : ℕ) (w w' : State p)
      → p.redis.del org w.cache ≢ none
      → Service.delete_override p org key w ≡ (ok tt, w')
      → value_at key (Service.get_entitlements p org now w').0
        ≡ value_at key (Service.plan_fields p org w)
  unfolding Service.delete_override Repository.delete Service.plan_fields
  delete_override-get_entitlements org key now w w' reachable e =
      let q = is_override org key in
      let os = p.overrides.rows w.overrides in
      elim (Option-cases (p.overrides.find_first q w.overrides)) [
        | inl f ↦ ground (arith, e, f)
        | inr (o, f) ↦ elim (Option-cases (p.overrides.delete q w.overrides)) [
          | inl g ↦ ground (arith, e, f, g)
          | inr (s, g) ↦
              let w1 : State p = record w { overrides = s } in
              let done : w' ≡ Service.invalidate_entitlements p org w1 = ground (arith, e, f, g) in
              let none_left : value_at key (active_overrides org now w1) ≡ none = ground (
                arith,
                f,
                g,
                p.overrides.find_first_law q w.overrides,
                p.overrides.delete_law q w.overrides,
                overridden-none p.json org now key o (flag true) (delete_where q os)
                    (any-delete_where q os),
              ) in
              ap (λ v. value_at key (Service.get_entitlements p org now v).0) done
              ∙ ap (value_at key) (get_entitlements-invalidated org now w1 reachable)
              ∙ computed-value_at org key now w1
              ∙ ap
                  (λ a. elim a [
                    | some v ↦ some v
                    | none ↦ value_at key (Service.plan_fields p org w1)
                  ])
                  none_left
        ]
      ]

  -- A guard that asks for a feature answers what an override of it says, from the moment it is set.
  pub set_override-can_activate :
      (id org : Uuid) (feature : String) (enabled : Bool) (reason : String) (expires_at : Option ℕ)
      (created_by : String) (now : ℕ) (w : State p)
      → p.redis.del org w.cache ≢ none
      → is_unexpired now expires_at ≡ true
      → (Guard.can_activate p
          (some feature)
          (some org)
          now
          (Service.set_override p id org feature (flag enabled) reason expires_at created_by w)).0
        ≡ ok enabled
  unfolding Guard.can_activate Service.check_feature
  set_override-can_activate id org feature enabled reason expires_at created_by now w reachable
        lives =
      ap (λ o. ok (Service.is_enabled o))
        (set_override-get_entitlements id org feature (flag enabled) reason expires_at created_by
          now w reachable lives)
