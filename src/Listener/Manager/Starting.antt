-- ===== src/Listener/Manager/Starting.antt =====
-- What a start of a listener leaves behind, whatever it responds.
use basket_recovery_ea.Base.{
  ℕ, ◌≡◌, refl, ◌∙◌, Bool, true, false, inl, inr, ◌⊎◌, Option, none, some, is_some, List, [], ◌∷◌,
  ◌++◌, arith, Bool-cases, ap, not,
}
use basket_recovery_ea.Base.Text.{Text}
use basket_recovery_ea.Store.Tables.{Database, RouteEvent, find_route, stored}
use basket_recovery_ea.Store.Arms.{RouteDetail}
use basket_recovery_ea.Store.Listeners.{StateChange, upsert_route_listener_state, add_route_event}
use basket_recovery_ea.Listener.Calm.{after_op}
use basket_recovery_ea.Listener.Rows.{found-route}
use basket_recovery_ea.Listener.Start.{
  Validated, allowed, rejected, validate_start, validate_start_lem,
}
use basket_recovery_ea.Listener.Manager.{
  ManagerConfig, ActiveRoute, Manager, Opened, opened, not_a_directory, cannot_create, Root,
  Response, listener_started, id_of, is_active, set_active, without, build_runtime, by_hook, hooked,
  register_runtime, by_root, by_validation, start_route, waiting_change, hook_change, start_event,
}
use basket_recovery_ea.Listener.Manager.Ids.{found-id, set_active-fresh}

upsert-stored :
    (i : ℕ) (c : StateChange) (now : ℕ) (db : Database)
    → is_some (find_route i db.routes) ≡ true
    → let r = upsert_route_listener_state i c now db in
      (r ≡ stored tt (after_op db r)) × ((after_op db r).routes ≡ db.routes)
unfolding upsert_route_listener_state
upsert-stored i c now db h = ground (arith, h)

event-stored :
    (e : RouteEvent) (db : Database)
    → is_some (find_route e.route_id db.routes) ≡ true
    → add_route_event e db ≡ stored tt (record db { events = e ∷ db.events })
unfolding add_route_event
event-stored e db h = rw h refl

pub without-absent :
    (i : ℕ) (active : List ActiveRoute) → is_active i active ≡ false → without i active ≡ active
without-absent i [] h = refl
without-absent i (a ∷ active) h = ground (arith, without-absent i active)

without-appended :
    (i : ℕ) (active : List ActiveRoute) (a : ActiveRoute)
    → id_of a ≡ i
    → is_active i active ≡ false
    → without i (active ++ a ∷ []) ≡ active
without-appended i [] a e h = ground arith
without-appended i (b ∷ active) a e h = ground (arith, without-appended i active a)

-- The response is that of a listener that was not running.
abbrev pub is_new_listener : Response → Bool
is_new_listener (listener_started already status) = not already
is_new_listener _ = false

module _ (config : ManagerConfig) where
  abbrev pub Unchanged : Manager → Response × Manager → Type 0
  Unchanged m (r, u) = (u.active ≡ m.active) × (is_new_listener r ≡ false)

  abbrev pub Extended : Manager → ActiveRoute → Response × Manager → Type 0
  Extended m a (r, u) = (is_new_listener r ≡ true) × (u.active ≡ m.active ++ a ∷ [])

  hooked_cases :
      (i : ℕ) (hook : Option Text) (now : ℕ) (m u : Manager) (a : ActiveRoute)
      → u.active ≡ m.active ++ a ∷ []
      → id_of a ≡ i
      → is_active i m.active ≡ false
      → is_some (find_route i u.db.routes) ≡ true
      → Extended m a (hooked config i hook now u) ⊎ Unchanged m (hooked config i hook now u)
  unfolding hooked by_hook
  hooked_cases i hook now m u a e same fresh found = elim (Bool-cases config.telethon_enabled) [
    | inr off ↦ rw off (inl (refl, e))
    | inl on ↦ rw on (by_result hook)
  ]
    where
      by_result :
          (hook : Option Text)
          → Extended m a (by_hook config i hook now u) ⊎ Unchanged m (by_hook config i hook now u)
      by_result none = inl (refl, e)
      by_result (some error) =
          let w = upsert-stored i (hook_change error) now u.db found in
          let k : without i u.active ≡ m.active =
            ap (without i) e ∙ without-appended i m.active a same fresh in
          inr (rw w.0 (k, refl))

  register_cases :
      (i : ℕ) (d : RouteDetail) (root : Root) (hook : Option Text) (now : ℕ) (m : Manager)
      → d.route.id ≡ i
      → is_active i m.active ≡ false
      → is_some (find_route i m.db.routes) ≡ true
      → let r = register_runtime config i d root hook now m in
        Extended m (build_runtime config d root) r ⊎ Unchanged m r
  unfolding register_runtime build_runtime
  register_cases i d root hook now m same fresh found =
      let a = build_runtime config d root in
      let u = record m { active = set_active a m.active } in
      let grown = set_active-fresh a m.active (rw same fresh) in
      let w = upsert-stored i (waiting_change now) now m.db found in
      let db₁ = after_op m.db (upsert_route_listener_state i (waiting_change now) now m.db) in
      let found₁ : is_some (find_route i db₁.routes) ≡ true = rw w.1 found in
      let e = start_event i d.target.id now in
      let v = event-stored e db₁ found₁ in
      let t = record u { db = record db₁ { events = e ∷ db₁.events } } in
      rw (w.0, v) (hooked_cases i hook now m t a grown same fresh found₁)

  root_cases :
      (i : ℕ) (d : RouteDetail) (o : Opened) (hook : Option Text) (now : ℕ) (m : Manager)
      → d.route.id ≡ i
      → is_active i m.active ≡ false
      → is_some (find_route i m.db.routes) ≡ true
      → let r = by_root config i d o hook now m in
        ((root : Root) × (o ≡ opened root) × Extended m (build_runtime config d root) r)
        ⊎ Unchanged m r
  unfolding by_root
  root_cases i d not_a_directory hook now m same fresh found = inr (refl, refl)
  root_cases i d cannot_create hook now m same fresh found = inr (refl, refl)
  root_cases i d (opened root) hook now m same fresh found =
      elim (register_cases i d root hook now m same fresh found) [
        | inl x ↦ inl (root, refl, x)
        | inr u ↦ inr u
      ]

  -- A start of a listener adds the new runtime of the validated route, in the directory that was
  -- opened for it, behind the running ones and responds with a new listener; or it leaves the
  -- running listeners as they were and does not respond so.
  pub start_route_cases :
      (i : ℕ) (hook : Option Text) (now : ℕ) (m : Manager)
      → let r = start_route config i hook now m in
        ((d : RouteDetail) × (root : Root) × (validate_start i m.db ≡ allowed d)
          × (config.open_root config.dry_run d.target.file_common_root ≡ opened root)
          × Extended m (build_runtime config d root) r)
        ⊎ Unchanged m r
  unfolding start_route
  start_route_cases i hook now m = elim (Bool-cases (is_active i m.active)) [
    | inl e ↦ rw e (inr (refl, refl))
    | inr e ↦ rw e (by_result (validate_start i m.db) refl e)
  ]
    where
      by_result :
          (v : Validated)
          → validate_start i m.db ≡ v
          → is_active i m.active ≡ false
          → let r = by_validation config i v hook now m in
            ((d : RouteDetail) × (root : Root) × (v ≡ allowed d)
              × (config.open_root config.dry_run d.target.file_common_root ≡ opened root)
              × Extended m (build_runtime config d root) r)
            ⊎ Unchanged m r
      by_result (rejected x) e fresh = unfold by_validation in inr (refl, refl)
      by_result (allowed d) e fresh =
          let f = found-route i m.db d ((validate_start_lem i m.db d).0 e).0 in
          let found : is_some (find_route i m.db.routes) ≡ true = ap is_some f in
          let c =
            root_cases i d (config.open_root config.dry_run d.target.file_common_root) hook now m
              (found-id i m.db.routes d.route f) fresh found in
          unfold by_validation in
          elim c [ inl (root, o, x) ↦ inl (d, root, refl, o, x) | inr u ↦ inr u ]
