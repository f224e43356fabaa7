-- ===== src/Listener/Manager/Running.antt =====
-- The routes that are listened to, as a set: what each call of the manager makes of it.
use basket_recovery_ea.Base.{
  ℕ, ◌≡◌, refl, sym, ◌∙◌, ap, Bool, true, false, not, ◌&&◌, ◌||◌, List, [], ◌∷◌, ◌++◌, arith, inl,
  inr, Bool-cases, ◌==◌, is_some,
}
use basket_recovery_ea.Store.Tables.{Database, stored, refused}
use basket_recovery_ea.Listener.Rows.{found-route}
use basket_recovery_ea.Listener.Start.{validate_start_lem}
use basket_recovery_ea.Listener.Manager.{
  ManagerConfig, ActiveRoute, Manager, id_of, is_active, without, build_runtime, start_route,
  stop_route, Call, Write, stored_then, on_stored, find_active, has_stopped, state_status,
  target_of, listener_stopped, without_bridge_if_idle, write_stop_state, write_stop_event,
}
use basket_recovery_ea.Listener.Manager.Ids.{ids, found-id}
use basket_recovery_ea.Listener.Manager.Calls.{
  ManagerCall, start_call, stop_call, message_call, call, call_all, on_new_message-ids,
}
use basket_recovery_ea.Listener.Manager.Starting.{
  is_new_listener, start_route_cases, without-absent,
}

-- A set of routes.
abbrev pub Running : Type 0
Running = ℕ → Bool

abbrev pub running : Manager → Running
running m i = is_active i m.active

-- What a call makes of the set, by what it responds.
abbrev pub response : ManagerConfig → ManagerCall → Manager → Bool
response config (start_call i hook now) m = is_new_listener (start_route config i hook now m).0
response config (stop_call i now) m = false
response config (message_call message pick moment now) m = false

abbrev pub abstract_call : ManagerCall → Bool → Running → Running
abstract_call (start_call i hook now) is_new set j = (is_new && (i == j)) || set j
abstract_call (stop_call i now) is_new set j = set j && not (i == j)
abstract_call (message_call message pick moment now) is_new set j = set j

active-append :
    (j : ℕ) (active : List ActiveRoute) (a : ActiveRoute)
    → is_active j (active ++ a ∷ []) ≡ ((id_of a == j) || is_active j active)
active-append j [] a = ground arith
active-append j (b ∷ active) a = ground (arith, active-append j active a)

active-without :
    (i j : ℕ) (active : List ActiveRoute)
    → is_active j (without i active) ≡ (is_active j active && not (i == j))
active-without i j [] = refl
active-without i j (b ∷ active) = ground (arith, active-without i j active)

active-ids : (j : ℕ) (xs ys : List ActiveRoute) → ids xs ≡ ids ys → is_active j xs ≡ is_active j ys
active-ids j [] [] h = refl
active-ids j [] (y ∷ ys) h = absurd (ground arith)
active-ids j (x ∷ xs) [] h = absurd (ground arith)
active-ids j (x ∷ xs) (y ∷ ys) h = ground (arith, active-ids j xs ys)

active-not_found :
    (i : ℕ) (active : List ActiveRoute) → is_some (find_active i active) ≡ is_active i active
active-not_found i [] = refl
active-not_found i (b ∷ active) = ground (arith, active-not_found i active)

stored-active :
    (l : List ActiveRoute) (op : Write) (next : Call) (m : Manager)
    → m.active ≡ l
    → ((db : Database) → (next (record m { db = db })).1.active ≡ l)
    → (stored_then op next m).1.active ≡ l
stored-active l op next m h g = elim (op m.db) as (λ r. (on_stored m r next).1.active ≡ l) [
  | stored a db ↦ g db
  | refused e ↦ h
]

idle-active :
    (l : List ActiveRoute) (u : Manager)
    → (without_bridge_if_idle (record u { active = l })).active ≡ l
idle-active [] u = refl
idle-active (a ∷ l) u = refl

stop-active : (i now : ℕ) (m : Manager) → (stop_route i now m).1.active ≡ without i m.active
unfolding stop_route
stop-active i now m =
    let removed = find_active i m.active in
    let rest = without i m.active in
    let u = record m { active = rest } in
    let last : Call = λ m'. (listener_stopped false, without_bridge_if_idle m') in
    elim (Bool-cases (not (is_some removed) && has_stopped (state_status i m.db))) [
      | inl e ↦
          rw e (sym (without-absent i m.active (sym (active-not_found i m.active) ∙ absent e)))
      | inr e ↦ rw e (
          stored-active rest (write_stop_state i now)
            (stored_then (write_stop_event i (target_of removed) now) last) u refl
            (λ db.
              stored-active rest (write_stop_event i (target_of removed) now) last
                (record u { db = db }) refl (λ db'. idle-active rest (record u { db = db' }))))
    ]
  where
    absent :
        not (is_some (find_active i m.active)) && has_stopped (state_status i m.db) ≡ true
        → is_some (find_active i m.active) ≡ false
    absent e = ground (arith, e)

-- About sets
pub call-running :
    (config : ManagerConfig) (c : ManagerCall) (m : Manager) (j : ℕ)
    → running (call config c m) j ≡ abstract_call c (response config c m) (running m) j
unfolding build_runtime
call-running config (message_call message pick moment now) m j =
    active-ids j _ m.active (on_new_message-ids pick moment now message m)
call-running config (stop_call i now) m j =
    ap (is_active j) (stop-active i now m) ∙ active-without i j m.active
call-running config (start_call i hook now) m j = elim (start_route_cases config i hook now m) [
  | inr u ↦ rw u.1 (ap (is_active j) u.0)
  | inl x ↦
      let d = x.0 in
      let f = found-route i m.db d ((validate_start_lem i m.db d).0 x.2).0 in
      let e : id_of (build_runtime config d x.1) ≡ i = found-id i m.db.routes d.route f in
      let more = x.4 in
      rw more.0 (
        ap (is_active j) more.1
        ∙ active-append j m.active (build_runtime config d x.1)
        ∙ ap (λ k. (k == j) || is_active j m.active) e)
]

-- The calls of a run, each with what it responds.
abbrev pub answered : ManagerConfig → List ManagerCall → Manager → List (ManagerCall × Bool)
answered config [] m = []
answered config (c ∷ cs) m = (c, response config c m) ∷ answered config cs (call config c m)

abbrev pub abstract_run : List (ManagerCall × Bool) → Running → Running
abstract_run [] set = set
abstract_run ((c, is_new) ∷ rest) set = abstract_run rest (abstract_call c is_new set)

abstract_call-pointwise :
    (c : ManagerCall) (b : Bool) (j : ℕ) (set set' : Running)
    → set j ≡ set' j
    → abstract_call c b set j ≡ abstract_call c b set' j
abstract_call-pointwise (start_call i hook now) b j set set' h = ap (λ x. (b && (i == j)) || x) h
abstract_call-pointwise (stop_call i now) b j set set' h = ap (λ x. x && not (i == j)) h
abstract_call-pointwise (message_call message pick moment now) b j set set' h = h

abstract_run-pointwise :
    (run : List (ManagerCall × Bool)) (j : ℕ) (set set' : Running)
    → set j ≡ set' j
    → abstract_run run set j ≡ abstract_run run set' j
abstract_run-pointwise [] j set set' h = h
abstract_run-pointwise ((c, b) ∷ rest) j set set' h =
    abstract_run-pointwise rest j (abstract_call c b set) (abstract_call c b set')
      (abstract_call-pointwise c b j set set' h)

-- The routes that are listened to after any calls of the manager are the ones that an abstract set
-- has after the same calls: a start that responds with a new listener adds its route, a stop
-- removes its route, and nothing else changes the set.
pub call_all-running :
    (config : ManagerConfig) (cs : List ManagerCall) (m : Manager) (j : ℕ)
    → running (call_all config cs m) j ≡ abstract_run (answered config cs m) (running m) j
call_all-running config [] m j = refl
call_all-running config (c ∷ cs) m j =
    call_all-running config cs (call config c m) j
    ∙ abstract_run-pointwise (answered config cs (call config c m)) j (running (call config c m))
        (abstract_call c (response config c m) (running m)) (call-running config c m j)
