-- ===== src/Listener/Rows.antt =====
-- The arm of a route in the table, and the row that a route joins, under updates.
use basket_recovery_ea.Base.{
  ℕ, ◌≡◌, refl, Bool, true, false, inl, inr, some, List, [], ◌∷◌, arith, Bool-cases, ◌==◌,
  if◌then◌else◌,
}
use basket_recovery_ea.CandidateTest.{is_armed_mode}
use basket_recovery_ea.Store.Tables.{Route, Database, find_route}
use basket_recovery_ea.Store.Arms.{
  RouteDetail, update_where, has_id, consume_row, overdue, expire_row, expire_candidate_test_arms,
  get_route_start_context,
}
use basket_recovery_ea.Listener.Guard.{SameRows}

-- The first row with the key is armed.
abbrev pub is_armed : ℕ → List Route → Bool
is_armed i [] = false
is_armed i (r ∷ rs) = if r.id == i then is_armed_mode r.mode else is_armed i rs

pub is_armed-found :
    (i : ℕ) (rs : List Route) (r : Route)
    → find_route i rs ≡ some r
    → is_armed i rs ≡ is_armed_mode r.mode
is_armed-found i [] r e = ground arith
is_armed-found i (q ∷ rs) r e = ground (arith, is_armed-found i rs r)

module _ (test : Route → Bool) (change : Route → Route)
    (same_id : (r : Route) → (change r).id ≡ r.id) where
  -- An update that arms nothing.
  pub is_armed-update :
      ((r : Route) → is_armed_mode (change r).mode ≡ true → is_armed_mode r.mode ≡ true)
      → (i : ℕ) (rs : List Route) → is_armed i rs ≡ false
      → is_armed i (update_where test change rs) ≡ false
  unfolding update_where
  is_armed-update calm i [] h = refl
  is_armed-update calm i (q ∷ rs) h = ground (arith, same_id q, calm q, is_armed-update calm i rs)

pub is_armed-consumed :
    (i now : ℕ) (rs : List Route)
    → is_armed i (update_where (has_id i) (consume_row now) rs) ≡ false
unfolding update_where
is_armed-consumed i now [] = refl
is_armed-consumed i now (q ∷ rs) = ground (arith, is_armed-consumed i now rs)

pub found-route :
    (i : ℕ) (db : Database) (d : RouteDetail)
    → get_route_start_context i db ≡ some d
    → find_route i db.routes ≡ some d.route
unfolding get_route_start_context
found-route i db d e = ground arith

-- A change of a row that keeps what a route joins.
pub found-update :
    (test : Route → Bool) (change : Route → Route)
    → ((r : Route)
        → ((change r).id ≡ r.id)
          × ((change r).channel_id ≡ r.channel_id)
          × ((change r).target_id ≡ r.target_id))
    → (i : ℕ) (rs : List Route) (r : Route) → find_route i rs ≡ some r
    → (r' : Route) × (find_route i (update_where test change rs) ≡ some r')
      × (r'.channel_id ≡ r.channel_id)
      × (r'.target_id ≡ r.target_id)
unfolding update_where
found-update test change keeps i [] r e = absurd (ground arith)
found-update test change keeps i (q ∷ rs) r e = elim (Bool-cases (q.id == i)) [
  | inl here ↦ elim (Bool-cases (test q)) [
    | inl hit ↦
        (change q, ground (arith, keeps q), ground (arith, keeps q), ground (arith, keeps q))
    | inr miss ↦ (q, ground arith, ground arith, ground arith)
  ]
  | inr there ↦
      let h = found-update test change keeps i rs r (ground arith) in
      (h.0, ground (arith, keeps q, h.1), h.2, h.3)
]

pub expire-join :
    (i now : ℕ) (db : Database) (d : RouteDetail)
    → get_route_start_context i db ≡ some d
    → (d' : RouteDetail) × (get_route_start_context i (expire_candidate_test_arms now db) ≡ some d')
unfolding get_route_start_context expire_candidate_test_arms
expire-join i now db d e =
    let h =
      found-update (overdue now) (expire_row now) (λ r. (refl, refl, refl)) i db.routes d.route
        (ground arith) in
    (record { route = h.0; channel = d.channel; target = d.target }, ground (arith, h.1, h.2, h.3))

pub context-SameRows :
    (i : ℕ) (db db' : Database)
    → SameRows db db'
    → get_route_start_context i db' ≡ get_route_start_context i db
unfolding get_route_start_context
context-SameRows i db db' h = ground (arith, h)
