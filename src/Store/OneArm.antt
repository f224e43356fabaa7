-- ===== src/Store/OneArm.antt =====
-- At most one route is armed: the table of routes under each update.
use basket_recovery_ea.Base.{
  ℕ, suc, ◌+◌, ◌≤◌, ◌<◌, Bool, true, ◌≡◌, refl, inl, inr, none, List, [], ◌∷◌, arith, if◌then◌else◌,
  All, select, Option-cases,
}
use basket_recovery_ea.CandidateTest.{is_armed_mode}
use basket_recovery_ea.Store.Tables.{Route, Database, Stored, stored, refused, find_route}
use basket_recovery_ea.Store.Arms.{
  update_where, has_id, count_arms_except, update_one, overdue, expire_row,
  expire_candidate_test_arms,
}

abbrev pub arms_of : Route → ℕ
arms_of r = if is_armed_mode r.mode then 1 else 0

-- The armed routes of a table.
abbrev pub count_arms : List Route → ℕ
count_arms [] = 0
count_arms (r ∷ rs) = arms_of r + count_arms rs

-- `id` is the primary key.
abbrev pub Distinct : List Route → Type 0
Distinct [] = Unit {0}
Distinct (r ∷ rs) = (find_route r.id rs ≡ none) × Distinct rs

-- The keys are distinct and below the next one, and at most one route is armed.
pub record RoutesInv (db : Database) : Type 0 where
  pub distinct : Distinct db.routes
  pub fresh : All (λ r. r.id < db.next_route_id) db.routes
  pub one_arm : count_arms db.routes ≤ 1

module _ (test : Route → Bool) (change : Route → Route)
    (same_id : (r : Route) → (change r).id ≡ r.id) where
  find_route-update :
      (i : ℕ) (rs : List Route)
      → find_route i rs ≡ none
      → find_route i (update_where test change rs) ≡ none
  unfolding update_where
  find_route-update i [] h = refl
  find_route-update i (r ∷ rs) h = ground (arith, same_id r, find_route-update i rs)

  pub update-Distinct : (rs : List Route) → Distinct rs → Distinct (update_where test change rs)
  unfolding update_where
  update-Distinct [] h = tt
  update-Distinct (r ∷ rs) h =
      ground (arith, same_id r, find_route-update r.id rs h.0, update-Distinct rs h.1)

  pub update-fresh :
      (n : ℕ) (rs : List Route)
      → All (λ r. r.id < n) rs
      → All (λ r. r.id < n) (update_where test change rs)
  unfolding update_where
  update-fresh n [] h = tt
  update-fresh n (r ∷ rs) h = ground (arith, same_id r, update-fresh n rs h.1)

  -- An update that arms nothing.
  pub count_arms-update :
      ((r : Route) → is_armed_mode (change r).mode ≡ true → is_armed_mode r.mode ≡ true)
      → (rs : List Route) → count_arms (update_where test change rs) ≤ count_arms rs
  unfolding update_where
  count_arms-update calm [] = omega arith
  count_arms-update calm (r ∷ rs) = ground (arith, calm r, count_arms-update calm rs)

count_arms-absent :
    (change : Route → Route) (i : ℕ) (rs : List Route)
    → find_route i rs ≡ none
    → count_arms (update_where (has_id i) change rs) ≡ count_arms_except i rs
unfolding update_where count_arms_except
count_arms-absent change i [] h = refl
count_arms-absent change i (r ∷ rs) h = ground (arith, count_arms-absent change i rs)

-- An update of one row adds one arm at most to those of the other rows.
pub count_arms-one :
    (change : Route → Route) (i : ℕ) (rs : List Route)
    → Distinct rs
    → count_arms (update_where (has_id i) change rs) ≤ suc (count_arms_except i rs)
unfolding update_where count_arms_except
count_arms-one change i [] h = omega arith
count_arms-one change i (r ∷ rs) h =
    ground (arith, count_arms-absent change i rs, count_arms-one change i rs h.1)

abbrev pub after_store : {A : Type 0} → Database → Stored A → Database
after_store db (stored a db') = db'
after_store db (refused e) = db

-- `UPDATE routes … WHERE id = ?` with a change that leaves at most one arm.
pub update_one-RoutesInv :
    (i : ℕ) (change : Route → Route) (db : Database)
    → ((r : Route) → (change r).id ≡ r.id)
    → count_arms (update_where (has_id i) change db.routes) ≤ 1
    → RoutesInv db
    → RoutesInv (after_store db (update_one i change db))
unfolding update_one
update_one-RoutesInv i change db same at_most_one v = elim (Option-cases (find_route i db.routes)) [
  | inl e ↦ rw (e, after_store) v
  | inr (r, e) ↦
      rw (e, after_store)
        (record {
          distinct = update-Distinct (has_id i) change same db.routes v.distinct;
          fresh = update-fresh (has_id i) change same db.next_route_id db.routes v.fresh;
          one_arm = at_most_one;
        })
]

-- `UPDATE routes … WHERE id = ?` with a change that arms nothing.
pub calm-RoutesInv :
    (i : ℕ) (change : Route → Route) (db : Database)
    → ((r : Route) → (change r).id ≡ r.id)
    → ((r : Route) → is_armed_mode (change r).mode ≡ true → is_armed_mode r.mode ≡ true)
    → RoutesInv db
    → RoutesInv (after_store db (update_one i change db))
calm-RoutesInv i change db same calm v =
    update_one-RoutesInv i change db same
      (omega (arith, count_arms-update (has_id i) change same calm db.routes, v.one_arm)) v

pub expire-RoutesInv :
    (now : ℕ) (db : Database) → RoutesInv db → RoutesInv (expire_candidate_test_arms now db)
unfolding expire_candidate_test_arms
expire-RoutesInv now db v = record {
  distinct = update-Distinct (overdue now) (expire_row now) (λ r. refl) db.routes v.distinct;
  fresh =
      update-fresh (overdue now) (expire_row now) (λ r. refl) db.next_route_id db.routes v.fresh;
  one_arm = omega (
    arith,
    count_arms-update (overdue now) (expire_row now) (λ r. refl) (λ r h. cc) db.routes,
    v.one_arm,
  );
}

-- `DELETE FROM routes WHERE …`
module _ (keep : Route → Bool) where
  find_route-select :
      (i : ℕ) (rs : List Route) → find_route i rs ≡ none → find_route i (select keep rs) ≡ none
  find_route-select i [] h = refl
  find_route-select i (r ∷ rs) h = ground (arith, find_route-select i rs)

  pub select-Distinct : (rs : List Route) → Distinct rs → Distinct (select keep rs)
  select-Distinct [] h = tt
  select-Distinct (r ∷ rs) h = ground (arith, find_route-select r.id rs h.0, select-Distinct rs h.1)

  pub select-fresh :
      (n : ℕ) (rs : List Route) → All (λ r. r.id < n) rs → All (λ r. r.id < n) (select keep rs)
  select-fresh n [] h = tt
  select-fresh n (r ∷ rs) h = ground (arith, select-fresh n rs h.1)

  pub count_arms-select : (rs : List Route) → count_arms (select keep rs) ≤ count_arms rs
  count_arms-select [] = omega arith
  count_arms-select (r ∷ rs) = ground (arith, count_arms-select rs)

-- `INSERT INTO routes`
pub find_route-fresh : (n : ℕ) (rs : List Route) → All (λ r. r.id < n) rs → find_route n rs ≡ none
find_route-fresh n [] h = refl
find_route-fresh n (r ∷ rs) h = ground (arith, find_route-fresh n rs h.1)

pub fresh-suc : (n : ℕ) (rs : List Route) → All (λ r. r.id < n) rs → All (λ r. r.id < suc n) rs
fresh-suc n [] h = tt
fresh-suc n (r ∷ rs) h = (omega (arith, h.0), fresh-suc n rs h.1)
