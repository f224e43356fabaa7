-- ===== src/Mt5/Registration/Laws.antt =====
-- What the registration of a target tests, in terms of the other active targets.
use basket_recovery_ea.Base.{
  ◌≡◌, refl, ap, Bool, true, false, not, List, [], ◌∷◌, ◌++◌, arith, inl, inr, Bool-cases,
  if◌then◌else◌, any, select, All, some, none,
}
use basket_recovery_ea.Base.Int.{int_eq}
use basket_recovery_ea.Base.Text.{Text}
use basket_recovery_ea.Base.{Option}
use basket_recovery_ea.Mt5.{TargetRow}
use basket_recovery_ea.Mt5.Conflicts.{
  terminal_instance, account_server_duplicate, file_pair, magic_number_taken, when, deduped,
  active_rows, find_id, others, same_instance, same_account, same_files, same_magic, row_conflicts,
  find_target_conflicts,
}
use basket_recovery_ea.Mt5.Registration.{
  accepted, denied, blocked_by, is_blocking, first_blocking, candidate_id,
  validate_target_registration,
}

-- Whatever the other conflicts are, the first blocking one is the verdict.
verdict :
    (a b c d : Bool)
    → first_blocking (
        select is_blocking (
          deduped (
            when a terminal_instance
            ++ when b account_server_duplicate
            ++ when c file_pair
            ++ when d magic_number_taken)))
      ≡ (if a
          then denied (blocked_by terminal_instance)
          else (if b then denied (blocked_by account_server_duplicate) else accepted tt))
verdict true b c d = ground arith
verdict false true c d = ground arith
verdict false false c d = ground arith

abbrev pub Unlike : TargetRow → Type 0
Unlike row = int_eq row.id candidate_id ≡ false

module _ (cand : TargetRow) (own : cand.id ≡ candidate_id) where
  active-appended :
      (rows : List TargetRow)
      → cand.is_enabled ≡ true
      → active_rows (rows ++ cand ∷ []) ≡ active_rows rows ++ cand ∷ []
  active-appended [] e = ground arith
  active-appended (r ∷ rows) e = ground (arith, active-appended rows e)

  disabled-appended :
      (rows : List TargetRow)
      → cand.is_enabled ≡ false
      → active_rows (rows ++ cand ∷ []) ≡ active_rows rows
  disabled-appended [] e = ground arith
  disabled-appended (r ∷ rows) e = ground (arith, disabled-appended rows e)

  find-appended :
      (rows : List TargetRow)
      → All Unlike rows
      → find_id candidate_id (rows ++ cand ∷ []) ≡ some cand
  find-appended [] h = ground (arith, own)
  find-appended (r ∷ rows) h = ground (arith, find-appended rows h.1, h.0)

  others-appended :
      (rows : List TargetRow) → All Unlike rows → others cand (rows ++ cand ∷ []) ≡ rows
  others-appended [] h = ground (arith, own)
  others-appended (r ∷ rows) h = ground (arith, others-appended rows h.1, h.0, own)

active-Unlike : (rows : List TargetRow) → All Unlike rows → All Unlike (active_rows rows)
active-Unlike [] h = tt
active-Unlike (r ∷ rows) h = elim (Bool-cases r.is_enabled) [
  | inl e ↦ rw e (h.0, active-Unlike rows h.1)
  | inr e ↦ rw e (active-Unlike rows h.1)
]

find-none : (rows : List TargetRow) → All Unlike rows → find_id candidate_id rows ≡ none
find-none [] h = refl
find-none (r ∷ rows) h = ground (arith, find-none rows h.1, h.0)

registered :
    (resolve : Text → Option Text) (cand : TargetRow) (own : cand.id ≡ candidate_id)
    (rows : List TargetRow)
    → cand.is_enabled ≡ true
    → All Unlike rows
    → let act = active_rows rows in
      find_target_conflicts resolve (rows ++ cand ∷ []) (some candidate_id)
      ≡ deduped (
          when (any (same_instance resolve cand) act) terminal_instance
          ++ when (any (same_account resolve cand) act) account_server_duplicate
          ++ when (any (same_files resolve cand) act) file_pair
          ++ when (any (same_magic resolve cand) act) magic_number_taken)
unfolding find_target_conflicts row_conflicts
registered resolve cand own rows e h =
    let act = active_rows rows in
    let u = active-Unlike rows h in
    rw
      (
        active-appended cand own rows e,
        find-appended cand own act u,
        others-appended cand own act u,
      )
      refl

unregistered :
    (resolve : Text → Option Text) (cand : TargetRow) (own : cand.id ≡ candidate_id)
    (rows : List TargetRow)
    → cand.is_enabled ≡ false
    → All Unlike rows
    → find_target_conflicts resolve (rows ++ cand ∷ []) (some candidate_id) ≡ []
unfolding find_target_conflicts
unregistered resolve cand own rows e h =
    let u = active-Unlike rows h in
    rw (disabled-appended cand own rows e, find-none (active_rows rows) u) refl

-- When no row has the id of the candidate, the registration of a target is refused for its
-- terminal if it is enabled and an active target has its data path, else for its account if it is
-- enabled and an active target has its account, and is accepted otherwise.
pub validate_target_registration_lem :
    (resolve : Text → Option Text) (rows : List TargetRow) (payload : TargetRow)
    → All Unlike rows
    → let cand = record payload { id = candidate_id } in
      validate_target_registration resolve rows payload ≡ (
        if not payload.is_enabled
        then accepted tt
        else if any (same_instance resolve cand) (active_rows rows)
        then denied (blocked_by terminal_instance)
        else if any (same_account resolve cand) (active_rows rows)
        then denied (blocked_by account_server_duplicate)
        else accepted tt)
unfolding validate_target_registration
validate_target_registration_lem resolve rows payload h =
    let cand = record payload { id = candidate_id } in
    let act = active_rows rows in
    elim (Bool-cases payload.is_enabled) [
      | inl e ↦
          let c =
            ap (λ l. first_blocking (select is_blocking l))
              (registered resolve cand refl rows e h) in
          let v =
            verdict (any (same_instance resolve cand) act) (any (same_account resolve cand) act)
              (any (same_files resolve cand) act) (any (same_magic resolve cand) act) in
          ground (arith, e, c, v)
      | inr e ↦
          let c =
            ap (λ l. first_blocking (select is_blocking l))
              (unregistered resolve cand refl rows e h) in
          ground (arith, e, c)
    ]
