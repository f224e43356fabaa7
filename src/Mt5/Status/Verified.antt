-- ===== src/Mt5/Status/Verified.antt =====
-- When the card of a target says that it is connected and verified.
use basket_recovery_ea.Base.{
  ◌≡◌, ◌↔◌, refl, Bool, true, false, ◌&&◌, List, [], ◌∷◌, ◌++◌, arith, any, some, map, Option,
}
use basket_recovery_ea.Base.Int.{pos, int_eq}
use basket_recovery_ea.Base.Text.{Text, strip, text_eq}
use basket_recovery_ea.Mt5.{TargetRow, is_instance_ambiguous, is_empty, normalize_storage_path}
use basket_recovery_ea.Mt5.Conflicts.{
  Conflict, terminal_instance, account_server_duplicate, file_pair, magic_number_taken, when,
  deduped, active_rows, find_id, others, same_instance, same_account, same_files, same_magic,
  row_conflicts, find_target_conflicts,
}
use basket_recovery_ea.Mt5.Status.{
  Issue, conflict, no_issue, card_verified, is_verified_ok, issue_if, derive_card_status,
  file_issues, evaluate_config_match, instance_issues, file_common_pending,
  file_common_pending_path, project_mt5_target,
}

card_verified_lem :
    (row : TargetRow) (config_ok : Bool)
    → (derive_card_status row config_ok ≡ card_verified)
      ↔ ((row.is_enabled && is_verified_ok row.verification_status && config_ok) ≡ true)
unfolding derive_card_status
card_verified_lem row config_ok = ground arith

no_issue-append : (xs ys : List Issue) → no_issue (xs ++ ys) ≡ true → no_issue ys ≡ true
no_issue-append [] ys h = h
no_issue-append (x ∷ xs) ys h = absurd (ground arith)

no_conflict : (cs : List Conflict) → no_issue (map conflict cs) ≡ true → cs ≡ []
no_conflict [] h = refl
no_conflict (c ∷ cs) h = absurd (ground arith)

-- None of the tests of a row against the others holds.
none-conflicting :
    (a b c d : Bool)
    → deduped (
        when a terminal_instance
        ++ when b account_server_duplicate
        ++ when c file_pair
        ++ when d magic_number_taken)
      ≡ []
    → (a ≡ false) × (b ≡ false) × (c ≡ false) × (d ≡ false)
none-conflicting true b c d h = absurd (ground arith)
none-conflicting false true c d h = absurd (ground arith)
none-conflicting false false true d h = absurd (ground arith)
none-conflicting false false false true h = absurd (ground arith)
none-conflicting false false false false h = (refl, refl, refl, refl)

module _ (resolve : Text → Option Text) where
  abbrev pub Alone : TargetRow → List TargetRow → Type 0
  Alone row rest =
      (any (same_instance resolve row) rest ≡ false)
      × (any (same_account resolve row) rest ≡ false)
      × (any (same_files resolve row) rest ≡ false)
      × (any (same_magic resolve row) rest ≡ false)

  config_ok-conflicts :
      (row : TargetRow) (cs : List Conflict) (targets : List TargetRow)
      → no_issue (evaluate_config_match resolve row cs targets) ≡ true
      → cs ≡ []
  unfolding evaluate_config_match
  config_ok-conflicts row cs targets h =
      let files = file_issues (strip row.seed_filename) (strip row.details_filename) in
      let waits =
        issue_if
          (text_eq (normalize_storage_path resolve row.file_common_root)
            (normalize_storage_path resolve file_common_pending_path))
          file_common_pending in
      let first = instance_issues resolve row targets in
      let rest = map conflict cs in
      no_conflict cs (no_issue-append (first ++ waits ++ files) rest h)

  alone :
      (row : TargetRow) (targets : List TargetRow)
      → find_id row.id (active_rows targets) ≡ some row
      → int_eq row.id (pos 0) ≡ false
      → find_target_conflicts resolve targets (some row.id) ≡ []
      → Alone row (others row (active_rows targets))
  unfolding find_target_conflicts row_conflicts
  alone row targets there nonzero h =
      let rest = others row (active_rows targets) in
      none-conflicting (any (same_instance resolve row) rest) (any (same_account resolve row) rest)
        (any (same_files resolve row) rest) (any (same_magic resolve row) rest)
        (ground (arith, there, nonzero, h))

  -- When the card of an active target with an id that is not zero says that it is connected and
  -- verified, its verification succeeded, and no other active target has its data path, its
  -- expected account, its pair of files or its magic number.
  pub card_verified-Alone :
      (row : TargetRow) (targets : List TargetRow)
      → find_id row.id (active_rows targets) ≡ some row
      → int_eq row.id (pos 0) ≡ false
      → (project_mt5_target resolve row targets).card_status ≡ card_verified
      → (is_verified_ok row.verification_status ≡ true)
        × Alone row (others row (active_rows targets))
  unfolding project_mt5_target
  card_verified-Alone row targets there nonzero h =
      let cs = find_target_conflicts resolve targets (some row.id) in
      let k =
        (card_verified_lem row (no_issue (evaluate_config_match resolve row cs targets))).0 h in
      (
        ground arith,
        alone row targets there nonzero (config_ok-conflicts row cs targets (ground arith)),
      )

  ambiguous-empty :
      (row : TargetRow) (targets : List TargetRow)
      → is_instance_ambiguous resolve row targets ≡ true
      → is_empty (normalize_storage_path resolve row.terminal_data_path) ≡ true
  unfolding is_instance_ambiguous
  ambiguous-empty row targets h = ground arith
