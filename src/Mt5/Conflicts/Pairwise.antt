-- ===== src/Mt5/Conflicts/Pairwise.antt =====
-- What a conflict means for two targets, and what the account that a probe detects adds to it.
use basket_recovery_ea.Base.{
  ◌≡◌, refl, sym, ap, ◌∙◌, true, ◌&&◌, List, [], ◌∷◌, ◌++◌, arith, inl, inr, Bool-cases,
  if◌then◌else◌, any, some, none, Option, All,
}
use basket_recovery_ea.Base.Int.{ℤ, pos, negsuc, int_eq}
use basket_recovery_ea.Base.Text.{Text}
use basket_recovery_ea.Mt5.{TargetRow, expected_pair}
use basket_recovery_ea.Mt5.Conflicts.{
  terminal_instance, account_server_duplicate, file_pair, magic_number_taken, when, deduped,
  active_rows, find_id, others, same_instance, same_account, same_files, same_magic, row_conflicts,
  find_target_conflicts, of_current,
}

-- `_targets_with_detected_probe`: the row of the target, with the account that the probe found.
abbrev pub with_probe : Text → Text → TargetRow → TargetRow
with_probe login server row = record row {
  detected_account_login = login;
  detected_server = server;
}

unfoldable pub targets_with_detected_probe :
    TargetRow → Text → Text → List TargetRow → List TargetRow
targets_with_detected_probe row login server [] = []
targets_with_detected_probe row login server (item ∷ items) =
    (if int_eq item.id row.id then with_probe login server row else item)
    ∷ targets_with_detected_probe row login server items

int_eq_refl : (a : ℤ) → int_eq a a ≡ true
int_eq_refl (pos a) = ground arith
int_eq_refl (negsuc a) = ground arith

-- The row stands in the table wherever its id does.
abbrev pub IsRow : TargetRow → TargetRow → Type 0
IsRow row item = int_eq item.id row.id ≡ true → item ≡ row

module _ (row : TargetRow) (login server : Text) where
  others-probed :
      (items : List TargetRow)
      → others row (active_rows (targets_with_detected_probe row login server items))
        ≡ others row (active_rows items)
  unfolding targets_with_detected_probe
  others-probed [] = refl
  others-probed (item ∷ items) = ground (arith, int_eq_refl row.id, others-probed items)

  abbrev probed : Option TargetRow → Option TargetRow
  probed none = none
  probed (some r) = some (with_probe login server row)

  find-probed :
      (items : List TargetRow)
      → All (IsRow row) items
      → find_id row.id (active_rows (targets_with_detected_probe row login server items))
        ≡ probed (find_id row.id (active_rows items))
  unfolding targets_with_detected_probe
  find-probed [] h = refl
  find-probed (item ∷ items) h = elim (Bool-cases (int_eq item.id row.id)) [
    | inl same ↦
        let e = h.0 same in
        ground (arith, same, int_eq_refl row.id, find-probed items h.1, ap (λ r. r.is_enabled) e)
    | inr other ↦ ground (arith, other, find-probed items h.1)
  ]

  find-row :
      (items : List TargetRow) (r : TargetRow)
      → All (IsRow row) items
      → find_id row.id (active_rows items) ≡ some r
      → r ≡ row
  find-row [] r h e = absurd (ground arith)
  find-row (item ∷ items) r h e = elim (Bool-cases (item.is_enabled && int_eq item.id row.id)) [
    | inl here ↦ sym (ground (arith, here, e)) ∙ h.0 (ground arith)
    | inr there ↦ find-row items r h.1 (ground (arith, there, e))
  ]

module _ (resolve : Text → Option Text) where
  probed-conflicts :
      (login server : Text) (row : TargetRow) (rest rest' : List TargetRow)
      → others row rest' ≡ others row rest
      → row_conflicts resolve rest' (with_probe login server row) ≡ row_conflicts resolve rest row
  unfolding row_conflicts same_instance same_account same_files same_magic expected_pair
  probed-conflicts login server row rest rest' h =
      ap
        (λ l.
          when (any (same_instance resolve row) l) terminal_instance
          ++ when (any (same_account resolve row) l) account_server_duplicate
          ++ when (any (same_files resolve row) l) file_pair
          ++ when (any (same_magic resolve row) l) magic_number_taken)
        h

  current-probe :
      (login server : Text) (row : TargetRow) (rest rest' : List TargetRow) (o : Option TargetRow)
      → others row rest' ≡ others row rest
      → ((r : TargetRow) → o ≡ some r → r ≡ row)
      → of_current resolve rest' (probed row login server o) ≡ of_current resolve rest o
  current-probe login server row rest rest' none h same = refl
  current-probe login server row rest rest' (some r) h same =
      rw (same r refl) (ap deduped (probed-conflicts login server row rest rest' h))

  -- When a row stands in the table wherever its id does, the account that a probe detects for it,
  -- put into its row, changes nothing of its conflicts.
  pub find_target_conflicts-targets_with_detected_probe :
      (login server : Text) (row : TargetRow) (items : List TargetRow)
      → All (IsRow row) items
      → find_target_conflicts resolve
          (targets_with_detected_probe row login server items)
          (some row.id)
        ≡ find_target_conflicts resolve items (some row.id)
  unfolding find_target_conflicts
  find_target_conflicts-targets_with_detected_probe login server row items h =
      let act = active_rows items in
      let act' = active_rows (targets_with_detected_probe row login server items) in
      let f = find-probed row login server items h in
      let c =
        current-probe login server row act act' (find_id row.id act)
          (others-probed row login server items) (λ r e. find-row row login server items r h e) in
      elim (Bool-cases (int_eq row.id (pos 0))) [
        | inl zero_id ↦ rw zero_id refl
        | inr other ↦ rw other (ap (λ o. of_current resolve act' o) f ∙ c)
      ]
