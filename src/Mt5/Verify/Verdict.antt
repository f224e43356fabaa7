-- ===== src/Mt5/Verify/Verdict.antt =====
-- Exactly when the verification of a target succeeds.
use basket_recovery_ea.Base.{
  ◌≡◌, ◌≢◌, ◌↔◌, refl, ap, subst, ◌∙◌, sym, Bool-cases, inl, inr, if◌then◌else◌, Bool, true, false,
  not, ◌&&◌, List, arith, Option,
}
use basket_recovery_ea.Base.Text.{Text}
use basket_recovery_ea.Mt5.{
  TargetRow, VerificationStatus, verified_ok, real_account_warning, account_mismatch,
  server_mismatch, xauusd_not_found, instance_data_mismatch, instance_path_user_supplied,
}
use basket_recovery_ea.Mt5.Status.{is_verified_ok}
use basket_recovery_ea.Mt5.Verify.{
  ProbeResult, is_probe_verified, is_unproved, is_other_data, is_real_for_demo, is_other_login,
  is_other_server, has_duplicate, status_of_verified, status_after_probe, replaced_if,
}

true≢false : true ≢ false
true≢false h = ground arith

-- A test replaces the status by one that is neither of the two good ones.
replaced-probe :
    (b : Bool) (new old : VerificationStatus)
    → is_probe_verified new ≡ false
    → is_probe_verified (replaced_if b new old) ≡ (not b && is_probe_verified old)
replaced-probe true new old h = h
replaced-probe false new old h = refl

replaced-ok :
    (b : Bool) (new old : VerificationStatus)
    → is_verified_ok new ≡ false
    → is_verified_ok old ≡ false
    → is_verified_ok (replaced_if b new old) ≡ false
replaced-ok true new old h k = h
replaced-ok false new old h k = k

last_status :
    (s : VerificationStatus)
    → is_verified_ok s ≡ false
    → (replaced_if (is_probe_verified s) verified_ok s ≡ verified_ok) ↔ (is_probe_verified s ≡ true)
last_status s h = ground (arith, h)

-- The tests on any status that the data paths leave.
abbrev rungs : VerificationStatus → Bool → Bool → Bool → Bool → Bool → VerificationStatus
rungs s b c d e f =
    let s₂ = replaced_if b real_account_warning s in
    let s₃ = replaced_if c account_mismatch s₂ in
    let s₄ = replaced_if d server_mismatch s₃ in
    let s₅ = replaced_if (not e && is_probe_verified s₄) xauusd_not_found s₄ in
    let s₆ = replaced_if f account_mismatch s₅ in replaced_if (is_probe_verified s₆) verified_ok s₆

ladder :
    (s : VerificationStatus) (b c d e f : Bool)
    → is_verified_ok s ≡ false
    → let s₂ = replaced_if b real_account_warning s in
      let s₃ = replaced_if c account_mismatch s₂ in
      let s₄ = replaced_if d server_mismatch s₃ in
      let s₅ = replaced_if (not e && is_probe_verified s₄) xauusd_not_found s₄ in
      let s₆ = replaced_if f account_mismatch s₅ in
      (replaced_if (is_probe_verified s₆) verified_ok s₆ ≡ verified_ok)
      ↔ ((is_probe_verified s && not b && not c && not d && e && not f) ≡ true)
ladder s b c d e f h =
    let s₂ = replaced_if b real_account_warning s in
    let s₃ = replaced_if c account_mismatch s₂ in
    let s₄ = replaced_if d server_mismatch s₃ in
    let g = not e && is_probe_verified s₄ in
    let s₅ = replaced_if g xauusd_not_found s₄ in
    let s₆ = replaced_if f account_mismatch s₅ in
    let k₂ = replaced-ok b real_account_warning s refl h in
    let k₃ = replaced-ok c account_mismatch s₂ refl k₂ in
    let k₄ = replaced-ok d server_mismatch s₃ refl k₃ in
    let k₅ = replaced-ok g xauusd_not_found s₄ refl k₄ in
    let k₆ = replaced-ok f account_mismatch s₅ refl k₅ in
    let p₂ = replaced-probe b real_account_warning s refl in
    let p₃ = replaced-probe c account_mismatch s₂ refl in
    let p₄ = replaced-probe d server_mismatch s₃ refl in
    let p₅ = replaced-probe g xauusd_not_found s₄ refl in
    let p₆ = replaced-probe f account_mismatch s₅ refl in
    let l = last_status s₆ k₆ in
    let q₄ : is_probe_verified s₄ ≡ (is_probe_verified s && not b && not c && not d) =
      ground (arith, p₂, p₃, p₄) in
    let q₆ : is_probe_verified s₆ ≡ (is_probe_verified s && not b && not c && not d && e && not f) =
      ground (arith, q₄, p₅, p₆) in
    subst (λ x. (replaced_if (is_probe_verified s₆) verified_ok s₆ ≡ verified_ok) ↔ (x ≡ true)) q₆ l

-- What the data paths leave of a good status.
data_status : Bool → Bool → VerificationStatus → VerificationStatus
data_status u o s =
    if u then instance_path_user_supplied else replaced_if o instance_data_mismatch s

data_status-ok :
    (u o : Bool) (s : VerificationStatus)
    → is_verified_ok s ≡ false
    → is_verified_ok (data_status u o s) ≡ false
unfolding data_status
data_status-ok true o s h = refl
data_status-ok false o s h = replaced-ok o instance_data_mismatch s refl h

data_status-probe :
    (u o : Bool) (s : VerificationStatus)
    → is_probe_verified (data_status u o s) ≡ (is_probe_verified s && not u && not o)
unfolding data_status
data_status-probe true o s = ground arith
data_status-probe false o s = ground (arith, replaced-probe o instance_data_mismatch s refl)

whole_ladder :
    (s : VerificationStatus) (u o b c d e f : Bool)
    → is_verified_ok s ≡ false
    → (rungs (data_status u o s) b c d e f ≡ verified_ok)
      ↔ ((is_probe_verified s && not u && not o && not b && not c && not d && e && not f) ≡ true)
whole_ladder s u o b c d e f h =
    subst
      (λ x.
        (rungs (data_status u o s) b c d e f ≡ verified_ok)
        ↔ ((x && not b && not c && not d && e && not f) ≡ true))
      (data_status-probe u o s) (ladder (data_status u o s) b c d e f (data_status-ok u o s h))

first_passes :
    (p u o b c d e f : Bool)
    → (p && not u && not o && not b && not c && not d && e && not f) ≡ true
    → p ≡ true
first_passes p u o b c d e f h = ground arith

module _ (resolve : Text → Option Text) (row : TargetRow) (probe : ProbeResult) where
  -- The probe and all the tests behind it succeed.
  abbrev pub all_pass : List TargetRow → Bool
  all_pass all_targets =
      is_probe_verified probe.status
      && not (is_unproved resolve row probe)
      && not (is_other_data resolve row probe)
      && not (is_real_for_demo resolve row probe)
      && not (is_other_login resolve row probe)
      && not (is_other_server resolve row probe)
      && probe.is_xauusd_available
      && not (has_duplicate resolve row probe all_targets)

  verified_lem :
      (all_targets : List TargetRow)
      → is_verified_ok probe.status ≡ false
      → (status_of_verified resolve row probe all_targets ≡ verified_ok)
        ↔ (all_pass all_targets ≡ true)
  unfolding status_of_verified data_status
  verified_lem all_targets h =
      whole_ladder probe.status (is_unproved resolve row probe) (is_other_data resolve row probe)
        (is_real_for_demo resolve row probe) (is_other_login resolve row probe)
        (is_other_server resolve row probe) probe.is_xauusd_available
        (has_duplicate resolve row probe all_targets) h

  after_success :
      (all_targets : List TargetRow)
      → is_probe_verified probe.status ≡ true
      → status_after_probe resolve row probe all_targets
        ≡ status_of_verified resolve row probe all_targets
  unfolding status_after_probe
  after_success all_targets good = rw good refl

  after_failure :
      (all_targets : List TargetRow)
      → is_probe_verified probe.status ≡ false
      → status_after_probe resolve row probe all_targets ≡ probe.status
  unfolding status_after_probe
  after_failure all_targets bad = rw bad refl

  -- When the probe's own status is not the service's good one, the verification of a target gives
  -- it the good status exactly if the probe succeeded, it found the configured data path (or none
  -- is configured), no real account for an expected demo account, the expected login and server
  -- (where both sides have one) and the gold symbol, and the targets show no duplicate account.
  pub status_after_probe_lem :
      (all_targets : List TargetRow)
      → is_verified_ok probe.status ≡ false
      → (status_after_probe resolve row probe all_targets ≡ verified_ok)
        ↔ (all_pass all_targets ≡ true)
  status_after_probe_lem all_targets h = elim (Bool-cases (is_probe_verified probe.status)) [
    | inl good ↦
        subst (λ x. (x ≡ verified_ok) ↔ (all_pass all_targets ≡ true))
          (sym (after_success all_targets good)) (verified_lem all_targets h)
    | inr bad ↦ (
      λ e.
          absurd
            (true≢false (sym (ap is_verified_ok (sym (after_failure all_targets bad) ∙ e)) ∙ h)),
      λ p. absurd (
          true≢false (
            sym (
              first_passes (is_probe_verified probe.status) (is_unproved resolve row probe)
                (is_other_data resolve row probe) (is_real_for_demo resolve row probe)
                (is_other_login resolve row probe) (is_other_server resolve row probe)
                probe.is_xauusd_available (has_duplicate resolve row probe all_targets) p)
            ∙ bad)),
    )
  ]
