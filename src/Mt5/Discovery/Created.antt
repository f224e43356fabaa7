-- ===== src/Mt5/Discovery/Created.antt =====
-- What is known of a target that was created from a discovery.
use basket_recovery_ea.Base.{
  ◌≡◌, refl, sym, ap, ap₂, subst, ◌∙◌, Bool, true, false, not, Option, List, All, arith, any,
  if◌then◌else◌,
}
use basket_recovery_ea.Base.Int.{ℤ}
use basket_recovery_ea.Base.Text.{Text, strip, text_eq, strip-strip}
use basket_recovery_ea.Mt5.{expected_pair, verified_ok, TargetRow}
use basket_recovery_ea.Mt5.Conflicts.{
  active_rows, terminal_instance, account_server_duplicate, same_instance, same_account,
}
use basket_recovery_ea.Mt5.Registration.{
  Checked, accepted, denied, candidate_id, validate_target_registration, normalize_create_payload,
  Payload, RegistrationError, name_taken, blocked_by,
}
use basket_recovery_ea.Mt5.Registration.Laws.{Unlike, validate_target_registration_lem}
use basket_recovery_ea.Mt5.Insertion.{
  and_then, TargetCore, create_target, validate_target_core, inserted_row,
}
use basket_recovery_ea.Mt5.Discovery.{
  Discovery, is_ambiguous, discovered_row, payload_of, normalized_row,
  build_target_payload_from_discovery, prepare_target_row_fields, register_row, verified_row,
  create_target_from_discovery,
}

-- What passes two checks in a row passes both.
and_then-accepted :
    {A B : Type 0} (c : Checked A) (f : A → Checked B) (b : B)
    → and_then c f ≡ accepted b
    → (a : A) × (c ≡ accepted a) × (f a ≡ accepted b)
and_then-accepted (accepted a) f b h = (a, refl, h)
and_then-accepted (denied e) f b h = ground (arith, h)

normalize_create_payload-strips :
    (p r : Payload)
    → normalize_create_payload p ≡ accepted r
    → r.terminal_data_path ≡ strip p.terminal_data_path
unfolding normalize_create_payload
normalize_create_payload-strips p r h = ground (arith, h)

same_row : {A : Type 0} (a b : A) → accepted a ≡ accepted b → a ≡ b
same_row a b h = ground (arith, h)

passed_else :
    {A : Type 0} (b : Bool) (e : RegistrationError) (a a' : A)
    → (if b then denied e else accepted a) ≡ accepted a'
    → (b ≡ false) × (a ≡ a')
passed_else b e a a' h = ground (arith, h)

both_clear :
    (g a b : Bool) (e e' : RegistrationError)
    → g ≡ true
    → (if not g then accepted tt else if a then denied e else if b then denied e' else accepted tt)
      ≡ accepted tt
    → (a ≡ false) × (b ≡ false)
both_clear g a b e e' k h = ground (arith, k, h)

-- A created row has a name that was free.
create_target-accepted :
    (i : ℤ) (rows : List TargetRow) (row : TargetRow) (o : Bool) (x : Text) (t : TargetRow)
    → create_target i rows row o x ≡ accepted t
    → (core : TargetCore) × (any (λ other. text_eq other.name core.name) rows ≡ false)
      × (inserted_row i row core ≡ t)
unfolding create_target
create_target-accepted i rows row o x t h =
    let (core, ok_core, rest) = and_then-accepted (validate_target_core row o x) _ t h in
    let free =
      passed_else (any (λ other. text_eq other.name core.name) rows) name_taken
        (inserted_row i row core) t rest in
    (core, free.0, free.1)

module _ (resolve : Text → Option Text) (base_name : Text → Text) where
  payload_cases :
      (name : Text) (d : Discovery) (row : TargetRow)
      → build_target_payload_from_discovery resolve base_name name d ≡ accepted row
      → (d.can_add_as_target ≡ true)
        × (is_ambiguous d.verification_status ≡ false)
        × (discovered_row resolve base_name name d ≡ row)
  unfolding build_target_payload_from_discovery
  payload_cases name d row h = ground (arith, h)

  -- An enabled row that passes the checks has no active target's data path or account.
  registered-distinct :
      (rows : List TargetRow) (row : TargetRow)
      → All Unlike rows
      → row.is_enabled ≡ true
      → validate_target_registration resolve rows row ≡ accepted tt
      → let cand = record row { id = candidate_id } in
        (any (same_instance resolve cand) (active_rows rows) ≡ false)
        × (any (same_account resolve cand) (active_rows rows) ≡ false)
  registered-distinct rows row u e k =
      let cand = record row { id = candidate_id } in
      let law = validate_target_registration_lem resolve rows row u in
      both_clear row.is_enabled (any (same_instance resolve cand) (active_rows rows))
        (any (same_account resolve cand) (active_rows rows)) (blocked_by terminal_instance)
        (blocked_by account_server_duplicate) e (sym law ∙ k)

  -- A row with stripped account and path is, stored, like the one that was checked.
  stored-distinct :
      (i : ℤ) (rows : List TargetRow) (row : TargetRow) (core : TargetCore) (d : Discovery)
      → strip row.terminal_data_path ≡ row.terminal_data_path
      → strip row.expected_account_login ≡ row.expected_account_login
      → strip row.expected_server ≡ row.expected_server
      → let cand = record row { id = candidate_id } in
        let t =
          verified_row resolve base_name d
            (inserted_row i (prepare_target_row_fields resolve base_name row) core) in
        any (same_instance resolve cand) (active_rows rows) ≡ false
        → any (same_account resolve cand) (active_rows rows) ≡ false
        → (any (same_instance resolve t) (active_rows rows) ≡ false)
          × (any (same_account resolve t) (active_rows rows) ≡ false)
  unfolding same_instance same_account expected_pair verified_row inserted_row
      prepare_target_row_fields
  stored-distinct i rows row core d p q r h k =
      let same_path =
        ap
          (λ x.
            any (same_instance resolve (record row { id = i; terminal_data_path = x }))
              (active_rows rows))
          (ap strip p ∙ p) in
      let same_pair =
        ap₂
          (λ x y.
            any
              (same_account resolve
                (record row { id = i; expected_account_login = x; expected_server = y }))
              (active_rows rows))
          q r in
      (same_path ∙ h, same_pair ∙ k)

  -- The row behind the normalization is enabled, and its path and account are stripped.
  normalized-stripped :
      (name : Text) (d : Discovery) (row : TargetRow) (p : Payload)
      → discovered_row resolve base_name name d ≡ row
      → normalize_create_payload (payload_of resolve base_name row) ≡ accepted p
      → (row.is_enabled ≡ true)
        × (strip p.terminal_data_path ≡ p.terminal_data_path)
        × (strip row.expected_account_login ≡ row.expected_account_login)
        × (strip row.expected_server ≡ row.expected_server)
  unfolding discovered_row
  normalized-stripped name d row p from normal =
      let e = normalize_create_payload-strips (payload_of resolve base_name row) p normal in
      (
        sym (ap (λ r. r.is_enabled) from),
        ap strip e ∙ strip-strip row.terminal_data_path ∙ sym e,
        subst (λ x. strip x ≡ x) (ap (λ r. r.expected_account_login) from)
            (strip-strip d.detected_account_login),
        subst (λ x. strip x ≡ x) (ap (λ r. r.expected_server) from) (strip-strip d.detected_server),
      )

  -- What is promised of the target `t` that a discovery `d` became in the table `rows`.
  abbrev pub Distinct : List TargetRow → Discovery → ℤ → TargetRow → Type 0
  Distinct rows d new_id t =
      (d.can_add_as_target ≡ true)
      × (is_ambiguous d.verification_status ≡ false)
      × (t.id ≡ new_id)
      × (t.is_enabled ≡ true)
      × (t.verification_status ≡ verified_ok)
      × (any (λ other. text_eq other.name t.name) rows ≡ false)
      × (any (same_instance resolve t) (active_rows rows) ≡ false)
      × (any (same_account resolve t) (active_rows rows) ≡ false)

  -- A target is created from a discovery only if the discovery can be added and is not ambiguous.
  -- When no row has the id of a candidate, the created target has the new id, is active and has a
  -- successful verification, and it has neither the name of a row nor the data path or the account
  -- of an active target.
  pub create_target_from_discovery-Distinct :
      (new_id : ℤ) (rows : List TargetRow) (display_name : Text) (d : Discovery) (t : TargetRow)
      → All Unlike rows
      → create_target_from_discovery resolve base_name new_id rows display_name d ≡ accepted t
      → Distinct rows d new_id t
  unfolding create_target_from_discovery register_row verified_row inserted_row
  create_target_from_discovery-Distinct i rows name d t u h =
      let (row, built, h₁) =
        and_then-accepted (build_target_payload_from_discovery resolve base_name name d) _ t h in
      let (p, normal, h₂) =
        and_then-accepted (normalize_create_payload (payload_of resolve base_name row)) _ t h₁ in
      let cand = normalized_row resolve base_name row p in
      let (created, h₃, h₄) =
        and_then-accepted (register_row resolve base_name i rows cand p) _ t h₂ in
      let (_, valid, h₅) =
        and_then-accepted (validate_target_registration resolve rows cand) _ created h₃ in
      let (core, free, stored) =
        create_target-accepted i rows (prepare_target_row_fields resolve base_name cand)
          p.observer_only p.execution_permission created h₅ in
      let (can, clear, from) = payload_cases name d row built in
      let (on, path_stripped, login_stripped, server_stripped) =
        normalized-stripped name d row p from normal in
      let distinct = registered-distinct rows cand u on valid in
      let kept =
        stored-distinct i rows cand core d path_stripped login_stripped server_stripped distinct.0
          distinct.1 in
      let whole = ap (verified_row resolve base_name d) stored ∙ same_row _ _ h₄ in
      subst (Distinct rows d i) whole (can, clear, refl, refl, refl, free, kept.0, kept.1)
