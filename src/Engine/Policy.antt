-- ===== src/Engine/Policy.antt =====
-- lib/engine/policy-service.ts: versions of a community's token policy, pending until an epoch ends.
pub mod Frames
pub mod Listing
use you_fen.Base.{
  ℕ, suc, ◌+◌, ℤ, pos, negsuc, Bool, true, false, ◌&&◌, Option, none, some, List, [], ◌∷◌, ◌++◌,
  ◌==◌, leb, any, find, update_first, option_eq, or_default, is_some, if◌then◌else◌,
}
use you_fen.Engine.Errors.{
  Result, ok, fail, validation_error, not_found, conflict, epoch_not_active,
}
use you_fen.Engine.Tables.{PolicyRow, PolicyRule, PolicyVersionRow, RecordType, SourceTable}
use you_fen.Engine.Db.{
  Db, Tx, ◌>>=◌, ◌>>◌, pure, gets, lift, require, throw_if, modify, fresh_id, assert_found,
}
use you_fen.Engine.Db.Locks.{is_active_epoch}
use you_fen.Engine.Ports.{Ports, RecordSource, create_pending_record, create_db_only_record}

-- `assertBps` for one value, which is handed on as a natural number.
abbrev pub assert_bps : ℤ → Result ℕ
assert_bps (pos n) = if leb n 10000 then ok n else fail validation_error
assert_bps (negsuc n) = fail validation_error

abbrev pub is_policy_of : ℕ → PolicyRow → Bool
is_policy_of community_id p = p.community_id == community_id

-- `readPolicy`
unfoldable pub read_policy : ℕ → Tx (Option PolicyRow)
read_policy community_id = gets λ d. find (is_policy_of community_id) d.policies

-- `communityTokenPolicy.update`
unfoldable pub update_policy : ℕ → (PolicyRow → PolicyRow) → Tx Unit
update_policy community_id change = do
  assert_found (← gets λ d. any (is_policy_of community_id) d.policies)
  modify λ d. record d { policies = update_first (is_policy_of community_id) change d.policies }

pub record PendingVersionInput : Type 0 where
  pub community_id : ℕ
  pub proposal_id : ℕ
  pub monthly_inflation_rate_bps : ℤ
  pub max_advance_rate_bps : ℤ
  pub member_mint_cap_rate_bps : ℤ
  pub rules : Option (List PolicyRule)

pub record PendingVersion : Type 0 where
  pub version_id : ℕ
  pub version : ℕ
  pub effective_epoch : ℕ

abbrev pub policy_version_row :
    PendingVersionInput → PolicyRow → ℕ → ℕ → ℕ → ℕ → ℕ → ℕ → PolicyVersionRow
policy_version_row i policy inflation advance cap next_epoch_number now id = record {
  id = id;
  policy_id = policy.id;
  version = policy.policy_version + 1;
  effective_epoch = next_epoch_number;
  monthly_inflation_rate_bps = inflation;
  max_advance_rate_bps = advance;
  member_mint_cap_rate_bps = cap;
  rules = if is_some i.rules then i.rules else policy.rules;
  proposal_id = i.proposal_id;
  public_record_id = none;
  created_at = now;
}

abbrev pub same_version : PolicyVersionRow → PolicyVersionRow → Bool
same_version a b = a.policy_id == b.policy_id && a.version == b.version

-- `tokenPolicyVersion.create`, where the unique key [policyId, version] turns into CONFLICT.
unfoldable pub insert_policy_version : (ℕ → PolicyVersionRow) → Tx PolicyVersionRow
insert_policy_version row_of = do
  id ← fresh_id
  throw_if (← gets λ d. any (same_version (row_of id)) d.policy_versions) conflict
  modify λ d. record d { policy_versions = d.policy_versions ++ row_of id ∷ [] }
  pure (row_of id)

abbrev pub set_pending : ℕ → ℕ → PolicyRow → PolicyRow
set_pending version_id next_epoch_number p = record p {
  pending_policy_version_id = some version_id;
  pending_policy_effective_epoch = some next_epoch_number;
}

-- `createPendingVersion`
unfoldable pub create_pending_version : Ports → PendingVersionInput → Tx PendingVersion
create_pending_version ports i = do
  policy ← require (← read_policy i.community_id) not_found
  throw_if (is_some policy.pending_policy_version_id) conflict
  inflation ← lift (assert_bps i.monthly_inflation_rate_bps)
  advance ← lift (assert_bps i.max_advance_rate_bps)
  cap ← lift (assert_bps i.member_mint_cap_rate_bps)
  epoch ← require (← gets λ d. find (is_active_epoch i.community_id) d.epochs) epoch_not_active
  created ←
      insert_policy_version
        (policy_version_row i policy inflation advance cap (epoch.epoch_number + 1) ports.now)
  update_policy i.community_id (set_pending created.id (epoch.epoch_number + 1))
  pure (record {
    version_id = created.id;
    version = created.version;
    effective_epoch = epoch.epoch_number + 1;
  })

-- The version takes the place of the parameters that were live.
abbrev pub flip : PolicyVersionRow → PolicyRow → PolicyRow
flip v p = record p {
  monthly_inflation_rate_bps = v.monthly_inflation_rate_bps;
  max_advance_rate_bps = v.max_advance_rate_bps;
  member_mint_cap_rate_bps = v.member_mint_cap_rate_bps;
  rules = v.rules;
  policy_version = v.version;
  pending_policy_version_id = none;
  pending_policy_effective_epoch = none;
}

abbrev pub policy_source : ℕ → PolicyVersionRow → RecordSource
policy_source community_id v = RecordSource.policy_version (record {
  id = v.id;
  community_id = community_id;
  policy_version = v.version;
  monthly_inflation_rate_bps = v.monthly_inflation_rate_bps;
  max_advance_rate_bps = v.max_advance_rate_bps;
  member_mint_cap_rate_bps = v.member_mint_cap_rate_bps;
  effective_epoch = v.effective_epoch;
  created_at = v.created_at;
})

abbrev pub set_version_record : ℕ → PolicyVersionRow → PolicyVersionRow
set_version_record record_id v = record v { public_record_id = some record_id }

-- The writes of an activation; returns the id of the record to submit.
unfoldable pub activate_version : Ports → ℕ → ℕ → PolicyRow → ℕ → Tx ℕ
activate_version ports community_id next_epoch_number policy version_id = do
  v ← require (← gets λ d. find (λ r. r.id == version_id) d.policy_versions) not_found
  update_policy community_id (flip v)
  record_id ←
      create_pending_record RecordType.policy_version SourceTable.token_policy_version v.id
        community_id (ports.build_envelope (policy_source community_id v))
  assert_found (← gets λ d. any (λ r. r.id == v.id) d.policy_versions)
  modify λ d. record d {
    policy_versions =
        update_first (λ r. r.id == v.id) (set_version_record record_id) d.policy_versions;
  }
  changed_id ←
      create_db_only_record ports community_id RecordType.inflation_rate_change
        SourceTable.community_token_policy policy.id
        (policy.monthly_inflation_rate_bps
          ∷ (v.monthly_inflation_rate_bps ∷ (next_epoch_number ∷ [])))
  pure record_id

-- The pending version of the policy that was read, if it is for this epoch.
abbrev pub activate_pending : Ports → ℕ → ℕ → PolicyRow → Option ℕ → Tx (Option ℕ)
activate_pending ports community_id next_epoch_number policy none = pure none
activate_pending ports community_id next_epoch_number policy (some version_id) =
    if option_eq policy.pending_policy_effective_epoch (some next_epoch_number)
    then (do
      record_id ← activate_version ports community_id next_epoch_number policy version_id
      pure (some record_id))
    else pure none

abbrev pub activate_if_policy : Ports → ℕ → ℕ → Option PolicyRow → Tx (Option ℕ)
activate_if_policy ports community_id next_epoch_number none = pure none
activate_if_policy ports community_id next_epoch_number (some policy) =
    activate_pending ports community_id next_epoch_number policy policy.pending_policy_version_id

-- `activatePendingVersion`: the id of the chain record, if a version was activated.
unfoldable pub activate_pending_version : Ports → ℕ → ℕ → Tx (Option ℕ)
activate_pending_version ports community_id next_epoch_number = do
  policy ← read_policy community_id
  activate_if_policy ports community_id next_epoch_number policy
