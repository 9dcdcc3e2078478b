-- ===== src/Engine/Advance/Requests.antt =====
-- The life of a request before it is executed: createRequest, secondApprove, attachProposal, reject.
use you_fen.Base.{
  ℕ, ℤ, pos, Bool, true, false, not, Option, none, some, List, [], ◌∷◌, ◌++◌, ◌==◌, ltb, min, find,
  option_eq, or_default, is_some, if◌then◌else◌,
}
use you_fen.Engine.Errors.{
  epoch_not_active, rolling_advance_forbidden, not_found, advance_rate_exceeded, conflict,
  invalid_status, forbidden,
}
use you_fen.Engine.Calc.{
  AdvanceApprovalPath, standard_rule, dual_admin, community_proposal, system_forbidden,
  assert_non_negative_bigint, calculate_cumulative_advance_rate_bps, resolve_advance_approval,
}
use you_fen.Engine.Tables.{AdvanceRequestRow, RequestStatus, is_related_role}
use you_fen.Engine.Db.{
  Tx, ◌>>=◌, ◌>>◌, pure, gets, lift, throw, require, throw_if, modify, fresh_id,
}
use you_fen.Engine.Db.Locks.{lock_active_epoch}
use you_fen.Engine.Ports.{Ports}
use you_fen.Engine.Advance.{AdvanceRequestSummary, load_request, update_request}

pub record AdvanceRequestInput : Type 0 where
  pub community_id : ℕ
  pub member_id : ℕ
  pub amount : ℤ
  pub requested_by : ℕ
  pub is_special_no_contribution : Option Bool
  pub reason : Option ℕ
  pub contribution_ids : Option (List ℕ)

abbrev pub advance_rate_clamp_bps : ℕ
advance_rate_clamp_bps = 2500

abbrev pub proposal_threshold_bps : ℕ
proposal_threshold_bps = 1000

-- The empty text.
abbrev pub no_reason : ℕ
no_reason = 0

-- The status that a request starts in, by its approval path.
abbrev pub initial_status : AdvanceApprovalPath → Tx RequestStatus
initial_status system_forbidden = throw advance_rate_exceeded
initial_status standard_rule = throw conflict
initial_status dual_admin = pure RequestStatus.pending_second_approval
initial_status community_proposal = pure RequestStatus.pending_proposal

abbrev pub request_row :
    AdvanceRequestInput → ℕ → ℕ → ℕ → RequestStatus → Bool → ℕ → ℕ → AdvanceRequestRow
request_row i epoch_id requested_amount rate status related_party now id = record {
  id = id;
  community_id = i.community_id;
  epoch_id = epoch_id;
  member_id = i.member_id;
  requested_amount = requested_amount;
  approved_amount = none;
  advance_rate_bps = rate;
  reason = or_default i.reason no_reason;
  contribution_ids = or_default i.contribution_ids [];
  status = status;
  related_party = related_party;
  requested_by = i.requested_by;
  second_approved_by = none;
  proposal_id = none;
  approved_at = none;
  executed_at = none;
  public_record_id = none;
  created_at = now;
}

-- `tokenAdvanceRequest.create`
unfoldable pub insert_request : (ℕ → AdvanceRequestRow) → Tx ℕ
insert_request row_of = do
  id ← fresh_id
  modify λ d. record d { advance_requests = d.advance_requests ++ row_of id ∷ [] }
  pure id

-- The rate calculation has thrown for a negative amount, so the one here passes.
unfoldable pub create_request : Ports → AdvanceRequestInput → Tx AdvanceRequestSummary
unfolding lock_active_epoch
create_request ports i = do
  epoch ← require (← lock_active_epoch i.community_id) epoch_not_active
  throw_if (ltb 0 epoch.advance_debt_from_previous_epoch) rolling_advance_forbidden
  member ← require (← gets λ d. find (λ m. m.id == i.member_id) d.members) not_found
  cumulative_bps ← lift (
      calculate_cumulative_advance_rate_bps (pos epoch.advanced_minted_amount) i.amount
        (pos epoch.base_mint_budget))
  status ← initial_status (
      resolve_advance_approval cumulative_bps (is_related_role member.role)
        (or_default i.is_special_no_contribution false))
  requested_amount ← lift (assert_non_negative_bigint i.amount)
  id ← insert_request (
      request_row i epoch.id requested_amount (min cumulative_bps advance_rate_clamp_bps) status
        (is_related_role member.role) ports.now)
  pure (record { request_id = id; status = status })

abbrev pub approve_second : ℕ → ℕ → AdvanceRequestRow → AdvanceRequestRow
approve_second approver_id now r = record r {
  status = RequestStatus.approved;
  second_approved_by = some approver_id;
  approved_at = some now;
}

-- `secondApprove`, from the status that was loaded.
abbrev pub second_approve_from :
    Ports → ℕ → AdvanceRequestRow → RequestStatus → Tx AdvanceRequestSummary
second_approve_from ports approver_id req RequestStatus.approved = do
  throw_if (not (option_eq req.second_approved_by (some approver_id))) invalid_status
  pure (record { request_id = req.id; status = RequestStatus.approved })
second_approve_from ports approver_id req RequestStatus.pending_second_approval = do
  throw_if (approver_id == req.requested_by) forbidden
  update_request req.id (approve_second approver_id ports.now)
  pure (record { request_id = req.id; status = RequestStatus.approved })
second_approve_from ports approver_id req _ = throw invalid_status

unfoldable pub second_approve : Ports → ℕ → ℕ → Tx AdvanceRequestSummary
unfolding load_request update_request
second_approve ports id approver_id = do
  req ← load_request id
  second_approve_from ports approver_id req req.status

abbrev is_pending_proposal : RequestStatus → Bool
is_pending_proposal RequestStatus.pending_proposal = true
is_pending_proposal _ = false

abbrev is_undecided : RequestStatus → Bool
is_undecided RequestStatus.pending_second_approval = true
is_undecided RequestStatus.pending_proposal = true
is_undecided _ = false

abbrev is_rejected : RequestStatus → Bool
is_rejected RequestStatus.rejected = true
is_rejected _ = false

abbrev pub set_proposal : ℕ → AdvanceRequestRow → AdvanceRequestRow
set_proposal proposal_id r = record r { proposal_id = some proposal_id }

unfoldable pub attach_proposal : ℕ → ℕ → Tx AdvanceRequestSummary
unfolding load_request update_request
attach_proposal id proposal_id = do
  req ← load_request id
  if option_eq req.proposal_id (some proposal_id)
      then pure (record { request_id = req.id; status = req.status })
      else (do
        throw_if (not (is_pending_proposal req.status)) invalid_status
        throw_if (is_some req.proposal_id) conflict
        update_request id (set_proposal proposal_id)
        pure (record { request_id = req.id; status = RequestStatus.pending_proposal }))

abbrev pub set_rejected : AdvanceRequestRow → AdvanceRequestRow
set_rejected r = record r { status = RequestStatus.rejected }

unfoldable pub reject : ℕ → Tx AdvanceRequestSummary
unfolding load_request update_request
reject id = do
  req ← load_request id
  if is_rejected req.status
      then pure (record { request_id = req.id; status = RequestStatus.rejected })
      else (do
        throw_if (not (is_undecided req.status)) invalid_status
        update_request id set_rejected
        pure (record { request_id = req.id; status = RequestStatus.rejected }))
