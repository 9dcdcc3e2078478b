-- ===== src/Engine/Advance/Conservation.antt =====
-- The advance service keeps the books of every community in balance.
use you_fen.Base.{ℕ, ◌+◌, ◌≡◌, refl, Option, none, some, List, arith}
use you_fen.Engine.Errors.{ok}
use you_fen.Engine.Calc.{
  AdvanceApprovalPath, standard_rule, dual_admin, community_proposal, system_forbidden,
}
use you_fen.Engine.Tables.{AdvanceRequestRow, RequestStatus, EpochRow, MintEventRow}
use you_fen.Engine.Db.{Db, Tx}
use you_fen.Engine.Db.Keeps.{
  Keeps, Triple, Triple-keeps, Triple-bind, Keeps-lift, Keeps-require, Keeps-gets, Keeps-throw_if,
  Keeps-modify, Keeps-bind, Keeps-pure, reads,
}
use you_fen.Engine.Db.Locks.{lock_epoch_by_id}
use you_fen.Engine.Ports.{Ports}
use you_fen.Engine.Books.{counts_for, Totals, Balanced}
use you_fen.Engine.Books.Acts.{Acts, Acts-Balanced}
use you_fen.Engine.Books.Updates.{books_open, Totals-frame, Totals-recount}
use you_fen.Engine.Books.Steps.{
  allocate_ledger_seq-Keeps, credit_member-Totals, meter_advanced-Keeps,
  lock_or_create_balance-Keeps, create_db_only_record-Keeps, fresh_id-Keeps,
}
use you_fen.Engine.Mint.{MintOutcome}
use you_fen.Engine.Mint.Events.{insert_mint_event-Totals, attach_record-Keeps}
use you_fen.Engine.Advance.{load_request, update_request}
use you_fen.Engine.Advance.Requests.{
  AdvanceRequestInput, initial_status, insert_request, create_request, second_approve,
  second_approve_from, attach_proposal, reject,
}
use you_fen.Engine.Advance.Execute.{
  ExecuteInput, AdvancePlan, recheck_approval, check_advance, credit_pending, insert_advance,
  settle_advance, mint_unless_prior, execute_from, execute,
}

module _ (c h s m r : ℕ) where
  requests-Totals :
      (d : Db) (qs : List AdvanceRequestRow)
      → Totals c h s m r d
      → Totals c h s m r (record d { advance_requests = qs })
  requests-Totals d qs t = Totals-frame c h s m r d _ t refl refl refl refl refl refl

  load_request-Keeps : (id : ℕ) → Keeps (Totals c h s m r) (load_request id)
  unfolding load_request
  load_request-Keeps id = search reads depth 14

  update_request-Keeps :
      (id : ℕ) (f : AdvanceRequestRow → AdvanceRequestRow)
      → Keeps (Totals c h s m r) (update_request id f)
  unfolding update_request
  update_request-Keeps id f = search (reads, Keeps-modify, requests-Totals) depth 14

  initial_status-Keeps : (p : AdvanceApprovalPath) → Keeps (Totals c h s m r) (initial_status p)
  initial_status-Keeps standard_rule = search reads
  initial_status-Keeps dual_admin = search reads
  initial_status-Keeps community_proposal = search reads
  initial_status-Keeps system_forbidden = search reads

  insert_request-Keeps :
      (row_of : ℕ → AdvanceRequestRow) → Keeps (Totals c h s m r) (insert_request row_of)
  unfolding insert_request
  insert_request-Keeps row_of =
      Keeps-bind _ _ (fresh_id-Keeps c h s m r)
        λ id. Keeps-bind _ _ (Keeps-modify _ (λ d t. requests-Totals d _ t)) λ u. Keeps-pure _

  pub create_request-Keeps :
      (ports : Ports) (i : AdvanceRequestInput) → Keeps (Totals c h s m r) (create_request ports i)
  unfolding create_request
  create_request-Keeps ports i = search (reads, initial_status-Keeps, insert_request-Keeps) depth 40

  second_approve_from-Keeps :
      (ports : Ports) (a : ℕ) (q : AdvanceRequestRow) (st : RequestStatus)
      → Keeps (Totals c h s m r) (second_approve_from ports a q st)
  second_approve_from-Keeps ports a q RequestStatus.pending_second_approval =
      search (reads, update_request-Keeps) depth 14
  second_approve_from-Keeps ports a q RequestStatus.approved = search reads depth 14
  second_approve_from-Keeps ports a q RequestStatus.pending_proposal = search reads
  second_approve_from-Keeps ports a q RequestStatus.rejected = search reads
  second_approve_from-Keeps ports a q RequestStatus.executed = search reads
  second_approve_from-Keeps ports a q RequestStatus.other = search reads

  pub second_approve-Keeps :
      (ports : Ports) (id a : ℕ) → Keeps (Totals c h s m r) (second_approve ports id a)
  unfolding second_approve
  second_approve-Keeps ports id a =
      search (reads, load_request-Keeps, second_approve_from-Keeps) depth 14

  pub attach_proposal-Keeps : (id p : ℕ) → Keeps (Totals c h s m r) (attach_proposal id p)
  unfolding attach_proposal
  attach_proposal-Keeps id p = search (reads, load_request-Keeps, update_request-Keeps) depth 14

  pub reject-Keeps : (id : ℕ) → Keeps (Totals c h s m r) (reject id)
  unfolding reject
  reject-Keeps id = search (reads, load_request-Keeps, update_request-Keeps) depth 14

  recheck_approval-Keeps :
      (q : AdvanceRequestRow) (bps : ℕ) (p : Option ℕ)
      → Keeps (Totals c h s m r) (recheck_approval q bps p)
  recheck_approval-Keeps q bps none = search reads depth 14
  recheck_approval-Keeps q bps (some p) = search reads depth 14

  check_advance-Keeps :
      (q : AdvanceRequestRow) (e : EpochRow) → Keeps (Totals c h s m r) (check_advance q e)
  unfolding check_advance
  check_advance-Keeps q e = search (reads, recheck_approval-Keeps) depth 30

  -- The mint of the advance adds its amount to what the community minted.
  insert_advance-Totals :
      (ports : Ports) (i : ExecuteInput) (q : AdvanceRequestRow) (plan : AdvancePlan)
      → Triple
          (Totals c h s m r)
          (insert_advance ports i q plan)
          (λ mint. Totals c h s (m + counts_for c q.community_id plan.amount) r)
  unfolding insert_advance
  insert_advance-Totals ports i q plan = Triple-bind (Triple-keeps (Keeps-gets _)) λ found.
      Triple-bind (Triple-keeps (Keeps-require _ _)) λ state.
        Triple-bind
          (Triple-keeps (lock_or_create_balance-Keeps c h s m r q.community_id q.member_id))
          λ balance.
            Triple-bind (Triple-keeps (allocate_ledger_seq-Keeps c h s m r q.community_id)) λ seq.
              Triple-bind (Triple-keeps (Keeps-lift _)) λ before.
                Triple-bind (Triple-keeps (Keeps-lift _)) λ after.
                  insert_mint_event-Totals c h s m r q.community_id _ plan.amount (λ id. refl)
                    (λ id. refl)

settle_advance-Totals :
    (c h s m r : ℕ) (ports : Ports) (q : AdvanceRequestRow) (plan : AdvancePlan)
    (mint : MintEventRow)
    → let δ = counts_for c q.community_id plan.amount in
      Triple
        (Totals c h s m r)
        (settle_advance ports q plan mint)
        (λ o. Totals c (h + δ) (s + δ) m r)
unfolding settle_advance
settle_advance-Totals c h s m r ports q plan mint =
    let δ = counts_for c q.community_id plan.amount in
    Triple-bind
      (credit_member-Totals c h s m r q.community_id q.member_id plan.amount
        (credit_pending plan.amount) (λ b. refl) (λ b. refl) (λ b. refl) (λ b split. omega arith))
      λ u. Triple-keeps (
        search
          (
            reads,
            meter_advanced-Keeps c (h + δ) (s + δ) m r,
            update_request-Keeps c (h + δ) (s + δ) m r,
            attach_record-Keeps c (h + δ) (s + δ) m r,
            create_db_only_record-Keeps c (h + δ) (s + δ) m r,
          )
          depth 30)

-- What an execution adds: the amount of one mint, or nothing.
abbrev Grown : ℕ → ℕ → ℕ → ℕ → ℕ → MintOutcome → Db → Type 0
Grown c h s m r o d = (δ : ℕ) × Totals c (h + δ) (s + δ) (m + δ) r d

module _ (c h s m r : ℕ) where
  still :
      {m' : Tx MintOutcome}
      → Keeps (Totals c h s m r) m'
      → Triple (Totals c h s m r) m' (Grown c h s m r)
  still k = record {
    at = λ d o e run t.
        (0, Totals-recount e (omega arith) (omega arith) (omega arith) refl (k.at d o e run t));
  }

  mint_unless_prior-Totals :
      (ports : Ports) (i : ExecuteInput) (q : AdvanceRequestRow) (e : EpochRow)
      (prior : Option MintEventRow)
      → Triple (Totals c h s m r) (mint_unless_prior ports i q e prior) (Grown c h s m r)
  mint_unless_prior-Totals ports i q e (some prior) = still (search reads)
  mint_unless_prior-Totals ports i q e none =
      Triple-bind (Triple-keeps (check_advance-Keeps c h s m r q e)) λ plan.
        Triple-bind (insert_advance-Totals c h s m r ports i q plan) λ mint. record {
          at = λ d o f run t. (
            counts_for c q.community_id plan.amount,
            (settle_advance-Totals c h s _ r ports q plan mint).at d o f run t,
          );
        }

  execute_from-Totals :
      (ports : Ports) (i : ExecuteInput) (q : AdvanceRequestRow) (st : RequestStatus)
      → Triple (Totals c h s m r) (execute_from ports i q st) (Grown c h s m r)
  unfolding lock_epoch_by_id
  execute_from-Totals ports i q RequestStatus.executed = still (search reads depth 14)
  execute_from-Totals ports i q RequestStatus.approved =
      Triple-bind (Triple-keeps (search reads)) λ found.
        Triple-bind (Triple-keeps (Keeps-require _ _)) λ epoch.
          Triple-bind (Triple-keeps (Keeps-throw_if _ _)) λ u.
            Triple-bind (Triple-keeps (Keeps-gets _))
              λ prior. mint_unless_prior-Totals ports i q epoch prior
  execute_from-Totals ports i q RequestStatus.pending_second_approval = still (search reads)
  execute_from-Totals ports i q RequestStatus.pending_proposal = still (search reads)
  execute_from-Totals ports i q RequestStatus.rejected = still (search reads)
  execute_from-Totals ports i q RequestStatus.other = still (search reads)

  execute-Totals :
      (ports : Ports) (i : ExecuteInput)
      → Triple (Totals c h s m r) (execute ports i) (Grown c h s m r)
  unfolding execute
  execute-Totals ports i =
      Triple-bind (Triple-keeps (load_request-Keeps c h s m r i.request_id))
        λ q. execute_from-Totals ports i q q.status

pub execute-Acts :
    (ports : Ports) (i : ExecuteInput) (c : ℕ) (d : Db) (o : MintOutcome) (e : Db)
    → Balanced c d
    → execute ports i d ≡ ok (o, e)
    → Acts c d e
execute-Acts ports i c d o e books run =
    let (δ, t) = (execute-Totals c _ _ _ _ ports i).at d o e run (books_open c d books) in
    Acts.issues δ t

-- An execution of an advance that commits keeps the books of every community in balance.
pub execute-Balanced :
    (ports : Ports) (i : ExecuteInput) (c : ℕ) (d : Db) (o : MintOutcome) (e : Db)
    → Balanced c d
    → execute ports i d ≡ ok (o, e)
    → Balanced c e
execute-Balanced ports i c d o e books run =
    Acts-Balanced c d e (execute-Acts ports i c d o e books run) books
