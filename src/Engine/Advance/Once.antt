-- ===== src/Engine/Advance/Once.antt =====
-- An advance that has been executed is not minted again.
mod Traces
use you_fen.Base.{
  ℕ, ◌≡◌, refl, sym, subst, ap, ◌∙◌, Bool, true, none, some, List, [], ◌∷◌, ◌==◌, any, find,
  find_sound, update_first, find-update_first, any-append, any-update_first, any-find, option_eq,
  or_default, Option-cases, Bool-cases, inl, inr, ==_refl, ==_iff, arith,
}
use you_fen.Engine.Errors.{ok}
use you_fen.Engine.Tables.{
  MintEventRow, AdvanceRequestRow, RequestStatus, EpochRow, RecordType, SourceTable,
  epoch_is_active,
}
use you_fen.Engine.Db.{Db, Tx, ◌>>=◌}
use you_fen.Engine.Db.Keeps.{
  Commits, Keeps, Keeps-modify, Keeps-fresh_id, Keeps-update, Keeps-bind, Keeps-pure, reads,
  >>=-inv, Triple, Triple-bind, Triple-keeps,
}
use you_fen.Engine.Db.Locks.{lock_epoch_by_id}
use you_fen.Engine.Db.Sql.{increment_advanced_minted_guarded}
use you_fen.Engine.Balances.{credit_balance, grow_supply, credit_member}
use you_fen.Engine.Ports.{Ports, create_pending_record, create_db_only_record}
use you_fen.Engine.Mint.{MintOutcome, attach_record, set_mint_record}
use you_fen.Engine.Mint.Events.{insert_mint_event-run}
use you_fen.Engine.Advance.{load_request, update_request}
use you_fen.Engine.Advance.Execute.{
  ExecuteInput, AdvancePlan, mint_outcome_from, mint_of_request, check_advance, mark_executed,
  set_request_record, insert_advance, advance_row, settle_advance, mint_unless_prior, execute_from,
  execute,
}
use you_fen.Engine.Advance.Once.Traces.{
  has_request, mints_for, IsExecuted, HasAdvance, settle_advance-HasAdvance,
  settle_advance-IsExecuted, insert_advance-HasAdvance, executed_value,
}

-- A request that is executed and has its mint is answered with that mint.
executed_answers :
    (ports : Ports) (i : ExecuteInput) (d : Db)
    → IsExecuted i.request_id d
    → HasAdvance i.request_id d
    → (o : MintOutcome) × (execute ports i d ≡ ok (o, d))
executed_answers ports i d (q, here, st) has =
    let own : q.id ≡ i.request_id =
      (==_iff q.id i.request_id).0
        (find_sound (has_request i.request_id) d.advance_requests q here) in
    elim (Option-cases (mint_of_request i.request_id d)) [
      | inl missing ↦ absurd (ground (arith, any-find (mints_for i.request_id) d.mint_events))
      | inr (m, hm) ↦ (
        mint_outcome_from m,
        executed_value ports i d q m here st (ap (λ k. mint_of_request k d) own ∙ hm),
      )
    ]

-- Where there is a mint already, the answer depends on nothing else and changes nothing.
prior_stays :
    (ports later : Ports) (i j : ExecuteInput) (q : AdvanceRequestRow) (st : RequestStatus)
    (m : MintEventRow) (d : Db) (o : MintOutcome) (e : Db)
    → mint_of_request q.id d ≡ some m
    → Commits (execute_from ports i q st) d o e
    → (e ≡ d) × Commits (execute_from later j q st) d o d
unfolding ◌>>=◌ lock_epoch_by_id
prior_stays ports later i j q RequestStatus.executed m d o e hm run = ground arith
prior_stays ports later i j q RequestStatus.approved m d o e hm run = ground arith
prior_stays ports later i j q RequestStatus.pending_second_approval m d o e hm run = ground arith
prior_stays ports later i j q RequestStatus.pending_proposal m d o e hm run = ground arith
prior_stays ports later i j q RequestStatus.rejected m d o e hm run = ground arith
prior_stays ports later i j q RequestStatus.other m d o e hm run = ground arith

-- Where there is none, a mint is made and the request is executed.
new_mint :
    (ports : Ports) (i : ExecuteInput) (q : AdvanceRequestRow) (epoch : EpochRow) (d : Db)
    (o : MintOutcome) (e : Db)
    → Commits (mint_unless_prior ports i q epoch none) d o e
    → IsExecuted q.id e × HasAdvance q.id e
new_mint ports i q epoch d o e run =
    let (plan, d1, r1, k1) = >>=-inv (check_advance q epoch) _ d o e run in
    let (m, d2, r2, k2) = >>=-inv (insert_advance ports i q plan) _ d1 o e k1 in
    (
      (settle_advance-IsExecuted ports q plan m).at d2 o e k2 tt,
      (settle_advance-HasAdvance q.id ports q plan m).at d2 o e k2
          ((insert_advance-HasAdvance ports i q plan).at d1 m d2 r2 tt),
    )

new_runs :
    (ports : Ports) (i : ExecuteInput) (q : AdvanceRequestRow) (st : RequestStatus) (d : Db)
    (o : MintOutcome) (e : Db)
    → mint_of_request q.id d ≡ none
    → Commits (execute_from ports i q st) d o e
    → (epoch : EpochRow) × Commits (mint_unless_prior ports i q epoch none) d o e
unfolding ◌>>=◌ lock_epoch_by_id
new_runs ports i q RequestStatus.approved d o e hm run =
    elim (Option-cases (find (λ x. x.id == q.epoch_id) d.epochs)) [
      | inl missing ↦ absurd (cc (rw missing at run))
      | inr (epoch, there) ↦ elim (Bool-cases (epoch_is_active epoch.status)) [
        | inl active ↦ (epoch, rw (there, active, hm) at run)
        | inr closed ↦ absurd (cc (rw (there, closed) at run))
      ]
    ]
new_runs ports i q RequestStatus.executed d o e hm run = absurd (cc (rw hm at run))
new_runs ports i q RequestStatus.pending_second_approval d o e hm run = absurd (cc run)
new_runs ports i q RequestStatus.pending_proposal d o e hm run = absurd (cc run)
new_runs ports i q RequestStatus.rejected d o e hm run = absurd (cc run)
new_runs ports i q RequestStatus.other d o e hm run = absurd (cc run)

load_request-run :
    (id : ℕ) (d : Db) (q : AdvanceRequestRow) (e : Db)
    → Commits (load_request id) d q e
    → (find (has_request id) d.advance_requests ≡ some q) × (e ≡ d)
unfolding load_request ◌>>=◌
load_request-run id d q e run = ground arith

execute_found :
    (ports : Ports) (i : ExecuteInput) (q : AdvanceRequestRow) (d : Db) (o : MintOutcome) (e : Db)
    → find (has_request i.request_id) d.advance_requests ≡ some q
    → Commits (execute_from ports i q q.status) d o e
    → execute ports i d ≡ ok (o, e)
unfolding execute load_request ◌>>=◌
execute_found ports i q d o e here run = rw here run

again :
    (ports later : Ports) (i j : ExecuteInput) (q : AdvanceRequestRow) (d : Db) (o : MintOutcome)
    (e : Db)
    → find (has_request i.request_id) d.advance_requests ≡ some q
    → Commits (execute_from ports i q q.status) d o e
    → j.request_id ≡ i.request_id
    → (p : MintOutcome) × (execute later j e ≡ ok (p, e))
again ports later i j q d o e here run same = elim (Option-cases (mint_of_request q.id d)) [
  | inr (m, hm) ↦
      let (stays, answer) = prior_stays ports later i j q q.status m d o e hm run in
      (
        o,
        rw stays (
            execute_found later j q d o d
              (subst (λ k. find (has_request k) d.advance_requests ≡ some q) (sym same) here)
              answer),
      )
  | inl none_yet ↦
      let (epoch, minted) = new_runs ports i q q.status d o e none_yet run in
      let (done, has) = new_mint ports i q epoch d o e minted in
      let own : q.id ≡ j.request_id =
        (==_iff q.id i.request_id).0
          (find_sound (has_request i.request_id) d.advance_requests q here)
        ∙ sym same in
      executed_answers later j e (subst (λ k. IsExecuted k e) own done)
        (subst (λ k. HasAdvance k e) own has)
]

-- After an execution that commits, an execution of the same request on the tables that it left, at
-- whatever time, commits and changes nothing: the advance is not minted twice.
pub execute-again :
    (ports later : Ports) (i j : ExecuteInput) (d : Db) (o : MintOutcome) (e : Db)
    → execute ports i d ≡ ok (o, e)
    → j.request_id ≡ i.request_id
    → (p : MintOutcome) × (execute later j e ≡ ok (p, e))
unfolding execute
execute-again ports later i j d o e run same =
    let (q, d', loaded, rest) = >>=-inv (load_request i.request_id) _ d o e run in
    let (here, eq) = load_request-run i.request_id d q d' loaded in
    again ports later i j q d o e here
      (subst (λ x. Commits (execute_from ports i q q.status) x o e) eq rest) same
