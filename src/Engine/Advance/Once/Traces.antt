-- ===== src/Engine/Advance/Once/Traces.antt =====
-- What an execution of an advance leaves: the request as executed, and its mint.
use you_fen.Base.{
  ℕ, ◌≡◌, refl, ◌∙◌, Bool, true, some, List, [], ◌∷◌, ◌==◌, any, find, find_sound, update_first,
  find-update_first, any-append, any-update_first, any-find, option_eq, or_default, Option-cases,
  inl, inr, ==_refl, arith,
}
use you_fen.Engine.Errors.{ok}
use you_fen.Engine.Tables.{MintEventRow, AdvanceRequestRow, RequestStatus, RecordType, SourceTable}
use you_fen.Engine.Db.{Db, Tx, ◌>>=◌}
use you_fen.Engine.Db.Keeps.{
  Commits, Keeps, Keeps-modify, Keeps-fresh_id, Keeps-update, Keeps-bind, Keeps-pure, reads, Triple,
  Triple-bind, Triple-keeps,
}
use you_fen.Engine.Db.Sql.{increment_advanced_minted_guarded}
use you_fen.Engine.Balances.{credit_balance, grow_supply, credit_member}
use you_fen.Engine.Ports.{Ports, create_pending_record, create_db_only_record}
use you_fen.Engine.Mint.{attach_record, set_mint_record}
use you_fen.Engine.Mint.Events.{insert_mint_event-run}
use you_fen.Engine.Advance.{load_request, update_request}
use you_fen.Engine.Advance.Execute.{
  ExecuteInput, AdvancePlan, mint_outcome_from, mint_of_request, mark_executed, set_request_record,
  insert_advance, advance_row, settle_advance, execute,
}

abbrev pub has_request : ℕ → AdvanceRequestRow → Bool
has_request id q = q.id == id

-- A mint names the request.
abbrev pub mints_for : ℕ → MintEventRow → Bool
mints_for id m = option_eq m.advance_request_id (some id)

-- The request stands as executed.
abbrev pub IsExecuted : ℕ → Db → Type 0
IsExecuted id d =
    (q : AdvanceRequestRow) × (find (has_request id) d.advance_requests ≡ some q)
    × (q.status ≡ RequestStatus.executed)

abbrev pub HasAdvance : ℕ → Db → Type 0
HasAdvance id d = any (mints_for id) d.mint_events ≡ true

update_request-run :
    (id : ℕ) (f : AdvanceRequestRow → AdvanceRequestRow) (d : Db) (u : Unit) (e : Db)
    → Commits (update_request id f) d u e
    → (any (has_request id) d.advance_requests ≡ true)
      × (e ≡ record d { advance_requests = update_first (has_request id) f d.advance_requests })
unfolding update_request ◌>>=◌
update_request-run id f d u e run = ground arith

-- An update of the request that leaves it executed, where the update keeps ids.
updated :
    (id : ℕ) (f : AdvanceRequestRow → AdvanceRequestRow) (d : Db) (q : AdvanceRequestRow)
    → find (has_request id) d.advance_requests ≡ some q
    → (f q).id ≡ q.id
    → (f q).status ≡ RequestStatus.executed
    → IsExecuted id
        (record d { advance_requests = update_first (has_request id) f d.advance_requests })
updated id f d q here same st = (
  f q,
  find-update_first (has_request id) f d.advance_requests q here
      (rw same (find_sound (has_request id) d.advance_requests q here)),
  st,
)

mark_executed-IsExecuted :
    (id x now : ℕ)
    → Triple (λ d. Unit {0}) (update_request id (mark_executed x now)) (λ u. IsExecuted id)
mark_executed-IsExecuted id x now = record {
  at = λ d u e run _.
      let (there, eq) = update_request-run id (mark_executed x now) d u e run in
      elim (Option-cases (find (has_request id) d.advance_requests)) [
        | inl missing ↦ absurd (ground (arith, any-find (has_request id) d.advance_requests))
        | inr (q, here) ↦ rw eq (updated id (mark_executed x now) d q here refl refl)
      ];
}

set_request_record-IsExecuted :
    (id k : ℕ) → Keeps (IsExecuted id) (update_request id (set_request_record k))
set_request_record-IsExecuted id k = record {
  at = λ d u e run (q, here, st).
      let (there, eq) = update_request-run id (set_request_record k) d u e run in
      rw eq (updated id (set_request_record k) d q here refl st);
}

module _ (id : ℕ) where
  set_mint_record-HasAdvance :
      (k record_id : ℕ) (d : Db)
      → HasAdvance id d
      → HasAdvance id (record d {
        mint_events = update_first (λ r. r.id == k) (set_mint_record record_id) d.mint_events;
      })
  set_mint_record-HasAdvance k record_id d h =
      any-update_first (mints_for id) (λ r. r.id == k) (set_mint_record record_id) d.mint_events
        (λ x. refl)
      ∙ h

  pub settle_advance-HasAdvance :
      (ports : Ports) (q : AdvanceRequestRow) (plan : AdvancePlan) (m : MintEventRow)
      → Keeps (HasAdvance id) (settle_advance ports q plan m)
  unfolding settle_advance credit_member credit_balance grow_supply
      increment_advanced_minted_guarded update_request attach_record create_db_only_record
      create_pending_record
  settle_advance-HasAdvance ports q plan m =
      search (reads, Keeps-modify, Keeps-update, Keeps-fresh_id, set_mint_record-HasAdvance m.id)
        depth 80

  attach_record-IsExecuted :
      (ports : Ports) (owner : ℕ) (m : MintEventRow)
      → Keeps (IsExecuted id) (attach_record ports owner m)
  unfolding attach_record create_pending_record
  attach_record-IsExecuted ports owner m = search (reads, Keeps-modify, Keeps-fresh_id) depth 40

  create_db_only_record-IsExecuted :
      (ports : Ports) (owner : ℕ) (k : RecordType) (t : SourceTable) (s : ℕ) (payload : List ℕ)
      → Keeps (IsExecuted id) (create_db_only_record ports owner k t s payload)
  unfolding create_db_only_record
  create_db_only_record-IsExecuted ports owner k t s payload =
      search (reads, Keeps-modify, Keeps-fresh_id) depth 40

-- Nothing is said of a run.
any_run : {A : Type 0} {m : Tx A} → Triple (λ d. Unit {0}) m (λ a d. Unit {0})
any_run = record { at = λ d a e run u. tt }

pub settle_advance-IsExecuted :
    (ports : Ports) (q : AdvanceRequestRow) (plan : AdvancePlan) (m : MintEventRow)
    → Triple (λ d. Unit {0}) (settle_advance ports q plan m) (λ o. IsExecuted q.id)
unfolding settle_advance
settle_advance-IsExecuted ports q plan m = Triple-bind any_run λ _. Triple-bind any_run λ applied.
    Triple-bind any_run λ _. Triple-bind (mark_executed-IsExecuted q.id plan.amount ports.now) λ _.
      Triple-keeps (
        Keeps-bind _ _ (attach_record-IsExecuted q.id ports _ m) λ record_id.
          Keeps-bind _ _ (create_db_only_record-IsExecuted q.id ports _ _ _ _ _)
            λ k. Keeps-bind _ _ (set_request_record-IsExecuted q.id k) λ _. Keeps-pure _)

pub insert_advance-HasAdvance :
    (ports : Ports) (i : ExecuteInput) (q : AdvanceRequestRow) (plan : AdvancePlan)
    → Triple (λ d. Unit {0}) (insert_advance ports i q plan) (λ m. HasAdvance q.id)
unfolding insert_advance
insert_advance-HasAdvance ports i q plan = Triple-bind any_run λ found. Triple-bind any_run λ state.
    Triple-bind any_run λ balance. Triple-bind any_run λ seq. Triple-bind any_run λ before.
      Triple-bind any_run λ after. record {
        at = λ d m e run u.
            let (_, eq) = insert_mint_event-run _ d m e run in
            rw eq (
              ground (
                arith,
                any-append (mints_for q.id) d.mint_events (
                    advance_row q plan state balance (or_default i.evidence_urls []) before after
                      seq ports.now d.next_id
                    ∷ []),
                ==_refl q.id,
              ));
      }

pub executed_value :
    (ports : Ports) (i : ExecuteInput) (d : Db) (q : AdvanceRequestRow) (m : MintEventRow)
    → find (has_request i.request_id) d.advance_requests ≡ some q
    → q.status ≡ RequestStatus.executed
    → mint_of_request q.id d ≡ some m
    → execute ports i d ≡ ok (mint_outcome_from m, d)
unfolding execute load_request ◌>>=◌
executed_value ports i d q m here st hm = rw here (rw st (rw hm refl))
