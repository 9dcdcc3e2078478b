-- ===== src/Engine/Reversal/Reverse/Once.antt =====
-- One mint is reversed at most once.
use you_fen.Base.{
  ℕ, ◌≡◌, ◌≢◌, refl, ◌∙◌, true, [], ◌∷◌, ◌==◌, any, any-append, any-update_first, update_first,
  arith,
}
use you_fen.Engine.Errors.{ok}
use you_fen.Engine.Tables.{MintEventRow, ReversalEventRow}
use you_fen.Engine.Db.{Db}
use you_fen.Engine.Db.Keeps.{
  Keeps, Triple, Triple-keeps, Triple-bind, Keeps-modify, reads, >>=-inv, Keeps-fresh_id,
}
use you_fen.Engine.Ports.{Ports}
use you_fen.Engine.Reversal.Guards.{ReverseInput}
use you_fen.Engine.Reversal.Reverse.{
  ReversalPlan, ReversalOutcome, reversal_row, check_reversal, insert_reversal, debit_member,
  set_reversal_record, attach_reversal_record, write_reversal, reverse_mint,
}
use you_fen.Engine.Reversal.Reverse.Runs.{
  reverses, insert_reversal-run, debit_member-run, check_reversal-run,
}

-- The mint has a reversal.
abbrev pub HasReversal : ℕ → Db → Type 0
HasReversal id d = any (reverses id) d.reversal_events ≡ true

insert_reversal-HasReversal :
    (i : ReverseInput) (plan : ReversalPlan) (now seq : ℕ)
    → Triple
        (λ d. Unit {0})
        (insert_reversal (reversal_row i plan now seq))
        (λ row. HasReversal i.original_mint_event_id)
insert_reversal-HasReversal i plan now seq = record {
  at = λ d row e run u.
      let (_, eq) = insert_reversal-run (reversal_row i plan now seq) d row e run in
      rw eq (
        ground (
          arith,
          any-append (reverses i.original_mint_event_id) d.reversal_events
              (reversal_row i plan now seq d.next_id ∷ []),
        ));
}

module _ (id : ℕ) where
  debit_member-HasReversal : (plan : ReversalPlan) → Keeps (HasReversal id) (debit_member plan)
  debit_member-HasReversal plan = record {
    at = λ d u e run h. let (_, eq) = debit_member-run plan d u e run in rw eq h;
  }

  set_reversal_record-HasReversal :
      (k record_id : ℕ) (d : Db)
      → HasReversal id d
      → HasReversal id (record d {
        reversal_events =
            update_first (λ q. q.id == k) (set_reversal_record record_id) d.reversal_events;
      })
  set_reversal_record-HasReversal k record_id d h =
      any-update_first (reverses id) (λ q. q.id == k) (set_reversal_record record_id)
        d.reversal_events (λ x. refl)
      ∙ h

  attach_reversal_record-HasReversal :
      (ports : Ports) (mint : MintEventRow) (rev : ReversalEventRow)
      → Keeps (HasReversal id) (attach_reversal_record ports mint rev)
  unfolding attach_reversal_record
  attach_reversal_record-HasReversal ports mint rev =
      search (reads, Keeps-modify, Keeps-fresh_id, set_reversal_record-HasReversal rev.id) depth 30

write_reversal-HasReversal :
    (ports : Ports) (i : ReverseInput) (plan : ReversalPlan)
    → Triple
        (λ d. Unit {0})
        (write_reversal ports i plan)
        (λ o. HasReversal i.original_mint_event_id)
unfolding write_reversal
write_reversal-HasReversal ports i plan =
    Triple-bind {R = λ seq d. Unit {0}} (record { at = λ d a e run u. tt })
      λ seq. Triple-bind (insert_reversal-HasReversal i plan ports.now seq) λ rev.
        Triple-bind (Triple-keeps (debit_member-HasReversal i.original_mint_event_id plan)) λ u.
          Triple-keeps
            (attach_reversal_record-HasReversal i.original_mint_event_id ports plan.mint rev)

-- After a reversal that commits, no reversal of the same mint commits on the tables that it leaves.
pub reverse_mint-once :
    (ports later : Ports) (i j : ReverseInput) (d e e' : Db) (o o' : ReversalOutcome)
    → reverse_mint ports i d ≡ ok (o, e)
    → j.original_mint_event_id ≡ i.original_mint_event_id
    → reverse_mint later j e ≢ ok (o', e')
unfolding reverse_mint
reverse_mint-once ports later i j d e e' o o' run same again =
    let (plan, d', checked, written) =
      >>=-inv (check_reversal i) (write_reversal ports i) d o e run in
    let has = (write_reversal-HasReversal ports i plan).at d' o e written tt in
    let (plan', f, checked', written') =
      >>=-inv (check_reversal j) (write_reversal later j) e o' e' again in
    let (_, _, _, _, fresh) = check_reversal-run j e plan' f checked' in cc (has, fresh, same)
