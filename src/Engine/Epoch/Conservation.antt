-- ===== src/Engine/Epoch/Conservation.antt =====
-- The epoch service keeps the books of every community in balance.
use you_fen.Base.{
  ℕ, ◌+◌, ◌≡◌, refl, Option, none, some, [], ◌∷◌, ◌++◌, arith, update_all, sum_of-update_all,
  All-append, All-update_first,
}
use you_fen.Engine.Errors.{ok}
use you_fen.Engine.Tables.{EpochRow, EpochStatus, PolicyRow}
use you_fen.Engine.Db.{Db}
use you_fen.Engine.Db.Sql.{activate_pending_governance, roll_pending}
use you_fen.Engine.Db.Keeps.{Keeps, Keeps-modify, Keeps-update, Keeps-bind, Keeps-pure, reads}
use you_fen.Engine.Ports.{Ports}
use you_fen.Engine.Books.{minted_by, IsWithinBudget, Totals, Balanced}
use you_fen.Engine.Books.Acts.{Acts-Balanced, Keeps-Acts}
use you_fen.Engine.Books.Updates.{Totals-frame, epochs-Totals, balances-Totals}
use you_fen.Engine.Books.Steps.{
  create_pending_record-Keeps, create_db_only_record-Keeps, fresh_id-Keeps,
}
use you_fen.Engine.Policy.Frames.{activate_pending_version-Keeps}
use you_fen.Engine.Epoch.Close.{
  CloseOutcome, Opening, update_epoch, mark_closed, require_policy, require_state, reread_policy,
  open_next, activates, set_active, reset_meter, roll_governance, insert_epoch, record_budget,
  record_summary, close_active, close_from, close_epoch,
}
use you_fen.Engine.Epoch.Next.{
  NextEpoch, insert_or_existing, create_epoch, create_unless_active, create_next_epoch,
}

module _ (c h s m r : ℕ) where
  update_epoch-Keeps :
      (id : ℕ) (g : EpochRow → EpochRow)
      → ((e : EpochRow) → IsWithinBudget e → IsWithinBudget (g e))
      → Keeps (Totals c h s m r) (update_epoch id g)
  unfolding update_epoch
  update_epoch-Keeps id g k = Keeps-bind _ _ (search reads) λ there.
      Keeps-bind _ _ (search reads) λ u. Keeps-modify _ λ d t.
        epochs-Totals c h s m r _ d
          (All-update_first IsWithinBudget _ g d.epochs (λ e q w. k e w) t.meters) t

  require_policy-Keeps : (owner : ℕ) → Keeps (Totals c h s m r) (require_policy owner)
  unfolding require_policy
  require_policy-Keeps owner = search reads depth 14

  require_state-Keeps : (owner : ℕ) → Keeps (Totals c h s m r) (require_state owner)
  unfolding require_state
  require_state-Keeps owner = search reads depth 14

  reread_policy-Keeps :
      (owner : ℕ) (p : PolicyRow) (o : Option ℕ)
      → Keeps (Totals c h s m r) (reread_policy owner p o)
  reread_policy-Keeps owner p none = search reads
  reread_policy-Keeps owner p (some id) = require_policy-Keeps owner

  open_next-Keeps : (ports : Ports) (e : EpochRow) → Keeps (Totals c h s m r) (open_next ports e)
  unfolding open_next
  open_next-Keeps ports e =
      search
        (
          reads,
          require_policy-Keeps,
          require_state-Keeps,
          reread_policy-Keeps,
          activate_pending_version-Keeps c h s m r,
        )
        depth 40

  activate_pending_governance-Keeps :
      (owner : ℕ) → Keeps (Totals c h s m r) (activate_pending_governance owner)
  unfolding activate_pending_governance
  activate_pending_governance-Keeps owner = Keeps-update _ _ λ d t.
      balances-Totals c h s m r _ roll_pending d (λ x. refl) (λ x. refl) (λ x. refl)
        (λ x split. omega arith) t

  -- Pending balances and events become active, and the meters of the members start again.
  roll_governance-Keeps : (owner n : ℕ) → Keeps (Totals c h s m r) (roll_governance owner n)
  unfolding roll_governance
  roll_governance-Keeps owner n = Keeps-bind _ _ (activate_pending_governance-Keeps owner) λ k.
      Keeps-bind _ _
        (Keeps-modify _ λ d t.
          Totals-frame c h s m r d
            (record d { mint_events = update_all (activates owner n) set_active d.mint_events }) t
            refl refl
            (sum_of-update_all (minted_by c) (activates owner n) set_active d.mint_events
              (λ x. refl))
            refl refl refl)
        λ u. Keeps-modify _ λ d t.
          balances-Totals c h s m r _ reset_meter d (λ x. refl) (λ x. refl) (λ x. refl)
            (λ x split. split) t

  append_epoch-Totals :
      (row : EpochRow) (d : Db)
      → IsWithinBudget row
      → Totals c h s m r d
      → Totals c h s m r (record d { epochs = d.epochs ++ row ∷ [] })
  append_epoch-Totals row d w t =
      epochs-Totals c h s m r _ d (All-append IsWithinBudget d.epochs (row ∷ []) t.meters (w, tt)) t

  insert_epoch-Keeps :
      (row_of : ℕ → EpochRow)
      → ((id : ℕ) → IsWithinBudget (row_of id))
      → Keeps (Totals c h s m r) (insert_epoch row_of)
  unfolding insert_epoch
  insert_epoch-Keeps row_of w = Keeps-bind _ _ (fresh_id-Keeps c h s m r) λ id.
      Keeps-bind _ _ (search reads) λ taken. Keeps-bind _ _ (search reads) λ u.
        Keeps-bind _ _ (Keeps-modify _ (λ d t. append_epoch-Totals (row_of id) d (w id) t))
          λ v. Keeps-pure _

  record_budget-Keeps :
      (ports : Ports) (next : EpochRow) (o : Opening)
      → Keeps (Totals c h s m r) (record_budget ports next o)
  unfolding record_budget
  record_budget-Keeps ports next o = search (reads, create_db_only_record-Keeps c h s m r) depth 14

  record_summary-Keeps :
      (ports : Ports) (e : EpochRow) (at : ℕ) → Keeps (Totals c h s m r) (record_summary ports e at)
  unfolding record_summary
  record_summary-Keeps ports e at =
      Keeps-bind _ _ (create_pending_record-Keeps c h s m r _ _ _ _ _)
        λ id. Keeps-bind _ _ (update_epoch-Keeps e.id (mark_closed id) (λ x w. w)) λ u. Keeps-pure _

  close_active-Keeps :
      (ports : Ports) (e : EpochRow) → Keeps (Totals c h s m r) (close_active ports e)
  unfolding close_active
  close_active-Keeps ports e = Keeps-bind _ _ (update_epoch-Keeps e.id _ (λ x w. w)) λ u.
      Keeps-bind _ _ (search reads) λ full. Keeps-bind _ _ (open_next-Keeps ports e) λ o.
        Keeps-bind _ _ (roll_governance-Keeps e.community_id (e.epoch_number + 1)) λ v.
          Keeps-bind _ _ (insert_epoch-Keeps _ (λ id. (omega arith, omega arith))) λ next.
            Keeps-bind _ _ (record_budget-Keeps ports next o)
              λ w. Keeps-bind _ _ (record_summary-Keeps ports e _) λ summary. Keeps-pure _

  close_from-Keeps :
      (ports : Ports) (e : EpochRow) (st : EpochStatus)
      → Keeps (Totals c h s m r) (close_from ports e st)
  close_from-Keeps ports e EpochStatus.active = close_active-Keeps ports e
  close_from-Keeps ports e EpochStatus.closed = search reads
  close_from-Keeps ports e EpochStatus.closing = search reads
  close_from-Keeps ports e EpochStatus.other = search reads

  pub close_epoch-Keeps : (ports : Ports) (id : ℕ) → Keeps (Totals c h s m r) (close_epoch ports id)
  unfolding close_epoch
  close_epoch-Keeps ports id = search (reads, close_from-Keeps) depth 14

  insert_or_existing-Keeps :
      (row_of : ℕ → EpochRow) (o : Option EpochRow)
      → ((id : ℕ) → IsWithinBudget (row_of id))
      → Keeps (Totals c h s m r) (insert_or_existing row_of o)
  insert_or_existing-Keeps row_of (some e) w = search reads
  insert_or_existing-Keeps row_of none w = Keeps-bind _ _ (fresh_id-Keeps c h s m r) λ id.
      Keeps-bind _ _ (Keeps-modify _ (λ d t. append_epoch-Totals (row_of id) d (w id) t))
        λ u. Keeps-pure _

  create_epoch-Keeps :
      (ports : Ports) (owner : ℕ) → Keeps (Totals c h s m r) (create_epoch ports owner)
  unfolding create_epoch
  create_epoch-Keeps ports owner = Keeps-bind _ _ (search reads) λ n.
      Keeps-bind _ _ (require_policy-Keeps owner) λ p.
        Keeps-bind _ _ (require_state-Keeps owner) λ st. Keeps-bind _ _ (search reads) λ b.
          Keeps-bind _ _ (search reads)
            λ o. insert_or_existing-Keeps _ o (λ id. (omega arith, omega arith))

  create_unless_active-Keeps :
      (ports : Ports) (owner : ℕ) (o : Option EpochRow)
      → Keeps (Totals c h s m r) (create_unless_active ports owner o)
  create_unless_active-Keeps ports owner none = create_epoch-Keeps ports owner
  create_unless_active-Keeps ports owner (some e) = search reads

  pub create_next_epoch-Keeps :
      (ports : Ports) (owner : ℕ) → Keeps (Totals c h s m r) (create_next_epoch ports owner)
  unfolding create_next_epoch
  create_next_epoch-Keeps ports owner = search (reads, create_unless_active-Keeps) depth 14

-- The close of an epoch that commits keeps the books of every community in balance.
pub close_epoch-Balanced :
    (ports : Ports) (id c : ℕ) (d : Db) (o : CloseOutcome) (e : Db)
    → Balanced c d
    → close_epoch ports id d ≡ ok (o, e)
    → Balanced c e
close_epoch-Balanced ports id c d o e books run =
    Acts-Balanced c d e
      (Keeps-Acts c _ d o e (λ h s m r. close_epoch-Keeps c h s m r ports id) run books) books

-- The start of an epoch that commits keeps the books of every community in balance.
pub create_next_epoch-Balanced :
    (ports : Ports) (owner c : ℕ) (d : Db) (o : NextEpoch) (e : Db)
    → Balanced c d
    → create_next_epoch ports owner d ≡ ok (o, e)
    → Balanced c e
create_next_epoch-Balanced ports owner c d o e books run =
    Acts-Balanced c d e
      (Keeps-Acts c _ d o e (λ h s m r. create_next_epoch-Keeps c h s m r ports owner) run books)
      books
