-- ===== src/Engine/Reversal/Reverse/Conservation.antt =====
-- `reverseMint` keeps the books of every community in balance.
use you_fen.Base.{
  update_all, sum_of, sum_of-find, find_sound, ℕ, ◌+◌, ◌-◌, ◌≤◌, ◌≡◌, refl, sym, subst, false, some,
  List, ◌==◌, find, update_first, sum_of-update_first_same, arith,
}
use you_fen.Engine.Errors.{ok}
use you_fen.Engine.Tables.{MintEventRow, BalanceRow, StateRow, ReversalEventRow}
use you_fen.Engine.Db.{Db}
use you_fen.Engine.Db.Keeps.{
  Commits, Keeps, Triple, Triple-keeps, Triple-bind, Keeps-modify, Keeps-both, >>=-inv, reads,
}
use you_fen.Engine.Db.Locks.{is_balance_of, is_state_of, allocate_ledger_seq, bump_seq}
use you_fen.Engine.Ports.{Ports}
use you_fen.Engine.Books.{
  counts_for, supply, supply_in, held_by, reversed_by, IsSplit, Totals, Balanced,
}
use you_fen.Engine.Books.Keys.{find-id}
use you_fen.Engine.Books.Rows.{supply-bump, found}
use you_fen.Engine.Books.Acts.{Acts, Acts-Balanced}
use you_fen.Engine.Books.Updates.{
  books_open, Totals-frame, next_id-Totals, add_reversal-Totals, balance-Totals, state-Totals,
}
use you_fen.Engine.Books.Steps.{allocate_ledger_seq-Keeps, create_pending_record-Keeps}
use you_fen.Engine.Reversal.Guards.{ReverseInput, overdraws}
use you_fen.Engine.Reversal.Reverse.{
  ReversalPlan, ReversalOutcome, reversal_row, check_reversal, insert_reversal, debit, shrink,
  debit_member, set_reversal_record, attach_reversal_record, write_reversal, reverse_mint,
}
use you_fen.Engine.Reversal.Reverse.Runs.{insert_reversal-run, debit_member-run, check_reversal-run}

debit-IsSplit :
    (mint : MintEventRow) (b : BalanceRow) (w : StateRow) (x : ℕ)
    → overdraws mint b w x ≡ false
    → IsSplit b
    → IsSplit (debit mint x b)
debit-IsSplit mint b w x fits split = ground arith

debited :
    (c h owner member : ℕ) (mint : MintEventRow) (bs : List BalanceRow) (b : BalanceRow)
    (w : StateRow) (x : ℕ)
    → find (is_balance_of owner member) bs ≡ some b
    → overdraws mint b w x ≡ false
    → sum_of (held_by c) bs ≡ h
    → (counts_for c owner x ≤ h)
      × (h - counts_for c owner x + counts_for c b.community_id b.total_balance
          ≡ h + counts_for c b.community_id (b.total_balance - x))
debited c h owner member mint bs b w x hb fits eq = ground (
  arith,
  find_sound (is_balance_of owner member) bs b hb,
  sum_of-find (held_by c) (is_balance_of owner member) bs b hb,
)

shrunk :
    (c s owner x : ℕ) (ss : List StateRow) (w : StateRow)
    → find (is_state_of owner) ss ≡ some w
    → x ≤ w.current_total_supply
    → supply_in (find (is_state_of c) ss) ≡ s
    → (counts_for c owner x ≤ s)
      × (s - counts_for c owner x + counts_for c owner w.current_total_supply
          ≡ s + counts_for c owner (w.current_total_supply - x))
shrunk c s owner x ss w hw le eq = ground arith

-- What a debit needs of the tables.
abbrev Ready : ReversalPlan → Db → Type 0
Ready plan d =
    (find (is_balance_of plan.mint.community_id plan.mint.member_id) d.balances ≡ some plan.balance)
    × (plan.amount ≤ supply plan.mint.community_id d)

debit_member-Totals :
    (c h s m r : ℕ) (plan : ReversalPlan) (d : Db) (u : Unit) (e : Db)
    → Commits (debit_member plan) d u e
    → overdraws plan.mint plan.balance plan.state plan.amount ≡ false
    → Ready plan d
    → Totals c h s m r d
    → let δ = counts_for c plan.mint.community_id plan.amount in
      (δ ≤ h) × (δ ≤ s) × Totals c (h - δ) (s - δ) m r e
debit_member-Totals c h s m r plan d u e run fits ready t =
    let owner = plan.mint.community_id in
    let δ = counts_for c owner plan.amount in
    let p = is_balance_of owner plan.mint.member_id in
    let (there, eq) = debit_member-run plan d u e run in
    let (w, hw) = found (is_state_of owner) d.states there in
    let le : plan.amount ≤ w.current_total_supply =
      subst (λ o. plan.amount ≤ supply_in o) hw ready.1 in
    let (δ≤h, held) =
      debited c h owner plan.mint.member_id plan.mint d.balances plan.balance plan.state plan.amount
        ready.0 fits t.held_eq in
    let (δ≤s, sup) = shrunk c s owner plan.amount d.states w hw le t.supply_eq in
    let paid =
      balance-Totals c h s m r _ (debit plan.mint plan.amount) plan.balance (h - δ) d
        (find-id p d.balances plan.balance t.keyed.1 ready.0) (λ x. refl) (λ x. refl)
        (debit-IsSplit plan.mint plan.balance plan.state plan.amount fits) held t in
    (
      δ≤h,
      δ≤s,
      rw eq (
          state-Totals c (h - δ) s m r owner (shrink plan.amount) w (s - δ) _ hw (λ x. refl) sup
            paid),
    )

module _ (plan : ReversalPlan) where
  bump-Ready :
      (owner : ℕ) (d : Db)
      → Ready plan d
      → Ready plan (record d { states = update_all (is_state_of owner) bump_seq d.states })
  bump-Ready owner d q = (
    q.0,
    subst (λ n. plan.amount ≤ n) (sym (supply-bump plan.mint.community_id owner d.states)) q.1,
  )

  allocate_ledger_seq-Ready : (owner : ℕ) → Keeps (Ready plan) (allocate_ledger_seq owner)
  unfolding allocate_ledger_seq
  allocate_ledger_seq-Ready owner = search (reads, Keeps-modify, bump-Ready owner) depth 14

module _ (c h s m r : ℕ) where
  insert_reversal-Totals :
      (plan : ReversalPlan) (owner x : ℕ) (row_of : ℕ → ReversalEventRow)
      → ((id : ℕ) → (row_of id).community_id ≡ owner)
      → ((id : ℕ) → (row_of id).amount ≡ x)
      → Triple
          (λ d. Totals c h s m r d × Ready plan d)
          (insert_reversal row_of)
          (λ row d. Totals c h s m (r + counts_for c owner x) d × Ready plan d)
  insert_reversal-Totals plan owner x row_of own amt = record {
    at = λ d row e run t.
        let (_, eq) = insert_reversal-run row_of d row e run in
        rw eq (
          next_id-Totals c h s m (r + counts_for c owner x) _ (
              add_reversal-Totals c h s m r (row_of d.next_id) owner x d (own d.next_id)
                (amt d.next_id) t.0),
          t.1,
        );
  }

  set_reversal_record-Totals :
      (k id : ℕ) (d : Db)
      → Totals c h s m r d
      → Totals c h s m r (record d {
        reversal_events = update_first (λ q. q.id == k) (set_reversal_record id) d.reversal_events;
      })
  set_reversal_record-Totals k id d t =
      Totals-frame c h s m r d
        (record d {
          reversal_events =
              update_first (λ q. q.id == k) (set_reversal_record id) d.reversal_events;
        })
        t refl refl refl
        (sum_of-update_first_same (reversed_by c) (λ q. q.id == k) (set_reversal_record id)
          d.reversal_events (λ x. refl))
        refl refl

  attach_reversal_record-Keeps :
      (ports : Ports) (mint : MintEventRow) (rev : ReversalEventRow)
      → Keeps (Totals c h s m r) (attach_reversal_record ports mint rev)
  unfolding attach_reversal_record
  attach_reversal_record-Keeps ports mint rev =
      search
        (
          reads,
          Keeps-modify,
          create_pending_record-Keeps c h s m r,
          set_reversal_record-Totals rev.id,
        )
        depth 14

-- What a reversal takes, from what the members hold and from the supply.
abbrev Reversed : ℕ → ℕ → ℕ → ℕ → ℕ → ℕ → Db → Type 0
Reversed c h s m r δ d = (δ ≤ h) × (δ ≤ s) × Totals c (h - δ) (s - δ) m (r + δ) d

write_reversal-Totals :
    (c h s m r : ℕ) (ports : Ports) (i : ReverseInput) (plan : ReversalPlan)
    → overdraws plan.mint plan.balance plan.state plan.amount ≡ false
    → Triple
        (λ d. Totals c h s m r d × Ready plan d)
        (write_reversal ports i plan)
        (λ o. Reversed c h s m r (counts_for c plan.mint.community_id plan.amount))
unfolding write_reversal
write_reversal-Totals c h s m r ports i plan fits =
    let owner = plan.mint.community_id in
    let δ = counts_for c owner plan.amount in
    Triple-bind
      (Triple-keeps (
        Keeps-both _ (allocate_ledger_seq-Keeps c h s m r owner)
          (allocate_ledger_seq-Ready plan owner)))
      λ seq.
        Triple-bind
          (insert_reversal-Totals c h s m r plan owner plan.amount
            (reversal_row i plan ports.now seq) (λ id. refl) (λ id. refl))
          λ rev.
            Triple-bind {R = λ u. Reversed c h s m r δ}
              (record {
                at = λ d u e run t. debit_member-Totals c h s m (r + δ) plan d u e run fits t.1 t.0;
              })
              λ u. record {
                at = λ d o e run t. (
                  t.0,
                  t.1,
                  (attach_reversal_record-Keeps c (h - δ) (s - δ) m (r + δ) ports plan.mint rev).at
                      d o e run t.2,
                );
              }

pub reverse_mint-Acts :
    (ports : Ports) (i : ReverseInput) (c : ℕ) (d : Db) (o : ReversalOutcome) (e : Db)
    → Balanced c d
    → reverse_mint ports i d ≡ ok (o, e)
    → Acts c d e
unfolding reverse_mint
reverse_mint-Acts ports i c d o e books run =
    let (plan, d', checked, written) =
      >>=-inv (check_reversal i) (write_reversal ports i) d o e run in
    let (stay, hb, hs, fits, fresh) = check_reversal-run i d plan d' checked in
    let owner = plan.mint.community_id in
    let enough : plan.amount ≤ supply owner d = rw hs (ground arith) in
    let (δ≤h, δ≤s, t) =
      (write_reversal-Totals c _ _ _ _ ports i plan fits).at d o e
        (subst (λ x. Commits (write_reversal ports i plan) x o e) stay written)
        (books_open c d books, (hb, enough)) in
    Acts.retires (counts_for c owner plan.amount) δ≤h δ≤s t

-- A reversal that commits keeps the books of every community in balance.
pub reverse_mint-Balanced :
    (ports : Ports) (i : ReverseInput) (c : ℕ) (d : Db) (o : ReversalOutcome) (e : Db)
    → Balanced c d
    → reverse_mint ports i d ≡ ok (o, e)
    → Balanced c e
reverse_mint-Balanced ports i c d o e books run =
    Acts-Balanced c d e (reverse_mint-Acts ports i c d o e books run) books
