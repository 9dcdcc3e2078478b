-- ===== src/Engine/Mint/Seed.antt =====
-- `mintInitialAllocation` keeps the books of every community in balance.
use you_fen.Base.{ℕ, ◌+◌, ◌-◌, ◌≡◌, refl, subst, List, [], ◌∷◌, arith}
use you_fen.Engine.Tables.{MintEventRow, PolicyRow, StateRow}
use you_fen.Engine.Errors.{ok}
use you_fen.Engine.Db.{Db}
use you_fen.Engine.Db.Keeps.{
  Triple, Triple-keeps, Triple-bind, Triple-pure, Keeps-lift, Keeps-throw_if, Keeps-gets,
  Keeps-require, reads,
}
use you_fen.Engine.Ports.{Ports}
use you_fen.Engine.Books.{counts_for, Totals, Balanced}
use you_fen.Engine.Books.Acts.{Acts, Acts-Balanced}
use you_fen.Engine.Books.Updates.{books_open, Totals-recount}
use you_fen.Engine.Books.Steps.{
  allocate_ledger_seq-Keeps, credit_balance-Totals, grow_supply-Totals,
  lock_or_create_balance-Keeps,
}
use you_fen.Engine.Mint.{MintOutcome}
use you_fen.Engine.Mint.Events.{insert_mint_event-Totals, attach_records-Keeps}
use you_fen.Engine.Mint.Genesis.{
  Allocation, AllocationInput, genesis_row, genesis_credit, allocate_one, allocate_all,
  mint_initial_allocation, finish_allocation,
}

allocate_one-Totals :
    (c h s m r : ℕ) (i : AllocationInput) (policy : PolicyRow) (now supply : ℕ) (alloc : Allocation)
    → Triple (Totals c h s m r) (allocate_one i policy now supply alloc) (λ one.
      Totals c (h + counts_for c i.community_id one.0) s (m + counts_for c i.community_id one.0) r)
unfolding allocate_one
allocate_one-Totals c h s m r i policy now supply alloc =
    let owner = i.community_id in
    Triple-bind (Triple-keeps (Keeps-lift _)) λ amount.
      Triple-bind (Triple-keeps (lock_or_create_balance-Keeps c h s m r owner alloc.member_id))
        λ balance. Triple-bind (Triple-keeps (allocate_ledger_seq-Keeps c h s m r owner)) λ seq.
          Triple-bind (Triple-keeps (Keeps-lift _)) λ before.
            Triple-bind (Triple-keeps (Keeps-lift _)) λ after.
              Triple-bind
                (insert_mint_event-Totals c h s m r owner
                  (genesis_row i policy alloc balance amount supply before after seq now) amount
                  (λ id. refl) (λ id. refl))
                λ row.
                  Triple-bind
                    (credit_balance-Totals c h s (m + counts_for c owner amount) r owner
                      alloc.member_id amount (genesis_credit amount now) (λ b. refl) (λ b. refl)
                      (λ b. refl) (λ b split. omega arith))
                    λ u.
                      Triple-pure
                        {Q = λ one.
                          Totals c (h + counts_for c owner one.0) s (m + counts_for c owner one.0)
                            r}
                        (amount, row) (λ d t. t)

-- The books while the loop runs: the members hold what was minted, the supply is still to be raised.
abbrev Credited : ℕ → ℕ → ℕ → ℕ → ℕ → ℕ → ℕ → ℕ → Db → Type 0
Credited c h s m r owner supply after d =
    (x : ℕ) × (after ≡ supply + x)
    × Totals c (h + counts_for c owner x) s (m + counts_for c owner x) r d

allocate_all-Totals :
    (c h s m r : ℕ) (i : AllocationInput) (policy : PolicyRow) (now supply : ℕ)
    (allocs : List Allocation)
    → Triple
        (Totals c h s m r)
        (allocate_all i policy now supply allocs)
        (λ all. Credited c h s m r i.community_id supply all.1)
unfolding allocate_all
allocate_all-Totals c h s m r i policy now supply [] =
    Triple-pure {Q = λ all. Credited c h s m r i.community_id supply all.1} ([], supply)
      λ d t. (0, omega arith, Totals-recount d (ground arith) refl (ground arith) refl t)
allocate_all-Totals c h s m r i policy now supply (alloc ∷ allocs) =
    let owner = i.community_id in
    Triple-bind (allocate_one-Totals c h s m r i policy now supply alloc) λ one.
      Triple-bind
        (allocate_all-Totals c (h + counts_for c owner one.0) s (m + counts_for c owner one.0) r i
          policy now (supply + one.0) allocs)
        λ rest. Triple-pure {Q = λ all. Credited c h s m r owner supply all.1} _ λ d t.
          let (x, eq, counted) = t in
          (
            one.0 + x,
            omega (arith, eq),
            Totals-recount d (ground arith) refl (ground arith) refl counted,
          )

-- The supply is raised by what the loop has credited.
finish_allocation-Totals :
    (c h s m r : ℕ) (ports : Ports) (i : AllocationInput) (state : StateRow)
    (all : List MintEventRow × ℕ)
    → Triple
        (Credited c h s m r i.community_id state.current_total_supply all.1)
        (finish_allocation ports i state all)
        (λ o d.
          (x : ℕ) × (let δ = counts_for c i.community_id x in Totals c (h + δ) (s + δ) (m + δ) r d))
unfolding finish_allocation
finish_allocation-Totals c h s m r ports i state all = record {
  at = λ d o e run t.
      let (x, eq, counted) = t in
      let x' = all.1 - state.current_total_supply in
      let δ = counts_for c i.community_id x' in
      let same : x ≡ x' = omega (arith, eq) in
      (
        x',
        (Triple-bind (grow_supply-Totals c (h + δ) s (m + δ) r i.community_id x')
              (λ u. Triple-keeps (search (reads, attach_records-Keeps)))).at
            d o e run
            (subst
              (λ n.
                Totals c (h + counts_for c i.community_id n) s (m + counts_for c i.community_id n) r
                  d)
              same counted),
      );
}

mint_initial_allocation-Totals :
    (c h s m r : ℕ) (ports : Ports) (i : AllocationInput)
    → Triple (Totals c h s m r) (mint_initial_allocation ports i) (λ o d.
      (x : ℕ) × (let δ = counts_for c i.community_id x in Totals c (h + δ) (s + δ) (m + δ) r d))
unfolding mint_initial_allocation
mint_initial_allocation-Totals c h s m r ports i =
    let owner = i.community_id in
    Triple-bind (Triple-keeps (Keeps-gets _)) λ seeded.
      Triple-bind (Triple-keeps (Keeps-throw_if _ _)) λ _.
        Triple-bind (Triple-keeps (Keeps-gets _)) λ found.
          Triple-bind (Triple-keeps (Keeps-require _ _)) λ state.
            Triple-bind (Triple-keeps (Keeps-gets _)) λ row.
              Triple-bind (Triple-keeps (Keeps-require _ _)) λ policy.
                Triple-bind
                  (allocate_all-Totals c h s m r i policy ports.now state.current_total_supply
                    i.allocations)
                  λ all. finish_allocation-Totals c h s m r ports i state all

pub mint_initial_allocation-Acts :
    (ports : Ports) (i : AllocationInput) (c : ℕ) (d : Db) (o : MintOutcome) (e : Db)
    → Balanced c d
    → mint_initial_allocation ports i d ≡ ok (o, e)
    → Acts c d e
mint_initial_allocation-Acts ports i c d o e books run =
    let (x, counted) =
      (mint_initial_allocation-Totals c _ _ _ _ ports i).at d o e run (books_open c d books) in
    Acts.issues (counts_for c i.community_id x) counted

-- A genesis allocation that commits keeps the books of every community in balance.
pub mint_initial_allocation-Balanced :
    (ports : Ports) (i : AllocationInput) (c : ℕ) (d : Db) (o : MintOutcome) (e : Db)
    → Balanced c d
    → mint_initial_allocation ports i d ≡ ok (o, e)
    → Balanced c e
mint_initial_allocation-Balanced ports i c d o e books run =
    Acts-Balanced c d e (mint_initial_allocation-Acts ports i c d o e books run) books
