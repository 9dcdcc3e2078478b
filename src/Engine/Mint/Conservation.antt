-- ===== src/Engine/Mint/Conservation.antt =====
-- `mintForContribution` keeps the books of every community in balance.
use you_fen.Base.{ℕ, ◌+◌, ◌≡◌, refl, ap, ◌∙◌, Option, none, some, List, [], ◌∷◌, sum_of, arith}
use you_fen.Engine.Tables.{BalanceRow, StateRow, EpochRow, ContributionRow, AdvanceRequestRow}
use you_fen.Engine.Errors.{ok}
use you_fen.Engine.Calc.{calculate_ownership_percentage}
use you_fen.Engine.Db.{Db, ◌>>=◌}
use you_fen.Engine.Db.Keeps.{
  Commits, Keeps, Triple, Triple-keeps, Triple-bind, Triple-pure, Triple-lift, Triple-have, Yields,
  Yields-then, Yields-with, Yields-pure, Keeps-lift, reads, >>=-inv, Keeps-modify,
}
use you_fen.Engine.Ports.{Ports}
use you_fen.Engine.Books.{counts_for, Totals, Balanced}
use you_fen.Engine.Books.Acts.{Acts, Acts-Balanced}
use you_fen.Engine.Books.Updates.{books_open, Totals-frame, Totals-recount}
use you_fen.Engine.Books.Steps.{
  allocate_ledger_seq-Keeps, credit_member-Totals, meter_regular-Keeps, meter_advanced-Keeps,
  lock_or_create_balance-Keeps,
}
use you_fen.Engine.Mint.Events.{insert_mint_event-Totals, attach_records-Keeps}
use you_fen.Engine.Mint.{LegPlan, plan_legs, MintOutcome}
use you_fen.Engine.Mint.Gates.{MintInput, Split, resolve_budget}
use you_fen.Engine.Mint.Frames.{
  load_contribution-Keeps, resolve_amount-Keeps, arbitrate-Keeps, resolve_budget-Keeps,
}
use you_fen.Engine.Mint.Contribution.{
  MintPlan, prepare_mint, insert_legs, leg_row, credit, meter_budgets, consume_request, write_mint,
  mint_for_contribution,
}

module _ (c h s m r : ℕ) where
  prepare_mint-Keeps : (i : MintInput) → Keeps (Totals c h s m r) (prepare_mint i)
  unfolding prepare_mint
  prepare_mint-Keeps i =
      search
        (
          reads,
          load_contribution-Keeps,
          lock_or_create_balance-Keeps c h s m r,
          resolve_amount-Keeps,
          arbitrate-Keeps,
          resolve_budget-Keeps,
        )
        depth 40

  meter_budgets-Keeps : (e x y : ℕ) → Keeps (Totals c h s m r) (meter_budgets e x y)
  unfolding meter_budgets
  meter_budgets-Keeps e x y =
      search (reads, meter_regular-Keeps c h s m r, meter_advanced-Keeps c h s m r) depth 14

  consume_request-Keeps :
      (o : Option AdvanceRequestRow) (x now : ℕ)
      → Keeps (Totals c h s m r) (consume_request o x now)
  unfolding consume_request
  consume_request-Keeps none x now = search reads
  consume_request-Keeps (some q) x now =
      search
        (
          reads,
          Keeps-modify,
          λ (d : Db) (qs : List AdvanceRequestRow) (w : Totals c h s m r d).
              Totals-frame c h s m r d (record d { advance_requests = qs }) w refl refl refl refl
                refl refl,
        )
        depth 14

abbrev pub leg_total : List LegPlan → ℕ
leg_total legs = sum_of (λ l. l.amount) legs

-- The rows of the legs add their amounts to what the community minted, and nothing else.
insert_legs-Totals :
    (c h s m r : ℕ) (i : MintInput) (plan : MintPlan) (now : ℕ) (legs : List LegPlan)
    → Triple
        (Totals c h s m r)
        (insert_legs i plan now legs)
        (λ rows. Totals c h s (m + counts_for c plan.contribution.community_id (leg_total legs)) r)
unfolding insert_legs
insert_legs-Totals c h s m r i plan now [] =
    Triple-pure {Q = λ rows. Totals c h s (m + counts_for c plan.contribution.community_id 0) r} []
      (λ d t. Totals-recount d refl refl (ground arith) refl t)
insert_legs-Totals c h s m r i plan now (leg ∷ legs) =
    let owner = plan.contribution.community_id in
    let m' = m + counts_for c owner leg.amount in
    Triple-bind (Triple-keeps (allocate_ledger_seq-Keeps c h s m r owner)) λ seq.
      Triple-bind
        (insert_mint_event-Totals c h s m r owner (leg_row i plan now leg seq) leg.amount
          (λ id. refl) (λ id. refl))
        λ row. Triple-bind (insert_legs-Totals c h s m' r i plan now legs) λ rows.
          Triple-pure {Q = λ all. Totals c h s (m + counts_for c owner (leg_total (leg ∷ legs))) r}
            (row ∷ rows) (λ d t. Totals-recount d refl refl (ground arith) refl t)

plan_legs-total :
    (b : BalanceRow) (w : StateRow) (x y n : ℕ) (q : Option ℕ) (legs : List LegPlan)
    → plan_legs b w x y n q ≡ ok legs
    → leg_total legs ≡ x + y
unfolding plan_legs calculate_ownership_percentage
plan_legs-total b w x y n q legs e = ground arith

resolve_budget-total :
    (e : EpochRow) (c : ContributionRow) (x : ℕ) (q : Option ℕ) (d : Db) (s : Split) (d' : Db)
    → Commits (resolve_budget e c x q) d s d'
    → s.regular_part + s.advance_part ≡ x
unfolding resolve_budget ◌>>=◌
resolve_budget-total e c x none d s d' h = ground arith
resolve_budget-total e c x (some q) d s d' h = ground arith

abbrev pub AddsUp : MintPlan → Type 0
AddsUp plan = plan.split.regular_part + plan.split.advance_part ≡ plan.amount

resolve_budget-Yields :
    (e : EpochRow) (c : ContributionRow) (x : ℕ) (q : Option ℕ)
    → Yields (λ s. s.regular_part + s.advance_part ≡ x) (resolve_budget e c x q)
resolve_budget-Yields e c x q = record { at = resolve_budget-total e c x q }

pub prepare_mint-AddsUp : (i : MintInput) → Yields AddsUp (prepare_mint i)
unfolding prepare_mint
prepare_mint-AddsUp i = Yields-then _ _ λ c. Yields-then _ _ λ _. Yields-then _ _ λ e.
    Yields-then _ _ λ _. Yields-then _ _ λ p. Yields-then _ _ λ _. Yields-then _ _ λ s.
      Yields-then _ _ λ b. Yields-then _ _ λ amount. Yields-then _ _ λ cap. Yields-then _ _ λ _.
        Yields-then _ _ λ related.
          Yields-with _ _ (resolve_budget-Yields e c amount i.advance_request_id)
            λ split sum. Yields-pure _ sum

module _ (c h s m r : ℕ) where
  write_mint-Totals :
      (ports : Ports) (i : MintInput) (plan : MintPlan)
      → AddsUp plan
      → let δ = counts_for c plan.contribution.community_id plan.amount in
        Triple
          (Totals c h s m r)
          (write_mint ports i plan)
          (λ o. Totals c (h + δ) (s + δ) (m + δ) r)
  unfolding write_mint
  write_mint-Totals ports i plan sum =
      let owner = plan.contribution.community_id in
      let δ = counts_for c owner plan.amount in
      let x = plan.split.regular_part in
      let y = plan.split.advance_part in
      Triple-bind {R = λ legs d. (leg_total legs ≡ x + y) × Totals c h s m r d}
        (Triple-lift _
          (λ legs planned d t. (plan_legs-total plan.balance plan.state x y _ _ legs planned, t)))
        λ legs. Triple-have λ total.
          Triple-bind (insert_legs-Totals c h s m r i plan ports.now legs) λ created.
            Triple-bind
              (credit_member-Totals c h s (m + counts_for c owner (leg_total legs)) r owner
                plan.contribution.member_id plan.amount (credit plan.amount x y ports.now)
                (λ b. refl) (λ b. refl) (λ b. refl) (λ b split. omega arith))
              λ _. Triple-bind (Triple-keeps (meter_budgets-Keeps c _ _ _ r plan.epoch.id x y)) λ _.
                Triple-bind
                  (Triple-keeps
                    (consume_request-Keeps c _ _ _ r plan.split.advance_request y ports.now))
                  λ _.
                    Triple-bind (Triple-keeps (attach_records-Keeps c _ _ _ r ports owner created))
                      λ ids. Triple-bind (Triple-keeps (Keeps-lift _)) λ last.
                        Triple-pure {Q = λ o. Totals c (h + δ) (s + δ) (m + δ) r} _ (λ d t.
                          Totals-recount d refl refl
                            (ap (λ n. m + counts_for c owner n) (total ∙ sum)) refl t)

pub mint_for_contribution-Acts :
    (ports : Ports) (i : MintInput) (c : ℕ) (d : Db) (o : MintOutcome) (e : Db)
    → Balanced c d
    → mint_for_contribution ports i d ≡ ok (o, e)
    → Acts c d e
unfolding mint_for_contribution
mint_for_contribution-Acts ports i c d o e books run =
    let (plan, d', prepared, written) = >>=-inv (prepare_mint i) (write_mint ports i) d o e run in
    let start = books_open c d books in
    let kept = (prepare_mint-Keeps c _ _ _ _ i).at d plan d' prepared start in
    let sum = (prepare_mint-AddsUp i).at d plan d' prepared in
    Acts.issues (counts_for c plan.contribution.community_id plan.amount)
      ((write_mint-Totals c _ _ _ _ ports i plan sum).at d' o e written kept)

-- A mint that commits keeps the books of every community in balance.
pub mint_for_contribution-Balanced :
    (ports : Ports) (i : MintInput) (c : ℕ) (d : Db) (o : MintOutcome) (e : Db)
    → Balanced c d
    → mint_for_contribution ports i d ≡ ok (o, e)
    → Balanced c e
mint_for_contribution-Balanced ports i c d o e books run =
    Acts-Balanced c d e (mint_for_contribution-Acts ports i c d o e books run) books
