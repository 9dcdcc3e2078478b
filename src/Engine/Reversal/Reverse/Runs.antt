-- ===== src/Engine/Reversal/Reverse/Runs.antt =====
-- The runs of `reverseMint` that commit, step by step.
use you_fen.Base.{
  ℕ, suc, ◌≡◌, refl, sym, ◌∙◌, subst, Bool, true, false, Option, none, some, [], ◌∷◌, ◌++◌, ◌==◌,
  any, find, update_first, arith,
}
use you_fen.Engine.Tables.{MintEventRow, ReversalEventRow}
use you_fen.Engine.Db.{Db, ◌>>=◌}
use you_fen.Engine.Db.Keeps.{Commits, Keeps, Keeps-throw_if, >>=-inv, ok-value, ok-db, reads}
use you_fen.Engine.Db.Locks.{is_balance_of, is_state_of}
use you_fen.Engine.Reversal.Guards.{
  ReverseInput, governance_gate, require_reversal_proposal, overdraws,
}
use you_fen.Engine.Reversal.Reverse.{
  ReversalRows, ReversalPlan, lock_rows, bound_amount, check_reversal, insert_reversal, debit,
  shrink, debit_member,
}

abbrev pub reverses : ℕ → ReversalEventRow → Bool
reverses id r = r.original_mint_event_id == id

lock_rows-run :
    (id : ℕ) (d : Db) (rows : ReversalRows) (e : Db)
    → Commits (lock_rows id) d rows e
    → (e ≡ d)
      × (find (is_balance_of rows.mint.community_id rows.mint.member_id) d.balances
          ≡ some rows.balance)
      × (find (is_state_of rows.mint.community_id) d.states ≡ some rows.state)
unfolding lock_rows ◌>>=◌
lock_rows-run id d rows e run = ground arith

pub bound_amount-run :
    (i : ReverseInput) (rows : ReversalRows) (d : Db) (x : ℕ) (e : Db)
    → Commits (bound_amount i rows) d x e
    → (e ≡ d)
      × (overdraws rows.mint rows.balance rows.state x ≡ false)
      × (any (reverses i.original_mint_event_id) d.reversal_events ≡ false)
unfolding bound_amount ◌>>=◌
bound_amount-run i rows d x e run = ground arith

module _ {P : Db → Type 0} where
  require_reversal_proposal-Keeps :
      (mint : MintEventRow) (o : Option ℕ) → Keeps P (require_reversal_proposal mint o)
  require_reversal_proposal-Keeps mint none = search reads
  require_reversal_proposal-Keeps mint (some p) = search reads depth 14

  pub governance_gate-Keeps :
      (i : ReverseInput) (mint : MintEventRow) → Keeps P (governance_gate i mint)
  unfolding governance_gate
  governance_gate-Keeps i mint = search (reads, require_reversal_proposal-Keeps) depth 14

pub insert_reversal-run :
    (row_of : ℕ → ReversalEventRow) (d : Db) (row : ReversalEventRow) (e : Db)
    → Commits (insert_reversal row_of) d row e
    → (row ≡ row_of d.next_id)
      × (e ≡ record d {
        reversal_events = d.reversal_events ++ row_of d.next_id ∷ [];
        next_id = suc d.next_id;
      })
unfolding insert_reversal ◌>>=◌
insert_reversal-run row_of d row e run = ground arith

pub debit_member-run :
    (plan : ReversalPlan) (d : Db) (u : Unit) (e : Db)
    → Commits (debit_member plan) d u e
    → (any (is_state_of plan.mint.community_id) d.states ≡ true)
      × (e ≡ record d {
        balances =
            update_first (λ b. b.id == plan.balance.id) (debit plan.mint plan.amount) d.balances;
        states = update_first (is_state_of plan.mint.community_id) (shrink plan.amount) d.states;
      })
unfolding debit_member ◌>>=◌
debit_member-run plan d u e run = ground arith

-- The checks write nothing, and what they have found is there.
pub check_reversal-run :
    (i : ReverseInput) (d : Db) (plan : ReversalPlan) (e : Db)
    → Commits (check_reversal i) d plan e
    → (e ≡ d)
      × (find (is_balance_of plan.mint.community_id plan.mint.member_id) d.balances
          ≡ some plan.balance)
      × (find (is_state_of plan.mint.community_id) d.states ≡ some plan.state)
      × (overdraws plan.mint plan.balance plan.state plan.amount ≡ false)
      × (any (reverses i.original_mint_event_id) d.reversal_events ≡ false)
unfolding check_reversal
check_reversal-run i d plan e run =
    let (u, d₁, known, rest₁) = >>=-inv _ _ d plan e run in
    let (rows, d₂, locked, rest₂) = >>=-inv _ _ d₁ plan e rest₁ in
    let (v, d₃, gated, rest₃) = >>=-inv _ _ d₂ plan e rest₂ in
    let (x, d₄, bounded, last) = >>=-inv _ _ d₃ plan e rest₃ in
    let e₁ : d₁ ≡ d = (Keeps-throw_if {P = λ y. y ≡ d} _ _).at d u d₁ known refl in
    let (e₂, hb, hs) = lock_rows-run _ d₁ rows d₂ locked in
    let e₃ : d₃ ≡ d₂ =
      (governance_gate-Keeps {P = λ y. y ≡ d₂} i rows.mint).at d₂ v d₃ gated refl in
    let (e₄, fits, fresh) = bound_amount-run i rows d₃ x d₄ bounded in
    let stay : e ≡ d = sym (ok-db _ plan d₄ e last) ∙ e₄ ∙ e₃ ∙ e₂ ∙ e₁ in
    rw (← ok-value _ plan d₄ e last) (
      stay,
      rw (← e₁) hb,
      rw (← e₁) hs,
      fits,
      subst (λ y. any (reverses i.original_mint_event_id) y.reversal_events ≡ false) (e₃ ∙ e₂ ∙ e₁)
          fresh,
    )
