-- ===== src/Engine/Mint/Once.antt =====
-- One contribution is minted at most once.
use you_fen.Base.{
  ℕ, ◌≡◌, ◌≢◌, refl, ◌∙◌, subst, Bool, true, false, Option, none, some, List, [], ◌∷◌, ◌==◌, any,
  find, find_sound, ==_iff, ap, ◌⊎◌, inl, inr, any-append, any-update_first, update_first,
  option_eq, arith,
}
use you_fen.Engine.Errors.{ok}
use you_fen.Engine.Tables.{MintEventRow, ContributionRow, AdvanceRequestRow, BalanceRow}
use you_fen.Engine.Db.{Db, Tx, ◌>>=◌, lift}
use you_fen.Engine.Db.Keeps.{
  Commits, Keeps, Triple, Triple-keeps, Triple-bind, Keeps-modify, Keeps-lift, Keeps-fresh_id,
  Keeps-update, Keeps-bind, Keeps-pure, reads, >>=-inv, Yields-then, Yields-pure,
}
use you_fen.Engine.Db.Locks.{allocate_ledger_seq}
use you_fen.Engine.Balances.{credit_balance, grow_supply, credit_member}
use you_fen.Engine.Ports.{Ports}
use you_fen.Engine.Mint.{
  LegPlan, MintOutcome, insert_mint_event, attach_record, attach_records, set_mint_record,
}
use you_fen.Engine.Mint.Events.{insert_mint_event-run}
use you_fen.Engine.Mint.Gates.{MintInput, load_contribution}
use you_fen.Engine.Mint.Contribution.{
  MintPlan, prepare_mint, insert_legs, leg_row, meter_budgets, consume_request, last_leg,
  write_mint, mint_for_contribution,
}

abbrev pub mints : ℕ → MintEventRow → Bool
mints id m = option_eq m.contribution_id (some id)

-- The contribution has a mint event.
abbrev pub HasMint : ℕ → Db → Type 0
HasMint id d = any (mints id) d.mint_events ≡ true

load_contribution-run :
    (id : ℕ) (d : Db) (c : ContributionRow) (e : Db)
    → Commits (load_contribution id) d c e
    → (find (λ r. r.id == id) d.contributions ≡ some c) × (any (mints c.id) d.mint_events ≡ false)
unfolding load_contribution ◌>>=◌
load_contribution-run id d c e run = ground arith

load_contribution-fresh :
    (id : ℕ) (d : Db) (c : ContributionRow) (e : Db)
    → Commits (load_contribution id) d c e
    → (c.id ≡ id) × (any (mints id) d.mint_events ≡ false)
load_contribution-fresh id d c e run =
    let (found, fresh) = load_contribution-run id d c e run in
    let same : c.id ≡ id =
      (==_iff c.id id).0 (find_sound (λ r. r.id == id) d.contributions c found) in
    (same, subst (λ k. any (mints k) d.mint_events ≡ false) same fresh)

prepare_mint-fresh :
    (i : MintInput) (d : Db) (plan : MintPlan) (e : Db)
    → Commits (prepare_mint i) d plan e
    → (plan.contribution.id ≡ i.contribution_id)
      × (any (mints i.contribution_id) d.mint_events ≡ false)
unfolding prepare_mint
prepare_mint-fresh i d plan e run =
    let (c, d', loaded, rest) = >>=-inv (load_contribution i.contribution_id) _ d plan e run in
    let (same, fresh) = load_contribution-fresh i.contribution_id d c d' loaded in
    let own =
      (Yields-then _ _ λ _. Yields-then _ _ λ ep. Yields-then _ _ λ _. Yields-then _ _ λ p.
          Yields-then _ _ λ _. Yields-then _ _ λ s. Yields-then _ _ λ b. Yields-then _ _ λ amount.
            Yields-then _ _ λ cap. Yields-then _ _ λ _. Yields-then _ _ λ related.
              Yields-then _ _ λ split. Yields-pure {Q = λ pl. pl.contribution ≡ c} _ refl).at
        d' plan e rest in
    (ap (λ x. x.id) own ∙ same, fresh)

-- A transaction that keeps what there is keeps either of two facts, the first of which is not of the
-- tables.
either : {A : Type 0} {F : Type 0} {P : Db → Type 0} (m : Tx A) → Keeps P m → Keeps (λ d. F ⊎ P d) m
either m k = record {
  at = λ d a e run h. elim h [ inl f ↦ inl f | inr p ↦ inr (k.at d a e run p) ];
}

module _ (id : ℕ) where
  credit_member-HasMint :
      (owner member : ℕ) (g : BalanceRow → BalanceRow) (x : ℕ)
      → Keeps (HasMint id) (credit_member owner member g x)
  unfolding credit_member credit_balance grow_supply
  credit_member-HasMint owner member g x = search (reads, Keeps-modify) depth 20

  insert_mint_event-HasMint :
      (data_of : ℕ → MintEventRow) → Keeps (HasMint id) (insert_mint_event data_of)
  insert_mint_event-HasMint data_of = record {
    at = λ d row e run h.
        let (_, eq) = insert_mint_event-run data_of d row e run in
        rw eq (ground (arith, any-append (mints id) d.mint_events (data_of d.next_id ∷ []), h));
  }

  insert_legs-HasMint :
      (i : MintInput) (plan : MintPlan) (now : ℕ) (legs : List LegPlan)
      → Keeps (HasMint id) (insert_legs i plan now legs)
  unfolding insert_legs allocate_ledger_seq
  insert_legs-HasMint i plan now [] = search reads
  insert_legs-HasMint i plan now (leg ∷ legs) =
      Keeps-bind _ _ (search (reads, Keeps-modify) depth 14) λ seq.
        Keeps-bind _ _ (insert_mint_event-HasMint (leg_row i plan now leg seq))
          λ row. Keeps-bind _ _ (insert_legs-HasMint i plan now legs) λ rows. Keeps-pure _

  set_mint_record-HasMint :
      (k record_id : ℕ) (d : Db)
      → HasMint id d
      → HasMint id (record d {
        mint_events = update_first (λ r. r.id == k) (set_mint_record record_id) d.mint_events;
      })
  set_mint_record-HasMint k record_id d h =
      any-update_first (mints id) (λ r. r.id == k) (set_mint_record record_id) d.mint_events
        (λ x. refl)
      ∙ h

  attach_record-HasMint :
      (ports : Ports) (owner : ℕ) (m : MintEventRow)
      → Keeps (HasMint id) (attach_record ports owner m)
  unfolding attach_record
  attach_record-HasMint ports owner m =
      search (reads, Keeps-modify, Keeps-fresh_id, set_mint_record-HasMint m.id) depth 30

  attach_records-HasMint :
      (ports : Ports) (owner : ℕ) (ms : List MintEventRow)
      → Keeps (HasMint id) (attach_records ports owner ms)
  unfolding attach_records
  attach_records-HasMint ports owner [] = search reads
  attach_records-HasMint ports owner (m ∷ ms) =
      Keeps-bind _ _ (attach_record-HasMint ports owner m)
        λ x. Keeps-bind _ _ (attach_records-HasMint ports owner ms) λ xs. Keeps-pure _

  consume_request-HasMint :
      (o : Option AdvanceRequestRow) (x now : ℕ) → Keeps (HasMint id) (consume_request o x now)
  unfolding consume_request
  consume_request-HasMint none x now = search reads
  consume_request-HasMint (some q) x now = search (reads, Keeps-modify) depth 14

  meter_budgets-HasMint : (e x y : ℕ) → Keeps (HasMint id) (meter_budgets e x y)
  unfolding meter_budgets
  meter_budgets-HasMint e x y = search (reads, Keeps-update) depth 14

insert_mint_event-adds :
    (k : ℕ) (data_of : ℕ → MintEventRow)
    → ((id : ℕ) → (data_of id).contribution_id ≡ some k)
    → Triple (λ d. Unit {0}) (insert_mint_event data_of) (λ row. HasMint k)
insert_mint_event-adds k data_of own = record {
  at = λ d row e run u.
      let (_, eq) = insert_mint_event-run data_of d row e run in
      rw eq (
        ground (arith, any-append (mints k) d.mint_events (data_of d.next_id ∷ []), own d.next_id));
}

-- The first leg leaves a mint event of the contribution.
insert_legs-adds :
    (i : MintInput) (plan : MintPlan) (now : ℕ) (legs : List LegPlan)
    → Triple
        (λ d. Unit {0})
        (insert_legs i plan now legs)
        (λ rows d. (legs ≡ []) ⊎ HasMint plan.contribution.id d)
unfolding insert_legs
insert_legs-adds i plan now [] = record { at = λ d rows e run u. inl refl }
insert_legs-adds i plan now (leg ∷ legs) =
    let k = plan.contribution.id in
    Triple-bind {R = λ seq d. Unit {0}} (record { at = λ d a e run u. tt })
      λ seq. Triple-bind (insert_mint_event-adds k (leg_row i plan now leg seq) (λ id. refl)) λ row.
        record {
          at = λ d rows e run has. inr (
              (Keeps-bind _ _ (insert_legs-HasMint k i plan now legs) (λ xs. Keeps-pure _)).at d
                rows e run has);
        }

-- `legs[legs.length - 1]` is read, so that a mint without legs does not commit.
last_leg-fails :
    (legs : List LegPlan) (d : Db) (l : LegPlan) (e : Db)
    → legs ≡ []
    → Commits (lift (last_leg legs)) d l e
    → ⊥
unfolding lift
last_leg-fails [] d l e h run = cc
last_leg-fails (leg ∷ legs) d l e h run = cc

write_mint-HasMint :
    (ports : Ports) (i : MintInput) (plan : MintPlan)
    → Triple (λ d. Unit {0}) (write_mint ports i plan) (λ o. HasMint plan.contribution.id)
unfolding write_mint credit_member
write_mint-HasMint ports i plan =
    let k = plan.contribution.id in
    Triple-bind {R = λ legs d. Unit {0}} (record { at = λ d a e run u. tt })
      λ legs. Triple-bind (insert_legs-adds i plan ports.now legs) λ created.
        Triple-bind (Triple-keeps (either _ (credit_member-HasMint k _ _ _ _))) λ _.
          Triple-bind (Triple-keeps (either _ (meter_budgets-HasMint k _ _ _))) λ _.
            Triple-bind (Triple-keeps (either _ (consume_request-HasMint k _ _ _))) λ _.
              Triple-bind (Triple-keeps (either _ (attach_records-HasMint k ports _ created)))
                λ ids.
                  Triple-bind {R = λ l. HasMint k}
                    (record {
                      at = λ d l e run has. elim has [
                        | inl empty ↦ absurd (last_leg-fails legs d l e empty run)
                        | inr h ↦ (Keeps-lift {P = HasMint k} _).at d l e run h
                      ];
                    })
                    λ l. Triple-keeps (Keeps-pure _)

-- After a mint for a contribution that commits, no mint for the same contribution commits on the
-- tables that it leaves.
pub mint_for_contribution-once :
    (ports later : Ports) (i j : MintInput) (d e e' : Db) (o o' : MintOutcome)
    → mint_for_contribution ports i d ≡ ok (o, e)
    → j.contribution_id ≡ i.contribution_id
    → mint_for_contribution later j e ≢ ok (o', e')
unfolding mint_for_contribution
mint_for_contribution-once ports later i j d e e' o o' run same again =
    let (plan, f, prepared, written) = >>=-inv (prepare_mint i) (write_mint ports i) d o e run in
    let (plan', f', prepared', written') =
      >>=-inv (prepare_mint j) (write_mint later j) e o' e' again in
    let (own, _) = prepare_mint-fresh i d plan f prepared in
    let (own', fresh) = prepare_mint-fresh j e plan' f' prepared' in
    let has = (write_mint-HasMint ports i plan).at f o e written tt in cc (has, fresh, own, same)
