-- ===== src/Engine/Books/Steps.antt =====
-- The statements that the services share, and the totals of a community.
use you_fen.Base.{
  ℕ, suc, ◌+◌, ◌≡◌, refl, true, Option, none, some, List, [], ◌∷◌, ◌++◌, arith, any, find,
  find_sound, update_first, All-update_all,
}
use you_fen.Engine.Tables.{BalanceRow, RecordType, SourceTable, PublicRecordRow}
use you_fen.Engine.Db.{Db, fresh_id, ◌>>=◌}
use you_fen.Engine.Db.Locks.{is_balance_of, is_state_of, allocate_ledger_seq}
use you_fen.Engine.Db.Sql.{
  fits_regular, add_regular, increment_regular_minted_guarded, fits_advance, add_advanced,
  increment_advanced_minted_guarded,
}
use you_fen.Engine.Db.Keeps.{
  Commits, Keeps, reads, Keeps-modify, Keeps-fresh_id, Keeps-update, Triple, Triple-bind,
}
use you_fen.Engine.Balances.{
  zero_balance, create_balance, create_if_missing, lock_or_create_balance, credit_balance, grow,
  grow_supply, credit_member,
}
use you_fen.Engine.Ports.{Ports, create_pending_record, create_db_only_record}
use you_fen.Engine.Books.{counts_for, IsSplit, IsWithinBudget, Totals}
use you_fen.Engine.Books.Rows.{found}
use you_fen.Engine.Books.Updates.{
  bump-Totals, next_id-Totals, balance-Totals, state-Totals, zero_balance-Totals, Totals-frame,
  epochs-Totals,
}

create_balance-run :
    (owner member : ℕ) (d : Db) (b : BalanceRow) (e : Db)
    → Commits (create_balance owner member) d b e
    → e ≡ record d {
      balances = d.balances ++ zero_balance d.next_id owner member ∷ [];
      next_id = suc d.next_id;
    }
unfolding create_balance ◌>>=◌
create_balance-run owner member d b e run = ground arith

-- The one balance that is incremented, and that it is there.
credit_balance-run :
    (owner member : ℕ) (g : BalanceRow → BalanceRow) (d : Db) (u : Unit) (e : Db)
    → Commits (credit_balance owner member g) d u e
    → (any (is_balance_of owner member) d.balances ≡ true)
      × (e ≡ record d { balances = update_first (is_balance_of owner member) g d.balances })
unfolding credit_balance ◌>>=◌
credit_balance-run owner member g d u e run = ground arith

grow_supply-run :
    (owner x : ℕ) (d : Db) (u : Unit) (e : Db)
    → Commits (grow_supply owner x) d u e
    → (any (is_state_of owner) d.states ≡ true)
      × (e ≡ record d { states = update_first (is_state_of owner) (grow x) d.states })
unfolding grow_supply ◌>>=◌
grow_supply-run owner x d u e run = ground arith

-- The balance that is found belongs to the community.
grown :
    (c h owner member x : ℕ) (g : BalanceRow → BalanceRow) (bs : List BalanceRow) (b : BalanceRow)
    → find (is_balance_of owner member) bs ≡ some b
    → (g b).total_balance ≡ b.total_balance + x
    → h + counts_for c owner x + counts_for c b.community_id b.total_balance
      ≡ h + counts_for c b.community_id (g b).total_balance
grown c h owner member x g bs b hb more =
    ground (arith, find_sound (is_balance_of owner member) bs b hb, more)

module _ (c h s m r : ℕ) where
  pub allocate_ledger_seq-Keeps : (owner : ℕ) → Keeps (Totals c h s m r) (allocate_ledger_seq owner)
  unfolding allocate_ledger_seq
  allocate_ledger_seq-Keeps owner =
      search (reads, Keeps-modify, bump-Totals c h s m r owner) depth 14

  pub fresh_id-Keeps : Keeps (Totals c h s m r) fresh_id
  fresh_id-Keeps = Keeps-fresh_id (next_id-Totals c h s m r)

  -- The metered guards keep every epoch within its budgets.
  pub meter_regular-Keeps :
      (epoch x : ℕ) → Keeps (Totals c h s m r) (increment_regular_minted_guarded epoch x)
  unfolding increment_regular_minted_guarded
  meter_regular-Keeps epoch x = Keeps-update _ _ λ d t.
      epochs-Totals c h s m r _ d
        (All-update_all IsWithinBudget (fits_regular epoch x) (add_regular x) d.epochs
          (λ e fits w. ground arith) t.meters)
        t

  pub meter_advanced-Keeps :
      (epoch x : ℕ) → Keeps (Totals c h s m r) (increment_advanced_minted_guarded epoch x)
  unfolding increment_advanced_minted_guarded
  meter_advanced-Keeps epoch x = Keeps-update _ _ λ d t.
      epochs-Totals c h s m r _ d
        (All-update_all IsWithinBudget (fits_advance epoch x) (add_advanced x) d.epochs
          (λ e fits w. ground arith) t.meters)
        t

  pub records-Totals :
      (d : Db) (rs : List PublicRecordRow)
      → Totals c h s m r d
      → Totals c h s m r (record d { records = rs })
  records-Totals d rs t = Totals-frame c h s m r d _ t refl refl refl refl refl refl

  -- A public record changes no total.
  pub create_pending_record-Keeps :
      (k : RecordType) (t : SourceTable) (id owner hash : ℕ)
      → Keeps (Totals c h s m r) (create_pending_record k t id owner hash)
  unfolding create_pending_record
  create_pending_record-Keeps k t id owner hash =
      search (reads, Keeps-modify, fresh_id-Keeps, records-Totals) depth 14

  pub create_db_only_record-Keeps :
      (ports : Ports) (owner : ℕ) (k : RecordType) (t : SourceTable) (id : ℕ) (payload : List ℕ)
      → Keeps (Totals c h s m r) (create_db_only_record ports owner k t id payload)
  unfolding create_db_only_record
  create_db_only_record-Keeps ports owner k t id payload =
      search (reads, Keeps-modify, fresh_id-Keeps, records-Totals) depth 14

  create_if_missing-Keeps :
      (owner member : ℕ) (o : Option BalanceRow)
      → Keeps (Totals c h s m r) (create_if_missing owner member o)
  create_if_missing-Keeps owner member (some b) = search reads
  create_if_missing-Keeps owner member none = record {
    at = λ d b e run t.
        rw (create_balance-run owner member d b e run)
          (zero_balance-Totals c h s m r owner member d t);
  }

  pub lock_or_create_balance-Keeps :
      (owner member : ℕ) → Keeps (Totals c h s m r) (lock_or_create_balance owner member)
  unfolding lock_or_create_balance
  lock_or_create_balance-Keeps owner member = search (reads, create_if_missing-Keeps) depth 14

  pub credit_balance-Totals :
      (owner member x : ℕ) (g : BalanceRow → BalanceRow)
      → ((b : BalanceRow) → (g b).community_id ≡ b.community_id)
      → ((b : BalanceRow) → (g b).id ≡ b.id)
      → ((b : BalanceRow) → (g b).total_balance ≡ b.total_balance + x)
      → ((b : BalanceRow) → IsSplit b → IsSplit (g b))
      → Triple
          (Totals c h s m r)
          (credit_balance owner member g)
          (λ u. Totals c (h + counts_for c owner x) s m r)
  credit_balance-Totals owner member x g gc gi gm gs = record {
    at = λ d u e run t.
        let (there, eq) = credit_balance-run owner member g d u e run in
        let (b, hb) = found (is_balance_of owner member) d.balances there in
        rw eq (
          balance-Totals c h s m r (is_balance_of owner member) g b (h + counts_for c owner x) d hb
            gc gi (gs b) (grown c h owner member x g d.balances b hb (gm b)) t);
  }

  pub grow_supply-Totals :
      (owner x : ℕ)
      → Triple
          (Totals c h s m r)
          (grow_supply owner x)
          (λ u. Totals c h (s + counts_for c owner x) m r)
  grow_supply-Totals owner x = record {
    at = λ d u e run t.
        let (there, eq) = grow_supply-run owner x d u e run in
        let (w, hw) = found (is_state_of owner) d.states there in
        rw eq (
          state-Totals c h s m r owner (grow x) w (s + counts_for c owner x) d hw (λ y. refl)
            (ground arith) t);
  }

-- A mint: one balance of the community and its supply grow by one amount.
pub credit_member-Totals :
    (c h s m r owner member x : ℕ) (g : BalanceRow → BalanceRow)
    → ((b : BalanceRow) → (g b).community_id ≡ b.community_id)
    → ((b : BalanceRow) → (g b).id ≡ b.id)
    → ((b : BalanceRow) → (g b).total_balance ≡ b.total_balance + x)
    → ((b : BalanceRow) → IsSplit b → IsSplit (g b))
    → Triple
        (Totals c h s m r)
        (credit_member owner member g x)
        (λ u. Totals c (h + counts_for c owner x) (s + counts_for c owner x) m r)
unfolding credit_member
credit_member-Totals c h s m r owner member x g gc gi gm gs =
    Triple-bind (credit_balance-Totals c h s m r owner member x g gc gi gm gs)
      λ u. grow_supply-Totals c _ s m r owner x
