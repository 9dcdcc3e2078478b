-- ===== src/Engine/Mint/Events.antt =====
-- Mint events and their records, and the totals of a community.
use you_fen.Base.{
  ℕ, suc, ◌+◌, ◌≡◌, refl, List, [], ◌∷◌, ◌++◌, ◌==◌, update_first, sum_of-update_first_same, arith,
}
use you_fen.Engine.Tables.{MintEventRow}
use you_fen.Engine.Db.{Db, ◌>>=◌}
use you_fen.Engine.Db.Keeps.{Commits, Keeps, Triple, reads, Keeps-modify, Keeps-bind, Keeps-pure}
use you_fen.Engine.Ports.{Ports}
use you_fen.Engine.Books.{counts_for, minted_by, Totals}
use you_fen.Engine.Books.Updates.{Totals-frame, add_mint-Totals, next_id-Totals}
use you_fen.Engine.Books.Steps.{create_pending_record-Keeps}
use you_fen.Engine.Mint.{insert_mint_event, attach_record, attach_records, set_mint_record}

-- The insertion appends the one row.
pub insert_mint_event-run :
    (data_of : ℕ → MintEventRow) (d : Db) (row : MintEventRow) (e : Db)
    → Commits (insert_mint_event data_of) d row e
    → (row ≡ data_of d.next_id)
      × (e ≡ record d {
        mint_events = d.mint_events ++ data_of d.next_id ∷ [];
        next_id = suc d.next_id;
      })
unfolding insert_mint_event ◌>>=◌
insert_mint_event-run data_of d row e h = ground arith

pub insert_mint_event-Totals :
    (c h s m r owner : ℕ) (data_of : ℕ → MintEventRow) (x : ℕ)
    → ((id : ℕ) → (data_of id).community_id ≡ owner)
    → ((id : ℕ) → (data_of id).amount ≡ x)
    → Triple
        (Totals c h s m r)
        (insert_mint_event data_of)
        (λ row. Totals c h s (m + counts_for c owner x) r)
insert_mint_event-Totals c h s m r owner data_of x own amt = record {
  at = λ d row e run t.
      let (_, eq) = insert_mint_event-run data_of d row e run in
      rw eq (
        next_id-Totals c h s (m + counts_for c owner x) r _ (
          add_mint-Totals c h s m r (data_of d.next_id) owner x d (own d.next_id) (amt d.next_id)
            t));
}

module _ (c h s m r : ℕ) where
  pub set_mint_record-Totals :
      (k id : ℕ) (d : Db)
      → Totals c h s m r d
      → Totals c h s m r (record d {
        mint_events = update_first (λ r. r.id == k) (set_mint_record id) d.mint_events;
      })
  set_mint_record-Totals k id d t =
      Totals-frame c h s m r d
        (record d {
          mint_events = update_first (λ r. r.id == k) (set_mint_record id) d.mint_events;
        })
        t refl refl
        (sum_of-update_first_same (minted_by c) (λ r. r.id == k) (set_mint_record id) d.mint_events
          (λ x. refl))
        refl refl refl

  pub attach_record-Keeps :
      (ports : Ports) (owner : ℕ) (row : MintEventRow)
      → Keeps (Totals c h s m r) (attach_record ports owner row)
  unfolding attach_record
  attach_record-Keeps ports owner row =
      search
        (reads, Keeps-modify, create_pending_record-Keeps c h s m r, set_mint_record-Totals row.id)
        depth 14

  pub attach_records-Keeps :
      (ports : Ports) (owner : ℕ) (rows : List MintEventRow)
      → Keeps (Totals c h s m r) (attach_records ports owner rows)
  unfolding attach_records
  attach_records-Keeps ports owner [] = search reads
  attach_records-Keeps ports owner (row ∷ rows) =
      Keeps-bind _ _ (attach_record-Keeps ports owner row)
        (λ id. Keeps-bind _ _ (attach_records-Keeps ports owner rows) (λ ids. Keeps-pure _))
