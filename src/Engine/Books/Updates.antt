-- ===== src/Engine/Books/Updates.antt =====
-- What the writes of the engine do to the totals of a community.
use you_fen.Base.{
  ℕ, suc, ◌+◌, ◌≡◌, refl, sym, subst, ◌∙◌, ap, Bool, some, List, [], ◌∷◌, ◌++◌, arith, sum_of, find,
  update_first, update_all, sum_of-append, sum_of-update_all, All, All-append, All-update_first,
  All-update_all,
}
use mathlib.Core.Option.{some-injective}
use you_fen.Engine.Tables.{EpochRow, BalanceRow, StateRow, MintEventRow, ReversalEventRow}
use you_fen.Engine.Db.{Db}
use you_fen.Engine.Db.Locks.{is_state_of, bump_seq}
use you_fen.Engine.Balances.{zero_balance}
use you_fen.Engine.Books.{
  counts_for, held_by, minted_by, reversed_by, held, supply, supply_in, minted, reversed, IsSplit,
  IsWithinBudget, Totals, Balanced,
}
use you_fen.Engine.Books.Rows.{held-change, supply-change, supply-bump}
use you_fen.Engine.Books.Keys.{Keyed-weaken, Keyed-append, Keyed-update_first, Keyed-update_all}

-- Balanced books as totals, and back.
pub books_open :
    (c : ℕ) (d : Db) → Balanced c d → Totals c (held c d) (supply c d) (minted c d) (reversed c d) d
books_open c d b = record {
  held_eq = refl;
  supply_eq = refl;
  minted_eq = refl;
  reversed_eq = refl;
  split = b.split;
  meters = b.meters;
  keyed = b.keyed;
}

pub books_close : (c h s m r : ℕ) (d : Db) → s ≡ h → h + r ≡ m → Totals c h s m r d → Balanced c d
books_close c h s m r d e f t = record {
  conserved = t.supply_eq ∙ e ∙ sym t.held_eq;
  ledgered = omega (arith, t.held_eq, t.reversed_eq, t.minted_eq, f);
  split = t.split;
  meters = t.meters;
  keyed = t.keyed;
}

-- Totals written another way.
pub Totals-recount :
    {c h s m r h' s' m' r' : ℕ} (d : Db)
    → h ≡ h'
    → s ≡ s'
    → m ≡ m'
    → r ≡ r'
    → Totals c h s m r d
    → Totals c h' s' m' r' d
Totals-recount d eh es em er t = record {
  held_eq = t.held_eq ∙ eh;
  supply_eq = t.supply_eq ∙ es;
  minted_eq = t.minted_eq ∙ em;
  reversed_eq = t.reversed_eq ∙ er;
  split = t.split;
  meters = t.meters;
  keyed = t.keyed;
}

module _ (c h s m r : ℕ) where
  -- A ledger number changes no total.
  pub bump-Totals :
      (owner : ℕ) (d : Db)
      → Totals c h s m r d
      → Totals c h s m r (record d { states = update_all (is_state_of owner) bump_seq d.states })
  bump-Totals owner d t = record {
    held_eq = t.held_eq;
    supply_eq = supply-bump c owner d.states ∙ t.supply_eq;
    minted_eq = t.minted_eq;
    reversed_eq = t.reversed_eq;
    split = t.split;
    meters = t.meters;
    keyed = t.keyed;
  }

  pub next_id-Totals :
      (d : Db) → Totals c h s m r d → Totals c h s m r (record d { next_id = suc d.next_id })
  next_id-Totals d t = record {
    held_eq = t.held_eq;
    supply_eq = t.supply_eq;
    minted_eq = t.minted_eq;
    reversed_eq = t.reversed_eq;
    split = t.split;
    meters = t.meters;
    keyed = Keyed-weaken d.next_id (suc d.next_id) d.balances (omega arith) t.keyed;
  }

  -- A mint event adds its amount to what its community minted.
  pub add_mint-Totals :
      (row : MintEventRow) (owner x : ℕ) (d : Db)
      → row.community_id ≡ owner
      → row.amount ≡ x
      → Totals c h s m r d
      → Totals c h s
          (m + counts_for c owner x)
          r
          (record d { mint_events = d.mint_events ++ row ∷ [] })
  add_mint-Totals row owner x d own amt t = record {
    held_eq = t.held_eq;
    supply_eq = t.supply_eq;
    minted_eq =
        ground (arith, sum_of-append (minted_by c) d.mint_events (row ∷ []), t.minted_eq, own, amt);
    reversed_eq = t.reversed_eq;
    split = t.split;
    meters = t.meters;
    keyed = t.keyed;
  }

  -- A reversal adds its amount to what its community reversed.
  pub add_reversal-Totals :
      (row : ReversalEventRow) (owner x : ℕ) (d : Db)
      → row.community_id ≡ owner
      → row.amount ≡ x
      → Totals c h s m r d
      → Totals c h s m
          (r + counts_for c owner x)
          (record d { reversal_events = d.reversal_events ++ row ∷ [] })
  add_reversal-Totals row owner x d own amt t = record {
    held_eq = t.held_eq;
    supply_eq = t.supply_eq;
    minted_eq = t.minted_eq;
    reversed_eq = ground (
      arith,
      sum_of-append (reversed_by c) d.reversal_events (row ∷ []),
      t.reversed_eq,
      own,
      amt,
    );
    split = t.split;
    meters = t.meters;
    keyed = t.keyed;
  }

  -- One balance changes, and with it what the members hold.
  pub balance-Totals :
      (p : BalanceRow → Bool) (g : BalanceRow → BalanceRow) (b : BalanceRow) (h' : ℕ) (d : Db)
      → find p d.balances ≡ some b
      → ((x : BalanceRow) → (g x).community_id ≡ x.community_id)
      → ((x : BalanceRow) → (g x).id ≡ x.id)
      → (IsSplit b → IsSplit (g b))
      → h' + counts_for c b.community_id b.total_balance
        ≡ h + counts_for c b.community_id (g b).total_balance
      → Totals c h s m r d
      → Totals c h' s m r (record d { balances = update_first p g d.balances })
  balance-Totals p g b h' d hb gc gi gs eq t = record {
    held_eq = omega (arith, held-change c p g d.balances b gc hb, t.held_eq, eq);
    supply_eq = t.supply_eq;
    minted_eq = t.minted_eq;
    reversed_eq = t.reversed_eq;
    split =
        All-update_first IsSplit p g d.balances
          (λ x e q.
            subst (λ y. IsSplit (g y)) (some-injective b x (sym hb ∙ e))
              (gs (subst IsSplit (some-injective x b (sym e ∙ hb)) q)))
          t.split;
    meters = t.meters;
    keyed = Keyed-update_first g gi p d.next_id d.balances t.keyed;
  }

  -- The state of one community changes, and with it the supply on record.
  pub state-Totals :
      (owner : ℕ) (k : StateRow → StateRow) (w : StateRow) (s' : ℕ) (d : Db)
      → find (is_state_of owner) d.states ≡ some w
      → ((x : StateRow) → (k x).community_id ≡ x.community_id)
      → s' + counts_for c owner w.current_total_supply
        ≡ s + counts_for c owner (k w).current_total_supply
      → Totals c h s m r d
      → Totals c h s' m r (record d { states = update_first (is_state_of owner) k d.states })
  state-Totals owner k w s' d hw kc eq t = record {
    held_eq = t.held_eq;
    supply_eq = omega (arith, supply-change c owner k d.states w kc hw, t.supply_eq, eq);
    minted_eq = t.minted_eq;
    reversed_eq = t.reversed_eq;
    split = t.split;
    meters = t.meters;
    keyed = t.keyed;
  }

  -- A new, empty balance row changes no total.
  pub zero_balance-Totals :
      (owner member : ℕ) (d : Db)
      → Totals c h s m r d
      → Totals c h s m r (record d {
        balances = d.balances ++ zero_balance d.next_id owner member ∷ [];
        next_id = suc d.next_id;
      })
  zero_balance-Totals owner member d t = record {
    held_eq = ground (
      arith,
      sum_of-append (held_by c) d.balances (zero_balance d.next_id owner member ∷ []),
      t.held_eq,
    );
    supply_eq = t.supply_eq;
    minted_eq = t.minted_eq;
    reversed_eq = t.reversed_eq;
    split = All-append IsSplit d.balances _ t.split (omega arith, tt);
    meters = t.meters;
    keyed = Keyed-append d.next_id (zero_balance d.next_id owner member) d.balances refl t.keyed;
  }

  -- Writes to the other tables.
  pub Totals-frame :
      (d e : Db)
      → Totals c h s m r d
      → e.balances ≡ d.balances
      → e.states ≡ d.states
      → sum_of (minted_by c) e.mint_events ≡ sum_of (minted_by c) d.mint_events
      → sum_of (reversed_by c) e.reversal_events ≡ sum_of (reversed_by c) d.reversal_events
      → e.epochs ≡ d.epochs
      → e.next_id ≡ d.next_id
      → Totals c h s m r e
  Totals-frame d e t eb es em er ee en = record {
    held_eq = ap (sum_of (held_by c)) eb ∙ t.held_eq;
    supply_eq = ap (λ ss. supply_in (find (is_state_of c) ss)) es ∙ t.supply_eq;
    minted_eq = em ∙ t.minted_eq;
    reversed_eq = er ∙ t.reversed_eq;
    split = subst (All IsSplit) (sym eb) t.split;
    meters = subst (All IsWithinBudget) (sym ee) t.meters;
    keyed = rw eb (rw en t.keyed);
  }

  -- A write to the epochs that keeps each within its budgets.
  pub epochs-Totals :
      (es : List EpochRow) (d : Db)
      → All IsWithinBudget es
      → Totals c h s m r d
      → Totals c h s m r (record d { epochs = es })
  epochs-Totals es d w t = record {
    held_eq = t.held_eq;
    supply_eq = t.supply_eq;
    minted_eq = t.minted_eq;
    reversed_eq = t.reversed_eq;
    split = t.split;
    meters = w;
    keyed = t.keyed;
  }

  -- A write to every selected balance that moves no token.
  pub balances-Totals :
      (p : BalanceRow → Bool) (g : BalanceRow → BalanceRow) (d : Db)
      → ((x : BalanceRow) → (g x).community_id ≡ x.community_id)
      → ((x : BalanceRow) → (g x).id ≡ x.id)
      → ((x : BalanceRow) → (g x).total_balance ≡ x.total_balance)
      → ((x : BalanceRow) → IsSplit x → IsSplit (g x))
      → Totals c h s m r d
      → Totals c h s m r (record d { balances = update_all p g d.balances })
  balances-Totals p g d gc gi gt gs t = record {
    held_eq =
        sum_of-update_all (held_by c) p g d.balances (λ x. rw (gc x) (rw (gt x) refl)) ∙ t.held_eq;
    supply_eq = t.supply_eq;
    minted_eq = t.minted_eq;
    reversed_eq = t.reversed_eq;
    split = All-update_all IsSplit p g d.balances (λ x e q. gs x q) t.split;
    meters = t.meters;
    keyed = Keyed-update_all g gi p d.next_id d.balances t.keyed;
  }
