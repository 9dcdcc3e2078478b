-- ===== src/Engine/Db/Sql.antt =====
-- lib/engine/sql.ts: the conditional UPDATEs. Each returns the number of rows that it changed.
use you_fen.Base.{
  ℕ, ◌+◌, Bool, true, false, ◌&&◌, Option, none, some, ◌==◌, leb, ltb, length, select, update_all,
}
use you_fen.Engine.Tables.{EpochRow, BalanceRow, ProposalRow, ProposalStatus}
use you_fen.Engine.Errors.{ok}
use you_fen.Engine.Db.{Tx}

-- The guard of the regular budget meter.
abbrev pub fits_regular : ℕ → ℕ → EpochRow → Bool
fits_regular epoch_id amount e =
    e.id == epoch_id && leb (e.regular_minted_amount + amount) e.effective_regular_budget

abbrev pub add_regular : ℕ → EpochRow → EpochRow
add_regular amount e = record e { regular_minted_amount = e.regular_minted_amount + amount }

unfoldable pub increment_regular_minted_guarded : ℕ → ℕ → Tx ℕ
increment_regular_minted_guarded epoch_id amount d = ok (
  length (select (fits_regular epoch_id amount) d.epochs),
  record d { epochs = update_all (fits_regular epoch_id amount) (add_regular amount) d.epochs },
)

-- The guard of the advance meter.
abbrev pub fits_advance : ℕ → ℕ → EpochRow → Bool
fits_advance epoch_id amount e =
    e.id == epoch_id && leb (e.advanced_minted_amount + amount) e.max_advance_amount

abbrev pub add_advanced : ℕ → EpochRow → EpochRow
add_advanced amount e = record e { advanced_minted_amount = e.advanced_minted_amount + amount }

unfoldable pub increment_advanced_minted_guarded : ℕ → ℕ → Tx ℕ
increment_advanced_minted_guarded epoch_id amount d = ok (
  length (select (fits_advance epoch_id amount) d.epochs),
  record d { epochs = update_all (fits_advance epoch_id amount) (add_advanced amount) d.epochs },
)

abbrev pub has_pending : ℕ → BalanceRow → Bool
has_pending community_id b = b.community_id == community_id && ltb 0 b.pending_governance_balance

abbrev pub roll_pending : BalanceRow → BalanceRow
roll_pending b = record b {
  active_governance_balance = b.active_governance_balance + b.pending_governance_balance;
  pending_governance_balance = 0;
}

unfoldable pub activate_pending_governance : ℕ → Tx ℕ
activate_pending_governance community_id d = ok (
  length (select (has_pending community_id) d.balances),
  record d { balances = update_all (has_pending community_id) roll_pending d.balances },
)

abbrev pub status_eq : ProposalStatus → ProposalStatus → Bool
status_eq ProposalStatus.draft ProposalStatus.draft = true
status_eq ProposalStatus.active ProposalStatus.active = true
status_eq ProposalStatus.ended ProposalStatus.ended = true
status_eq ProposalStatus.recorded ProposalStatus.recorded = true
status_eq ProposalStatus.other ProposalStatus.other = true
status_eq _ _ = false

unfoldable pub transition_proposal_status : ℕ → ProposalStatus → ProposalStatus → Tx ℕ
transition_proposal_status proposal_id from to d =
    let hit = λ (p : ProposalRow). p.id == proposal_id && status_eq p.status from in
    ok (
      length (select hit d.proposals),
      record d { proposals = update_all hit (λ p. record p { status = to }) d.proposals },
    )

-- A NULL `endTime` satisfies no comparison.
abbrev pub is_due : ℕ → Option ℕ → Bool
is_due now none = false
is_due now (some t) = leb t now

abbrev pub is_ending : ℕ → ℕ → ProposalRow → Bool
is_ending proposal_id now p =
    p.id == proposal_id && (status_eq p.status ProposalStatus.active && is_due now p.end_time)

unfoldable pub end_proposal_if_due : ℕ → ℕ → Tx ℕ
end_proposal_if_due proposal_id now d =
    let hit = is_ending proposal_id now in
    ok (
      length (select hit d.proposals),
      record d {
        proposals = update_all hit (λ p. record p { status = ProposalStatus.ended }) d.proposals;
      },
    )
