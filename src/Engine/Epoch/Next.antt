-- ===== src/Engine/Epoch/Next.antt =====
-- `createNextEpoch` of lib/engine/epoch-service.ts: the first epoch of a community, or one after a gap.
use you_fen.Base.{
  ℕ, ◌+◌, max, Bool, true, false, Option, none, some, List, [], ◌∷◌, ◌++◌, ◌==◌, find,
  if◌then◌else◌,
}
use you_fen.Engine.Tables.{EpochRow}
use you_fen.Engine.Db.{Tx, ◌>>=◌, ◌>>◌, pure, gets, lift, modify, fresh_id}
use you_fen.Engine.Db.Locks.{is_active_epoch}
use you_fen.Engine.Ports.{Ports}
use you_fen.Engine.Epoch.{derive_budget, epoch_row, same_epoch_key}
use you_fen.Engine.Epoch.Close.{require_policy, require_state}

pub record NextEpoch : Type 0 where
  pub epoch_id : ℕ
  pub created : Bool

-- The largest epoch number of the community, 0 without one.
abbrev pub max_number : ℕ → List EpochRow → ℕ
max_number community_id [] = 0
max_number community_id (e ∷ es) =
    let rest = max_number community_id es in
    if e.community_id == community_id then max e.epoch_number rest else rest

-- `tokenEpoch.create`, where a row of the same key is handed back instead.
abbrev pub insert_or_existing : (ℕ → EpochRow) → Option EpochRow → Tx NextEpoch
insert_or_existing row_of (some existing) =
    pure (record { epoch_id = existing.id; created = false })
insert_or_existing row_of none = do
  id ← fresh_id
  modify λ d. record d { epochs = d.epochs ++ row_of id ∷ [] }
  pure (record { epoch_id = id; created = true })

unfoldable pub create_epoch : Ports → ℕ → Tx NextEpoch
create_epoch ports community_id = do
  epoch_number ← gets λ d. max_number community_id d.epochs + 1
  policy ← require_policy community_id
  state ← require_state community_id
  budget ← lift (derive_budget state.current_total_supply 0 policy)
  existing ← gets λ d. find (same_epoch_key community_id epoch_number) d.epochs
  insert_or_existing
      (epoch_row community_id epoch_number ports.now state.current_total_supply 0 policy budget
        ports.now)
      existing

abbrev pub create_unless_active : Ports → ℕ → Option EpochRow → Tx NextEpoch
create_unless_active ports community_id (some active) =
    pure (record { epoch_id = active.id; created = false })
create_unless_active ports community_id none = create_epoch ports community_id

unfoldable pub create_next_epoch : Ports → ℕ → Tx NextEpoch
create_next_epoch ports community_id = do
  active ← gets λ d. find (is_active_epoch community_id) d.epochs
  create_unless_active ports community_id active
