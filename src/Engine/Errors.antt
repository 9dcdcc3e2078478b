-- ===== src/Engine/Errors.antt =====
-- lib/engine/errors.ts: the error codes, and results that carry them.

pub data EngineErrorCode : Type 0 where
  not_approved already_minted epoch_not_active rule_violation : EngineErrorCode
  member_cap_exceeded insufficient_budget advance_cap_exceeded : EngineErrorCode
  rolling_advance_forbidden advance_rate_exceeded proposal_required : EngineErrorCode
  second_approver_required invalid_status not_found forbidden conflict : EngineErrorCode
  quorum_not_met invalid_reason already_reversed validation_error : EngineErrorCode

-- What a service call throws: an `EngineError`, whose message is not kept; an error of the database
-- client that passes through (P2002: a unique constraint; P2025: no such row); or one of the errors
-- of the record service (lib/blockchain/errors.ts).
pub data Failure : Type 0 where
  engine_error : EngineErrorCode → Failure
  p2002 p2025 type_error : Failure
  duplicate_record_hash record_not_found invalid_record_status invalid_transition : Failure

-- What a call of a service or of the arithmetic ends with.
pub data Result {ℓ} (A : Type ℓ) : Type ℓ where
  err : Failure → Result A
  ok : A → Result A

infixl 5 ◌>>=◌
-- A failure ends the chain.
abbrev pub ◌>>=◌ {ℓ} : {A B : Type ℓ} → Result A → (A → Result B) → Result B
err failure >>= next = err failure
ok value >>= next = next value

-- `throw new EngineError(code)`
abbrev pub fail {ℓ} : {A : Type ℓ} → EngineErrorCode → Result A
fail code = err (engine_error code)
