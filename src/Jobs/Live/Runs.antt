-- ===== src/Jobs/Live/Runs.antt =====
-- The two jobs of a record that is pending, one after the other.
use you_fen.Base.{ℕ, ◌≡◌, some}
use you_fen.Engine.Tables.{VerificationStatus, verification, PublicRecordRow}
use you_fen.Engine.Db.{Db}
use you_fen.Jobs.Live.{row_of}

-- The record has the status.
abbrev pub HasStatus : ℕ → VerificationStatus → Db → Type 0
HasStatus id st d =
    (row : PublicRecordRow) × (row_of id d ≡ some row) × (row.status ≡ verification st)

-- The transaction that stands in the row of the record.
abbrev pub HasTx : ℕ → ℕ → Db → Type 0
HasTx id t d = (row : PublicRecordRow) × (row_of id d ≡ some row) × (row.tx_hash ≡ some t)
