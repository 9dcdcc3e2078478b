-- ===== src/Jobs/Wallet/Keeps.antt =====
-- What does not look at the counter of the wallet survives its operations.
use you_fen.Base.{ℕ, suc, Bool, true, false, Option, none, some, ◌==◌}
use you_fen.Engine.Tables.{nonce_error}
use you_fen.Jobs.{World, Port, Others, call}
use you_fen.Jobs.Keeps.{Triple, Triple-pure, Triple-throw, Triple-try_or, Triple-bind}
use you_fen.Jobs.Wallet.{
  start_resync, adopt, set_nonce, start_healing_resync, next_nonce, get_next_nonce, resync_nonce,
}

-- `P` says nothing of the wallet.
abbrev pub IgnoresWallet : {E : Type 0} → (World E → Type 0) → Type 0
IgnoresWallet {E} P =
    (w : World E) (o : Option ℕ) (s : ℕ) → P w → P (record w { local_nonce = o; resync_seq = s })

-- A reseed in the background touches only the number of the resync.
module _ {E : Type 0} (P : World E → Type 0)
    (ignores : (w : World E) (s : ℕ) → P w → P (record w { resync_seq = s })) (others : Others E)
    (count : Port E ℕ) (counted : Triple P (call others count) (λ n. P) P) where
  started : Triple P start_resync (λ n. P) P
  started = record { at = λ w h. ignores w (suc w.resync_seq) h }

  pub start_healing_resync-keeps : Triple P (start_healing_resync others count) (λ u. P) P
  start_healing_resync-keeps = Triple-bind _ _ started λ seq.
      Triple-try_or _ _ _ counted (λ e. Triple-pure tt (λ w h. h)) (λ n. Triple-pure tt (λ w h. h))

module _ {E : Type 0} (P : World E → Type 0) (ignores : IgnoresWallet P) (others : Others E)
    (count : Port E ℕ) (counted : Triple P (call others count) (λ n. P) P) where
  adopted : (b : Bool) (n : ℕ) (w : World E) → P w → P (adopt b n w)
  adopted true n w h = ignores w (some n) w.resync_seq h
  adopted false n w h = h

  pub resync_nonce-keeps : Triple P (resync_nonce others count) (λ u. P) P
  unfolding resync_nonce
  resync_nonce-keeps =
      Triple-bind _ _ (started P (λ w s h. ignores w w.local_nonce s h) others count counted) λ seq.
        Triple-bind _ (set_nonce seq) counted
          λ n. record { at = λ w h. adopted (seq == w.resync_seq) n w h }

  next_nonce-keeps : (o : Option ℕ) → Triple P (next_nonce others count o) (λ n. P) P
  next_nonce-keeps none =
      Triple-bind _ _
        (start_healing_resync-keeps P (λ w s h. ignores w w.local_nonce s h) others count counted)
        (λ u. Triple-throw nonce_error (λ w h. h))
  next_nonce-keeps (some n) = record { at = λ w h. ignores w (some (suc n)) w.resync_seq h }

  pub get_next_nonce-keeps : Triple P (get_next_nonce others count) (λ n. P) P
  unfolding get_next_nonce
  get_next_nonce-keeps = record { at = λ w h. (next_nonce-keeps w.local_nonce).at w h }
