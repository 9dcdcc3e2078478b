-- ===== src/Engine/Books/Keys.antt =====
-- The ids of the balance rows: kept by every write, and enough to find a row again.
use you_fen.Base.{
  ℕ, suc, ◌<◌, ◌≤◌, ◌≡◌, ◌≢◌, Bool, some, List, [], ◌∷◌, ◌++◌, ◌==◌, inl, inr, arith, find,
  update_first, update_all, All, All-append, All-find, Bool-cases,
}
use you_fen.Engine.Tables.{BalanceRow}
use you_fen.Engine.Books.{Differ, Keyed}

All-weaken :
    {P Q : BalanceRow → Type 0} (bs : List BalanceRow)
    → ((b : BalanceRow) → P b → Q b)
    → All P bs
    → All Q bs
All-weaken [] k h = tt
All-weaken (b ∷ bs) k h = (k b h.0, All-weaken bs k h.1)

pub Keyed-weaken : (n m : ℕ) (bs : List BalanceRow) → n ≤ m → Keyed n bs → Keyed m bs
Keyed-weaken n m bs le k = (All-weaken bs (λ b h. omega arith) k.0, k.1)

Differ-append :
    (n : ℕ) (b : BalanceRow) (bs : List BalanceRow)
    → b.id ≡ n
    → All (λ x. x.id < n) bs
    → Differ bs
    → Differ (bs ++ b ∷ [])
Differ-append n b [] e h k = (tt, tt)
Differ-append n b (x ∷ bs) e h k = (
  All-append (λ y. y.id ≢ x.id) bs (b ∷ []) k.0 ((λ q. omega arith), tt),
  Differ-append n b bs e h.1 k.1,
)

pub Keyed-append :
    (n : ℕ) (b : BalanceRow) (bs : List BalanceRow)
    → b.id ≡ n
    → Keyed n bs
    → Keyed (suc n) (bs ++ b ∷ [])
Keyed-append n b bs e k = (
  All-append (λ x. x.id < suc n) bs (b ∷ []) (All-weaken bs (λ x h. omega arith) k.0)
      (omega arith, tt),
  Differ-append n b bs e k.0 k.1,
)

module _ (g : BalanceRow → BalanceRow) (same : (b : BalanceRow) → (g b).id ≡ b.id)
    (p : BalanceRow → Bool) where
  All-first :
      (P : ℕ → Type 0) (bs : List BalanceRow)
      → All (λ x. P x.id) bs
      → All (λ x. P x.id) (update_first p g bs)
  All-first P [] h = tt
  All-first P (b ∷ bs) h = elim (Bool-cases (p b)) [
    | inl e ↦ rw e (rw (same b) h.0, h.1)
    | inr e ↦ rw e (h.0, All-first P bs h.1)
  ]

  All-every :
      (P : ℕ → Type 0) (bs : List BalanceRow)
      → All (λ x. P x.id) bs
      → All (λ x. P x.id) (update_all p g bs)
  All-every P [] h = tt
  All-every P (b ∷ bs) h = elim (Bool-cases (p b)) [
    | inl e ↦ rw e (rw (same b) h.0, All-every P bs h.1)
    | inr e ↦ rw e (h.0, All-every P bs h.1)
  ]

  Differ-first : (bs : List BalanceRow) → Differ bs → Differ (update_first p g bs)
  Differ-first [] k = tt
  Differ-first (b ∷ bs) k = elim (Bool-cases (p b)) [
    | inl e ↦ rw e (rw (same b) k.0, k.1)
    | inr e ↦ rw e (All-first (λ i. i ≢ b.id) bs k.0, Differ-first bs k.1)
  ]

  Differ-every : (bs : List BalanceRow) → Differ bs → Differ (update_all p g bs)
  Differ-every [] k = tt
  Differ-every (b ∷ bs) k = elim (Bool-cases (p b)) [
    | inl e ↦ rw e (rw (same b) (All-every (λ i. i ≢ b.id) bs k.0), Differ-every bs k.1)
    | inr e ↦ rw e (All-every (λ i. i ≢ b.id) bs k.0, Differ-every bs k.1)
  ]

  pub Keyed-update_first :
      (n : ℕ) (bs : List BalanceRow) → Keyed n bs → Keyed n (update_first p g bs)
  Keyed-update_first n bs k = (All-first (λ i. i < n) bs k.0, Differ-first bs k.1)

  pub Keyed-update_all : (n : ℕ) (bs : List BalanceRow) → Keyed n bs → Keyed n (update_all p g bs)
  Keyed-update_all n bs k = (All-every (λ i. i < n) bs k.0, Differ-every bs k.1)

-- A row that is there is the one that its id finds.
pub find-id :
    (p : BalanceRow → Bool) (bs : List BalanceRow) (b : BalanceRow)
    → Differ bs
    → find p bs ≡ some b
    → find (λ x. x.id == b.id) bs ≡ some b
find-id p [] b k h = cc
find-id p (x ∷ bs) b k h = elim (Bool-cases (p x)) [
  | inl e ↦ ground (arith, h, e)
  | inr e ↦
      let rest = rw e at h in
      ground (arith, find-id p bs b k.1 rest, All-find (λ y. y.id ≢ x.id) p bs b rest k.0)
]
