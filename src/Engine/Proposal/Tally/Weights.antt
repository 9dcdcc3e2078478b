-- ===== src/Engine/Proposal/Tally/Weights.antt =====
-- What the first loop of the tally leaves in its map: each option once, with the weight of its ballots.
use you_fen.Base.{
  ℕ, ◌+◌, ◌≡◌, refl, inl, inr, Bool, false, ◌||◌, List, [], ◌∷◌, ◌==◌, any, sum_of, if◌then◌else◌,
  arith, Bool-cases,
}
use you_fen.Engine.Tables.{VoteRow}
use you_fen.Engine.Proposal.Tally.{OptionWeight, add_weight, weigh_options, total_weight}

-- The weight of the ballots for an option, and whether there is one.
abbrev pub weight_of : List VoteRow → ℕ → ℕ
weight_of votes o =
    sum_of (λ v. if v.option_id == o then v.active_governance_balance_snapshot else 0) votes

abbrev pub has_ballot : List VoteRow → ℕ → Bool
has_ballot votes o = any (λ v. v.option_id == o) votes

abbrev pub has : List OptionWeight → ℕ → Bool
has es o = any (λ e. e.option_id == o) es

abbrev pub val : List OptionWeight → ℕ → ℕ
val es o = sum_of (λ e. if e.option_id == o then e.weight else 0) es

-- No option stands twice in the map.
abbrev pub IsKeyed : List OptionWeight → Type 0
IsKeyed [] = Unit
IsKeyed (e ∷ es) = (has es e.option_id ≡ false) × IsKeyed es

val-add_weight :
    (id w : ℕ) (es : List OptionWeight) (o : ℕ)
    → val (add_weight id w es) o ≡ val es o + (if id == o then w else 0)
val-add_weight id w [] o = ground arith
val-add_weight id w (e ∷ es) o = ground (arith, val-add_weight id w es o)

has-add_weight :
    (id w : ℕ) (es : List OptionWeight) (o : ℕ) → has (add_weight id w es) o ≡ (has es o || id == o)
has-add_weight id w [] o = ground arith
has-add_weight id w (e ∷ es) o = ground (arith, has-add_weight id w es o)

IsKeyed-add_weight : (id w : ℕ) (es : List OptionWeight) → IsKeyed es → IsKeyed (add_weight id w es)
IsKeyed-add_weight id w [] k = (refl, tt)
IsKeyed-add_weight id w (e ∷ es) k = elim (Bool-cases (e.option_id == id)) [
  | inl t ↦ rw t k
  | inr f ↦
      rw f (ground (arith, has-add_weight id w es e.option_id, k.0), IsKeyed-add_weight id w es k.1)
]

pub val-weigh_options :
    (es : List OptionWeight) (votes : List VoteRow) (o : ℕ)
    → val (weigh_options es votes) o ≡ val es o + weight_of votes o
unfolding weigh_options
val-weigh_options es [] o = omega arith
val-weigh_options es (v ∷ votes) o = ground (
  arith,
  val-weigh_options (add_weight v.option_id v.active_governance_balance_snapshot es) votes o,
  val-add_weight v.option_id v.active_governance_balance_snapshot es o,
)

pub has-weigh_options :
    (es : List OptionWeight) (votes : List VoteRow) (o : ℕ)
    → has (weigh_options es votes) o ≡ (has es o || has_ballot votes o)
unfolding weigh_options
has-weigh_options es [] o = ground arith
has-weigh_options es (v ∷ votes) o = ground (
  arith,
  has-weigh_options (add_weight v.option_id v.active_governance_balance_snapshot es) votes o,
  has-add_weight v.option_id v.active_governance_balance_snapshot es o,
)

pub IsKeyed-weigh_options :
    (es : List OptionWeight) (votes : List VoteRow) → IsKeyed es → IsKeyed (weigh_options es votes)
unfolding weigh_options
IsKeyed-weigh_options es [] k = k
IsKeyed-weigh_options es (v ∷ votes) k =
    IsKeyed-weigh_options (add_weight v.option_id v.active_governance_balance_snapshot es) votes
      (IsKeyed-add_weight v.option_id v.active_governance_balance_snapshot es k)

pub val-has : (es : List OptionWeight) (o : ℕ) → has es o ≡ false → val es o ≡ 0
val-has [] o h = refl
val-has (e ∷ es) o h = ground (arith, val-has es o)

pub total_weight-sum :
    (n : ℕ) (votes : List VoteRow)
    → total_weight n votes ≡ n + sum_of (λ v. v.active_governance_balance_snapshot) votes
unfolding total_weight
total_weight-sum n [] = omega arith
total_weight-sum n (v ∷ votes) =
    omega (arith, total_weight-sum (n + v.active_governance_balance_snapshot) votes)
