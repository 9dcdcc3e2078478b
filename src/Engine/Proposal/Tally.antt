-- ===== src/Engine/Proposal/Tally.antt =====
-- lib/engine/proposal-service.ts: optionIds, tallyVotes and resolveOutcome.
pub mod Weights
pub mod Plurality
use you_fen.Base.{
  ℕ, ◌+◌, ℤ, pos, negsuc, Bool, true, false, Option, none, some, List, [], ◌∷◌, ◌==◌, any, ltb_ℤ,
  if◌then◌else◌,
}
use you_fen.Engine.Tables.{VoteRow, reject_option_id}

pub record OptionWeight : Type 0 where
  pub option_id : ℕ
  pub weight : ℕ

-- `byOption.set(id, (byOption.get(id) ?? 0n) + weight)`, on a map in the order of insertion.
abbrev pub add_weight : ℕ → ℕ → List OptionWeight → List OptionWeight
add_weight id w [] = record { option_id = id; weight = w } ∷ []
add_weight id w (e ∷ es) =
    let rest = add_weight id w es in
    if e.option_id == id then record e { weight = e.weight + w } ∷ es else e ∷ rest

-- The first loop: the weight of each option, from a map that it adds to.
unfoldable pub weigh_options : List OptionWeight → List VoteRow → List OptionWeight
weigh_options by_option [] = by_option
weigh_options by_option (v ∷ votes) =
    weigh_options (add_weight v.option_id v.active_governance_balance_snapshot by_option) votes

-- The first loop: the total.
unfoldable pub total_weight : ℕ → List VoteRow → ℕ
total_weight total [] = total
total_weight total (v ∷ votes) = total_weight (total + v.active_governance_balance_snapshot) votes

-- What the second loop keeps.
pub record Lead : Type 0 where
  pub winner : Option ℕ
  pub max : ℤ
  pub tie : Bool

abbrev pub no_lead : Lead
no_lead = record { winner = none; max = negsuc 0; tie = false }

-- One round of the second loop.
abbrev pub take_lead : Lead → OptionWeight → Lead
take_lead l e =
    if ltb_ℤ l.max (pos e.weight)
    then record { winner = some e.option_id; max = pos e.weight; tie = false }
    else (if ltb_ℤ (pos e.weight) l.max then l else record l { tie = true })

unfoldable pub find_lead : Lead → List OptionWeight → Lead
find_lead l [] = l
find_lead l (e ∷ es) = find_lead (take_lead l e) es

pub record Tally : Type 0 where
  pub winning_option_id : Option ℕ
  pub total_vote_weight : ℕ

abbrev pub winner_of : Lead → Option ℕ
winner_of l = if l.tie then none else l.winner

-- `tallyVotes`
unfoldable pub tally_votes : List VoteRow → Tally
tally_votes votes = record {
  winning_option_id = winner_of (find_lead no_lead (weigh_options [] votes));
  total_vote_weight = total_weight 0 votes;
}

-- The last of the option ids, or the id 'reject'.
abbrev pub last_option : List ℕ → ℕ
last_option [] = reject_option_id
last_option (o ∷ []) = o
last_option (o ∷ (p ∷ options)) = last_option (p ∷ options)

-- The status quo: 'reject', if it is on the ballot.
abbrev pub fallback_option : List ℕ → ℕ
fallback_option options =
    if any (λ o. o == reject_option_id) options then reject_option_id else last_option options

abbrev pub winner_or : Option ℕ → ℕ → ℕ
winner_or none o = o
winner_or (some winner) o = winner

-- The winner that `resolveOutcome` settles on; the total is that of the tally.
unfoldable pub resolve_outcome : List VoteRow → List ℕ → ℕ
resolve_outcome votes options =
    winner_or (tally_votes votes).winning_option_id (fallback_option options)
