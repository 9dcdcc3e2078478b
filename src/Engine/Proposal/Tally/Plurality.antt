-- ===== src/Engine/Proposal/Tally/Plurality.antt =====
-- The tally against a count of the ballots for each option.
use you_fen.Base.{
  ℕ, ◌≤◌, ◌<◌, ◌≡◌, ◌≢◌, refl, sym, subst, ◌∙◌, ◌↔◌, ◌⊎◌, inl, inr, pos, Bool, true, false, ◌||◌,
  some, List, [], ◌∷◌, ◌==◌, any, sum_of, arith, Bool-cases, Option-cases, ltb, ltb→lt, ltb-false,
}
use mathlib.Core.Option.{some-injective}
use you_fen.Engine.Tables.{VoteRow, approve_option_id, reject_option_id}
use you_fen.Engine.Proposal.Tally.{
  OptionWeight, weigh_options, Lead, no_lead, take_lead, find_lead, tally_votes, last_option,
  fallback_option, resolve_outcome, winner_of,
}
use you_fen.Engine.Proposal.Tally.Weights.{
  weight_of, has_ballot, has, val, IsKeyed, val-weigh_options, has-weigh_options,
  IsKeyed-weigh_options, val-has, total_weight-sum,
}

-- What the second loop knows of the options that it has seen, for weights `f`.
data Leads (f : ℕ → ℕ) (seen : ℕ → Bool) (l : Lead) : Type 0 where
  fresh : ((o : ℕ) → seen o ≡ false) → l ≡ no_lead → Leads f seen l
  ahead :
      (w : ℕ)
      → seen w ≡ true
      → ((o : ℕ) → seen o ≡ true → o ≢ w → f o < f w)
      → l ≡ record { winner = some w; max = pos (f w); tie = false }
      → Leads f seen l
  tied :
      (w x : ℕ)
      → (seen w ≡ true) × (seen x ≡ true) × (x ≢ w) × (f x ≡ f w)
      → ((o : ℕ) → seen o ≡ true → f o ≤ f w)
      → l ≡ record { winner = some w; max = pos (f w); tie = true }
      → Leads f seen l

take-first :
    (e : OptionWeight)
    → take_lead no_lead e ≡ record { winner = some e.option_id; max = pos e.weight; tie = false }
take-first e = ground arith

take-more :
    (l : Lead) (m : ℕ) (e : OptionWeight)
    → l.max ≡ pos m
    → m < e.weight
    → take_lead l e ≡ record { winner = some e.option_id; max = pos e.weight; tie = false }
take-more l m e h k = rw h (ground arith)

take-less : (l : Lead) (m : ℕ) (e : OptionWeight) → l.max ≡ pos m → e.weight < m → take_lead l e ≡ l
take-less l m e h k = rw h (ground arith)

take-same :
    (l : Lead) (m : ℕ) (e : OptionWeight)
    → l.max ≡ pos m
    → e.weight ≡ m
    → take_lead l e ≡ record l { tie = true }
take-same l m e h k = rw h (ground arith)

three_ways : (a b : ℕ) → (a < b) ⊎ ((b < a) ⊎ (a ≡ b))
three_ways a b = elim (Bool-cases (ltb a b)) [
  | inl t ↦ inl (ltb→lt a b t)
  | inr f ↦ elim (Bool-cases (ltb b a)) [
    | inl t ↦ inr (inl (ltb→lt b a t))
    | inr g ↦ inr (inr (omega (arith, ltb-false a b f, ltb-false b a g)))
  ]
]

-- The options that were seen, and one more.
abbrev and_also : (ℕ → Bool) → ℕ → ℕ → Bool
and_also seen k o = seen o || k == o

Leads-more :
    (f : ℕ → ℕ) (seen : ℕ → Bool) (l : Lead) (m : ℕ) (e : OptionWeight)
    → e.weight ≡ f e.option_id
    → l.max ≡ pos m
    → m < e.weight
    → ((o : ℕ) → seen o ≡ true → f o ≤ m)
    → Leads f (and_also seen e.option_id) (take_lead l e)
Leads-more f seen l m e h hm k top =
    Leads.ahead e.option_id (ground arith) (λ o so ne. ground (arith, top o))
      (rw (← h) (take-more l m e hm k))

Leads-take_lead :
    (f : ℕ → ℕ) (seen : ℕ → Bool) (l : Lead) (e : OptionWeight)
    → e.weight ≡ f e.option_id
    → seen e.option_id ≡ false
    → Leads f seen l
    → Leads f (and_also seen e.option_id) (take_lead l e)
Leads-take_lead f seen l e h new (Leads.fresh none_seen eq) =
    Leads.ahead e.option_id (ground arith) (λ o so ne. ground (arith, none_seen o))
      (rw (← h, eq) (take-first e))
Leads-take_lead f seen l e h new (Leads.ahead w sw top eq) = elim (three_ways (f w) e.weight) [
  | inl k ↦ Leads-more f seen l (f w) e h (rw eq refl) k λ o so. ground (arith, top o)
  | inr (inl k) ↦
      Leads.ahead w (ground arith) (λ o so ne. ground (arith, top o))
        (rw (take-less l (f w) e (rw eq refl) k) eq)
  | inr (inr k) ↦
      Leads.tied w e.option_id (ground arith, ground arith, (λ q. ground arith), ground arith)
        (λ o so. ground (arith, top o)) (rw (take-same l (f w) e (rw eq refl) (sym k)) (rw eq refl))
]
Leads-take_lead f seen l e h new (Leads.tied w x (sw, sx, ne, same) top eq) =
    elim (three_ways (f w) e.weight) [
      | inl k ↦ Leads-more f seen l (f w) e h (rw eq refl) k top
      | inr (inl k) ↦
          Leads.tied w x (ground arith, ground arith, ne, same) (λ o so. ground (arith, top o))
            (rw (take-less l (f w) e (rw eq refl) k) eq)
      | inr (inr k) ↦
          Leads.tied w x (ground arith, ground arith, ne, same) (λ o so. ground (arith, top o))
            (rw (take-same l (f w) e (rw eq refl) (sym k)) (rw eq refl))
    ]

Leads-respect :
    (f : ℕ → ℕ) (s t : ℕ → Bool) (l : Lead) → ((o : ℕ) → s o ≡ t o) → Leads f s l → Leads f t l
Leads-respect f s t l e (Leads.fresh n eq) = Leads.fresh (λ o. sym (e o) ∙ n o) eq
Leads-respect f s t l e (Leads.ahead w sw top eq) =
    Leads.ahead w (sym (e w) ∙ sw) (λ o so. top o (e o ∙ so)) eq
Leads-respect f s t l e (Leads.tied w x (sw, sx, ne, same) top eq) =
    Leads.tied w x (sym (e w) ∙ sw, sym (e x) ∙ sx, ne, same) (λ o so. top o (e o ∙ so)) eq

Leads-find_lead :
    (f : ℕ → ℕ) (seen : ℕ → Bool) (l : Lead) (es : List OptionWeight)
    → IsKeyed es
    → ((o : ℕ) → has es o ≡ true → seen o ≡ false)
    → ((o : ℕ) → has es o ≡ true → val es o ≡ f o)
    → Leads f seen l
    → Leads f (λ o. seen o || has es o) (find_lead l es)
unfolding find_lead
Leads-find_lead f seen l [] k new own known = Leads-respect f seen _ l (λ o. ground arith) known
Leads-find_lead f seen l (e ∷ es) (k, ks) new own known =
    Leads-respect f _ _ _ (λ o. ground arith)
      (Leads-find_lead f (and_also seen e.option_id) (take_lead l e) es ks
        (λ o ho. ground (arith, new o)) (λ o ho. ground (arith, own o))
        (Leads-take_lead f seen l e (ground (arith, own e.option_id, val-has es e.option_id k))
          (new e.option_id (ground arith)) known))

-- The option has a ballot, and more weight than any other option that has one.
abbrev pub IsPlurality : List VoteRow → ℕ → Type 0
IsPlurality votes o =
    (has_ballot votes o ≡ true)
    × ((x : ℕ) → has_ballot votes x ≡ true → x ≢ o → weight_of votes x < weight_of votes o)

votes-Leads :
    (votes : List VoteRow)
    → Leads (weight_of votes) (has_ballot votes) (find_lead no_lead (weigh_options [] votes))
votes-Leads votes =
    Leads-respect (weight_of votes) _ _ _ (λ o. has-weigh_options [] votes o)
      (Leads-find_lead (weight_of votes) (λ o. false) no_lead (weigh_options [] votes)
        (IsKeyed-weigh_options [] votes tt) (λ o h. refl)
        (λ o h. omega (arith, val-weigh_options [] votes o)) (Leads.fresh (λ o. refl) refl))

winner-IsPlurality :
    (votes : List VoteRow) (l : Lead) (o : ℕ)
    → Leads (weight_of votes) (has_ballot votes) l
    → winner_of l ≡ some o
    → IsPlurality votes o
winner-IsPlurality votes l o (Leads.fresh n eq) h = cc
winner-IsPlurality votes l o (Leads.ahead w sw top eq) h =
    subst (IsPlurality votes) (some-injective w o (rw eq at h)) (sw, top)
winner-IsPlurality votes l o (Leads.tied w x facts top eq) h = cc

plurality-wins :
    (votes : List VoteRow) (l : Lead) (o : ℕ)
    → Leads (weight_of votes) (has_ballot votes) l
    → IsPlurality votes o
    → winner_of l ≡ some o
plurality-wins votes l o (Leads.fresh n eq) (b, p) = ground (arith, n o)
plurality-wins votes l o (Leads.ahead w sw top eq) (b, p) = ground (arith, top o, p w)
plurality-wins votes l o (Leads.tied w x (sw, sx, ne, same) top eq) (b, p) =
    ground (arith, top o, p w, p x)

-- For every ballot box and every option: the tally names the option as its winner exactly if the
-- option has a ballot and more weight than any other that has one, and the total is the sum of the
-- weights of the votes.
pub tally_votes_lem :
    (votes : List VoteRow) (o : ℕ)
    → (((tally_votes votes).winning_option_id ≡ some o) ↔ IsPlurality votes o)
      × ((tally_votes votes).total_vote_weight
          ≡ sum_of (λ v. v.active_governance_balance_snapshot) votes)
unfolding tally_votes
tally_votes_lem votes o = (
  (winner-IsPlurality votes _ o (votes-Leads votes), plurality-wins votes _ o (votes-Leads votes)),
  omega (arith, total_weight-sum 0 votes),
)

-- No option has a plurality.
abbrev pub IsUndecided : List VoteRow → Type 0
IsUndecided votes = (o : ℕ) → IsPlurality votes o → ⊥

outcome_cases :
    (votes : List VoteRow) (options : List ℕ) (o : ℕ)
    → (resolve_outcome votes options ≡ o)
      ↔ (IsPlurality votes o ⊎ (IsUndecided votes × (fallback_option options ≡ o)))
unfolding resolve_outcome
outcome_cases votes options o = elim (Option-cases (tally_votes votes).winning_option_id) [
  | inl none_wins ↦ rw none_wins (
    (λ h. inr ((λ x p. cc (none_wins, ((tally_votes_lem votes x).0).1 p)), h)),
    (λ h. elim h [ inl p ↦ cc (none_wins, ((tally_votes_lem votes o).0).1 p) | inr q ↦ q.1 ]),
  )
  | inr (w, wins) ↦ rw wins (
    (λ h. inl (((tally_votes_lem votes o).0).0 (rw (← h) wins))),
    (λ h. elim h [
      | inl p ↦ some-injective w o (sym wins ∙ ((tally_votes_lem votes o).0).1 p)
      | inr q ↦ absurd (q.0 w (((tally_votes_lem votes w).0).0 wins))
    ]),
  )
]

fallback_cases :
    (options : List ℕ)
    → (fallback_option options ≡ approve_option_id) ↔ (
        (any (λ o. o == reject_option_id) options ≡ false)
        × (last_option options ≡ approve_option_id))
fallback_cases options = elim (Bool-cases (any (λ o. o == reject_option_id) options)) [
  | inl there ↦ rw there ((λ h. absurd (omega (arith, h))), (λ h. cc))
  | inr away ↦ rw away ((λ h. (refl, h)), (λ h. h.1))
]

-- The outcome is 'approve' exactly if 'approve' has a plurality, or no option has one, 'reject' is
-- not on the ballot and the last option of the ballot is 'approve'.
pub resolve_outcome_lem :
    (votes : List VoteRow) (options : List ℕ)
    → (resolve_outcome votes options ≡ approve_option_id) ↔ (
        IsPlurality votes approve_option_id
        ⊎ (IsUndecided votes
            × ((any (λ o. o == reject_option_id) options ≡ false)
                × (last_option options ≡ approve_option_id))))
resolve_outcome_lem votes options =
    let (there, back) = outcome_cases votes options approve_option_id in
    (
      (λ h. elim (there h) [ inl p ↦ inl p | inr (u, f) ↦ inr (u, (fallback_cases options).0 f) ]),
      (λ h. elim h [
        | inl p ↦ back (inl p)
        | inr (u, f) ↦ back (inr (u, (fallback_cases options).1 f))
      ]),
    )
