-- ===== src/Engine/Policy/Listing.antt =====
-- lib/engine/policy-service.ts: getCurrentPolicy and listVersions, which only read.
use you_fen.Base.{
  ℕ, ◌≤◌, ◌≡◌, refl, Option, none, some, List, [], ◌∷◌, map, ◌==◌, ltb, select, sum_of,
  if◌then◌else◌, Bool-cases, inl, inr, All, ◌∙◌, ltb-false, find, arith,
}
use you_fen.Engine.Tables.{PolicyRow, PolicyRule, PolicyVersionRow}
use you_fen.Engine.Db.{Db, Tx, ◌>>=◌, pure, gets}
use you_fen.Engine.Errors.{ok}
use you_fen.Engine.Policy.{is_policy_of, read_policy}

-- The frozen view of a policy, or of one of its versions.
pub record PolicyView : Type 0 where
  pub community_id : ℕ
  pub policy_version : ℕ
  pub rules : Option (List PolicyRule)
  pub monthly_inflation_rate_bps : ℕ
  pub max_advance_rate_bps : ℕ
  pub member_mint_cap_rate_bps : ℕ
  pub epoch_duration_days : ℕ
  pub pending_policy_version_id : Option ℕ
  pub pending_policy_effective_epoch : Option ℕ

-- `toPolicyRow`
abbrev pub to_policy_row : PolicyRow → PolicyView
to_policy_row p = record {
  community_id = p.community_id;
  policy_version = p.policy_version;
  rules = p.rules;
  monthly_inflation_rate_bps = p.monthly_inflation_rate_bps;
  max_advance_rate_bps = p.max_advance_rate_bps;
  member_mint_cap_rate_bps = p.member_mint_cap_rate_bps;
  epoch_duration_days = p.epoch_duration_days;
  pending_policy_version_id = p.pending_policy_version_id;
  pending_policy_effective_epoch = p.pending_policy_effective_epoch;
}

abbrev view_if : Option PolicyRow → Option PolicyView
view_if none = none
view_if (some p) = some (to_policy_row p)

-- `getCurrentPolicy`
unfoldable pub get_current_policy : ℕ → Tx (Option PolicyView)
get_current_policy community_id = do row ← read_policy community_id; pure (view_if row)

-- A stable sort by falling version, as `sort` does it.
abbrev pub insert_version : PolicyVersionRow → List PolicyVersionRow → List PolicyVersionRow
insert_version v [] = v ∷ []
insert_version v (w ∷ ws) =
    let rest = insert_version v ws in if ltb v.version w.version then w ∷ rest else v ∷ (w ∷ ws)

abbrev pub sort_versions : List PolicyVersionRow → List PolicyVersionRow
sort_versions [] = []
sort_versions (v ∷ vs) = insert_version v (sort_versions vs)

-- One line of the list: the version's own columns, and those of the policy.
abbrev pub version_view : ℕ → PolicyRow → PolicyVersionRow → PolicyView
version_view community_id p v = record {
  community_id = community_id;
  policy_version = v.version;
  rules = v.rules;
  monthly_inflation_rate_bps = v.monthly_inflation_rate_bps;
  max_advance_rate_bps = v.max_advance_rate_bps;
  member_mint_cap_rate_bps = v.member_mint_cap_rate_bps;
  epoch_duration_days = p.epoch_duration_days;
  pending_policy_version_id = p.pending_policy_version_id;
  pending_policy_effective_epoch = p.pending_policy_effective_epoch;
}

abbrev pub versions_of : PolicyRow → Db → List PolicyVersionRow
versions_of p d = select (λ v. v.policy_id == p.id) d.policy_versions

abbrev list_if : ℕ → Option PolicyRow → Tx (List PolicyView)
list_if community_id none = pure []
list_if community_id (some p) = do
  versions ← gets (versions_of p)
  pure (map (version_view community_id p) (sort_versions versions))

-- `listVersions`
unfoldable pub list_versions : ℕ → Tx (List PolicyView)
list_versions community_id = do policy ← read_policy community_id; list_if community_id policy

-- Versions fall along the list.
abbrev pub IsFalling : List PolicyView → Type 0
IsFalling [] = Unit
IsFalling (v ∷ vs) = All (λ w. w.policy_version ≤ v.policy_version) vs × IsFalling vs

-- How many entries have a version.
abbrev pub count_views : ℕ → List PolicyView → ℕ
count_views n views = sum_of (λ v. if v.policy_version == n then 1 else 0) views

abbrev pub count_versions : ℕ → List PolicyVersionRow → ℕ
count_versions n vs = sum_of (λ v. if v.version == n then 1 else 0) vs

count-insert_version :
    (n : ℕ) (v : PolicyVersionRow) (vs : List PolicyVersionRow)
    → count_versions n (insert_version v vs) ≡ count_versions n (v ∷ vs)
count-insert_version n v [] = refl
count-insert_version n v (w ∷ ws) = ground (arith, count-insert_version n v ws)

count-sort_versions :
    (n : ℕ) (vs : List PolicyVersionRow) → count_versions n (sort_versions vs) ≡ count_versions n vs
count-sort_versions n [] = refl
count-sort_versions n (v ∷ vs) =
    omega (arith, count-insert_version n v (sort_versions vs), count-sort_versions n vs)

module _ (c : ℕ) (p : PolicyRow) where
  abbrev views : List PolicyVersionRow → List PolicyView
  views vs = map (version_view c p) vs

  count-views :
      (n : ℕ) (vs : List PolicyVersionRow) → count_views n (views vs) ≡ count_versions n vs
  count-views n [] = refl
  count-views n (v ∷ vs) = omega (arith, count-views n vs)

  below-insert_version :
      (n : ℕ) (v : PolicyVersionRow) (vs : List PolicyVersionRow)
      → v.version ≤ n
      → All (λ w. w.policy_version ≤ n) (views vs)
      → All (λ w. w.policy_version ≤ n) (views (insert_version v vs))
  below-insert_version n v [] h k = (h, tt)
  below-insert_version n v (w ∷ ws) h k = elim (Bool-cases (ltb v.version w.version)) [
    | inl less ↦ rw less (k.0, below-insert_version n v ws h k.1)
    | inr more ↦ rw more (h, k)
  ]

  raise_bound :
      (m n : ℕ) (vs : List PolicyVersionRow)
      → m ≤ n
      → All (λ w. w.policy_version ≤ m) (views vs)
      → All (λ w. w.policy_version ≤ n) (views vs)
  raise_bound m n [] h k = tt
  raise_bound m n (v ∷ vs) h k = (omega (arith, h, k.0), raise_bound m n vs h k.1)

  insert_version-IsFalling :
      (v : PolicyVersionRow) (vs : List PolicyVersionRow)
      → IsFalling (views vs)
      → IsFalling (views (insert_version v vs))
  insert_version-IsFalling v [] k = (tt, tt)
  insert_version-IsFalling v (w ∷ ws) k = elim (Bool-cases (ltb v.version w.version)) [
    | inl less ↦
        rw less (
          below-insert_version w.version v ws (ground arith) k.0,
          insert_version-IsFalling v ws k.1,
        )
    | inr more ↦ rw more (
      (
        ltb-false v.version w.version more,
        raise_bound w.version v.version ws (ltb-false v.version w.version more) k.0,
      ),
      k,
    )
  ]

  sort_versions-IsFalling : (vs : List PolicyVersionRow) → IsFalling (views (sort_versions vs))
  sort_versions-IsFalling [] = tt
  sort_versions-IsFalling (v ∷ vs) =
      insert_version-IsFalling v (sort_versions vs) (sort_versions-IsFalling vs)

list_versions-run :
    (c : ℕ) (d : Db) (p : PolicyRow)
    → find (is_policy_of c) d.policies ≡ some p
    → list_versions c d ≡ ok (views c p (sort_versions (versions_of p d)), d)
unfolding list_versions read_policy ◌>>=◌
list_versions-run c d p h = rw h refl

-- For a community that has a policy, the listing of its versions always commits and changes nothing;
-- the versions fall along the list, and each version number stands in it as often as among the
-- versions of the policy.
pub list_versions-IsFalling :
    (c : ℕ) (d : Db) (p : PolicyRow)
    → find (is_policy_of c) d.policies ≡ some p
    → (l : List PolicyView) × (list_versions c d ≡ ok (l, d))
      × IsFalling l
      × ((n : ℕ) → count_views n l ≡ count_versions n (versions_of p d))
list_versions-IsFalling c d p h = (
  views c p (sort_versions (versions_of p d)),
  list_versions-run c d p h,
  sort_versions-IsFalling c p (versions_of p d),
  λ n.
      count-views c p n (sort_versions (versions_of p d)) ∙ count-sort_versions n (versions_of p d),
)
