-- ===== src/Manager/Model/Severity.antt =====
-- `Transaction::stage` and `Transaction::results` are the minimum over the resources.
use casual.Base.{◌≤◌, ◌≡◌, ◌⊎◌, inl, refl, List, [], ◌∷◌, All, arith, ltb, if◌then◌else◌}
use casual.Manager.Code.{Result, rank, c_xa_rdonly, more_severe}
use casual.Manager.Model.{
  Stage, stage_rank, not_involved, Resource, Transaction, least_stage, stage, most_severe, results,
}

-- Every resource is at `s` or beyond.
abbrev pub AtLeast : Stage → List Resource → Type 0
AtLeast s = All (λ r. stage_rank s ≤ stage_rank r.stage)

-- No resource has a result more severe than `x`.
abbrev pub NoWorse : Result → List Resource → Type 0
NoWorse x = All (λ r. rank x ≤ rank r.result)

abbrev pub Has : (Resource → Type 0) → List Resource → Type 0
Has P [] = ⊥
Has P (r ∷ rs) = P r ⊎ Has P rs

least_stage-le : (s : Stage) (rs : List Resource) → stage_rank (least_stage s rs) ≤ stage_rank s
unfolding least_stage
least_stage-le s [] = omega arith
least_stage-le s (r ∷ rs) =
    ground
      (arith, least_stage-le (if ltb (stage_rank r.stage) (stage_rank s) then r.stage else s) rs)

least_stage-AtLeast : (s : Stage) (rs : List Resource) → AtLeast (least_stage s rs) rs
unfolding least_stage
least_stage-AtLeast s [] = tt
least_stage-AtLeast s (r ∷ rs) =
    let s' : Stage = if ltb (stage_rank r.stage) (stage_rank s) then r.stage else s in
    (ground (arith, least_stage-le s' rs), least_stage-AtLeast s' rs)

least_stage-attained :
    (s : Stage) (rs : List Resource)
    → (least_stage s rs ≡ s) ⊎ Has (λ r. r.stage ≡ least_stage s rs) rs
unfolding least_stage
least_stage-attained s [] = inl refl
least_stage-attained s (r ∷ rs) =
    let s' : Stage = if ltb (stage_rank r.stage) (stage_rank s) then r.stage else s in
    ground (arith, least_stage-attained s' rs)

most_severe-le : (x : Result) (rs : List Resource) → rank (most_severe x rs) ≤ rank x
unfolding most_severe
most_severe-le x [] = omega arith
most_severe-le x (r ∷ rs) =
    ground (arith, most_severe-le (if more_severe r.result x then r.result else x) rs)

most_severe-NoWorse : (x : Result) (rs : List Resource) → NoWorse (most_severe x rs) rs
unfolding most_severe
most_severe-NoWorse x [] = tt
most_severe-NoWorse x (r ∷ rs) =
    let x' : Result = if more_severe r.result x then r.result else x in
    (ground (arith, most_severe-le x' rs), most_severe-NoWorse x' rs)

most_severe-attained :
    (x : Result) (rs : List Resource)
    → (most_severe x rs ≡ x) ⊎ Has (λ r. r.result ≡ most_severe x rs) rs
unfolding most_severe
most_severe-attained x [] = inl refl
most_severe-attained x (r ∷ rs) =
    let x' : Result = if more_severe r.result x then r.result else x in
    ground (arith, most_severe-attained x' rs)

-- The stage of a transaction is the least stage of its resources: no resource is behind it, and it
-- is the stage of one of them or, in default of any before that, `not_involved`.
pub stage_least :
    (t : Transaction)
    → AtLeast (stage t) t.resources
      × ((stage t ≡ not_involved) ⊎ Has (λ r. r.stage ≡ stage t) t.resources)
unfolding stage
stage_least t =
    (least_stage-AtLeast not_involved t.resources, least_stage-attained not_involved t.resources)

-- The result of a transaction is the most severe of its resources' results: no resource has a
-- more severe one, and it is the result of one of them or, in default of any, `XA_RDONLY`.
pub results_most_severe :
    (t : Transaction)
    → NoWorse (results t) t.resources
      × ((results t ≡ c_xa_rdonly) ⊎ Has (λ r. r.result ≡ results t) t.resources)
unfolding results
results_most_severe t =
    (most_severe-NoWorse c_xa_rdonly t.resources, most_severe-attained c_xa_rdonly t.resources)
