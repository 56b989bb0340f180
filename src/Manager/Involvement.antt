-- ===== src/Manager/Involvement.antt =====
-- `local::resource::involved` of transaction/manager/handle.cpp: which resources a transaction has
-- after it, and at which stage.
use casual.Base.{true, false, ◌≡◌, ◌⊎◌, List, [], ◌∷◌}
use casual.Manager.Model.{Resource}

-- The resource is one of these, with its stage and its result.
abbrev pub OneOf : List Resource → Resource → Type 0
OneOf [] r = true ≡ false
OneOf (q ∷ qs) r = (r ≡ q) ⊎ OneOf qs r
