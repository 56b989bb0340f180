-- ===== src/Manager/Code/Roundtrip.antt =====
-- The two conversions of return codes, of state.cpp.
use casual.Base.{◌≡◌, refl, arith}
use casual.Manager.Code.{Result, rank, convert, code, c_xa_heurhaz}

-- A result that is sent as a code is read back as the same result.
pub convert-code : (r : Result) → convert (code r) ≡ r
unfolding convert code
convert-code c_xa_heurhaz = refl
convert-code _ = refl

pub rank-injective : (a b : Result) → rank a ≡ rank b → a ≡ b
rank-injective a b e = ground arith
