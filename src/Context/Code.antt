-- ===== src/Context/Code.antt =====
-- xatmi/include/tx.h and xa.h: codes and flags. Of transaction/context.cpp: `xaTotx`.
use casual.Base.{ℕ, Bool, List, [], ◌∷◌, any_of, if◌then◌else◌}
use casual.Base.Int.{ℤ, pos, negsuc, ◌==ℤ◌}
use casual.Manager.Code.{
  xa_rbrollback, xa_rbcommfail, xa_rbdeadlock, xa_rbintegrity, xa_rbother, xa_rbproto, xa_rbtimeout,
  xa_rbtransient, xa_nomigrate, xa_heurhaz, xa_heurcom, xa_heurrb, xa_heurmix, xa_retry, xa_rdonly,
  xa_ok, xaer_async, xaer_rmerr, xaer_nota, xaer_inval, xaer_proto, xaer_rmfail, xaer_dupid,
  xaer_outside,
}

abbrev pub tx_ok : ℤ
tx_ok = pos 0

abbrev pub tx_outside : ℤ
tx_outside = negsuc 0

abbrev pub tx_mixed : ℤ
tx_mixed = negsuc 2

abbrev pub tx_hazard : ℤ
tx_hazard = negsuc 3

abbrev pub tx_protocol_error : ℤ
tx_protocol_error = negsuc 4

abbrev pub tx_fail : ℤ
tx_fail = negsuc 6

abbrev pub tx_einval : ℤ
tx_einval = negsuc 7

abbrev pub tx_no_begin : ℤ
tx_no_begin = negsuc 99

-- What the registration of a resource answers.
abbrev pub tm_resumed : ℤ
tm_resumed = pos 1

abbrev pub tm_ok : ℤ
tm_ok = pos 0

abbrev pub tmer_inval : ℤ
tmer_inval = negsuc 1

abbrev pub tmer_proto : ℤ
tmer_proto = negsuc 2

-- Flags of the calls of a resource; `TMREGISTER` is one of a resource itself.
abbrev pub tm_register : ℕ
tm_register = 1

abbrev pub tm_join : ℕ
tm_join = 0x00200000

abbrev pub tm_suspend : ℕ
tm_suspend = 0x02000000

abbrev pub tm_success : ℕ
tm_success = 0x04000000

abbrev pub tm_resume : ℕ
tm_resume = 0x08000000

-- What a service returns.
abbrev pub tp_success : ℕ
tp_success = 2

abbrev pub tpe_svcerr : ℕ
tpe_svcerr = 10

abbrev pub tpe_svcfail : ℕ
tpe_svcfail = 11

unfoldable pub is_one_of : ℤ → List ℤ → Bool
is_one_of code codes = any_of (λ c. code ==ℤ c) codes

-- `xaTotx`.
unfoldable pub xa_to_tx : ℤ → ℤ
unfolding is_one_of
xa_to_tx code =
    if is_one_of code (
      xa_rbrollback ∷ xa_rbcommfail ∷ xa_rbdeadlock ∷ xa_rbintegrity ∷ xa_rbother ∷ xa_rbproto
      ∷ xa_rbtimeout ∷ xa_rbtransient ∷ xa_nomigrate ∷ xa_heurhaz ∷ [])
    then tx_hazard
    else (if is_one_of code (xa_heurcom ∷ xa_heurrb ∷ xa_heurmix ∷ [])
        then tx_mixed
        else (if is_one_of code (xa_retry ∷ xa_rdonly ∷ xa_ok ∷ [])
            then tx_ok
            else (if is_one_of code (xaer_async ∷ xaer_rmerr ∷ xaer_nota ∷ [])
                then tx_no_begin
                else (if is_one_of code (xaer_inval ∷ xaer_proto ∷ [])
                    then tx_protocol_error
                    else (if is_one_of code (xaer_rmfail ∷ xaer_dupid ∷ xaer_outside ∷ [])
                        then tx_outside
                        else tx_fail)))))
