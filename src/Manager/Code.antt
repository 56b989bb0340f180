-- ===== src/Manager/Code.antt =====
-- xatmi/include/xa.h: the return codes of the XA interface. Of the transaction manager's
-- state.h and state.cpp: the ranked `Transaction::Resource::Result` and its conversions.
pub mod Roundtrip
use casual.Base.{ℕ, Bool, ltb, if◌then◌else◌}
use casual.Base.Int.{ℤ, pos, negsuc, ◌==ℤ◌}

abbrev pub xa_rbtransient : ℤ
xa_rbtransient = pos 107

abbrev pub xa_rbtimeout : ℤ
xa_rbtimeout = pos 106

abbrev pub xa_rbproto : ℤ
xa_rbproto = pos 105

abbrev pub xa_rbother : ℤ
xa_rbother = pos 104

abbrev pub xa_rbintegrity : ℤ
xa_rbintegrity = pos 103

abbrev pub xa_rbdeadlock : ℤ
xa_rbdeadlock = pos 102

abbrev pub xa_rbcommfail : ℤ
xa_rbcommfail = pos 101

abbrev pub xa_rbrollback : ℤ
xa_rbrollback = pos 100

abbrev pub xa_nomigrate : ℤ
xa_nomigrate = pos 9

abbrev pub xa_heurhaz : ℤ
xa_heurhaz = pos 8

abbrev pub xa_heurcom : ℤ
xa_heurcom = pos 7

abbrev pub xa_heurrb : ℤ
xa_heurrb = pos 6

abbrev pub xa_heurmix : ℤ
xa_heurmix = pos 5

abbrev pub xa_retry : ℤ
xa_retry = pos 4

abbrev pub xa_rdonly : ℤ
xa_rdonly = pos 3

abbrev pub xa_ok : ℤ
xa_ok = pos 0

abbrev pub xaer_async : ℤ
xaer_async = negsuc 1

abbrev pub xaer_rmerr : ℤ
xaer_rmerr = negsuc 2

abbrev pub xaer_nota : ℤ
xaer_nota = negsuc 3

abbrev pub xaer_inval : ℤ
xaer_inval = negsuc 4

abbrev pub xaer_proto : ℤ
xaer_proto = negsuc 5

abbrev pub xaer_rmfail : ℤ
xaer_rmfail = negsuc 6

abbrev pub xaer_dupid : ℤ
xaer_dupid = negsuc 7

abbrev pub xaer_outside : ℤ
xaer_outside = negsuc 8

-- The lower the enum value, that is the earlier in the list, the more severe.
pub data Result : Type 0 where
  c_xa_heurhaz : Result
  c_xa_heurmix : Result
  c_xa_heurcom : Result
  c_xa_heurrb : Result
  c_xaer_rmfail : Result
  c_xaer_rmerr : Result
  c_xa_rbintegrity : Result
  c_xa_rbcommfail : Result
  c_xa_rbrollback : Result
  c_xa_rbother : Result
  c_xa_rbdeadlock : Result
  c_xaer_proto : Result
  c_xa_rbproto : Result
  c_xa_rbtimeout : Result
  c_xa_rbtransient : Result
  c_xaer_inval : Result
  c_xa_nomigrate : Result
  c_xaer_outside : Result
  c_xaer_async : Result
  c_xa_retry : Result
  c_xaer_dupid : Result
  c_xaer_nota : Result
  c_xa_ok : Result
  c_xa_rdonly : Result

-- The enum's underlying value.
abbrev pub rank : Result → ℕ
rank c_xa_heurhaz = 0
rank c_xa_heurmix = 1
rank c_xa_heurcom = 2
rank c_xa_heurrb = 3
rank c_xaer_rmfail = 4
rank c_xaer_rmerr = 5
rank c_xa_rbintegrity = 6
rank c_xa_rbcommfail = 7
rank c_xa_rbrollback = 8
rank c_xa_rbother = 9
rank c_xa_rbdeadlock = 10
rank c_xaer_proto = 11
rank c_xa_rbproto = 12
rank c_xa_rbtimeout = 13
rank c_xa_rbtransient = 14
rank c_xaer_inval = 15
rank c_xa_nomigrate = 16
rank c_xaer_outside = 17
rank c_xaer_async = 18
rank c_xa_retry = 19
rank c_xaer_dupid = 20
rank c_xaer_nota = 21
rank c_xa_ok = 22
rank c_xa_rdonly = 23

-- `convert( int)`: an unknown code counts as a failed resource manager.
unfoldable pub convert : ℤ → Result
convert value =
    if value ==ℤ xa_heurhaz
    then c_xa_heurhaz
    else if value ==ℤ xa_heurmix
    then c_xa_heurmix
    else if value ==ℤ xa_heurcom
    then c_xa_heurcom
    else if value ==ℤ xa_heurrb
    then c_xa_heurrb
    else if value ==ℤ xaer_rmfail
    then c_xaer_rmfail
    else if value ==ℤ xaer_rmerr
    then c_xaer_rmerr
    else if value ==ℤ xa_rbintegrity
    then c_xa_rbintegrity
    else if value ==ℤ xa_rbcommfail
    then c_xa_rbcommfail
    else if value ==ℤ xa_rbrollback
    then c_xa_rbrollback
    else if value ==ℤ xa_rbother
    then c_xa_rbother
    else if value ==ℤ xa_rbdeadlock
    then c_xa_rbdeadlock
    else if value ==ℤ xaer_proto
    then c_xaer_proto
    else if value ==ℤ xa_rbproto
    then c_xa_rbproto
    else if value ==ℤ xa_rbtimeout
    then c_xa_rbtimeout
    else if value ==ℤ xa_rbtransient
    then c_xa_rbtransient
    else if value ==ℤ xaer_inval
    then c_xaer_inval
    else if value ==ℤ xa_nomigrate
    then c_xa_nomigrate
    else if value ==ℤ xaer_outside
    then c_xaer_outside
    else if value ==ℤ xaer_nota
    then c_xaer_nota
    else if value ==ℤ xaer_async
    then c_xaer_async
    else if value ==ℤ xa_retry
    then c_xa_retry
    else if value ==ℤ xaer_dupid
    then c_xaer_dupid
    else if value ==ℤ xa_ok
    then c_xa_ok
    else if value ==ℤ xa_rdonly
    then c_xa_rdonly
    else c_xaer_rmfail

-- `convert( Result)`.
unfoldable pub code : Result → ℤ
code c_xa_heurhaz = xa_heurhaz
code c_xa_heurmix = xa_heurmix
code c_xa_heurcom = xa_heurcom
code c_xa_heurrb = xa_heurrb
code c_xaer_rmfail = xaer_rmfail
code c_xaer_rmerr = xaer_rmerr
code c_xa_rbintegrity = xa_rbintegrity
code c_xa_rbcommfail = xa_rbcommfail
code c_xa_rbrollback = xa_rbrollback
code c_xa_rbother = xa_rbother
code c_xa_rbdeadlock = xa_rbdeadlock
code c_xaer_proto = xaer_proto
code c_xa_rbproto = xa_rbproto
code c_xa_rbtimeout = xa_rbtimeout
code c_xa_rbtransient = xa_rbtransient
code c_xaer_inval = xaer_inval
code c_xa_nomigrate = xa_nomigrate
code c_xaer_outside = xaer_outside
code c_xaer_async = xaer_async
code c_xa_retry = xa_retry
code c_xaer_dupid = xaer_dupid
code c_xaer_nota = xaer_nota
code c_xa_ok = xa_ok
code c_xa_rdonly = xa_rdonly

-- `operator <` of the enum.
abbrev pub more_severe : Result → Result → Bool
more_severe a b = ltb (rank a) (rank b)
