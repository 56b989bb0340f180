-- ===== src/Broker/Order/Complete.antt =====
-- Every server and every executable is booted once.
use casual.Base.{
  ℕ, ◌+◌, ◌≡◌, refl, Bool, true, false, not, ◌||◌, List, [], ◌∷◌, ◌++◌, arith, select, is_empty,
  Bool-cases, inl, inr, how_many, how_many-append, how_many-select-reject, values,
}
use casual.Broker.State.{State, Group, Executable, Server}
use casual.Broker.Order.{
  Batch, Progress, is_member, server_member, take_group, take_groups, close, boot_order,
}

-- All servers and all executables of batches.
unfoldable pub booted_servers : List Batch → List Server
booted_servers [] = []
booted_servers (b ∷ bs) = b.servers ++ booted_servers bs

unfoldable pub booted_executables : List Batch → List Executable
booted_executables [] = []
booted_executables (b ∷ bs) = b.executables ++ booted_executables bs

how_many-empty {ℓ} :
    {A : Type ℓ} (p : A → Bool) (xs : List A) → is_empty xs ≡ true → how_many p xs ≡ 0
unfolding how_many
how_many-empty p [] e = refl
how_many-empty p (x ∷ xs) e = ground arith

booted_servers-append :
    (p : Server → Bool) (bs cs : List Batch)
    → how_many p (booted_servers (bs ++ cs))
      ≡ how_many p (booted_servers bs) + how_many p (booted_servers cs)
unfolding booted_servers how_many
booted_servers-append p [] cs = omega arith
booted_servers-append p (b ∷ bs) cs = omega (
  arith,
  booted_servers-append p bs cs,
  how_many-append p b.servers (booted_servers (bs ++ cs)),
  how_many-append p b.servers (booted_servers bs),
)

booted_executables-append :
    (p : Executable → Bool) (bs cs : List Batch)
    → how_many p (booted_executables (bs ++ cs))
      ≡ how_many p (booted_executables bs) + how_many p (booted_executables cs)
unfolding booted_executables how_many
booted_executables-append p [] cs = omega arith
booted_executables-append p (b ∷ bs) cs = omega (
  arith,
  booted_executables-append p bs cs,
  how_many-append p b.executables (booted_executables (bs ++ cs)),
  how_many-append p b.executables (booted_executables bs),
)

both_empty : (a b : Bool) → not a || not b ≡ false → (a ≡ true) × (b ≡ true)
both_empty true true e = (refl, refl)
both_empty true false e = ground arith
both_empty false b e = ground arith

abbrev some_taken : Group → Progress → Bool
some_taken g r =
    not (is_empty (select (server_member g.id) r.servers))
    || not (is_empty (select (is_member g.id) r.executables))

module _ (p : Server → Bool) (q : Executable → Bool) where
  -- What is left and what is booted.
  abbrev server_total : Progress → ℕ
  server_total r = how_many p r.servers + how_many p (booted_servers r.batches)

  abbrev executable_total : Progress → ℕ
  executable_total r = how_many q r.executables + how_many q (booted_executables r.batches)

  take_group_total :
      (g : Group) (r : Progress)
      → (server_total (take_group g r) ≡ server_total r)
        × (executable_total (take_group g r) ≡ executable_total r)
  unfolding take_group booted_servers booted_executables
  take_group_total g r = elim (Bool-cases (some_taken g r)) [
    | inl e ↦ rw e (
      omega (
        arith,
        how_many-append p (select (server_member g.id) r.servers) (booted_servers r.batches),
        how_many-select-reject (server_member g.id) p r.servers,
      ),
      omega (
        arith,
        how_many-append q (select (is_member g.id) r.executables) (booted_executables r.batches),
        how_many-select-reject (is_member g.id) q r.executables,
      ),
    )
    | inr e ↦ rw e (refl, refl)
  ]

  take_groups_total :
      (groups : List Group) (r : Progress)
      → (server_total (take_groups groups r) ≡ server_total r)
        × (executable_total (take_groups groups r) ≡ executable_total r)
  unfolding take_groups
  take_groups_total [] r = (refl, refl)
  take_groups_total (g ∷ groups) r =
      let step = take_group_total g (take_groups groups r) in
      let rest = take_groups_total groups r in
      (omega (arith, step, rest), omega (arith, step, rest))

  close_total :
      (r : Progress)
      → (how_many p (booted_servers (close r)) ≡ server_total r)
        × (how_many q (booted_executables (close r)) ≡ executable_total r)
  unfolding close booted_servers booted_executables how_many
  close_total r = elim (Bool-cases (not (is_empty r.servers) || not (is_empty r.executables))) [
    | inl e ↦ rw e (
      omega (
        arith,
        booted_servers-append p r.batches
            (record { group = 0; servers = r.servers; executables = r.executables } ∷ []),
        how_many-append p r.servers [],
      ),
      omega (
        arith,
        booted_executables-append q r.batches
            (record { group = 0; servers = r.servers; executables = r.executables } ∷ []),
        how_many-append q r.executables [],
      ),
    )
    | inr e ↦
        let empty = both_empty (is_empty r.servers) (is_empty r.executables) e in
        rw e (
          omega (arith, how_many-empty p r.servers empty.0),
          omega (arith, how_many-empty q r.executables empty.1),
        )
  ]

  -- For any order that the groups are left in, the batches of the boot order have as many servers
  -- with any property as the state has, and as many executables: each is booted once.
  pub boot_order_complete :
      (groups : List Group) (s : State)
      → (how_many p (booted_servers (boot_order groups s)) ≡ how_many p (values s.servers))
        × (how_many q (booted_executables (boot_order groups s))
            ≡ how_many q (values s.executables))
  unfolding boot_order booted_servers booted_executables how_many
  boot_order_complete groups s =
      let start : Progress = record {
        servers = values s.servers;
        executables = values s.executables;
        batches = [];
      } in
      let closed = close_total (take_groups groups start) in
      let taken = take_groups_total groups start in
      (omega (arith, closed, taken), omega (arith, closed, taken))
