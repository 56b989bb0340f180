-- ===== src/Broker/Exclusive/Instances.antt =====
-- Changes of instances, and which of them are idle.
use casual.Base.{
  ◌∙◌, ℕ, ◌+◌, ◌≤◌, ◌≡◌, refl, Bool, true, false, Bool-cases, inl, inr, List, [], ◌∷◌, ◌==◌, arith,
  lookup, emplace, update_at, remove_key,
}
use casual.Broker.State.{Instance}
use casual.Broker.Handle.Service.{is_idle, is_idle_state, process_of}
use casual.Broker.Exclusive.{bit, idle_count, IsKeyed}

bit_le : (b : Bool) → bit b ≤ 1
bit_le true = omega arith
bit_le false = omega arith

module _ (k : ℕ) (f : Instance → Instance) where
  pub update_at-IsKeyed :
      (m : List (ℕ × Instance))
      → ((i : Instance) → (f i).process.pid ≡ i.process.pid)
      → IsKeyed m
      → IsKeyed (update_at k f m)
  unfolding update_at
  update_at-IsKeyed [] h ok = tt
  update_at-IsKeyed ((j, i) ∷ m) h ok = elim (Bool-cases (j == k)) [
    | inl e ↦ rw e (h i ∙ ok.0, ok.1)
    | inr e ↦ rw e (ok.0, update_at-IsKeyed m h ok.1)
  ]

  -- An update that does not make an instance idle.
  pub update_at-calm :
      (pid : ℕ) (m : List (ℕ × Instance))
      → ((i : Instance) → bit (is_idle_state (f i).state) ≤ bit (is_idle_state i.state))
      → idle_count pid (update_at k f m) ≤ idle_count pid m
  unfolding update_at lookup is_idle
  update_at-calm pid [] h = omega arith
  update_at-calm pid ((j, i) ∷ m) h =
      let rest = update_at-calm pid m h in
      let here = h i in
      elim (Bool-cases (j == k)) [
        | inl e ↦ elim (Bool-cases (j == pid)) [
          | inl d ↦ rw (e, d) here
          | inr d ↦ rw (e, d) (omega arith)
        ]
        | inr e ↦ elim (Bool-cases (j == pid)) [
          | inl d ↦ rw (e, d) (omega arith)
          | inr d ↦ rw (e, d) rest
        ]
      ]

  -- An update that leaves an instance other than idle.
  pub update_at-not_idle :
      (m : List (ℕ × Instance))
      → ((i : Instance) → is_idle_state (f i).state ≡ false)
      → idle_count k (update_at k f m) ≡ 0
  unfolding update_at lookup is_idle
  update_at-not_idle [] h = refl
  update_at-not_idle ((j, i) ∷ m) h =
      let rest = update_at-not_idle m h in
      elim (Bool-cases (j == k)) [ inl e ↦ rw (e, e, h i) refl | inr e ↦ rw (e, e) rest ]

  -- Any update.
  pub update_at-idle :
      (pid : ℕ) (m : List (ℕ × Instance))
      → idle_count pid (update_at k f m) ≤ idle_count pid m + bit (k == pid)
  unfolding update_at lookup is_idle
  update_at-idle pid [] = omega arith
  update_at-idle pid ((j, i) ∷ m) =
      let rest = update_at-idle pid m in
      let one = bit_le (is_idle_state (f i).state) in
      elim (Bool-cases (j == k)) [
        | inl e ↦ elim (Bool-cases (j == pid)) [
          | inl d ↦ let c : (k == pid) ≡ true = ground arith in rw (e, d, c) (omega arith)
          | inr d ↦ rw (e, d) (omega arith)
        ]
        | inr e ↦ elim (Bool-cases (j == pid)) [
          | inl d ↦ rw (e, d) (omega arith)
          | inr d ↦ rw (e, d) rest
        ]
      ]

pub emplace-IsKeyed :
    (k : ℕ) (i : Instance) (m : List (ℕ × Instance))
    → i.process.pid ≡ k
    → IsKeyed m
    → IsKeyed (emplace k i m)
unfolding emplace
emplace-IsKeyed k i [] h ok = (h, tt)
emplace-IsKeyed k i ((j, v) ∷ m) h ok = elim (Bool-cases (j == k)) [
  | inl e ↦ rw e ok
  | inr e ↦ rw e (ok.0, emplace-IsKeyed k i m h ok.1)
]

pub emplace-calm :
    (k : ℕ) (i : Instance) (pid : ℕ) (m : List (ℕ × Instance))
    → is_idle_state i.state ≡ false
    → idle_count pid (emplace k i m) ≤ idle_count pid m
unfolding emplace lookup is_idle
emplace-calm k i pid [] h = elim (Bool-cases (k == pid)) [
  | inl e ↦ rw (e, h) (omega arith)
  | inr e ↦ rw e (omega arith)
]
emplace-calm k i pid ((j, v) ∷ m) h =
    let rest = emplace-calm k i pid m h in
    elim (Bool-cases (j == k)) [
      | inl e ↦ rw e (omega arith)
      | inr e ↦ elim (Bool-cases (j == pid)) [
        | inl d ↦ rw (e, d) (omega arith)
        | inr d ↦ rw (e, d) rest
      ]
    ]

pub remove_key-IsKeyed : (k : ℕ) (m : List (ℕ × Instance)) → IsKeyed m → IsKeyed (remove_key k m)
unfolding remove_key
remove_key-IsKeyed k [] ok = tt
remove_key-IsKeyed k ((j, v) ∷ m) ok = elim (Bool-cases (j == k)) [
  | inl e ↦ rw e (remove_key-IsKeyed k m ok.1)
  | inr e ↦ rw e (ok.0, remove_key-IsKeyed k m ok.1)
]

-- What is handed out of an idle instance is its own process.
pub process_of-IsKeyed :
    (k : ℕ) (m : List (ℕ × Instance))
    → IsKeyed m
    → is_idle (lookup k m) ≡ true
    → (process_of (lookup k m)).pid ≡ k
unfolding lookup is_idle process_of
process_of-IsKeyed k [] ok = λ h. ground arith
process_of-IsKeyed k ((j, v) ∷ m) ok = elim (Bool-cases (j == k)) [
  | inl d ↦ rw d (λ h. let same : j ≡ k = ground arith in ok.0 ∙ same)
  | inr d ↦ rw d (process_of-IsKeyed k m ok.1)
]

remove_key-gone :
    (k pid : ℕ) (m : List (ℕ × Instance)) → (k == pid) ≡ true → idle_count pid (remove_key k m) ≡ 0
unfolding remove_key lookup is_idle
remove_key-gone k pid [] c = refl
remove_key-gone k pid ((j, v) ∷ m) c = elim (Bool-cases (j == k)) [
  | inl e ↦ rw e (remove_key-gone k pid m c)
  | inr e ↦ let d : (j == pid) ≡ false = ground arith in rw (e, d) (remove_key-gone k pid m c)
]

pub remove_key-calm :
    (k pid : ℕ) (m : List (ℕ × Instance)) → idle_count pid (remove_key k m) ≤ idle_count pid m
unfolding remove_key lookup is_idle
remove_key-calm k pid [] = omega arith
remove_key-calm k pid ((j, v) ∷ m) =
    let rest = remove_key-calm k pid m in
    elim (Bool-cases (j == k)) [
      | inl e ↦ elim (Bool-cases (j == pid)) [
        | inl d ↦
            (let c : (k == pid) ≡ true = ground arith in
              let zero = remove_key-gone k pid m c in rw (e, d) (omega arith))
        | inr d ↦ rw (e, d) rest
      ]
      | inr e ↦ elim (Bool-cases (j == pid)) [
        | inl d ↦ rw (e, d) (omega arith)
        | inr d ↦ rw (e, d) rest
      ]
    ]

pub process_of-update_at :
    (j k : ℕ) (f : Instance → Instance) (m : List (ℕ × Instance))
    → ((i : Instance) → (f i).process ≡ i.process)
    → process_of (lookup j (update_at k f m)) ≡ process_of (lookup j m)
unfolding lookup process_of update_at
process_of-update_at j k f [] h = refl
process_of-update_at j k f ((l, v) ∷ m) h = elim (Bool-cases (l == k)) [
  | inl e ↦ elim (Bool-cases (l == j)) [ inl d ↦ rw (e, d) (h v) | inr d ↦ rw (e, d) refl ]
  | inr e ↦ elim (Bool-cases (l == j)) [
    | inl d ↦ rw (e, d) refl
    | inr d ↦ rw (e, d) (process_of-update_at j k f m h)
  ]
]
