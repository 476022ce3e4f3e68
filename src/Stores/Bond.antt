-- ===== src/Stores/Bond.antt =====
-- noOpBond (internal/implementation/orchestrator/bond_noop.go).
use eywa.Prelude.{
  ℕ, ◌≡◌, Bool, true, false, ◌&&◌, String, str_eq, length, leb, if◌then◌else◌, Option, none, some,
  arith,
}
use eywa.Prelude.Maps.{Assoc, lookup, insert, remove, lookup-insert, lookup-remove}

abbrev pub max_keys : ℕ
max_keys = 10000

pub data Acquired : Type 0 where
  acquired busy failed : Acquired

-- map[string]bool; a missing key reads as false.
abbrev pub Locks : Type 0
Locks = Assoc Bool

abbrev pub or_false : Option Bool → Bool
or_false none = false
or_false (some b) = b

unfoldable pub held : Locks → String → Bool
held locks key = or_false (lookup key locks)

unfoldable pub acquire_lock : String → Locks → Acquired × Locks
unfolding held
acquire_lock key locks =
    if held locks key
    then (busy, locks)
    else if leb max_keys (length locks)
    then (failed, locks)
    else (acquired, insert key true locks)

unfoldable pub release_lock : String → Locks → Locks
release_lock key locks = remove key locks

abbrev pub is_acquired : Acquired → Bool
is_acquired acquired = true
is_acquired _ = false

-- What an attempt does to every key: only a success changes anything, and only at its own key.
pub held-acquire_lock :
    (key j : String) (locks : Locks)
    → held (acquire_lock key locks).1 j
      ≡ (if is_acquired (acquire_lock key locks).0 && str_eq key j then true else held locks j)
unfolding acquire_lock
held-acquire_lock key j locks = ground (arith, lookup-insert key j true locks)

pub held-release_lock :
    (key j : String) (locks : Locks)
    → held (release_lock key locks) j ≡ (if str_eq key j then false else held locks j)
unfolding release_lock held
held-release_lock key j locks = ground (arith, lookup-remove key j locks)

-- A success means that the lock was free.
pub acquired-free :
    (key : String) (locks : Locks) → (acquire_lock key locks).0 ≡ acquired → held locks key ≡ false
unfolding acquire_lock
acquired-free key locks h = ground arith
