-- ===== src/Stores/Idempotency.antt =====
-- inMemoryIdempotencyStore (internal/implementation/orchestrator/idempotency_memory.go). Times are
-- nanoseconds; time.Now() is an argument.
pub mod Laws
use eywa.Prelude.{
  ℕ, ◌+◌, Bool, true, false, Option, none, some, List, [], ◌∷◌, String, length, leb, ltb,
  if◌then◌else◌,
}
use eywa.Prelude.Maps.{Assoc, lookup, insert}

abbrev pub max_keys : ℕ
max_keys = 100000

-- key -> expiry
abbrev pub Store : Type 0
Store = Assoc ℕ

-- Drops the entries with now.After(expiry).
unfoldable pub reap_expired : ℕ → Store → Store
reap_expired now [] = []
reap_expired now ((key, expiry) ∷ s) =
    let rest = reap_expired now s in if ltb expiry now then rest else (key, expiry) ∷ rest

-- expiry, ok := s.seen[key]; ok && now.Before(expiry)
unfoldable pub live : String → ℕ → Store → Bool
live key now s = elim (lookup key s) [ none ↦ false | some expiry ↦ ltb now expiry ]

-- A store with no room for a new key fails open: the key is not recorded.
unfoldable pub record_key : String → ℕ → ℕ → Store → Bool × Store
unfolding live
record_key key now ttl s =
    if live key now s
    then (true, s)
    else if leb max_keys (length s)
    then (false, s)
    else (false, insert key (now + ttl) s)

unfoldable pub seen : String → ℕ → ℕ → Store → Bool × Store
unfolding record_key
seen key now ttl s = record_key key now ttl (reap_expired now s)
