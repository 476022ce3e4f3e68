-- ===== src/Stores/Idempotency/Laws.antt =====
-- The idempotency store drops a repeated key within its window, whatever happens in between.
use eywa.Prelude.{
  ℕ, ◌+◌, ◌≤◌, ◌<◌, ◌≡◌, true, false, some, List, [], ◌∷◌, String, eq_iff, length, All, arith,
}
use eywa.Prelude.Maps.{lookup, lookup-insert, length-insert}
use eywa.Stores.Idempotency.{max_keys, Store, reap_expired, seen}

-- A key with an expiry that has not passed survives the reaping.
lookup-reap_expired :
    (key : String) (now expiry : ℕ) (s : Store)
    → now ≤ expiry
    → lookup key s ≡ some expiry
    → lookup key (reap_expired now s) ≡ some expiry
unfolding lookup reap_expired
lookup-reap_expired key now expiry [] h e = e
lookup-reap_expired key now expiry ((j, x) ∷ s) h e =
    ground (arith, lookup-reap_expired key now expiry s h)

length-reap_expired-le : (now : ℕ) (s : Store) → length (reap_expired now s) ≤ length s
unfolding reap_expired
length-reap_expired-le now [] = omega arith
length-reap_expired-le now ((j, x) ∷ s) = ground (arith, length-reap_expired-le now s)

-- One call of the store by some delivery: its key, the time and the TTL.
pub record Ask : Type 0 where
  pub key : String
  pub now : ℕ
  pub ttl : ℕ

unfoldable pub asks : List Ask → Store → Store
unfolding seen
asks [] s = s
asks (a ∷ as') s = asks as' (seen a.key a.now a.ttl s).1

-- A live key stays recorded, with the same expiry, through a call at a time before its expiry.
lookup-seen :
    (key : String) (expiry : ℕ) (a : Ask) (s : Store)
    → a.now < expiry
    → lookup key s ≡ some expiry
    → lookup key (seen a.key a.now a.ttl s).1 ≡ some expiry
unfolding seen
lookup-seen key expiry a s h e = ground (
  arith,
  lookup-reap_expired key a.now expiry s (omega arith) e,
  lookup-insert a.key key (a.now + a.ttl) (reap_expired a.now s),
  eq_iff a.key key,
)

lookup-asks :
    (key : String) (expiry : ℕ) (l : List Ask) (s : Store)
    → All (λ a. a.now < expiry) l
    → lookup key s ≡ some expiry
    → lookup key (asks l s) ≡ some expiry
unfolding asks
lookup-asks key expiry [] s h e = e
lookup-asks key expiry (a ∷ l) s h e =
    lookup-asks key expiry l (seen a.key a.now a.ttl s).1 h.1 (lookup-seen key expiry a s h.0 e)

seen_of_live :
    (key : String) (now ttl expiry : ℕ) (s : Store)
    → now < expiry
    → lookup key s ≡ some expiry
    → (seen key now ttl s).0 ≡ true
unfolding seen
seen_of_live key now ttl expiry s h e =
    ground (arith, lookup-reap_expired key now expiry s (omega arith) e)

-- The first sight of a key in a store with room records it.
lookup-seen_first :
    (key : String) (now ttl : ℕ) (s : Store)
    → length s < max_keys
    → (seen key now ttl s).0 ≡ false
    → lookup key (seen key now ttl s).1 ≡ some (now + ttl)
unfolding seen
lookup-seen_first key now ttl s room h = ground (
  arith,
  length-reap_expired-le now s,
  eq_iff key key,
  lookup-insert key key (now + ttl) (reap_expired now s),
)

-- Once a store with room has accepted a key, every later call with that key before the end of its
-- TTL is reported as a duplicate, whatever calls with whatever keys other deliveries make in
-- between, as long as those come before the end of the TTL too.
pub seen-duplicate :
    (key : String) (t ttl now ttl' : ℕ) (l : List Ask) (s : Store)
    → length s < max_keys
    → (seen key t ttl s).0 ≡ false
    → All (λ a. a.now < t + ttl) l
    → now < t + ttl
    → (seen key now ttl' (asks l (seen key t ttl s).1)).0 ≡ true
seen-duplicate key t ttl now ttl' l s room fresh between h =
    seen_of_live key now ttl' (t + ttl) (asks l (seen key t ttl s).1) h (
      lookup-asks key (t + ttl) l (seen key t ttl s).1 between
        (lookup-seen_first key t ttl s room fresh))

length-seen :
    (a : Ask) (s : Store) → length s ≤ max_keys → length (seen a.key a.now a.ttl s).1 ≤ max_keys
unfolding seen
length-seen a s h = ground (
  arith,
  length-reap_expired-le a.now s,
  length-insert a.key (a.now + a.ttl) (reap_expired a.now s),
)

length-asks_from : (l : List Ask) (s : Store) → length s ≤ max_keys → length (asks l s) ≤ max_keys
unfolding asks
length-asks_from [] s h = h
length-asks_from (a ∷ l) s h = length-asks_from l (seen a.key a.now a.ttl s).1 (length-seen a s h)

-- The store never holds more than 100,000 keys, whatever calls it gets.
pub length-asks : (l : List Ask) → length (asks l []) ≤ max_keys
length-asks l = length-asks_from l [] (omega arith)
