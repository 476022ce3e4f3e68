-- ===== src/Engine/Locks/Restore.antt =====
-- Releasing the locks of a turn gives back the locks it found
-- (internal/implementation/orchestrator/pipeline_step_lock.go, pipeline_step_enrichment.go).
use eywa.Prelude.{
  ◌≡◌, refl, ◌∙◌, subst, true, false, ◌||◌, ◌&&◌, Option, none, some, List, [], ◌∷◌, ◌++◌, String,
  str_eq, eq_iff, if◌then◌else◌, contains, arith,
}
use eywa.Pipeline.{ok, state_of}
use eywa.Stores.Bond.{
  Locks, held, release_lock, held-acquire_lock, held-release_lock, acquired-free,
}
use eywa.Engine.State.{ProcessingState, World, Turn, Env, Scout}
use eywa.Engine.Admission.{lock_acquisition, lock_release, release_all, push_inbox, lock_name}
use eywa.Engine.Routing.{link_scout, scout_by, scout_named, lock_moved, run_scouts, set_event}
use eywa.Engine.Locks.{LockView, lock_view}

contains-append :
    (js : List String) (i k : String) → contains (js ++ i ∷ []) k ≡ (contains js k || str_eq i k)
contains-append [] i k = ground arith
contains-append (j ∷ js) i k = ground (arith, contains-append js i k)

held-release_all :
    (ks : List String) (locks : Locks) (j : String)
    → held (release_all ks locks) j ≡ (if contains ks j then false else held locks j)
unfolding release_all
held-release_all [] locks j = refl
held-release_all (k ∷ ks) locks j =
    ground (arith, held-release_all ks (release_lock k locks) j, held-release_lock k j locks)

-- The locks that the cleanup of runProcessingPipeline leaves.
unfoldable pub cleaned : LockView → Locks
cleaned v =
    if v.lock_acquired
    then release_all v.additional_locks (release_lock v.lock_key v.locks)
    else v.locks

pub cleaned-lock_release :
    (t : Turn) → (state_of (lock_release t)).world.locks ≡ cleaned (lock_view t)
unfolding lock_release cleaned
cleaned-lock_release t = ground arith

-- Once cleaned, every key is held exactly where it was in `before`.
abbrev pub Restores : Locks → LockView → Type 0
Restores before v = (j : String) → held (cleaned v) j ≡ held before j

-- A turn that holds no lock yet.
unfoldable pub IsFree : Locks → LockView → Type 0
IsFree before v = (v.lock_acquired ≡ false) × (v.additional_locks ≡ []) × Restores before v

-- A turn whose session lock is taken.
unfoldable pub IsLocked : Locks → LockView → Type 0
IsLocked before v = (v.lock_acquired ≡ true) × Restores before v

pub held-cleaned :
    (v : LockView) (j : String)
    → held (cleaned v) j ≡ (
        if v.lock_acquired && (str_eq v.lock_key j || contains v.additional_locks j)
        then false
        else held v.locks j)
unfolding cleaned
held-cleaned v j = ground (
  arith,
  held-release_all v.additional_locks (release_lock v.lock_key v.locks) j,
  held-release_lock v.lock_key j v.locks,
)

module _ (env : Env) (before : Locks) where
  locks-push_inbox : (s : ProcessingState) (w : World) → (push_inbox env s w).locks ≡ w.locks
  unfolding push_inbox
  locks-push_inbox s w = ground arith

  pub lock_acquisition-Restores :
      (t : Turn)
      → IsFree before (lock_view t)
      → Restores before (lock_view (state_of (lock_acquisition env t)))
  unfolding lock_acquisition IsFree
  lock_acquisition-Restores t h j =
      let k = lock_name t.state.event.memory_key in
      let l = t.world.locks in
      ground (
        arith,
        h.2 j,
        locks-push_inbox t.state t.world,
        held-acquire_lock k j l,
        acquired-free k l,
        eq_iff k j,
        held-cleaned (lock_view t) j,
        held-cleaned (lock_view (state_of (lock_acquisition env t))) j,
      )

  pub lock_acquisition-IsLocked :
      (t t' : Turn)
      → IsFree before (lock_view t)
      → lock_acquisition env t ≡ ok t'
      → IsLocked before (lock_view t')
  unfolding lock_acquisition IsLocked
  lock_acquisition-IsLocked t t' h e = (
    ground (arith, e),
    λ j. subst (λ o. Restores before (lock_view (state_of o))) e (lock_acquisition-Restores t h) j,
  )

  lock_moved-Restores :
      (original : String) (t : Turn)
      → IsLocked before (lock_view t)
      → Restores before (lock_view (state_of (lock_moved original t)))
  unfolding lock_moved IsLocked
  lock_moved-Restores original t h j =
      let k = lock_name t.state.event.memory_key in
      let l = t.world.locks in
      let t' = state_of (lock_moved original t) in
      ground (
        arith,
        h.1 j,
        held-acquire_lock k j l,
        acquired-free k l,
        eq_iff k j,
        contains-append t.state.additional_locks k j,
        held-cleaned (lock_view t) j,
        held-cleaned (lock_view t') j,
      )

  acquired-lock_moved :
      (original : String) (t : Turn)
      → (state_of (lock_moved original t)).state.lock_acquired ≡ t.state.lock_acquired
  unfolding lock_moved
  acquired-lock_moved original t = ground arith

  lock_moved-IsLocked :
      (original : String) (t : Turn)
      → IsLocked before (lock_view t)
      → IsLocked before (lock_view (state_of (lock_moved original t)))
  unfolding IsLocked
  lock_moved-IsLocked original t h =
      (acquired-lock_moved original t ∙ h.0, lock_moved-Restores original t h)

  scout_by-IsLocked :
      (o : Option (List Scout)) (t : Turn)
      → IsLocked before (lock_view t)
      → IsLocked before (lock_view (state_of (scout_by env o t)))
  unfolding scout_by
  scout_by-IsLocked none t h = h
  scout_by-IsLocked (some scouts) t h =
      lock_moved-IsLocked t.state.event.memory_key (set_event (run_scouts scouts t.state.event) t) h

  scout_named-IsLocked :
      (names : List String) (t : Turn)
      → IsLocked before (lock_view t)
      → IsLocked before (lock_view (state_of (scout_named env names t)))
  unfolding scout_named
  scout_named-IsLocked [] t h = h
  scout_named-IsLocked (n ∷ ns) t h = scout_by-IsLocked (env.get_scouts (n ∷ ns)) t h

  pub link_scout-IsLocked :
      (t : Turn)
      → IsLocked before (lock_view t)
      → IsLocked before (lock_view (state_of (link_scout env t)))
  unfolding link_scout
  link_scout-IsLocked t h = scout_named-IsLocked t.state.event_config.require_scouts t h
