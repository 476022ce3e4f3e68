-- ===== src/Reasoning/Stall.antt =====
-- stallTracker (internal/implementation/orchestrator/progress_stall.go). A call stands as its signature,
-- the hash of its name and arguments, which is outside the model.
pub mod Laws
use eywa.Prelude.{
  ℕ, zero, suc, ◌+◌, Bool, true, false, not, ◌||◌, List, [], ◌∷◌, String, contains, leb,
  if◌then◌else◌,
}
use eywa.Prelude.Int.{ℤ, le_zero, pos_part}

-- `seen` lists the keys of the map, each of which maps to true.
pub record StallTracker : Type 0 where
  pub window : ℤ
  pub seen : List String
  pub streak : ℕ

unfoldable pub new_stall_tracker : ℤ → StallTracker
new_stall_tracker window = record { window = window; seen = []; streak = 0 }

-- The loop over the calls: the signatures seen after it, and whether one was new.
unfoldable pub note_calls : List String → List String → List String × Bool
note_calls [] seen = (seen, false)
note_calls (sig ∷ sigs) seen =
    let after_first : List String = (if contains seen sig then seen else sig ∷ seen) in
    let rest = note_calls sigs after_first in (rest.0, not (contains seen sig) || rest.1)

unfoldable pub observe : List String → StallTracker → Bool × StallTracker
unfolding note_calls
observe sigs s =
    let noted = note_calls sigs s.seen in
    if le_zero s.window
    then (false, s)
    else if noted.1
    then (false, record s { seen = noted.0; streak = 0 })
    else (
      leb (pos_part s.window) (suc s.streak),
      record s { seen = noted.0; streak = suc s.streak },
    )

-- Whether the loop gets through these iterations without a stall.
unfoldable pub survives : List (List String) → StallTracker → Bool
unfolding observe
survives [] s = true
survives (sigs ∷ rounds) s =
    let rest = survives rounds (observe sigs s).1 in if (observe sigs s).0 then false else rest
