-- ===== src/Reasoning/Transfer.antt =====
-- HandoffService: the transfer of a conversation to a peer Spirit
-- (internal/implementation/orchestrator/handoff_service.go).
use eywa.Prelude.{
  str_eq, ℕ, suc, ◌+◌, ◌≡◌, ◌≤◌, ◌<◌, refl, subst, ◌∙◌, inl, inr, Option-cases, Bool-cases, not,
  Option, none, some, List, [], ◌∷◌, String, concat, contains, leb, length, All, if◌then◌else◌,
  arith,
}
use eywa.Prelude.Int.{positive_or}
use eywa.Prelude.Maps.{put_all}
use eywa.Entities.Memory.{Memory, Thread}
use eywa.Entities.Pulse.{Pulse}
use eywa.Entities.Spirit.{Spirit, HandoffConfig}
use eywa.Engine.State.{Scout}
use eywa.Engine.Routing.{run_scout, run_scouts}

abbrev pub default_max_handoffs : ℕ
default_max_handoffs = 3

pub data HandoffError : Type 0 where
  not_allowed limit_reached spirit_not_found pin_failed reasoning_failed : HandoffError

unfoldable pub max_handoffs_of : HandoffConfig → ℕ
max_handoffs_of c = positive_or c.max_handoffs default_max_handoffs

unfoldable pub validate_handoff : String → Pulse → Spirit → Option HandoffError
unfolding max_handoffs_of
validate_handoff target parent sp =
    if not (contains sp.handoff_config.allowed_targets target)
    then some not_allowed
    else if leb (max_handoffs_of sp.handoff_config) parent.handoff_count
    then some limit_reached
    else none

-- The fields that the literal leaves out are Go's zero values; Knowledge is a copy.
unfoldable pub build_child_pulse : Pulse → Pulse
build_child_pulse parent = record {
  id = "";
  memory_key = parent.memory_key;
  timestamp = 0;
  user_message = parent.user_message;
  contact_phone = parent.contact_phone;
  source = parent.source;
  sub_type = "";
  event_type = parent.event_type;
  idempotency_key = "";
  attachments = parent.attachments;
  payload = none;
  subject_key = "";
  metadata = none;
  knowledge = put_all parent.knowledge (some []);
  parent_pulse_id = parent.id;
  orchestration_depth = 0;
  handoff_count = suc parent.handoff_count;
}

-- The archivist's answer to a request for a summary: none is an error.
abbrev pub Summarize : Type 0
Summarize = Memory → Option String

abbrev fresh_memory : String → String → Memory
fresh_memory memory_key subject_key = record {
  memory_key = memory_key;
  subject_key = subject_key;
  threads = [];
  summary = "";
  topic_facts = none;
}

-- What the target inherits: a session, the messages so far, and a text for its prompt.
pub record Inheritance : Type 0 where
  pub session : Option Memory
  pub messages : List Thread
  pub addendum : String

by_summary : Option Memory → List Thread → Option Summarize → Inheritance
by_summary (some m) messages (some summarize) = elim m.threads [
  | [] ↦ record { session = some m; messages = messages; addendum = "" }
  | t ∷ ts ↦ elim (summarize m) [
    | none ↦ record { session = some m; messages = messages; addendum = "" }
    | some summary ↦ record {
      session = some (fresh_memory m.memory_key m.subject_key);
      messages = [];
      addendum = concat "\n\nEarlier conversation summary:\n" summary;
    }
  ]
]
by_summary session messages archivist = record {
  session = session;
  messages = messages;
  addendum = "";
}

unfoldable pub transfer_context :
    String → Option Memory → List Thread → Option Summarize → Inheritance
unfolding by_summary
transfer_context mode session messages archivist =
    if str_eq mode "session"
    then record { session = session; messages = messages; addendum = "" }
    else if str_eq mode "summary"
    then by_summary session messages archivist
    else record { session = some (fresh_memory "" ""); messages = []; addendum = "" }

-- A transfer: the target, the Spirit that transfers, and the scouts that the target requires.
pub record Transfer : Type 0 where
  pub target : String
  pub spirit : Spirit
  pub scouts : List Scout

-- Successive transfers of one turn: each target answers on the child Pulse, once its scouts have run on
-- it, and may transfer on.
unfoldable pub transfers : List Transfer → Pulse → Option Pulse
transfers [] e = some e
transfers (hop ∷ hops) e =
    let rest = transfers hops (run_scouts hop.scouts (build_child_pulse e)) in
    elim (validate_handoff hop.target e hop.spirit) [ none ↦ rest | some x ↦ none ]

-- The documented part of Scout.Harvest: it adds to the Knowledge. So it leaves a count of the Pulse alone.
abbrev pub Leaves : (Pulse → ℕ) → Scout → Type 0
Leaves count scout = (e : Pulse) → count (scout.harvest e) ≡ count e

run_scout-Leaves :
    (count : Pulse → ℕ) (scout : Scout) (e : Pulse)
    → Leaves count scout
    → count (run_scout scout e) ≡ count e
unfolding run_scout
run_scout-Leaves count scout e h = elim (Bool-cases (scout.is_applicable e)) [
  | inl b ↦ rw b (h e)
  | inr b ↦ rw b
]

pub run_scouts-Leaves :
    (count : Pulse → ℕ) (scouts : List Scout) (e : Pulse)
    → All (Leaves count) scouts
    → count (run_scouts scouts e) ≡ count e
unfolding run_scouts
run_scouts-Leaves count [] e h = refl
run_scouts-Leaves count (scout ∷ scouts) e (h, hs) =
    run_scouts-Leaves count scouts (run_scout scout e) hs ∙ run_scout-Leaves count scout e h

validate_handoff-lt :
    (target : String) (e : Pulse) (sp : Spirit)
    → validate_handoff target e sp ≡ none
    → e.handoff_count < max_handoffs_of sp.handoff_config
unfolding validate_handoff
validate_handoff-lt target e sp h = ground arith

-- A chain of transfers that is let through, with scouts that leave the count of handoffs alone, counts
-- its hops and never goes beyond the largest limit of the Spirits that transfer.
pub transfers-bounded :
    (hops : List Transfer) (e e' : Pulse) (limit : ℕ)
    → All
        (λ (hop : Transfer).
          (max_handoffs_of hop.spirit.handoff_config ≤ limit)
          × All (Leaves (λ (x : Pulse). x.handoff_count)) hop.scouts)
        hops
    → e.handoff_count ≤ limit
    → transfers hops e ≡ some e'
    → (e'.handoff_count ≡ e.handoff_count + length hops) × (e'.handoff_count ≤ limit)
unfolding transfers build_child_pulse
transfers-bounded [] e e' limit a l h =
    let p : e ≡ e' = cc h in
    subst (λ (x : Pulse). (x.handoff_count ≡ e.handoff_count + 0) × (x.handoff_count ≤ limit)) p
      (omega arith, l)
transfers-bounded (hop ∷ hops) e e' limit ((al, modest), a) l h =
    elim (Option-cases (validate_handoff hop.target e hop.spirit)) [
      | inl v ↦
          let child = run_scouts hop.scouts (build_child_pulse e) in
          let on : transfers hops child ≡ some e' =
            subst (λ o. (elim o [ none ↦ transfers hops child | some x ↦ none ]) ≡ some e') v h in
          let below = validate_handoff-lt hop.target e hop.spirit v in
          let counted : child.handoff_count ≡ suc e.handoff_count =
            run_scouts-Leaves (λ (x : Pulse). x.handoff_count) hop.scouts (build_child_pulse e)
              modest in
          let (count, inside) =
            transfers-bounded hops child e' limit a (omega (arith, counted, below, al)) on in
          (omega (arith, count, counted), inside)
      | inr (x, v) ↦
          let child = run_scouts hop.scouts (build_child_pulse e) in
          let lost : ◌≡◌ {A = Option Pulse} none (some e') =
            subst (λ o. (elim o [ none ↦ transfers hops child | some x ↦ none ]) ≡ some e') v h in
          cc
    ]
