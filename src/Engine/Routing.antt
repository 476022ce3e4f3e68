-- ===== src/Engine/Routing.antt =====
-- The steps that enrich a Pulse and choose its Spirit (internal/implementation/orchestrator): scouts,
-- selection, loading, the routing of an orchestrator, and the choice of a model.
use Prim.Native.String.{len}
use package.text.Mathlib.Text.{starts_with}
use eywa.Prelude.{
  Bool, not, ◌&&◌, ◌||◌, Option, none, some, List, [], ◌∷◌, ◌++◌, String, str_eq, is_empty, length,
  ltb, leb, if◌then◌else◌,
}
use eywa.Prelude.Int.{le_zero, pos_part}
use eywa.Prelude.Maps.{get}
use eywa.Errors.{err_scout_failed, err_spirit_not_found, err_lock_acquisition_failed, plain}
use eywa.Pipeline.{Outcome, ok, fail}
use eywa.Entities.Value.{Value, text}
use eywa.Entities.Pulse.{Pulse}
use eywa.Entities.Link.{Link}
use eywa.Entities.Spirit.{Spirit, SpiritModel, is_conversational, is_orchestrator}
use eywa.Stores.Bond.{Acquired, acquired, busy, failed, acquire_lock, Locks}
use eywa.Stores.Handoff.{get_active_spirit}
use eywa.Engine.State.{Turn, Env, Scout, RoutingCondition, RoutingRule}
use eywa.Engine.Admission.{lock_name}

-- A Scout that does not apply is skipped; its error is logged only.
unfoldable pub run_scout : Scout → Pulse → Pulse
run_scout scout e = if scout.is_applicable e then scout.harvest e else e

unfoldable pub run_scouts : List Scout → Pulse → Pulse
unfolding run_scout
run_scouts [] e = e
run_scouts (s ∷ ss) e = run_scouts ss (run_scout s e)

abbrev pub set_event : Pulse → Turn → Turn
set_event e t = record t { state = record (t.state) { event = e } }

-- A scout that moved the Pulse to another session: that session's lock is taken too.
take_additional : Acquired → String → Locks → Turn → Outcome Turn
take_additional acquired key locks t = ok (record {
  state = record (t.state) { additional_locks = t.state.additional_locks ++ key ∷ [] };
  world = record (t.world) { locks = locks };
})
take_additional busy key locks t =
    fail (err_lock_acquisition_failed none)
      (record t { world = record (t.world) { locks = locks } })
take_additional failed key locks t =
    fail (err_lock_acquisition_failed (some plain))
      (record t { world = record (t.world) { locks = locks } })

unfoldable pub lock_moved : String → Turn → Outcome Turn
unfolding take_additional
lock_moved original t =
    let key = lock_name t.state.event.memory_key in
    let (answer, locks) = acquire_lock key t.world.locks in
    if str_eq t.state.event.memory_key original then ok t else take_additional answer key locks t

abbrev first_spirit : List String → String
first_spirit [] = ""
first_spirit (s ∷ ss) = s

abbrev default_or : String → String → String
default_or d s = if is_empty d then s else d

module _ (env : Env) where
  unfoldable pub scout_by : Option (List Scout) → Turn → Outcome Turn
  unfolding lock_moved run_scouts
  scout_by none t = fail (err_scout_failed plain) t
  scout_by (some scouts) t =
      lock_moved t.state.event.memory_key (set_event (run_scouts scouts t.state.event) t)

  unfoldable pub scout_named : List String → Turn → Outcome Turn
  unfolding scout_by
  scout_named [] t = ok t
  scout_named (n ∷ ns) t = scout_by (env.get_scouts (n ∷ ns)) t

  unfoldable pub link_scout : Turn → Outcome Turn
  unfolding scout_named
  link_scout t = scout_named t.state.event_config.require_scouts t

  enrich : Spirit → Pulse → Pulse
  enrich sp e =
      let e1 : Pulse = (elim sp.lore_ids [
        | [] ↦ e
        | l ∷ ls ↦ if env.config.has_lore then env.harvest_lore (l ∷ ls) e else e
      ]) in
      if env.config.has_imprint && (is_conversational sp || is_orchestrator sp)
      then env.harvest_imprint sp.name e1
      else e1

  unfoldable pub spirit_scout : Turn → Outcome Turn
  unfolding enrich run_scouts
  spirit_scout t = elim t.state.spirit [
    | none ↦ ok t
    | some sp ↦ elim sp.require_scouts [
      | [] ↦ ok (set_event (enrich sp t.state.event) t)
      | n ∷ ns ↦ elim (env.get_scouts (n ∷ ns)) [
        | none ↦ fail (err_scout_failed plain) t
        | some scouts ↦ ok (set_event (enrich sp (run_scouts scouts t.state.event)) t)
      ]
    ]
  ]

  -- The Pathfinder of the Link, else the default one, if any is registered.
  unfoldable pub pathfinder_for : String → Option (Pulse → List String → String)
  pathfinder_for name =
      let fallback = env.get_pathfinder "default_llm_pathfinder" in
      if is_empty name
      then fallback
      else (elim (env.get_pathfinder name) [ none ↦ fallback | some p ↦ some p ])

  -- The Spirit that selectSpirit picks among two or more.
  unfoldable pub choose : Pulse → Link → String
  unfolding pathfinder_for
  choose e l = elim (pathfinder_for l.pathfinder_name) [
    | none ↦ default_or l.default_spirit (first_spirit l.allowed_spirits)
    | some p ↦
        let picked = p e l.allowed_spirits in
        if is_empty picked
        then default_or l.default_spirit (first_spirit l.allowed_spirits)
        else picked
  ]

  unfoldable pub select_spirit : Pulse → Link → String
  unfolding choose
  select_spirit e l = elim l.allowed_spirits [
    | [] ↦ default_or l.default_spirit "DEFAULT"
    | s ∷ rest ↦ elim rest [ [] ↦ s | s' ∷ rest' ↦ choose e l ]
  ]

  -- A prior handoff pins the Spirit of the session.
  unfoldable pub spirit_selection : Turn → Outcome Turn
  unfolding select_spirit
  spirit_selection t =
      let pinned = get_active_spirit t.state.event.memory_key t.world.pins in
      let l = t.state.event_config in
      if env.config.has_handoff && not (is_empty pinned)
      then ok (record t {
        state = record (t.state) { spirit_name = pinned; pathfinder_used = "handoff" };
      })
      else ok (record t {
        state = record (t.state) {
          spirit_name = select_spirit t.state.event l;
          pathfinder_used = l.pathfinder_name;
        };
      })

  unfoldable pub spirit_load : Turn → Outcome Turn
  spirit_load t = elim (env.find_spirit t.state.spirit_name t.world) [
    | none ↦ fail (err_spirit_not_found plain) t
    | some sp ↦ ok (record t { state = record (t.state) { spirit = some sp } })
  ]

  route_to : String → Turn → Outcome Turn
  route_to name t = elim (env.find_spirit name t.world) [
    | none ↦ ok t
    | some sp ↦ ok (record t { state = record (t.state) { spirit = some sp; spirit_name = name } })
  ]

  route_by : String → Turn → Outcome Turn
  unfolding route_to
  route_by router t = elim (env.get_logic_router router) [
    | none ↦ ok t
    | some route ↦ let name = route t.state.event in if is_empty name then ok t else route_to name t
  ]

  unfoldable pub orchestrator_routing : Turn → Outcome Turn
  unfolding route_by
  orchestrator_routing t = elim t.state.spirit [
    | none ↦ ok t
    | some sp ↦
        let router = sp.orchestrator_config.logic_router_name in
        if is_orchestrator sp
          && str_eq sp.orchestrator_config.mode "logic"
          && env.config.has_logic_routers
          && not (is_empty router)
        then route_by router t
        else ok t
  ]

-- `v != nil && v.(string) == s`; a missing or a non-text value reads as "".
abbrev text_is : String → Option Value → Bool
text_is s (some (text v)) = str_eq v s
text_is s _ = is_empty s

unfoldable pub matches_routing_condition : RoutingCondition → Pulse → Bool
matches_routing_condition c e =
    (le_zero c.input_length_gte || leb (pos_part c.input_length_gte) (len e.user_message))
    && (le_zero c.input_length_lt || ltb (len e.user_message) (pos_part c.input_length_lt))
    && (not c.has_attachments || ltb 0 (length e.attachments))
    && (is_empty c.event_type || str_eq e.event_type c.event_type)
    && (is_empty c.topic_prefix || starts_with e.subject_key c.topic_prefix)
    && (is_empty c.user_tier || text_is c.user_tier (get e.knowledge "user_tier"))

-- The first rule that matches gives the model.
unfoldable pub route_model : List RoutingRule → Pulse → SpiritModel → SpiritModel
route_model [] e m = m
route_model (r ∷ rs) e m =
    let rest = route_model rs e m in
    if matches_routing_condition r.condition e then r.model else rest

unfoldable pub model_routing : Env → Turn → Outcome Turn
unfolding route_model
model_routing env t = elim t.state.spirit [
  | none ↦ ok t
  | some sp ↦
      let m = route_model env.config.routing_rules t.state.event sp.model_config in
      ok (record t { state = record (t.state) { spirit = some (record sp { model_config = m }) } })
]
