-- ===== src/Orchestrate/Steps/Record.antt =====
-- The step `record` (internal/orchestrate/steps.go, `runRecord`).
pub mod Once
pub mod Counted
use go_claude_teleport.Base.{Bool, true, false, Option, none, some, List, [], ◌∷◌, if◌then◌else◌}
use go_claude_teleport.Orchestrate.Endpoint.{Reply, Side, source, destination, Hosts}
use go_claude_teleport.Orchestrate.Steps.{Plan, recorded, cleaned, State, Out, call, done, persist}

module _ (hosts : Hosts Plan) where
  open hosts use {World, record_history, cleanup}

  abbrev pub clean_up : State hosts → Out hosts
  clean_up s =
      call hosts s (λ u. cleaned destination) (cleanup destination s.world)
        (λ u s1. call hosts s1 (λ u. cleaned source) (cleanup source s1.world) (done hosts))

  abbrev pub record_dst : State hosts → Out hosts
  record_dst s =
      if s.plan.recorded_dst
      then clean_up s
      else call hosts s (λ u. recorded destination) (record_history destination s.world)
          (λ u s1.
            persist hosts (record s1 { plan = record s1.plan { recorded_dst = true } }) clean_up)

  -- `runRecord`.
  unfoldable pub run_record : State hosts → Out hosts
  unfolding persist
  run_record s =
      if s.plan.recorded_src
      then record_dst s
      else call hosts s (λ u. recorded source) (record_history source s.world)
          (λ u s1.
            persist hosts (record s1 { plan = record s1.plan { recorded_src = true } }) record_dst)
