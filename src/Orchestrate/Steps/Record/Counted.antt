-- ===== src/Orchestrate/Steps/Record/Counted.antt =====
-- The plan of a run counts the rows that the run writes.
use go_claude_teleport.Base.{ℕ, ◌+◌, Bool, true, false, List, [], ◌∷◌, ◌≡◌, refl, ap, ◌∙◌, if-both}
use go_claude_teleport.Orchestrate.Endpoint.{
  Reply, answer, remote_error, Side, source, destination, Hosts,
}
use go_claude_teleport.Orchestrate.Steps.{
  Plan, Event, recorded, cleaned, saved, State, Out, call, done, persist,
}
use go_claude_teleport.Orchestrate.Steps.Record.{clean_up, record_dst, run_record}

-- The rows written on a side, by the trace.
unfoldable pub rows : Side → List Event → ℕ
rows side [] = 0
rows source (recorded source ∷ es) = rows source es + 1
rows destination (recorded destination ∷ es) = rows destination es + 1
rows side (e ∷ es) = rows side es

abbrev pub row_of : Bool → ℕ
row_of true = 1
row_of false = 0

module _ (hosts : Hosts Plan) where
  open hosts use {World, record_history, cleanup, save_journal, journal_put}

  -- The plan knows of the rows, and there are no others.
  pub record IsCounted (s : State hosts) : Type 0 where
    pub on_source : rows source s.trace ≡ row_of s.plan.recorded_src
    pub on_destination : rows destination s.trace ≡ row_of s.plan.recorded_dst

  unfoldable pub Counted : Out hosts → Type 0
  Counted out = IsCounted out.1

  call-Counted :
      {A : Type 0} (s : State hosts) (event : A → Event) (r : Reply A × World)
      (next : A → State hosts → Out hosts)
      → IsCounted s
      → ((a : A) (w : World) → Counted (next a (record s { world = w; trace = event a ∷ s.trace })))
      → Counted (call hosts s event r next)
  unfolding Counted
  call-Counted s event (answer a, w) next h k = k a w
  call-Counted s event (remote_error c, w) next h k = record {
    on_source = h.on_source;
    on_destination = h.on_destination;
  }

  persist-Counted :
      (s : State hosts) (next : State hosts → Out hosts)
      → IsCounted s
      → ((s1 : State hosts) → s1.plan ≡ s.plan → IsCounted s1 → Counted (next s1))
      → Counted (persist hosts s next)
  unfolding persist rows
  persist-Counted s next h k =
      call-Counted s (λ u. saved) (save_journal s.plan s.world) _ h
        (λ u w1.
          call-Counted (record s { world = w1; trace = saved ∷ s.trace }) (λ u. saved)
            (journal_put source s.plan w1) _
            (record { on_source = h.on_source; on_destination = h.on_destination })
            (λ u w2.
              call-Counted (record s { world = w2; trace = saved ∷ saved ∷ s.trace }) (λ u. saved)
                (journal_put destination s.plan w2) _
                (record { on_source = h.on_source; on_destination = h.on_destination })
                (λ u w3.
                  k (record s { world = w3; trace = saved ∷ saved ∷ saved ∷ s.trace }) refl
                    (record { on_source = h.on_source; on_destination = h.on_destination }))))

  clean_up-Counted : (s : State hosts) → IsCounted s → Counted (clean_up hosts s)
  unfolding Counted rows
  clean_up-Counted s h =
      call-Counted s (λ u. cleaned destination) (cleanup destination s.world) _ h
        (λ u w.
          call-Counted (record s { world = w; trace = cleaned destination ∷ s.trace })
            (λ u. cleaned source) (cleanup source w) (done hosts)
            (record { on_source = h.on_source; on_destination = h.on_destination })
            (λ u w1. record { on_source = h.on_source; on_destination = h.on_destination }))

  record_dst-Counted : (s : State hosts) → IsCounted s → Counted (record_dst hosts s)
  unfolding rows
  record_dst-Counted s h =
      if-both Counted s.plan.recorded_dst (clean_up hosts s) _ (λ e. clean_up-Counted s h)
        (λ e.
          call-Counted s (λ u. recorded destination) (record_history destination s.world) _ h
            (λ u w.
              persist-Counted
                (record s {
                  world = w;
                  trace = recorded destination ∷ s.trace;
                  plan = record s.plan { recorded_dst = true };
                })
                (clean_up hosts)
                (record {
                  on_source = h.on_source;
                  on_destination = ap (λ n. n + 1) (h.on_destination ∙ ap row_of e);
                })
                (λ s1 q h1. clean_up-Counted s1 h1)))

  pub run_record-Counted : (s : State hosts) → IsCounted s → Counted (run_record hosts s)
  unfolding run_record rows
  run_record-Counted s h =
      if-both Counted s.plan.recorded_src (record_dst hosts s) _ (λ e. record_dst-Counted s h)
        (λ e.
          call-Counted s (λ u. recorded source) (record_history source s.world) _ h
            (λ u w.
              persist-Counted
                (record s {
                  world = w;
                  trace = recorded source ∷ s.trace;
                  plan = record s.plan { recorded_src = true };
                })
                (record_dst hosts)
                (record {
                  on_source = ap (λ n. n + 1) (h.on_source ∙ ap row_of e);
                  on_destination = h.on_destination;
                })
                (λ s1 q h1. record_dst-Counted s1 h1)))
