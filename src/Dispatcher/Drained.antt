-- ===== src/Dispatcher/Drained.antt =====
-- cassandra-operator/pkg/dispatcher/dispatcher.go: what a dispatcher that is left alone comes to.
use cassandra_operator.Base.{
  ℕ, zero, suc, ◌≤◌, String, ◌≡◌, ◌≢◌, refl, ap, ◌∙◌, ◌⊎◌, [], ◌∷◌, ==_iff, true, false, none, some,
  List, ◌++◌, arith, inl, inr, Option-cases,
}
use cassandra_operator.Base.Assoc.{Assoc, lookup}
use cassandra_operator.Dispatcher.{
  Event, Dispatcher, Observed, Step, calls, locks, sends, receives, finishes, returns, closes,
  stops, open_channel, with_worker, send, push, Run, continues,
}
use mathlib.Core.List.{append-nil}
use cassandra_operator.Dispatcher.Order.{or_nothing, buffered, events_for, Run-Ordered}
use cassandra_operator.Dispatcher.Drain.{is_work, work_left, work_left-step, Works, rests, works}
use cassandra_operator.Dispatcher.Settled.{CanWork, Settled, Run-progress}

module _ {ℓ} {D : Type ℓ} where
  open_channel-running :
      (k : String) (d : Dispatcher D) → (open_channel k d).stop_closed ≡ d.stop_closed
  unfolding open_channel with_worker
  open_channel-running k d = elim (Option-cases (lookup k d.channels)) [
    | inl absent ↦ ground (arith, absent)
    | inr present ↦ ground (arith, present.1)
  ]

  send-running :
      (d d' : Dispatcher D) (e : Event D)
      → d.holder ≡ some e
      → send d ≡ some d'
      → d'.stop_closed ≡ d.stop_closed
  unfolding send push
  send-running d d' e h s = elim (Option-cases (lookup e.key d.channels)) [
    | inl absent ↦ ground (arith, absent, h, s)
    | inr present ↦ ground (arith, present.1, h, s)
  ]

  -- Work neither closes nor opens the stop channel.
  Step-running :
      {d d' : Dispatcher D} {o : Observed D} (st : Step d o d')
      → is_work st ≡ true
      → d'.stop_closed ≡ d.stop_closed
  unfolding is_work
  Step-running (calls e) w = absurd (ground (arith, w))
  Step-running {d = d} (locks {e = e} {rest = rest} free t) w =
      open_channel-running e.key (record d { callers = rest; holder = some e })
  Step-running {d = d} {d' = d'} (sends {e = e} h s) w = send-running d d' e h s
  Step-running (receives found r) w = refl
  Step-running (finishes r) w = refl
  Step-running (returns stop r) w = refl
  Step-running closes w = absurd (ground (arith, w))
  Step-running (stops stop) w = absurd (ground (arith, w))

  -- A key whose channel holds an event.
  record Pending (m : Assoc (List (Event D))) : Type ℓ where
    key : String
    event : Event D
    events : List (Event D)
    present : or_nothing (lookup key m) ≡ event ∷ events

  look_at :
      (k : String) (m : Assoc (List (Event D))) (es : List (Event D))
      → or_nothing (lookup k m) ≡ es
      → Pending m ⊎ (or_nothing (lookup k m) ≡ [])
  look_at k m [] h = inr h
  look_at k m (e ∷ es) h = inl (record { key = k; event = e; events = es; present = h })

  -- The keys of a first table are looked up in a second one.
  look_through :
      (ks m : Assoc (List (Event D)))
      → Pending m ⊎ ((k : String) → lookup k ks ≢ none → or_nothing (lookup k m) ≡ [])
  unfolding lookup
  look_through [] m = inr (λ k h. absurd (h refl))
  look_through (entry ∷ ks) m = elim (look_at entry.0 m (or_nothing (lookup entry.0 m)) refl) [
    | inl found ↦ inl found
    | inr empty ↦ elim (look_through ks m) [
      | inl found ↦ inl found
      | inr rest ↦ inr (λ k h. ground (arith, empty, ==_iff entry.0 k, rest k, h))
    ]
  ]

  channels_empty :
      (m : Assoc (List (Event D))) → Pending m ⊎ ((k : String) → or_nothing (lookup k m) ≡ [])
  unfolding or_nothing
  channels_empty m = elim (look_through m m) [
    | inl found ↦ inl found
    | inr rest ↦ inr (λ k. ground (arith, rest k))
  ]

  -- In every state that a run reaches before the stop channel is closed, some step of a waiting caller
  -- or of a worker is possible, or everything is settled.
  can_go_on_or_done :
      {d : Dispatcher D} {s b : List (Event D)}
      → Run d s b
      → d.stop_closed ≡ false
      → CanWork d ⊎ ((k : String) → Settled d k s b)
  unfolding buffered
  can_go_on_or_done {d = d} {s = s} {b = b} run running = elim (channels_empty d.channels) [
    | inl found ↦ elim (Run-progress run running found.key) [
      | inl can ↦ inl can
      | inr done ↦ absurd (ground (arith, done.channel, found.present))
    ]
    | inr empty ↦ elim (Run-progress run running "") [
      | inl can ↦ inl can
      | inr done ↦ inr (λ k. record {
        callers = done.callers;
        holder = done.holder;
        idle = done.idle;
        channel = empty k;
        begun =
            (Run-Ordered run k).in_order
            ∙ ap (λ l. events_for k b ++ l) (empty k)
            ∙ append-nil (events_for k b);
      })
    ]
  ]

  -- Some steps of waiting callers and of workers lead to a state in which everything is settled.
  pub record Drained (d : Dispatcher D) : Type ℓ where
    pub steps : ℕ
    pub last : Dispatcher D
    pub sent_events : List (Event D)
    pub begun_events : List (Event D)
    pub work : Works d steps last
    pub reached : Run last sent_events begun_events
    pub settled : (k : String) → Settled last k sent_events begun_events

  run_down :
      (n : ℕ) {d : Dispatcher D} {s b : List (Event D)}
      → work_left d ≤ n
      → Run d s b
      → d.stop_closed ≡ false
      → Drained d
  run_down zero bound run running = elim (can_go_on_or_done run running) [
    | inl can ↦ absurd (omega (arith, bound, work_left-step can.step can.is_one))
    | inr done ↦ record {
      steps = 0;
      last = _;
      sent_events = _;
      begun_events = _;
      work = rests;
      reached = run;
      settled = done;
    }
  ]
  run_down (suc n) bound run running = elim (can_go_on_or_done run running) [
    | inl can ↦
        let rest =
          run_down n (omega (arith, bound, work_left-step can.step can.is_one))
            (continues run can.step) (Step-running can.step can.is_one ∙ running) in
        record {
          steps = suc rest.steps;
          last = rest.last;
          sent_events = rest.sent_events;
          begun_events = rest.begun_events;
          work = works can.step can.is_one rest.work;
          reached = rest.reached;
          settled = rest.settled;
        }
    | inr done ↦ record {
      steps = 0;
      last = _;
      sent_events = _;
      begun_events = _;
      work = rests;
      reached = run;
      settled = done;
    }
  ]

  -- From every state that a run reaches before the stop channel is closed, finitely many steps of the
  -- waiting callers and of the workers lead to a state in which nobody waits to send, every channel is
  -- empty, no handler is running, and every event that was sent has been handled.
  pub Run-Drained :
      {d : Dispatcher D} {s b : List (Event D)} → Run d s b → d.stop_closed ≡ false → Drained d
  Run-Drained {d = d} run running = run_down (work_left d) (omega arith) run running
