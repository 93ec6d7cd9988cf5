-- ===== src/Dispatcher/Settled.antt =====
-- cassandra-operator/pkg/dispatcher/dispatcher.go: when a caller or a worker can go on, and when all is
-- settled.
use cassandra_operator.Base.{
  String, ◌==◌, ==_iff, ◌≡◌, ◌≢◌, refl, sym, ap, ◌∙◌, ◌⊎◌, inl, inr, Bool, true, false, Option,
  none, some, List, [], ◌∷◌, ◌++◌, arith, Option-cases, Bool-cases, not, ◌&&◌,
}
use mathlib.Core.Path.{subst}
use mathlib.Core.List.{append-nil}
use cassandra_operator.Base.Assoc.{lookup, insert}
use cassandra_operator.Dispatcher.{
  Event, Worker, Activity, selecting, handling, returned, Dispatcher, Observed, sent, push, send,
  Replaced, here, there, Taken, first, Step, locks, sends, receives, finishes, Run,
}
use cassandra_operator.Dispatcher.Order.{
  events_for, or_nothing, buffered, workers_for, Ordered, Run-Ordered,
}
use cassandra_operator.Dispatcher.Drain.{is_work}
use cassandra_operator.Dispatcher.Progress.{
  is_handling, is_returned, none_returned, is_open, has_channel, Open, Run-Open,
}

module _ {ℓ} {D : Type ℓ} where
  -- No worker is inside the handler.
  unfoldable pub no_handling : List (Worker D) → Bool
  unfolding is_handling
  no_handling [] = true
  no_handling (w ∷ ws) = not (is_handling w.activity) && no_handling ws

  -- A worker that is inside the handler, and the workers once it has finished.
  record Busy (ws : List (Worker D)) : Type ℓ where
    key : String
    event : Event D
    after : List (Worker D)
    done :
        Replaced
          (record { key = key; activity = handling event })
          (record { key = key; activity = selecting })
          ws
          after

  handling_first :
      (k : String) (a : Activity D) (ws : List (Worker D))
      → Busy ws ⊎ (no_handling ws ≡ true)
      → Busy (record { key = k; activity = a } ∷ ws)
        ⊎ (no_handling (record { key = k; activity = a } ∷ ws) ≡ true)
  unfolding no_handling is_handling
  handling_first k (handling e) ws rest = inl (record {
    key = k;
    event = e;
    after = record { key = k; activity = selecting } ∷ ws;
    done = here;
  })
  handling_first k selecting ws (inl b) = inl (record {
    key = b.key;
    event = b.event;
    after = record { key = k; activity = selecting } ∷ b.after;
    done = there b.done;
  })
  handling_first k returned ws (inl b) = inl (record {
    key = b.key;
    event = b.event;
    after = record { key = k; activity = returned } ∷ b.after;
    done = there b.done;
  })
  handling_first k selecting ws (inr h) = inr (ground (arith, h))
  handling_first k returned ws (inr h) = inr (ground (arith, h))

  handling_among : (ws : List (Worker D)) → Busy ws ⊎ (no_handling ws ≡ true)
  unfolding no_handling
  handling_among [] = inr refl
  handling_among (w ∷ ws) = handling_first w.key w.activity ws (handling_among ws)

  -- A worker of the key in its select, and the workers once it has another activity.
  record Idle (k : String) (a : Activity D) (ws : List (Worker D)) : Type ℓ where
    after : List (Worker D)
    turned :
        Replaced
          (record { key = k; activity = selecting })
          (record { key = k; activity = a })
          ws
          after

  selecting_first :
      (k key : String) (a b : Activity D) (ws : List (Worker D))
      → (none_returned ws ≡ true → no_handling ws ≡ true → workers_for k ws ≢ 0 → Idle k a ws)
      → none_returned (record { key = key; activity = b } ∷ ws) ≡ true
      → no_handling (record { key = key; activity = b } ∷ ws) ≡ true
      → workers_for k (record { key = key; activity = b } ∷ ws) ≢ 0
      → Idle k a (record { key = key; activity = b } ∷ ws)
  unfolding none_returned no_handling workers_for is_returned is_handling
  selecting_first k key a returned ws rest r h n = absurd (ground (arith, r))
  selecting_first k key a (handling e) ws rest r h n = absurd (ground (arith, h))
  selecting_first k key a selecting ws rest r h n = elim (Bool-cases (key == k)) [
    | inl same ↦
        subst (λ j. Idle k a (record { key = j; activity = selecting } ∷ ws))
          (sym ((==_iff key k).0 same))
          (record { after = record { key = k; activity = a } ∷ ws; turned = here })
    | inr apart ↦
        let tail = rest r h (λ z. n (ground (arith, apart, z))) in
        record {
          after = record { key = key; activity = selecting } ∷ tail.after;
          turned = there tail.turned;
        }
  ]

  selecting_among :
      (k : String) (a : Activity D) (ws : List (Worker D))
      → none_returned ws ≡ true
      → no_handling ws ≡ true
      → workers_for k ws ≢ 0
      → Idle k a ws
  unfolding workers_for
  selecting_among k a [] r h n = absurd (n refl)
  selecting_among k a (w ∷ ws) r h n =
      selecting_first k w.key a w.activity ws (selecting_among k a ws) r h n

  -- A step of a waiting caller or of a worker is possible.
  pub record CanWork (d : Dispatcher D) : Type ℓ where
    pub shown : Observed D
    pub next : Dispatcher D
    pub step : Step d shown next
    pub is_one : is_work step ≡ true

  -- Nobody waits to send, and every event of the key that was sent has been handled.
  pub record Settled (d : Dispatcher D) (k : String) (s b : List (Event D)) : Type ℓ where
    pub callers : d.callers ≡ []
    pub holder : d.holder ≡ none
    pub channel : buffered k d ≡ []
    pub idle : no_handling d.workers ≡ true
    pub begun : events_for k s ≡ events_for k b

  -- What is known of a state with no handler running.
  module _ (d : Dispatcher D) (s b : List (Event D)) (o : Open d)
      (inv : (j : String) → Ordered j d s b) (running : d.stop_closed ≡ false)
      (idle : no_handling d.workers ≡ true) where
    can_receive :
        (k : String) (e : Event D) (events : List (Event D))
        → lookup k d.channels ≡ some (e ∷ events)
        → CanWork d
    unfolding is_work
    can_receive k e events present =
        let r = inv k in
        let found =
          selecting_among k (handling e) d.workers (o.running running) idle
            (ground (arith, present, r.one_worker)) in
        record { shown = _; next = _; step = receives present found.turned; is_one = refl }

    can_send : (e : Event D) → d.holder ≡ some e → CanWork d
    unfolding is_work is_open has_channel send push
    can_send e held = elim (Option-cases (lookup e.key d.channels)) [
      | inl absent ↦ absurd (ground (arith, absent, held, o.opened))
      | inr ([], present) ↦ record {
        shown = sent e;
        next = record d { channels = insert e.key (e ∷ []) d.channels; holder = none };
        step = sends held (ground (arith, held, present));
        is_one = refl;
      }
      | inr (f ∷ events, present) ↦ can_receive e.key f events present
    ]

    can_lock :
        (e : Event D) (rest : List (Event D)) → d.callers ≡ e ∷ rest → d.holder ≡ none → CanWork d
    unfolding is_work
    can_lock e rest waiting free = record {
      shown = _;
      next = _;
      is_one = refl;
      step = locks free (subst (λ l. Taken e l rest) (sym waiting) first);
    }

    quiet_or_work : (k : String) → CanWork d ⊎ Settled d k s b
    unfolding buffered or_nothing
    quiet_or_work k = by_holder d.holder refl
      where
        by_channel :
            d.holder ≡ none
            → d.callers ≡ []
            → (es : List (Event D)) → buffered k d ≡ es
            → CanWork d ⊎ Settled d k s b
        by_channel free none_wait [] e = inr (record {
          callers = none_wait;
          holder = free;
          channel = e;
          idle = idle;
          begun = (inv k).in_order ∙ ap (λ l. events_for k b ++ l) e ∙ append-nil (events_for k b);
        })
        by_channel free none_wait (e ∷ es) h = elim (Option-cases (lookup k d.channels)) [
          | inl absent ↦ absurd (ground (arith, absent, h))
          | inr (events, present) ↦ inl (can_receive k e es (ground (arith, present, h)))
        ]

        by_callers :
            d.holder ≡ none → (cs : List (Event D)) → d.callers ≡ cs → CanWork d ⊎ Settled d k s b
        by_callers free [] h = by_channel free h (buffered k d) refl
        by_callers free (e ∷ rest) h = inl (can_lock e rest h free)

        by_holder : (h : Option (Event D)) → d.holder ≡ h → CanWork d ⊎ Settled d k s b
        by_holder (some e) held = inl (can_send e held)
        by_holder none free = by_callers free d.callers refl

  -- In every state that a run reaches before the stop channel is closed, either some step of a waiting
  -- caller or of a worker is possible, or nobody waits to send, no handler is running, and, for any
  -- given key, the events of the key that were sent have all been handled.
  pub Run-progress :
      {d : Dispatcher D} {s b : List (Event D)}
      → Run d s b
      → d.stop_closed ≡ false
      → (k : String) → CanWork d ⊎ Settled d k s b
  unfolding is_work
  Run-progress {d = d} {s = s} {b = b} run running k = elim (handling_among d.workers) [
    | inl busy ↦ inl (record { shown = _; next = _; step = finishes busy.done; is_one = refl })
    | inr idle ↦ quiet_or_work d s b (Run-Open run) (Run-Ordered run) running idle k
  ]
