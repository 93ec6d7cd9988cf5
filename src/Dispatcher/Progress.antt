-- ===== src/Dispatcher/Progress.antt =====
-- What holds of the workers and of the lock's holder before the stop channel is closed.
use cassandra_operator.Base.{
  String, ==_refl, ◌≡◌, refl, inl, inr, Bool, true, false, Option, none, some, List, [], ◌∷◌, arith,
  if◌then◌else◌, Option-cases, not, ◌&&◌,
}
use cassandra_operator.Base.Assoc.{Assoc, lookup, insert, lookup-insert}
use cassandra_operator.Dispatcher.{
  Event, Worker, Activity, selecting, handling, returned, Dispatcher, Observed, new, enter,
  with_worker, open_channel, push, send, Replaced, here, there, Step, calls, locks, sends, receives,
  finishes, returns, closes, stops, Run, at_start, continues,
}

module _ {ℓ} {D : Type ℓ} where
  unfoldable pub is_handling : Activity D → Bool
  is_handling selecting = false
  is_handling (handling e) = true
  is_handling returned = false

  unfoldable pub is_returned : Activity D → Bool
  is_returned selecting = false
  is_returned (handling e) = false
  is_returned returned = true

  unfoldable pub none_returned : List (Worker D) → Bool
  unfolding is_returned
  none_returned [] = true
  none_returned (w ∷ ws) = not (is_returned w.activity) && none_returned ws

  unfoldable pub has_channel : Option (List (Event D)) → Bool
  has_channel none = false
  has_channel (some events) = true

  unfoldable pub is_open : Option (Event D) → Assoc (List (Event D)) → Bool
  unfolding has_channel
  is_open none channels = true
  is_open (some e) channels = has_channel (lookup e.key channels)

  -- Before the stop channel is closed no worker has returned, and whoever holds the lock has opened the
  -- channel of its event.
  pub record Open (d : Dispatcher D) : Type ℓ where
    pub running : d.stop_closed ≡ false → none_returned d.workers ≡ true
    pub opened : is_open d.holder d.channels ≡ true

  none_returned-Replaced :
      {w w' : Worker D} {ws ws' : List (Worker D)}
      → is_returned w'.activity ≡ false
      → Replaced w w' ws ws'
      → none_returned ws ≡ true
      → none_returned ws' ≡ true
  unfolding none_returned
  none_returned-Replaced a here h = ground arith
  none_returned-Replaced a (there r) h = ground (arith, none_returned-Replaced a r)

  is_open-insert :
      (h : Option (Event D)) (k : String) (events : List (Event D)) (m : Assoc (List (Event D)))
      → is_open h m ≡ true
      → is_open h (insert k events m) ≡ true
  unfolding is_open
  is_open-insert none k events m o = refl
  is_open-insert (some e) k events m o = ground (arith, lookup-insert k e.key events m)

  Open-locks :
      (d : Dispatcher D) (e : Event D) (rest : List (Event D))
      → Open d
      → Open (open_channel e.key (record d { callers = rest; holder = some e }))
  unfolding open_channel with_worker is_open none_returned
  Open-locks d e rest o = elim (Option-cases (lookup e.key d.channels)) [
    | inl absent ↦ record {
      running = ground (arith, absent, o.running);
      opened = ground (arith, absent, lookup-insert e.key e.key [] d.channels, ==_refl e.key);
    }
    | inr present ↦ record {
      running = ground (arith, present.1, o.running);
      opened = ground (arith, present.1);
    }
  ]

  Open-sends :
      (d d' : Dispatcher D) (e : Event D) → d.holder ≡ some e → send d ≡ some d' → Open d → Open d'
  unfolding send push is_open
  Open-sends d d' e h s o = elim (Option-cases (lookup e.key d.channels)) [
    | inl absent ↦ ground (arith, absent, h, s)
    | inr present ↦ record {
      running = ground (arith, present.1, h, s, o.running);
      opened = ground (arith, present.1, h, s);
    }
  ]

  Open-step : {d d' : Dispatcher D} {o : Observed D} → Step d o d' → Open d → Open d'
  unfolding enter is_returned
  Open-step {d = d} (calls e) o =
      elim d.stopped as (λ b. Open (if b then d else record d { callers = e ∷ d.callers })) [
        | true ↦ o
        | false ↦ record { running = o.running; opened = o.opened }
      ]
  Open-step {d = d} (locks {e = e} {rest = rest} free t) o = Open-locks d e rest o
  Open-step {d = d} {d' = d'} (sends {e = e} h s) o = Open-sends d d' e h s o
  Open-step {d = d} (receives {k = k} {events = events} found r) o = record {
    running = λ c. none_returned-Replaced refl r (o.running c);
    opened = is_open-insert d.holder k events d.channels o.opened;
  }
  Open-step (finishes r) o = record {
    running = λ c. none_returned-Replaced refl r (o.running c);
    opened = o.opened;
  }
  Open-step (returns stop r) o = record { running = λ c. cc (stop, c); opened = o.opened }
  Open-step closes o = record { running = λ c. cc c; opened = o.opened }
  Open-step (stops stop) o = record { running = o.running; opened = o.opened }

  pub Run-Open : {d : Dispatcher D} {s b : List (Event D)} → Run d s b → Open d
  unfolding new none_returned is_open
  Run-Open at_start = record { running = λ c. refl; opened = refl }
  Run-Open (continues run step) = Open-step step (Run-Open run)
