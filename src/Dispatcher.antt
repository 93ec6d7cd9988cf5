-- ===== src/Dispatcher.antt =====
-- cassandra-operator/pkg/dispatcher/dispatcher.go: every key has one worker, which takes the key's
-- events from its own channel. The callers of Dispatch, the workers and the watcher of the stop
-- channel interleave as the steps of a relation.
pub mod Order
pub mod Drain
pub mod Progress
pub mod Settled
pub mod Drained
use cassandra_operator.Base.{
  ℕ, String, Bool, true, false, ltb, Option, none, some, List, [], ◌∷◌, ◌++◌, ◌≡◌, length, ◌>>=◌,
  if◌then◌else◌,
}
use cassandra_operator.Base.Assoc.{Assoc, lookup, insert}

pub record Event {ℓ} (D : Type ℓ) : Type ℓ where
  pub kind : String
  pub key : String
  pub data_of : D

-- A goroutine that runs `start`: in its select, inside the handler, or returned.
pub data Activity {ℓ} (D : Type ℓ) : Type ℓ where
  selecting : Activity D
  handling : Event D → Activity D
  returned : Activity D

pub record Worker {ℓ} (D : Type ℓ) : Type ℓ where
  pub key : String
  pub activity : Activity D

-- `callers` have passed the test of `stopped` and wait for the lock; `holder` has it, and sends.
pub record Dispatcher {ℓ} (D : Type ℓ) : Type ℓ where
  pub channels : Assoc (List (Event D))
  pub workers : List (Worker D)
  pub stopped : Bool
  pub stop_closed : Bool
  pub callers : List (Event D)
  pub holder : Option (Event D)

abbrev pub cluster_event_buffer_size : ℕ
cluster_event_buffer_size = 100

-- What a step shows: an event that went into its channel, one that its handler was called with.
pub data Observed {ℓ} (D : Type ℓ) : Type ℓ where
  silent : Observed D
  sent : Event D → Observed D
  begun : Event D → Observed D

module _ {ℓ} {D : Type ℓ} where
  unfoldable pub new : Dispatcher D
  new = record {
    channels = [];
    workers = [];
    stopped = false;
    stop_closed = false;
    callers = [];
    holder = none;
  }

  -- The test of `stopped`, made before the lock is taken.
  unfoldable pub enter : Event D → Dispatcher D → Dispatcher D
  enter e d = if d.stopped then d else record d { callers = e ∷ d.callers }

  unfoldable pub with_worker : String → Dispatcher D → Dispatcher D
  with_worker k d = record d {
    channels = insert k [] d.channels;
    workers = record { key = k; activity = selecting } ∷ d.workers;
  }

  -- The channel of the key, made with its worker when the key is new.
  unfoldable pub open_channel : String → Dispatcher D → Dispatcher D
  open_channel k d = elim (lookup k d.channels) [ none ↦ with_worker k d | some events ↦ d ]

  -- eventProcessingChannel <- *e and the deferred unlock: a send on a full channel waits.
  unfoldable pub push : Event D → List (Event D) → Dispatcher D → Option (Dispatcher D)
  push e events d =
      if ltb (length events) cluster_event_buffer_size
      then some (record d { channels = insert e.key (events ++ e ∷ []) d.channels; holder = none })
      else none

  unfoldable pub send : Dispatcher D → Option (Dispatcher D)
  send d = do e ← d.holder; events ← lookup e.key d.channels; push e events d

  -- One worker of a list is replaced.
  pub data Replaced : Worker D → Worker D → List (Worker D) → List (Worker D) → Type ℓ where
    here : {w w' : Worker D} {ws : List (Worker D)} → Replaced w w' (w ∷ ws) (w' ∷ ws)
    there :
        {w w' v : Worker D} {ws ws' : List (Worker D)}
        → Replaced w w' ws ws'
        → Replaced w w' (v ∷ ws) (v ∷ ws')

  -- One of the callers that wait for the lock gets it, whichever it is.
  pub data Taken : Event D → List (Event D) → List (Event D) → Type ℓ where
    first : {e : Event D} {es : List (Event D)} → Taken e (e ∷ es) es
    later : {e f : Event D} {es es' : List (Event D)} → Taken e es es' → Taken e (f ∷ es) (f ∷ es')

  pub data Step : Dispatcher D → Observed D → Dispatcher D → Type ℓ where
    calls : {d : Dispatcher D} (e : Event D) → Step d silent (enter e d)
    locks :
        {d : Dispatcher D} {e : Event D} {rest : List (Event D)}
        → d.holder ≡ none
        → Taken e d.callers rest
        → Step d silent (open_channel e.key (record d { callers = rest; holder = some e }))
    sends :
        {d d' : Dispatcher D} {e : Event D}
        → d.holder ≡ some e
        → send d ≡ some d'
        → Step d (sent e) d'
    receives :
        {d : Dispatcher D} {k : String} {e : Event D} {events : List (Event D)}
        {ws : List (Worker D)}
        → lookup k d.channels ≡ some (e ∷ events)
        → Replaced
            (record { key = k; activity = selecting })
            (record { key = k; activity = handling e })
            d.workers
            ws
        → Step d (begun e) (record d { channels = insert k events d.channels; workers = ws })
    finishes :
        {d : Dispatcher D} {k : String} {e : Event D} {ws : List (Worker D)}
        → Replaced
            (record { key = k; activity = handling e })
            (record { key = k; activity = selecting })
            d.workers
            ws
        → Step d silent (record d { workers = ws })
    returns :
        {d : Dispatcher D} {k : String} {ws : List (Worker D)}
        → d.stop_closed ≡ true
        → Replaced
            (record { key = k; activity = selecting })
            (record { key = k; activity = returned })
            d.workers
            ws
        → Step d silent (record d { workers = ws })
    closes : {d : Dispatcher D} → Step d silent (record d { stop_closed = true })
    stops : {d : Dispatcher D} → d.stop_closed ≡ true → Step d silent (record d { stopped = true })

  unfoldable pub sent_by : Observed D → List (Event D)
  sent_by silent = []
  sent_by (sent e) = e ∷ []
  sent_by (begun e) = []

  unfoldable pub begun_by : Observed D → List (Event D)
  begun_by silent = []
  begun_by (sent e) = []
  begun_by (begun e) = e ∷ []

  -- A run from the new dispatcher, with the events sent and the events begun, in order.
  pub data Run : Dispatcher D → List (Event D) → List (Event D) → Type ℓ where
    at_start : Run new [] []
    continues :
        {d d' : Dispatcher D} {sent_events begun_events : List (Event D)} {o : Observed D}
        → Run d sent_events begun_events
        → Step d o d'
        → Run d' (sent_events ++ sent_by o) (begun_events ++ begun_by o)
