-- ===== src/Dispatcher/Order.antt =====
-- The order in which a key's events are handled.
use cassandra_operator.Base.{
  ℕ, String, ◌==◌, ==_iff, ◌≡◌, refl, ◌∙◌, ap, sym, Option, none, some, List, [], ◌∷◌, ◌++◌, arith,
  if◌then◌else◌, length, ◌+◌, ◌≤◌, length-append, Option-cases, Bool-cases, All, All-append_iff,
  inl, inr,
}
use cassandra_operator.Base.Assoc.{lookup, insert, lookup-insert}
use cassandra_operator.Dispatcher.{
  Event, Worker, Dispatcher, Observed, silent, sent, begun, new, enter, with_worker, open_channel,
  push, send, Replaced, here, there, Step, calls, locks, sends, receives, finishes, returns, closes,
  stops, sent_by, begun_by, Run, at_start, continues,
}
use mathlib.Core.Path.{subst}
use mathlib.Core.List.{append_assoc, append-nil}

module _ {ℓ} {D : Type ℓ} where
  -- The events of one key, in order.
  unfoldable pub events_for : String → List (Event D) → List (Event D)
  events_for k [] = []
  events_for k (e ∷ es) = if e.key == k then e ∷ events_for k es else events_for k es

  -- What stands in the channel of a key.
  unfoldable pub or_nothing : Option (List (Event D)) → List (Event D)
  or_nothing none = []
  or_nothing (some events) = events

  unfoldable pub buffered : String → Dispatcher D → List (Event D)
  buffered k d = or_nothing (lookup k d.channels)

  -- The number of workers that were started for a key.
  unfoldable pub workers_for : String → List (Worker D) → ℕ
  workers_for k [] = 0
  workers_for k (w ∷ ws) = if w.key == k then 1 + workers_for k ws else workers_for k ws

  events_for-append :
      (k : String) (xs ys : List (Event D))
      → events_for k (xs ++ ys) ≡ (events_for k xs ++ events_for k ys)
  unfolding events_for
  events_for-append k [] ys = refl
  events_for-append k (x ∷ xs) ys = ground (arith, events_for-append k xs ys)

  workers_for-Replaced :
      {w w' : Worker D} {ws ws' : List (Worker D)} (k : String)
      → w.key ≡ w'.key
      → Replaced w w' ws ws'
      → workers_for k ws' ≡ workers_for k ws
  unfolding workers_for
  workers_for-Replaced k same here = ground arith
  workers_for-Replaced k same (there r) = ground (arith, workers_for-Replaced k same r)

  abbrev started : Option (List (Event D)) → ℕ
  started none = 0
  started (some events) = 1

  -- What one step does to the channel and the workers of a key.
  record Moved (k : String) (d : Dispatcher D) (o : Observed D) (d' : Dispatcher D) : Type ℓ where
    events :
        (buffered k d ++ events_for k (sent_by o)) ≡ (events_for k (begun_by o) ++ buffered k d')
    bound : length (buffered k d) ≤ 100 → length (buffered k d') ≤ 100
    workers :
        workers_for k d.workers ≡ started (lookup k d.channels)
        → workers_for k d'.workers ≡ started (lookup k d'.channels)

  Moved-same :
      {d d' : Dispatcher D} (k : String)
      → lookup k d.channels ≡ lookup k d'.channels
      → workers_for k d'.workers ≡ workers_for k d.workers
      → Moved k d silent d'
  unfolding sent_by begun_by events_for buffered
  Moved-same {d = d} {d' = d'} k same count = record {
    events = simp (append-nil, same);
    bound = ground (arith, same);
    workers = ground (arith, same, count);
  }

  Moved-calls : (k : String) (e : Event D) (d : Dispatcher D) → Moved k d silent (enter e d)
  unfolding enter
  Moved-calls k e d = Moved-same k (ground arith) (ground arith)

  Moved-locks : (k j : String) (d : Dispatcher D) → Moved k d silent (open_channel j d)
  unfolding open_channel with_worker buffered sent_by begun_by events_for workers_for or_nothing
  Moved-locks k j d = elim (Option-cases (lookup j d.channels)) [
    | inl e ↦ record {
      events =
          ground (arith, ==_iff j k, append-nil (buffered k d), lookup-insert j k [] d.channels);
      bound = ground (arith, ==_iff j k, lookup-insert j k [] d.channels);
      workers = ground (arith, ==_iff j k, lookup-insert j k [] d.channels);
    }
    | inr h ↦ Moved-same k (ground (arith, h.1)) (ground (arith, h.1))
  ]

  Moved-push :
      (k : String) (e : Event D) (events : List (Event D)) (d d' : Dispatcher D)
      → lookup e.key d.channels ≡ some events
      → push e events d ≡ some d'
      → Moved k d (sent e) d'
  unfolding push buffered sent_by begun_by events_for workers_for or_nothing
  Moved-push k e events d d' found pushed =
      let l = lookup-insert e.key k (events ++ e ∷ []) d.channels in
      record {
        events = ground (arith, found, pushed, ==_iff e.key k, l, append-nil (buffered k d));
        bound = ground (arith, found, pushed, ==_iff e.key k, l, length-append events (e ∷ []));
        workers = ground (arith, found, pushed, ==_iff e.key k, l);
      }

  Moved-sends :
      (k : String) (e : Event D) (d d' : Dispatcher D)
      → d.holder ≡ some e
      → send d ≡ some d'
      → Moved k d (sent e) d'
  unfolding send
  Moved-sends k e d d' held s = elim (Option-cases (lookup e.key d.channels)) [
    | inl none_found ↦ ground (arith, held, s, none_found)
    | inr found ↦ Moved-push k e found.0 d d' found.1 (ground (arith, held, s, found.1))
  ]

  Moved-receives :
      (k j : String) (e : Event D) (events : List (Event D)) (d : Dispatcher D)
      (ws : List (Worker D))
      → lookup j d.channels ≡ some (e ∷ events)
      → e.key ≡ j
      → workers_for k ws ≡ workers_for k d.workers
      → Moved k d (begun e) (record d { channels = insert j events d.channels; workers = ws })
  unfolding buffered sent_by begun_by events_for workers_for or_nothing
  Moved-receives k j e events d ws found own count =
      let l = lookup-insert j k events d.channels in
      record {
        events =
            ground (arith, found, own, ==_iff j k, ==_iff e.key k, l, append-nil (buffered k d));
        bound = ground (arith, found, ==_iff j k, l);
        workers = ground (arith, found, count, ==_iff j k, l);
      }

  events_for-own : (k : String) (es : List (Event D)) → All (λ e. e.key ≡ k) (events_for k es)
  unfolding events_for
  events_for-own k [] = tt
  events_for-own k (e ∷ es) = elim (Bool-cases (e.key == k)) [
    | inl same ↦ ground (arith, same, ==_iff e.key k, events_for-own k es)
    | inr other ↦ ground (arith, other, events_for-own k es)
  ]

  own_head :
      {k : String} {e : Event D} {es fs : List (Event D)}
      → fs ≡ (e ∷ es)
      → All (λ f. f.key ≡ k) fs
      → e.key ≡ k
  own_head {k = k} same own = (subst (λ es. All (λ f. f.key ≡ k) es) same own).0

  -- The events sent to the channel of a key are the ones that its handler began, in the same order,
  -- followed by those that wait in the channel, of which there are at most 100; and one worker was
  -- started if the key has a channel, otherwise none.
  pub record Ordered (k : String) (d : Dispatcher D) (sent_events begun_events : List (Event D))
      : Type ℓ where
    pub in_order : events_for k sent_events ≡ (events_for k begun_events ++ buffered k d)
    pub bounded : length (buffered k d) ≤ 100
    pub one_worker : workers_for k d.workers ≡ started (lookup k d.channels)

  Ordered-own :
      {k : String} {d : Dispatcher D} {s b : List (Event D)}
      → Ordered k d s b
      → All (λ e. e.key ≡ k) (buffered k d)
  Ordered-own {k = k} {d = d} {s = s} {b = b} r =
      ((All-append_iff (λ e. e.key ≡ k) (events_for k b) (buffered k d)).0
        (subst (λ es. All (λ e. e.key ≡ k) es) r.in_order (events_for-own k s))).1

  Step-Moved :
      {d d' : Dispatcher D} {o : Observed D} {s b : List (Event D)} (k : String)
      → ((j : String) → Ordered j d s b)
      → Step d o d'
      → Moved k d o d'
  unfolding buffered or_nothing
  Step-Moved {d = d} k inv (calls e) = Moved-calls k e d
  Step-Moved {d = d} k inv (locks {e = e} {rest = rest} free t) =
      let m = Moved-locks k e.key (record d { callers = rest; holder = some e }) in
      record { events = m.events; bound = m.bound; workers = m.workers }
  Step-Moved {d = d} {d' = d'} k inv (sends {e = e} held done) = Moved-sends k e d d' held done
  Step-Moved {d = d} k inv (receives {k = j} {e = e} {events = events} {ws = ws} found r) =
      Moved-receives k j e events d ws found (own_head (ap or_nothing found) (Ordered-own (inv j)))
        (workers_for-Replaced k refl r)
  Step-Moved k inv (finishes r) = Moved-same k refl (workers_for-Replaced k refl r)
  Step-Moved k inv (returns stop r) = Moved-same k refl (workers_for-Replaced k refl r)
  Step-Moved k inv closes = Moved-same k refl refl
  Step-Moved k inv (stops stop) = Moved-same k refl refl

  in_order-step :
      (k : String) (s b buf buf' : List (Event D)) (o : Observed D)
      → events_for k s ≡ (events_for k b ++ buf)
      → (buf ++ events_for k (sent_by o)) ≡ (events_for k (begun_by o) ++ buf')
      → events_for k (s ++ sent_by o) ≡ (events_for k (b ++ begun_by o) ++ buf')
  in_order-step k s b buf buf' o before now =
      events_for-append k s (sent_by o)
      ∙ ap (λ l. l ++ events_for k (sent_by o)) before
      ∙ append_assoc (events_for k b) buf (events_for k (sent_by o))
      ∙ ap (λ l. events_for k b ++ l) now
      ∙ sym (append_assoc (events_for k b) (events_for k (begun_by o)) buf')
      ∙ sym (ap (λ l. l ++ buf') (events_for-append k b (begun_by o)))

  -- After every run from the new dispatcher, and for every key: the events sent to the key's channel
  -- are the ones that its handler began, in the same order, followed by those that wait in the channel;
  -- at most 100 wait there; and exactly one worker was started for the key if it has a channel, none
  -- otherwise.
  pub Run-Ordered :
      {d : Dispatcher D} {s b : List (Event D)} → Run d s b → (k : String) → Ordered k d s b
  unfolding new events_for buffered or_nothing workers_for lookup
  Run-Ordered at_start k = record { in_order = refl; bounded = ground arith; one_worker = refl }
  Run-Ordered {d = d'} (continues {d = d} {sent_events = s} {begun_events = b} {o = o} run step) k =
      let m = Step-Moved k (Run-Ordered run) step in
      let r = Run-Ordered run k in
      record {
        in_order = in_order-step k s b (buffered k d) (buffered k d') o r.in_order m.events;
        bounded = m.bound r.bounded;
        one_worker = m.workers r.one_worker;
      }
