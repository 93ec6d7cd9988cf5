-- ===== src/Dispatcher/Drain.antt =====
-- How long the dispatcher works when no more events are dispatched.
use cassandra_operator.Base.{
  ℕ, suc, ◌+◌, ◌*◌, ◌<◌, ◌≤◌, String, ◌≡◌, refl, Bool, true, false, Option, none, some, List, [],
  ◌∷◌, ◌++◌, arith, length, length-append, Option-cases, inl, inr,
}
use cassandra_operator.Base.Assoc.{Assoc, lookup, insert}
use cassandra_operator.Dispatcher.{
  Event, Worker, Activity, selecting, handling, returned, Dispatcher, Observed, with_worker,
  open_channel, push, send, Replaced, here, there, Taken, first, later, Step, calls, locks, sends,
  receives, finishes, returns, closes, stops,
}
use cassandra_operator.Dispatcher.Order.{or_nothing}

module _ {ℓ} {D : Type ℓ} where
  -- The step is one that a caller who waits, or a worker, makes.
  unfoldable pub is_work : {d d' : Dispatcher D} {o : Observed D} → Step d o d' → Bool
  is_work (calls e) = false
  is_work (locks free t) = true
  is_work (sends held done) = true
  is_work (receives found r) = true
  is_work (finishes r) = true
  is_work (returns stop r) = true
  is_work closes = false
  is_work (stops stop) = false

  unfoldable pub total : Assoc (List (Event D)) → ℕ
  total [] = 0
  total ((k, events) ∷ channels) = length events + total channels

  unfoldable pub weight : Activity D → ℕ
  weight selecting = 1
  weight (handling e) = 2
  weight returned = 0

  unfoldable pub weights : List (Worker D) → ℕ
  unfolding weight
  weights [] = 0
  weights (w ∷ ws) = weight w.activity + weights ws

  unfoldable pub held : Option (Event D) → ℕ
  held none = 0
  held (some e) = 3

  -- What is left to do: five for an event whose caller waits for the lock, three for one that is being
  -- sent, two for one in a channel or in its handler, and one for a worker that has not returned.
  unfoldable pub work_left : Dispatcher D → ℕ
  unfolding total weights held
  work_left d = 5 * length d.callers + held d.holder + 2 * total d.channels + weights d.workers

  total-insert :
      (k : String) (events : List (Event D)) (m : Assoc (List (Event D)))
      → total (insert k events m) + length (or_nothing (lookup k m)) ≡ total m + length events
  unfolding total insert lookup or_nothing
  total-insert k events [] = omega arith
  total-insert k events (entry ∷ m) = ground (arith, total-insert k events m)

  length-Taken :
      {e : Event D} {es es' : List (Event D)} → Taken e es es' → length es ≡ suc (length es')
  length-Taken first = refl
  length-Taken (later t) = omega (arith, length-Taken t)

  weights-Replaced :
      {w w' : Worker D} {ws ws' : List (Worker D)}
      → Replaced w w' ws ws'
      → weights ws' + weight w.activity ≡ weights ws + weight w'.activity
  unfolding weights
  weights-Replaced here = omega arith
  weights-Replaced (there r) = omega (arith, weights-Replaced r)

  work_left-locks :
      (d : Dispatcher D) {e : Event D} {rest : List (Event D)}
      → d.holder ≡ none
      → Taken e d.callers rest
      → work_left (open_channel e.key (record d { callers = rest; holder = some e })) < work_left d
  unfolding work_left open_channel with_worker or_nothing
  work_left-locks d {e = e} {rest = rest} free t = elim (Option-cases (lookup e.key d.channels)) [
    | inl absent ↦ ground (arith, absent, free, length-Taken t, total-insert e.key [] d.channels)
    | inr present ↦ ground (arith, present.1, free, length-Taken t)
  ]

  work_left-sends :
      (d d' : Dispatcher D) {e : Event D}
      → d.holder ≡ some e
      → send d ≡ some d'
      → work_left d' < work_left d
  unfolding work_left send push or_nothing
  work_left-sends d d' {e = e} h s = elim (Option-cases (lookup e.key d.channels)) [
    | inl absent ↦ ground (arith, absent, h, s)
    | inr (events, present) ↦ ground (
      arith,
      present,
      h,
      s,
      total-insert e.key (events ++ e ∷ []) d.channels,
      length-append events (e ∷ []),
    )
  ]

  -- Every step of a waiting caller or of a worker leaves less to do.
  pub work_left-step :
      {d d' : Dispatcher D} {o : Observed D} (st : Step d o d')
      → is_work st ≡ true
      → work_left d' < work_left d
  unfolding work_left is_work or_nothing
  work_left-step (calls e) w = absurd (ground arith)
  work_left-step {d = d} (locks free t) w = work_left-locks d free t
  work_left-step {d = d} {d' = d'} (sends h s) w = work_left-sends d d' h s
  work_left-step {d = d} (receives {k = k} {e = e} {events = events} found r) w =
      ground (arith, found, weights-Replaced r, total-insert k events d.channels)
  work_left-step (finishes r) w = ground (arith, weights-Replaced r)
  work_left-step (returns stop r) w = ground (arith, weights-Replaced r)
  work_left-step closes w = absurd (ground arith)
  work_left-step (stops stop) w = absurd (ground arith)

  -- Steps of waiting callers and of workers, one after another, with their number.
  pub data Works : Dispatcher D → ℕ → Dispatcher D → Type ℓ where
    rests : {d : Dispatcher D} → Works d 0 d
    works :
        {d d' d'' : Dispatcher D} {o : Observed D} {n : ℕ}
        → (st : Step d o d') → is_work st ≡ true
        → Works d' n d''
        → Works d (suc n) d''

  -- When no more events are dispatched, the waiting callers and the workers make at most as many steps
  -- as there is left to do, however they interleave.
  pub Works-le : {d d' : Dispatcher D} {n : ℕ} → Works d n d' → n ≤ work_left d
  Works-le rests = omega arith
  Works-le (works st w more) = omega (arith, work_left-step st w, Works-le more)
