-- ===== src/Examples/Dispatching.antt =====
-- One event that is sent and then handled.
use cassandra_operator.Base.{ℕ, ◌≤◌, ◌==◌, refl, [], ◌∷◌}
use cassandra_operator.Base.Assoc.{lookup, insert}
use cassandra_operator.Dispatcher.{
  Dispatcher, selecting, handling, here, receives, finishes, new, open_channel, with_worker,
}
use cassandra_operator.Dispatcher.Drain.{Works, rests, works, is_work, work_left, Works-le}
use cassandra_operator.Dispatcher.Drained.{Drained, Run-Drained}
use cassandra_operator.Examples.{added, locked, sent_one, one_sent}

abbrev taken_one : Dispatcher ℕ
taken_one = record sent_one {
  channels = ("team.users", []) ∷ [];
  workers = record { key = "team.users"; activity = handling added } ∷ [];
}

abbrev handled_one : Dispatcher ℕ
handled_one = record taken_one {
  workers = record { key = "team.users"; activity = selecting } ∷ [];
}

two_steps : Works sent_one 2 handled_one
unfolding lookup insert is_work new open_channel with_worker ◌==◌ sent_one locked
two_steps = works (receives refl here) refl (works (finishes here) refl rests)

Works-le_example : 2 ≤ work_left sent_one
Works-le_example = Works-le two_steps

Run-Drained_example : Drained sent_one
unfolding lookup insert new open_channel with_worker ◌==◌ sent_one locked
Run-Drained_example = Run-Drained one_sent refl
