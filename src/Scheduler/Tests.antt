-- ===== src/Scheduler/Tests.antt =====
-- A ring of four threads, and the theorems on it.
use xenon_os.Base.{ℕ, ◌*◌, ◌≡◌, ◌==◌, refl, [], ◌∷◌, some, arith, add32, ltb, if◌then◌else◌}
use xenon_os.Scheduler.{
  ThreadState, running, ready, blocked, terminated, Thread, Scheduler, kind_of, scheduler_add,
  scheduler_yield, still_asleep, put_to_sleep, asleep, runnable,
}
use xenon_os.Scheduler.Ring.{IsRing, scheduler_add-IsRing}
use xenon_os.Scheduler.Rotation.{passed, reaped, from_runnable, onto}
use xenon_os.Scheduler.Yield.{Yielded, switched, seen, scheduler_yield_lem}
use xenon_os.Scheduler.Sleep.{put_to_sleep-kind}

abbrev thread_of : ThreadState → ℕ → Thread
thread_of state next = record {
  id = 0;
  esp = 0;
  mem = 0;
  state = state;
  next = next;
  entry = 0;
  wake_at = 500;
  stack_pages = 4;
}

-- 1 is running; then 2 sleeps until tick 500, 3 is terminated, 4 is ready.
abbrev four : ℕ → Thread
four n =
    if n == 1
    then thread_of running 2
    else if n == 2
    then thread_of blocked 3
    else if n == 3
    then thread_of terminated 4
    else thread_of ready 1

abbrev busy : Scheduler
busy = record { threads = four; current = 1; destroyed = [] }

busy-IsRing : IsRing busy (2 ∷ 3 ∷ 4 ∷ [])
busy-IsRing = record { chain = (refl, (refl, (refl, refl))); distinct = omega arith }

scheduler_add-IsRing_example : IsRing (scheduler_add 9 busy) (9 ∷ 2 ∷ 3 ∷ 4 ∷ [])
scheduler_add-IsRing_example =
    scheduler_add-IsRing 9 busy (2 ∷ 3 ∷ 4 ∷ []) busy-IsRing (omega arith)

-- At tick 300 thread 2 sleeps on, 3 is destroyed, and 4 runs.
four_waiting : from_runnable (seen 300 busy) (2 ∷ 3 ∷ 4 ∷ []) ≡ 4 ∷ []
unfolding from_runnable kind_of still_asleep
four_waiting = refl

scheduler_yield_lem_example :
    (s' : Scheduler) × (scheduler_yield 5 300 busy
      ≡ some (switched 1 (from_runnable (seen 300 busy) (2 ∷ 3 ∷ 4 ∷ [])), s'))
    × (s'.destroyed ≡ onto (reaped (seen 300 busy) (2 ∷ 3 ∷ 4 ∷ [])) [])
    × Yielded busy s'
        (passed (seen 300 busy) (2 ∷ 3 ∷ 4 ∷ []))
        (from_runnable (seen 300 busy) (2 ∷ 3 ∷ 4 ∷ []))
scheduler_yield_lem_example =
    scheduler_yield_lem 5 300 busy (2 ∷ 3 ∷ 4 ∷ []) busy-IsRing (omega arith)

put_to_sleep-kind_example :
    kind_of (add32 4294967290 7) ((put_to_sleep 95 4294967290 busy).threads 1)
    ≡ (if ltb (10 * 7) 95 then asleep else runnable)
put_to_sleep-kind_example =
    put_to_sleep-kind 95 4294967290 7 busy (omega arith) (omega arith) (omega arith)
