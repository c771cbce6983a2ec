-- ===== src/Scheduler/Sleep.antt =====
-- How long thread_sleep keeps a thread out of the walk.
use xenon_os.Base.{
  ℕ, ◌+◌, ◌*◌, ◌^◌, ◌<◌, ◌≤◌, ◌≡◌, ap, ◌∙◌, ltb, if◌then◌else◌, arith, add32, Bool, update-same,
}
use xenon_os.Scheduler.{
  blocked, Thread, Scheduler, asleep, runnable, kind_of, still_asleep, ticks_to_sleep, put_to_sleep,
  timer_hz,
}

ticks-ceiling :
    (ms : ℕ)
    → ms * 100 + 999 < 2 ^ 32
    → (ms ≤ 10 * ticks_to_sleep ms) × (10 * ticks_to_sleep ms < ms + 10)
unfolding ticks_to_sleep
ticks-ceiling ms b = omega arith

ticks-small : (ms : ℕ) → ticks_to_sleep ms < 2 ^ 31
unfolding ticks_to_sleep
ticks-small ms = omega arith

-- The comparison of tick counts goes the right way over the end of the counter.
still_asleep-elapsed :
    (now elapsed n : ℕ)
    → now < 2 ^ 32
    → elapsed < 2 ^ 31
    → n < 2 ^ 31
    → still_asleep (add32 now elapsed) (add32 now n) ≡ ltb elapsed n
unfolding still_asleep
still_asleep-elapsed now elapsed n a b c = ground arith

-- A thread that calls thread_sleep at any tick, for at most 42949662 milliseconds (beyond, the product
-- wraps), is asleep to the scheduler while less than that time has passed on the timer, at 10 ms a
-- tick, and can run after it, as long as fewer than 2^31 ticks have passed since the call; from then on it
-- would count as asleep again. This also holds when the tick counter wraps around meanwhile.
pub put_to_sleep-kind :
    (ms now elapsed : ℕ) (s : Scheduler)
    → ms * timer_hz + 999 < 2 ^ 32
    → now < 2 ^ 32
    → elapsed < 2 ^ 31
    → kind_of (add32 now elapsed) ((put_to_sleep ms now s).threads s.current)
      ≡ (if ltb (10 * elapsed) ms then asleep else runnable)
unfolding put_to_sleep kind_of
put_to_sleep-kind ms now elapsed s a b c =
    let n = ticks_to_sleep ms in
    let slept : Thread = record (s.threads s.current) { wake_at = add32 now n; state = blocked } in
    let span = ticks-ceiling ms a in
    let same : ltb elapsed n ≡ ltb (10 * elapsed) ms = ground (arith, span.0, span.1) in
    ap (kind_of (add32 now elapsed)) (update-same s.threads s.current slept)
    ∙ ap (λ (test : Bool). if test then asleep else runnable)
        (still_asleep-elapsed now elapsed n b c (ticks-small ms) ∙ same)
