-- ===== src/Scheduler.antt =====
-- src/tasks/scheduler.c, thread.h, and thread_sleep of src/tasks/thread.c: the circular list of
-- threads. A pointer is a number, and `threads` is what it points to. scheduler_lock is held in
-- scheduler_add and in scheduler_yield up to the context switch, so each is one transition;
-- thread_sleep writes to its own thread before it yields. The ticks of the timer are an argument,
-- since they stand still while interrupts are off; thread_destroy is recorded in `destroyed`, the
-- newest first.
pub mod Ring
pub mod Rotation
pub mod Wake
pub mod Walk
pub mod Yield
pub mod Sleep
mod Tests
use xenon_os.Base.{
  ℕ, zero, suc, ◌+◌, ◌-◌, ◌*◌, ◌/◌, ◌%◌, ◌^◌, Bool, true, false, ◌&&◌, Option, some, none, List, [],
  ◌∷◌, ◌==◌, ltb, leb, if◌then◌else◌, update, add32, sub32, mul32,
}

-- enum thread_state
pub data ThreadState : Type 0 where
  running ready blocked terminated : ThreadState

-- struct thread; the entry point is the number of a function.
pub record Thread : Type 0 where
  pub id : ℕ
  pub esp : ℕ
  pub mem : ℕ
  pub state : ThreadState
  pub next : ℕ
  pub entry : ℕ
  pub wake_at : ℕ
  pub stack_pages : ℕ

pub record Scheduler : Type 0 where
  pub threads : ℕ → Thread
  pub current : ℕ
  pub destroyed : List ℕ

abbrev pub timer_hz : ℕ
timer_hz = 100

abbrev pub set_next : ℕ → ℕ → Scheduler → Scheduler
set_next p n s = record s { threads = update s.threads p (record (s.threads p) { next = n }) }

abbrev pub set_state : ℕ → ThreadState → Scheduler → Scheduler
set_state p state s = record s {
  threads = update s.threads p (record (s.threads p) { state = state });
}

pub scheduler_add : ℕ → Scheduler → Scheduler
scheduler_add thread s = set_next s.current thread (set_next thread (s.threads s.current).next s)

-- `(int32_t)(ticks - wake_at) < 0`
pub still_asleep : ℕ → ℕ → Bool
still_asleep ticks wake_at = leb (2 ^ 31) (sub32 ticks wake_at)

-- What the loop of scheduler_yield sees in a thread.
pub data Kind : Type 0 where
  dead asleep runnable : Kind

pub kind_of : ℕ → Thread → Kind
kind_of ticks t = elim t.state [
  | terminated ↦ dead
  | blocked ↦ if still_asleep ticks t.wake_at then asleep else runnable
  | _ ↦ runnable
]

-- `if (candidate->state == THREAD_BLOCKED) candidate->state = THREAD_READY;`
pub wake : ℕ → Scheduler → Scheduler
wake p s = elim (s.threads p).state [ blocked ↦ set_state p ready s | _ ↦ s ]

-- The loop of scheduler_yield over `prev` and `candidate`, with fuel: `none` is a walk that has not
-- come back to the current thread.
pub walk : ℕ → ℕ → ℕ → ℕ → Scheduler → Option (ℕ × Scheduler)
walk zero ticks prev candidate s = none
walk (suc fuel) ticks prev candidate s =
    let after = (s.threads candidate).next in
    let unlinked = set_next prev after s in
    let skip_dead =
      walk fuel ticks prev after (record unlinked { destroyed = candidate ∷ unlinked.destroyed }) in
    let skip_asleep = walk fuel ticks candidate after s in
    if candidate == s.current
    then some (candidate, s)
    else elim (kind_of ticks (s.threads candidate)) [
      | dead ↦ skip_dead
      | asleep ↦ skip_asleep
      | runnable ↦ some (candidate, wake candidate s)
    ]

-- From `if (candidate == current)` on. The result names the old and the new thread of the context
-- switch, if there is one.
pub switch_to : ℕ → Scheduler → Option (ℕ × ℕ) × Scheduler
switch_to candidate s =
    if candidate == s.current
    then (none, s)
    else (some (s.current, candidate), record s { current = candidate })

pub scheduler_yield : ℕ → ℕ → Scheduler → Option (Option (ℕ × ℕ) × Scheduler)
scheduler_yield fuel ticks s = elim (walk fuel ticks s.current (s.threads s.current).next s) [
  | none ↦ none
  | some (candidate, s') ↦ some (switch_to candidate s')
]

pub scheduler_current : Scheduler → ℕ
scheduler_current s = s.current

-- `(ms * TIMER_HZ + 1000 - 1) / 1000`
pub ticks_to_sleep : ℕ → ℕ
ticks_to_sleep ms = add32 (mul32 ms timer_hz) (1000 - 1) / 1000

pub put_to_sleep : ℕ → ℕ → Scheduler → Scheduler
put_to_sleep ms ticks s = record s {
  threads =
      update s.threads s.current (record (s.threads s.current) {
        wake_at = add32 ticks (ticks_to_sleep ms);
        state = blocked;
      });
}

pub thread_sleep : ℕ → ℕ → ℕ → Scheduler → Option (Option (ℕ × ℕ) × Scheduler)
thread_sleep fuel ms ticks s = scheduler_yield fuel ticks (put_to_sleep ms ticks s)
