-- ===== src/Fsync.antt =====
-- fsync.c: the thread that calls fsync() on the log file, and how its steps and the main thread's mix.
-- What happens under the mutex is one step. fsync() may take any time; the module stops if it fails.
pub mod Settled
pub mod Progress
mod Tests
use redisraft.Prelude.{ℕ, ◌≡◌, Bool, true, false, List, [], ◌∷◌, if◌then◌else◌}

-- `FsyncThread`, without the mutex and the condition
pub record FsyncThread : Type 0 where
  pub requested_index : ℕ
  pub fd : ℕ
  pub need_fsync : Bool
  pub running : Bool

-- where the thread is in the loop of `fsyncLoop`: before the test of `need_fsync`, asleep at the
-- condition, in fsync(), back from it, or past the second critical section
pub data Worker : Type 0 where
  waiting : Worker
  asleep : Worker
  syncing : ℕ → ℕ → Worker
  synced : ℕ → Worker
  reporting : ℕ → Worker

-- where the main thread is: not in `fsyncThreadWaitUntilCompleted`, before the test of `running` there,
-- or asleep at the condition
pub data Main : Type 0 where
  elsewhere : Main
  testing : Main
  blocked : Main

-- All of it: `requests` are the indices asked for, `completed` those with which fsync() was called and
-- returned, and `reported` those of the results sent to the event loop; the latest first.
pub record System : Type 0 where
  pub thread : FsyncThread
  pub worker : Worker
  pub main : Main
  pub requests : List ℕ
  pub completed : List ℕ
  pub reported : List ℕ

-- `fsyncThreadStart`
abbrev pub start : System
start = record {
  thread = record { requested_index = 0; fd = 0; need_fsync = false; running = false };
  worker = waiting;
  main = elsewhere;
  requests = [];
  completed = [];
  reported = [];
}

-- What pthread_cond_signal does to a thread that sleeps at the condition. Where the main thread signals
-- only the worker can be asleep, and where the worker does only the main thread.
unfoldable pub wake_worker : Worker → Worker
wake_worker asleep = waiting
wake_worker w = w

unfoldable pub wake_main : Main → Main
wake_main blocked = testing
wake_main m = m

-- `fsyncThreadAddTask`
unfoldable pub add_task : ℕ → ℕ → FsyncThread → FsyncThread
add_task fd idx th = record th { requested_index = idx; fd = fd; need_fsync = true; running = true }

-- the end of the first critical section of `fsyncLoop`
unfoldable pub take_request : FsyncThread → FsyncThread
take_request th = record th { need_fsync = false }

-- the second critical section
unfoldable pub complete : FsyncThread → FsyncThread
complete th = if th.need_fsync then th else record th { running = false }

-- the signal in the second critical section
unfoldable pub signal_done : FsyncThread → Main → Main
signal_done th m = if th.need_fsync then m else wake_main m

-- The steps of `fsyncLoop`.
pub data Work : System → System → Type 0 where
  sleep :
      (s : System)
      → s.worker ≡ waiting
      → s.thread.need_fsync ≡ false
      → Work s (record s { worker = asleep })
  begin :
      (s : System)
      → s.worker ≡ waiting
      → s.thread.need_fsync ≡ true
      → Work s (record s {
        worker = syncing s.thread.fd s.thread.requested_index;
        thread = take_request s.thread;
      })
  sync :
      (s : System) (fd idx : ℕ)
      → s.worker ≡ syncing fd idx
      → Work s (record s { worker = synced idx; completed = idx ∷ s.completed })
  finish :
      (s : System) (idx : ℕ)
      → s.worker ≡ synced idx
      → Work s (record s {
        worker = reporting idx;
        thread = complete s.thread;
        main = signal_done s.thread s.main;
      })
  report :
      (s : System) (idx : ℕ)
      → s.worker ≡ reporting idx
      → Work s (record s { worker = waiting; reported = idx ∷ s.reported })

-- The steps of `fsyncThreadWaitUntilCompleted`: the sleep, and the return.
pub data Wait : System → System → Type 0 where
  block :
      (s : System)
      → s.main ≡ testing
      → s.thread.running ≡ true
      → Wait s (record s { main = blocked })
  return :
      (s : System)
      → s.main ≡ testing
      → s.thread.running ≡ false
      → Wait s (record s { main = elsewhere })

-- A step of the thread; or of the main thread, which calls `fsyncThreadWaitUntilCompleted`, goes on in
-- it, or calls `fsyncThreadAddTask`; or a sleeper that wakes without a signal, which POSIX allows.
pub data Step : System → System → Type 0 where
  work : {s t : System} → Work s t → Step s t
  wait : {s t : System} → Wait s t → Step s t
  call : (s : System) → s.main ≡ elsewhere → Step s (record s { main = testing })
  request :
      (s : System) (fd idx : ℕ)
      → s.main ≡ elsewhere
      → Step s (record s {
        thread = add_task fd idx s.thread;
        worker = wake_worker s.worker;
        requests = idx ∷ s.requests;
      })
  wakes : (s : System) → s.worker ≡ asleep → Step s (record s { worker = waiting })
  wakes_main : (s : System) → s.main ≡ blocked → Step s (record s { main = testing })

pub data Reach (s : System) : System → Type 0 where
  here : Reach s s
  next : {t u : System} → Reach s t → Step t u → Reach s u

-- the thread alone
pub data Run : System → System → Type 0 where
  stop : (s : System) → Run s s
  go : {s t u : System} → Work s t → Run t u → Run s u
