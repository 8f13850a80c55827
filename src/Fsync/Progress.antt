-- ===== src/Fsync/Progress.antt =====
-- A wait for the thread comes to its end.
use redisraft.Prelude.{ℕ, ◌≡◌, ◌≢◌, ◌∙◌, ap, refl, inl, inr, true, false, arith, Bool-cases}
use redisraft.Fsync.{
  FsyncThread, Worker, System, Main, Wait, elsewhere, testing, blocked, sleep, return, asleep, next,
  work, wake_main, signal_done, Work, Reach, Run, waiting, syncing, synced, reporting, start,
  take_request, complete, begin, sync, finish, report, stop, go,
}
use redisraft.Fsync.Settled.{latest, completed_when_idle, Reach-IsConsistent, At}

-- By itself the thread comes to a state where it is not running, with the same requests.
abbrev Ends : System → Type 0
Ends s = (t : System) × Run s t × (t.thread.running ≡ false) × (t.requests ≡ s.requests)

Ends-step : {s t : System} → Work s t → t.requests ≡ s.requests → Ends t → Ends s
Ends-step w same (u, run, off, kept) = (u, go w run, off, cc)

complete-off : (th : FsyncThread) → th.need_fsync ≡ false → (complete th).running ≡ false
unfolding complete
complete-off th h = rw h refl

quiet_synced : (s : System) (idx : ℕ) → s.worker ≡ synced idx → s.thread.need_fsync ≡ false → Ends s
quiet_synced s idx e h = (_, go (finish s idx e) (stop _), complete-off s.thread h, refl)

quiet_syncing :
    (s : System) (fd idx : ℕ) → s.worker ≡ syncing fd idx → s.thread.need_fsync ≡ false → Ends s
quiet_syncing s fd idx e h = Ends-step (sync s fd idx e) refl (quiet_synced _ idx refl h)

quiet_waiting : (s : System) → s.worker ≡ waiting → s.thread.need_fsync ≡ true → Ends s
quiet_waiting s e h =
    Ends-step (begin s e h) refl (quiet_syncing _ _ _ refl (unfold take_request in refl))

quiet_reporting :
    (s : System) (idx : ℕ) → s.worker ≡ reporting idx → s.thread.need_fsync ≡ true → Ends s
quiet_reporting s idx e h = Ends-step (report s idx e) refl (quiet_waiting _ refl h)

complete-need : (th : FsyncThread) → th.need_fsync ≡ true → (complete th).need_fsync ≡ true
unfolding complete
complete-need th h = rw h refl

from_synced : (s : System) (idx : ℕ) → s.worker ≡ synced idx → Ends s
from_synced s idx e = elim (Bool-cases s.thread.need_fsync) [
  | inl more ↦
      Ends-step (finish s idx e) refl (quiet_reporting _ idx refl (complete-need s.thread more))
  | inr last ↦ quiet_synced s idx e last
]

from_idle :
    (s : System)
    → s.thread.running ≡ s.thread.need_fsync
    → (s.thread.need_fsync ≡ true → Ends s)
    → Ends s
from_idle s same busy = elim (Bool-cases s.thread.need_fsync) [
  | inl more ↦ busy more
  | inr last ↦ (s, stop s, ground (arith, same, last), refl)
]

quiet_place : (s : System) (w : Worker) → s.worker ≡ w → At s w → Ends s
quiet_place s waiting e p = from_idle s p.0 (λ h. quiet_waiting s e h)
quiet_place s asleep e p = (s, stop s, p.0.0, refl)
quiet_place s (syncing fd idx) e p = Ends-step (sync s fd idx e) refl (from_synced _ idx refl)
quiet_place s (synced idx) e p = from_synced s idx e
quiet_place s (reporting idx) e p = from_idle s p.0 (λ h. quiet_reporting s idx e h)

wake_main-inside : (m : Main) → m ≢ elsewhere → wake_main m ≢ elsewhere
unfolding wake_main
wake_main-inside elsewhere h = h
wake_main-inside testing h = h
wake_main-inside blocked h = λ e. cc

signal_done-inside : (th : FsyncThread) (m : Main) → m ≢ elsewhere → signal_done th m ≢ elsewhere
unfolding signal_done
signal_done-inside th m h = elim (Bool-cases th.need_fsync) [
  | inl more ↦ rw more h
  | inr last ↦ rw last (wake_main-inside m h)
]

-- the main thread stays in its call while the thread works
Work-inside : {s t : System} → Work s t → s.main ≢ elsewhere → t.main ≢ elsewhere
Work-inside (sleep s e n) h = h
Work-inside (begin s e n) h = h
Work-inside (sync s fd idx e) h = h
Work-inside (finish s idx e) h = signal_done-inside s.thread s.main h
Work-inside (report s idx e) h = h

Run-inside : {s t : System} → Run s t → s.main ≢ elsewhere → t.main ≢ elsewhere
Run-inside (stop s) h = h
Run-inside (go w run) h = Run-inside run (Work-inside w h)

Run-Reach : {s t : System} → Run s t → Reach start s → Reach start t
Run-Reach (stop s) r = r
Run-Reach (go w run) r = Run-Reach run (next r (work w))

-- The call returns behind a run of the thread: nothing is running, the requests are the same, and the
-- last fsync() that returned was for the last of them.
abbrev pub Returns : System → Type 0
Returns s =
    (t u : System) × Run s t
    × Wait t u
    × (u.main ≡ elsewhere)
    × (u.thread.running ≡ false)
    × (u.requests ≡ s.requests)
    × (latest u.completed ≡ latest s.requests)

returned :
    (s t : System) (m : Main)
    → t.main ≡ m
    → Run s t
    → Reach start t
    → t.main ≢ elsewhere
    → t.thread.running ≡ false
    → t.requests ≡ s.requests
    → Returns s
returned s t elsewhere e run r inside off kept = absurd (inside e)
returned s t testing e run r inside off kept =
    (t, _, run, return t e off, refl, off, kept, completed_when_idle t r off ∙ ap latest kept)
returned s t blocked e run r inside off kept = let on = (Reach-IsConsistent r).awaited e in cc

-- From every reachable state in which the main thread is in `fsyncThreadWaitUntilCompleted`, asleep or not, the thread
-- can go on, if each fsync() returns, to a state from which that call returns by its own next step, with no other wakeup than the
-- signals of the source; then the last fsync() was for the last request, and no request has been made or dropped.
pub worker_finishes : (s : System) → Reach start s → s.main ≢ elsewhere → Returns s
worker_finishes s r inside =
    let (t, run, off, kept) = quiet_place s s.worker refl (Reach-IsConsistent r).place in
    returned s t t.main refl run (Run-Reach run r) (Run-inside run inside) off kept
