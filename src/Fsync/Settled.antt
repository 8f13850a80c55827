-- ===== src/Fsync/Settled.antt =====
-- What holds whenever nobody holds the mutex, and what it means that the thread is not running.
use mathlib.Core.Path.{subst}
use redisraft.Prelude.{
  ◌≢◌, ℕ, ◌≡◌, ◌⊎◌, inl, inr, refl, true, false, Option, none, some, List, [], ◌∷◌, arith,
  Bool-cases,
}
use redisraft.Fsync.{
  Worker, System, Work, Step, Reach, Main, Wait, elsewhere, testing, blocked, sleep, block, return,
  wait, call, wakes, wakes_main, wake_worker, wake_main, signal_done, asleep, waiting, syncing,
  synced, reporting, start, add_task, take_request, complete, begin, sync, finish, report, work,
  request, here, next,
}

abbrev pub latest : List ℕ → Option ℕ
latest [] = none
latest (i ∷ is) = some i

-- what holds at each place of the loop
abbrev pub At : System → Worker → Type 0
At s waiting =
    (s.thread.running ≡ s.thread.need_fsync)
    × (s.thread.need_fsync ≡ false → latest s.completed ≡ latest s.requests)
    × (s.completed ≡ s.reported)
At s asleep =
    ((s.thread.running ≡ false) × (s.thread.need_fsync ≡ false))
    × (s.thread.need_fsync ≡ false → latest s.completed ≡ latest s.requests)
    × (s.completed ≡ s.reported)
At s (syncing fd idx) =
    (s.thread.running ≡ true)
    × (s.thread.need_fsync ≡ false → some idx ≡ latest s.requests)
    × (s.completed ≡ s.reported)
At s (synced idx) =
    (s.thread.running ≡ true)
    × (s.thread.need_fsync ≡ false → some idx ≡ latest s.requests)
    × (s.completed ≡ idx ∷ s.reported)
At s (reporting idx) =
    (s.thread.running ≡ s.thread.need_fsync)
    × (s.thread.need_fsync ≡ false → latest s.completed ≡ latest s.requests)
    × (s.completed ≡ idx ∷ s.reported)

pub record IsConsistent (s : System) : Type 0 where
  pub wanted : s.thread.need_fsync ≡ true → some s.thread.requested_index ≡ latest s.requests
  pub place : At s s.worker
  pub awaited : s.main ≡ blocked → s.thread.running ≡ true

at : {s : System} {w : Worker} → IsConsistent s → s.worker ≡ w → At s w
at {s} c e = subst (λ w. At s w) e c.place

woken : (m : Main) → wake_main m ≢ blocked
unfolding wake_main
woken elsewhere h = cc
woken testing h = cc
woken blocked h = cc

Work-IsConsistent : {s t : System} → Work s t → IsConsistent s → IsConsistent t
unfolding take_request complete signal_done
Work-IsConsistent (sleep s e n) c =
    let p = at c e in
    record {
      wanted = c.wanted;
      place = ((ground (arith, p.0, n), n), p.1, p.2);
      awaited = c.awaited;
    }
Work-IsConsistent (begin s e n) c =
    let p = at c e in
    record {
      wanted = λ h. cc;
      place = (ground (arith, p.0, n), (λ h. c.wanted n), p.2);
      awaited = c.awaited;
    }
Work-IsConsistent (sync s fd idx e) c =
    let p = at c e in
    record { wanted = c.wanted; place = (p.0, p.1, ground (arith, p.2)); awaited = c.awaited }
Work-IsConsistent (finish s idx e) c =
    let p = at c e in
    elim (Bool-cases s.thread.need_fsync) [
      | inl more ↦ rw more (record {
        wanted = λ h. c.wanted more;
        place = (p.0, (λ h. cc), p.2);
        awaited = c.awaited;
      })
      | inr none_left ↦ rw none_left (record {
        wanted = λ h. cc;
        place = (ground (arith, none_left), (λ h. rw p.2 (p.1 none_left)), p.2);
        awaited = λ h. absurd (woken s.main h);
      })
    ]
Work-IsConsistent (report s idx e) c =
    let p = at c e in record { wanted = c.wanted; place = (p.0, p.1, p.2); awaited = c.awaited }

main-At : (s : System) (m : Main) (w : Worker) → At s w → At (record s { main = m }) w
main-At s m waiting p = p
main-At s m asleep p = p
main-At s m (syncing fd idx) p = p
main-At s m (synced idx) p = p
main-At s m (reporting idx) p = p

Wait-IsConsistent : {s t : System} → Wait s t → IsConsistent s → IsConsistent t
Wait-IsConsistent (block s e on) c = record {
  wanted = c.wanted;
  place = main-At s blocked s.worker c.place;
  awaited = λ h. on;
}
Wait-IsConsistent (return s e off) c = record {
  wanted = c.wanted;
  place = main-At s elsewhere s.worker c.place;
  awaited = λ h. cc;
}

request-At :
    (s : System) (w : Worker) (fd idx : ℕ)
    → At s w
    → At
        (record s {
          thread = add_task fd idx s.thread;
          worker = wake_worker w;
          requests = idx ∷ s.requests;
        })
        (wake_worker w)
unfolding add_task wake_worker
request-At s waiting fd idx p = (refl, (λ h. cc), p.2)
request-At s asleep fd idx p = (refl, (λ h. cc), p.2)
request-At s (syncing f i) fd idx p = (refl, (λ h. cc), p.2)
request-At s (synced i) fd idx p = (refl, (λ h. cc), p.2)
request-At s (reporting i) fd idx p = (refl, (λ h. cc), p.2)

Step-IsConsistent : {s t : System} → Step s t → IsConsistent s → IsConsistent t
unfolding add_task
Step-IsConsistent (work w) c = Work-IsConsistent w c
Step-IsConsistent (wait w) c = Wait-IsConsistent w c
Step-IsConsistent (call s e) c = record {
  wanted = c.wanted;
  place = main-At s testing s.worker c.place;
  awaited = λ h. cc;
}
Step-IsConsistent (request s fd idx e) c = record {
  wanted = λ h. refl;
  place = request-At s s.worker fd idx c.place;
  awaited = λ h. refl;
}
Step-IsConsistent (wakes s e) c =
    let p = at c e in
    record { wanted = c.wanted; place = (ground (arith, p.0), p.1, p.2); awaited = c.awaited }
Step-IsConsistent (wakes_main s e) c = record {
  wanted = c.wanted;
  place = main-At s testing s.worker c.place;
  awaited = λ h. cc;
}

pub Reach-IsConsistent : {s : System} → Reach start s → IsConsistent s
Reach-IsConsistent here = record {
  wanted = λ h. cc;
  place = (refl, (λ h. refl), refl);
  awaited = λ h. cc;
}
Reach-IsConsistent (next r st) = Step-IsConsistent st (Reach-IsConsistent r)

-- in the waiting states, or wherever the flag is off
settled :
    (s : System) (w : Worker)
    → At s w
    → s.thread.running ≡ false
    → latest s.completed ≡ latest s.requests
settled s waiting p off = p.1 (ground (arith, p.0, off))
settled s asleep p off = p.1 p.0.1
settled s (syncing fd idx) p off = cc
settled s (synced idx) p off = cc
settled s (reporting idx) p off = p.1 (ground (arith, p.0, off))

-- In whatever order requests come in while the thread works, once `running` is off, which is what
-- `fsyncThreadWaitUntilCompleted` waits for, the last fsync() that returned was called with the index
-- of the last request.
pub completed_when_idle :
    (s : System) → Reach start s → s.thread.running ≡ false → latest s.completed ≡ latest s.requests
completed_when_idle s r off = settled s s.worker (Reach-IsConsistent r).place off

reported_place :
    (s : System) (w : Worker)
    → At s w
    → (s.completed ≡ s.reported) ⊎ ((idx : ℕ) × (s.completed ≡ idx ∷ s.reported))
reported_place s waiting p = inl p.2
reported_place s asleep p = inl p.2
reported_place s (syncing fd idx) p = inl p.2
reported_place s (synced idx) p = inr (idx, p.2)
reported_place s (reporting idx) p = inr (idx, p.2)

-- In every reachable state the results sent to the event loop are the completed calls of fsync(), in their order and
-- each once, but possibly for the last of them, which is still to be sent.
pub reported_in_order :
    (s : System)
    → Reach start s
    → (s.completed ≡ s.reported) ⊎ ((idx : ℕ) × (s.completed ≡ idx ∷ s.reported))
reported_in_order s r = reported_place s s.worker (Reach-IsConsistent r).place
