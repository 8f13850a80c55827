-- ===== src/Fsync/Tests.antt =====
-- A request that comes while an earlier one is in fsync().
use redisraft.Prelude.{◌≡◌, ◌≢◌, refl, true, false, [], ◌∷◌}
use redisraft.Fsync.{
  Bool, System, elsewhere, blocked, call, wait, block, wake_worker, wake_main, signal_done,
  FsyncThread, Reach, start, syncing, reporting, here, next, work, begin, sync, finish, report,
  request, add_task, take_request, complete,
}
use redisraft.Fsync.Settled.{completed_when_idle, latest}
use redisraft.Fsync.Progress.{worker_finishes, Returns}

abbrev thread_at : Bool → Bool → FsyncThread
thread_at need running = record {
  requested_index = 8;
  fd = 3;
  need_fsync = need;
  running = running;
}

-- in fsync() for index 7, with 8 asked for
abbrev overtaken : System
overtaken = record {
  thread = thread_at true true;
  worker = syncing 3 7;
  main = elsewhere;
  requests = 8 ∷ 7 ∷ [];
  completed = [];
  reported = [];
}

overtaken-Reach : Reach start overtaken
unfolding add_task take_request wake_worker
overtaken-Reach =
    next (next (next here (request start 3 7 refl)) (work (begin _ refl refl))) (request _ 3 8 refl)

-- both are done, and the second result is still to be sent
abbrev ended : System
ended = record {
  thread = thread_at false false;
  worker = reporting 8;
  main = elsewhere;
  requests = 8 ∷ 7 ∷ [];
  completed = 8 ∷ 7 ∷ [];
  reported = 7 ∷ [];
}

ended-Reach : Reach start ended
unfolding take_request complete signal_done wake_main
ended-Reach =
    next
      (next
        (next
          (next (next (next overtaken-Reach (work (sync _ 3 7 refl))) (work (finish _ 7 refl)))
            (work (report _ 7 refl)))
          (work (begin _ refl refl)))
        (work (sync _ 3 8 refl)))
      (work (finish _ 8 refl))

completed_when_idle_example : latest ended.completed ≡ latest ended.requests
completed_when_idle_example = completed_when_idle ended ended-Reach refl

-- the main thread sleeps until both are done
abbrev awaited : System
awaited = record overtaken { main = blocked }

awaited-Reach : Reach start awaited
awaited-Reach = next (next overtaken-Reach (call _ refl)) (wait (block _ refl refl))

inside : awaited.main ≢ elsewhere
inside e = cc

worker_finishes_example : Returns awaited
worker_finishes_example = worker_finishes awaited awaited-Reach inside
