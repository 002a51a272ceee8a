-- ===== src/Scheduler/Routing.antt =====
-- Who gets a response: `trickle_down`, `offer` and `complete` of the scheduler.
use imap_client.Prelude.{
  Option, none, some, List, [], ◌∷◌, ◌++◌, ◌≡◌, refl, append-nil, ok, err, All, ◌⊎◌, inl, inr,
  arith,
}
use imap_client.Prelude.Deque.{IsFirst, remove_first-Removes}
use imap_client.Imap.{ImapTypes, Response, Tagged, error}
use imap_client.Task.{Registry, TaskAny, process_tagged}
use imap_client.Scheduler.ClientNext.{ClientNext}
use imap_client.Scheduler.TaskMap.{Entry, HasTag, remove_by_tag}
use imap_client.Scheduler.Trickle.{trickle_down}
use imap_client.Scheduler.State.{Scheduler, SchedulerEvent, Progressed, unexpected_tagged_response}
use imap_client.Scheduler.Progress.{Flow, continues, return, offer, on_entry, complete}

module _ {A I : Type 0} (f : I → A → Option A × I) (a : A) where
  -- A consumer hands the response back as it is, and does not change.
  abbrev pub Declines : I → Type 0
  Declines c = f c a ≡ (some a, c)

  -- The response goes to the first consumer that does not decline it.
  trickle-append :
      (before rest : List I)
      → All Declines before
      → trickle_down a (before ++ rest) f
        ≡ ((trickle_down a rest f).0, before ++ (trickle_down a rest f).1)
  unfolding trickle_down
  trickle-append [] rest h = refl
  trickle-append (c ∷ before) rest h = ground (arith, h.0, trickle-append before rest h.1)

module _ {T : ImapTypes} {R : Registry T} {N : ClientNext T} {A : Type 0} (s : Scheduler R N)
    (a : A) (f : TaskAny R → A → Option A × TaskAny R) (response : A → Response T) where
  offer_kept :
      (before : List (Entry R)) (entry : Entry R) (after : List (Entry R)) (task : TaskAny R)
      → s.active_tasks ≡ before ++ entry ∷ after
      → All (Declines (on_entry f) a) before
      → f entry.task a ≡ (none, task)
      → offer s a f response
        ≡ continues (record s { active_tasks = before ++ record entry { task = task } ∷ after })
  unfolding offer trickle_down
  offer_kept before entry after task split declined kept =
      rw split (ground (arith, kept, trickle-append (on_entry f) a before (entry ∷ after) declined))

  offer_declined :
      All (Declines (on_entry f) a) s.active_tasks
      → offer s a f response ≡ return s (ok (SchedulerEvent.unsolicited (response a)))
  unfolding offer trickle_down
  offer_declined declined =
      ground
        (arith, trickle-append (on_entry f) a s.active_tasks [] declined, append-nil s.active_tasks)

  -- If all active tasks decline a response, it is returned as unsolicited, and nothing changes. If
  -- the tasks before `entry` decline it and that of `entry` keeps it, then the task of `entry` has
  -- its new state, all else is as before, and the loop goes on: the tasks after it do not get it.
  pub offer_routes :
      (All (Declines (on_entry f) a) s.active_tasks
        → offer s a f response ≡ return s (ok (SchedulerEvent.unsolicited (response a))))
      × ((before : List (Entry R)) (entry : Entry R) (after : List (Entry R)) (task : TaskAny R)
          → s.active_tasks ≡ before ++ entry ∷ after
          → All (Declines (on_entry f) a) before
          → f entry.task a ≡ (none, task)
          → offer s a f response
            ≡ continues
                (record s { active_tasks = before ++ record entry { task = task } ∷ after }))
  offer_routes = (offer_declined, offer_kept)

module _ {T : ImapTypes} {R : Registry T} {N : ClientNext T} (s : Scheduler R N)
    (tagged : Tagged T) where
  -- How a tagged status ends an iteration of the loop.
  abbrev pub Completes : Flow (Scheduler R N) (Progressed R) → Type 0
  Completes flow =
      (All (λ e. ¬ HasTag tagged.tag e) s.active_tasks
        × (flow ≡ return s (err (error (unexpected_tagged_response tagged)))))
      ⊎ ((entry : Entry R) × (rest : List (Entry R)) × IsFirst (HasTag tagged.tag) s.active_tasks
            entry rest
          × (flow
              ≡ return (record s { active_tasks = rest })
                  (ok (
                    SchedulerEvent.task_finished (record {
                      handle = entry.handle;
                      output = some (process_tagged R entry.task tagged.body);
                    })))))

  -- A tagged status is an error that changes nothing if no active task has its tag. Otherwise it
  -- completes the first active task of its tag: that task alone leaves the queue, and the token
  -- has its handle and what it makes of the status.
  pub complete_by_tag : Completes (complete s tagged)
  unfolding complete remove_by_tag
  complete_by_tag =
      elim (remove_first-Removes {P = HasTag tagged.tag} (λ e. T.tag_discrete tagged.tag e.tag)
        s.active_tasks) [
          | inl (misses, e) ↦ inl (misses, ground (arith, e))
          | inr (entry, rest, first, e) ↦ inr (entry, rest, first, ground (arith, e))
        ]
