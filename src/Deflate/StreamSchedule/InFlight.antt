-- ===== src/Deflate/StreamSchedule/InFlight.antt =====
-- How many chunks are in flight, in every order of the threads' steps.
use cozip.Base.{
  ℕ, ◌+◌, ◌-◌, ◌≤◌, ◌<◌, ◌≡◌, refl, Bool, true, false, Bool-cases, inl, inr, List, [], ◌∷◌, ◌++◌,
  ◌==◌, ◌&&◌, All, All-append, arith,
}
use cozip.Deflate.StreamSchedule.{
  StreamLimits, Producer, waits, reads, counted, stopped, Task, Writer, looks, took, loaded, wrote,
  Shared, begin, has_room, Step, go_on, read_chunk, queue_task, reach_eof, compress, take_chunk,
  load_total, write_task, finish_task, Run, here, on,
}

-- An element in the middle of a list.
All-middle {ℓ κ} :
    {A : Type ℓ} (P : A → Type κ) (xs : List A) (x : A) (ys : List A)
    → All P (xs ++ (x ∷ ys))
    → P x × All P (xs ++ ys)
All-middle P [] x ys h = h
All-middle P (y ∷ xs) x ys (h, t) = let (p, rest) = All-middle P xs x ys t in (p, (h, rest))

module _ (limits : StreamLimits) where
  abbrev limit : ℕ
  limit = limits.stream_max_inflight_chunks

  -- One more chunk may be in flight.
  abbrev IsBelow : ℕ → ℕ → Type 0
  IsBelow total written = 0 < limit → total < written + limit

  abbrev Produces : Bool → ℕ → ℕ → Producer → Type 0
  Produces closed total written waits = Unit
  Produces closed total written reads = (closed ≡ false) × IsBelow total written
  Produces closed total written (counted task) = task.0 < total
  Produces closed total written stopped = Unit

  abbrev IsNext : ℕ → ℕ → Task → Type 0
  IsNext total written task = (task.0 ≡ written) × (task.0 < total)

  abbrev Writing : ℕ → ℕ → Writer → Type 0
  Writing total written looks = Unit
  Writing total written (took task) = IsNext total written task
  Writing total written (loaded task n) = IsNext total written task
  Writing total written (wrote task) = IsNext total written task

  record Keeps (s : Shared) : Type 0 where
    ordered : s.written_tasks ≤ s.total_tasks
    within : 0 < limit → s.total_tasks ≤ s.written_tasks + limit
    queued : All (λ (task : Task). task.0 < s.total_tasks) s.queue
    ready : All (λ (task : Task). task.0 < s.total_tasks) s.ready
    at_eof : s.closed ≡ true → IsBelow s.total_tasks s.written_tasks
    producing : Produces s.closed s.total_tasks s.written_tasks s.producer
    writing : Writing s.total_tasks s.written_tasks s.writer
    open_ended : limit ≡ 1 → All (λ final. final ≡ false) s.finals

  begin-Keeps : (input : List ℕ) → Keeps (begin input)
  unfolding begin
  begin-Keeps input = record {
    ordered = omega arith;
    within = λ h. omega arith;
    queued = tt;
    ready = tt;
    at_eof = λ e. absurd (cc e);
    producing = tt;
    writing = tt;
    open_ended = λ e. tt;
  }

  more_tasks :
      (n : ℕ) (tasks : List Task)
      → All (λ (task : Task). task.0 < n) tasks
      → All (λ (task : Task). task.0 < n + 1) tasks
  more_tasks n [] h = tt
  more_tasks n (task ∷ tasks) (h, t) = (omega arith, more_tasks n tasks t)

  Writing-more :
      (w : Writer) (total written : ℕ) → Writing total written w → Writing (total + 1) written w
  Writing-more looks total written h = tt
  Writing-more (took task) total written h = (h.0, omega (arith, h))
  Writing-more (loaded task n) total written h = (h.0, omega (arith, h))
  Writing-more (wrote task) total written h = (h.0, omega (arith, h))

  room-IsBelow : (s : Shared) → has_room limits s ≡ true → IsBelow s.total_tasks s.written_tasks
  unfolding has_room
  room-IsBelow s h some_limit = ground (arith, h)

  -- With one chunk in flight the input is still open while a chunk is written.
  not_last :
      (s : Shared)
      → Keeps s
      → (task : Task) (total : ℕ) → IsNext s.total_tasks s.written_tasks task
      → limit ≡ 1
      → (s.closed && task.0 + 1 == total) ≡ false
  not_last s k task total next one = elim (Bool-cases s.closed) [
    | inl at_end ↦ absurd (omega (arith, k.at_eof at_end (omega arith), next))
    | inr more ↦ rw more refl
  ]

  producing_on :
      (p : Producer) (closed : Bool) (total written : ℕ) (n : ℕ)
      → written ≤ n
      → Produces closed total written p
      → Produces closed total n p
  producing_on waits closed total written n h p = tt
  producing_on reads closed total written n h p = (p.0, λ some. omega (arith, p.1 some))
  producing_on (counted task) closed total written n h p = p
  producing_on stopped closed total written n h p = tt

  Step-Keeps : {s u : Shared} → Step limits s u → Keeps s → Keeps u
  Step-Keeps (go_on s e room is_open) k = record {
    ordered = k.ordered;
    within = k.within;
    queued = k.queued;
    ready = k.ready;
    at_eof = k.at_eof;
    producing = (is_open, room-IsBelow s room);
    writing = k.writing;
    open_ended = k.open_ended;
  }
  Step-Keeps (read_chunk s raw rest e i) k =
      let (is_open, below) : Produces s.closed s.total_tasks s.written_tasks reads =
        rw e at k.producing in
      record {
        ordered = omega (arith, k.ordered);
        within = λ h. omega (arith, below h);
        queued = more_tasks s.total_tasks s.queue k.queued;
        ready = more_tasks s.total_tasks s.ready k.ready;
        at_eof = λ c. absurd (ground (arith, c, is_open));
        producing = omega arith;
        writing = Writing-more s.writer s.total_tasks s.written_tasks k.writing;
        open_ended = k.open_ended;
      }
  Step-Keeps (queue_task s task e) k =
      let counted_task : task.0 < s.total_tasks = rw e at k.producing in
      record {
        ordered = k.ordered;
        within = k.within;
        queued = All-append _ s.queue (task ∷ []) k.queued (counted_task, tt);
        ready = k.ready;
        at_eof = k.at_eof;
        producing = tt;
        writing = k.writing;
        open_ended = k.open_ended;
      }
  Step-Keeps (reach_eof s e i) k =
      let (is_open, below) : Produces s.closed s.total_tasks s.written_tasks reads =
        rw e at k.producing in
      record {
        ordered = k.ordered;
        within = k.within;
        queued = k.queued;
        ready = k.ready;
        at_eof = λ c. below;
        producing = tt;
        writing = k.writing;
        open_ended = k.open_ended;
      }
  Step-Keeps (compress s before behind task e) k =
      let (made, rest) = All-middle _ before task behind (rw e at k.queued) in
      record {
        ordered = k.ordered;
        within = k.within;
        queued = rest;
        ready = (made, k.ready);
        at_eof = k.at_eof;
        producing = k.producing;
        writing = k.writing;
        open_ended = k.open_ended;
      }
  Step-Keeps (take_chunk s before behind raw w e) k =
      let (made, rest) = All-middle _ before (s.written_tasks, raw) behind (rw e at k.ready) in
      record {
        ordered = k.ordered;
        within = k.within;
        queued = k.queued;
        ready = rest;
        at_eof = k.at_eof;
        producing = k.producing;
        writing = (refl, made);
        open_ended = k.open_ended;
      }
  Step-Keeps (load_total s task w) k = record {
    ordered = k.ordered;
    within = k.within;
    queued = k.queued;
    ready = k.ready;
    at_eof = k.at_eof;
    producing = k.producing;
    writing = rw w at k.writing;
    open_ended = k.open_ended;
  }
  Step-Keeps (write_task s task total w) k =
      let next : IsNext s.total_tasks s.written_tasks task = rw w at k.writing in
      record {
        ordered = k.ordered;
        within = k.within;
        queued = k.queued;
        ready = k.ready;
        at_eof = k.at_eof;
        producing = k.producing;
        writing = next;
        open_ended = λ one.
            All-append _ s.finals _ (k.open_ended one) (not_last s k task total next one, tt);
      }
  Step-Keeps (finish_task s task w) k =
      let next : IsNext s.total_tasks s.written_tasks task = rw w at k.writing in
      record {
        ordered = omega (arith, next);
        within = λ h. omega (arith, k.within h, next);
        queued = k.queued;
        ready = k.ready;
        at_eof = λ c h. omega (arith, k.at_eof c h, next);
        producing =
            producing_on s.producer s.closed s.total_tasks s.written_tasks (task.0 + 1)
              (omega (arith, next)) k.producing;
        writing = tt;
        open_ended = k.open_ended;
      }

  Run-Keeps : {s u : Shared} → Keeps s → Run limits s u → Keeps u
  Run-Keeps k here = k
  Run-Keeps k (on run step) = Step-Keeps step (Run-Keeps k run)

-- In every run of the threads, on any input, at most as many chunks are in flight as the limit on
-- chunks says, where it is not 0: so many have been read and not yet written.
pub Run-within :
    (limits : StreamLimits) (input : List ℕ) {s : Shared}
    → 0 < limits.stream_max_inflight_chunks
    → Run limits (begin input) s
    → (s.written_tasks ≤ s.total_tasks)
      × (s.total_tasks - s.written_tasks ≤ limits.stream_max_inflight_chunks)
Run-within limits input some_limit run =
    let k = Run-Keeps limits (begin-Keeps limits input) run in
    (k.ordered, omega (arith, k.within some_limit))

-- Where the limit is one chunk in flight, in every run and on any input, the writing loop takes no
-- chunk for the last one: the reading thread finds the end of the input only when all chunks that it
-- has read are written.
pub Run-never_final :
    (limits : StreamLimits) (input : List ℕ) {s : Shared}
    → limits.stream_max_inflight_chunks ≡ 1
    → Run limits (begin input) s
    → All (λ final. final ≡ false) s.finals
Run-never_final limits input one run =
    (Run-Keeps limits (begin-Keeps limits input) run).open_ended one
