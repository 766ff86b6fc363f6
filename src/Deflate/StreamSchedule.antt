-- ===== src/Deflate/StreamSchedule.antt =====
-- How the threads of the streaming encoder of cozip_deflate/src/lib.rs take turns: the reading thread,
-- which waits while too much is in flight, the workers, which make chunks ready in any order, and the
-- writing loop, which takes them in the order of their indices. The writing loop loads `total_tasks`
-- and `closed` in two steps, and the reading thread counts a chunk and queues it in two steps; a worker
-- takes a task and has its chunk ready in one. `finals` is what the loop has decided for the chunks
-- that it has written.
pub mod InFlight
mod Tests
use cozip.Base.{
  ℕ, zero, suc, ◌+◌, ◌-◌, ◌≡◌, Bool, true, false, List, [], ◌∷◌, ◌++◌, ltb, leb, ◌==◌, ◌&&◌, ◌||◌,
  not,
}

-- The fields of HybridOptions that the threads look at.
pub record StreamLimits : Type 0 where
  pub stream_max_inflight_chunks : ℕ
  pub stream_max_inflight_bytes : ℕ

-- A task or a chunk: its index, and the length of its text.
abbrev pub Task : Type 0
Task = ℕ × ℕ

-- The reading thread waits for room, or reads, or has counted a task that it has not yet queued.
pub data Producer : Type 0 where
  waits : Producer
  reads : Producer
  counted : Task → Producer
  stopped : Producer

-- The writing loop has no chunk, or has taken one, or has loaded `total_tasks` for it, or has written
-- it as the last or not.
pub data Writer : Type 0 where
  looks : Writer
  took : Task → Writer
  loaded : Task → ℕ → Writer
  wrote : Task → Writer

pub record Shared : Type 0 where
  pub input : List ℕ
  pub total_tasks : ℕ
  pub written_tasks : ℕ
  pub inflight_raw_bytes : ℕ
  pub closed : Bool
  pub queue : List Task
  pub ready : List Task
  pub producer : Producer
  pub writer : Writer
  pub finals : List Bool

-- The state that the encoder begins with, on chunks of some lengths.
unfoldable pub begin : List ℕ → Shared
begin input = record {
  input = input;
  total_tasks = 0;
  written_tasks = 0;
  inflight_raw_bytes = 0;
  closed = false;
  queue = [];
  ready = [];
  producer = waits;
  writer = looks;
  finals = [];
}

-- The reading thread does not wait.
unfoldable pub has_room : StreamLimits → Shared → Bool
has_room limits s =
    let inflight_chunks = s.total_tasks - s.written_tasks in
    let chunk_limit_hit =
      ltb 0 limits.stream_max_inflight_chunks
      && leb limits.stream_max_inflight_chunks inflight_chunks in
    let byte_limit_hit =
      ltb 0 limits.stream_max_inflight_bytes
      && leb limits.stream_max_inflight_bytes s.inflight_raw_bytes in
    not (chunk_limit_hit || byte_limit_hit)

pub data Step (limits : StreamLimits) : Shared → Shared → Type 0 where
  go_on :
      (s : Shared)
      → s.producer ≡ waits
      → has_room limits s ≡ true
      → s.closed ≡ false
      → Step limits s (record s { producer = reads })
  read_chunk :
      (s : Shared) (raw : ℕ) (rest : List ℕ)
      → s.producer ≡ reads
      → s.input ≡ raw ∷ rest
      → Step limits s (record s {
        input = rest;
        total_tasks = s.total_tasks + 1;
        inflight_raw_bytes = s.inflight_raw_bytes + raw;
        producer = counted (s.total_tasks, raw);
      })
  queue_task :
      (s : Shared) (task : Task)
      → s.producer ≡ counted task
      → Step limits s (record s { queue = s.queue ++ (task ∷ []); producer = waits })
  reach_eof :
      (s : Shared)
      → s.producer ≡ reads
      → s.input ≡ []
      → Step limits s (record s { closed = true; producer = stopped })
  compress :
      (s : Shared) (before behind : List Task) (task : Task)
      → s.queue ≡ before ++ (task ∷ behind)
      → Step limits s (record s { queue = before ++ behind; ready = task ∷ s.ready })
  take_chunk :
      (s : Shared) (before behind : List Task) (raw : ℕ)
      → s.writer ≡ looks
      → s.ready ≡ before ++ ((s.written_tasks, raw) ∷ behind)
      → Step limits s (record s { ready = before ++ behind; writer = took (s.written_tasks, raw) })
  load_total :
      (s : Shared) (task : Task)
      → s.writer ≡ took task
      → Step limits s (record s { writer = loaded task s.total_tasks })
  write_task :
      (s : Shared) (task : Task) (total : ℕ)
      → s.writer ≡ loaded task total
      → Step limits s (record s {
        writer = wrote task;
        finals = s.finals ++ ((s.closed && task.0 + 1 == total) ∷ []);
      })
  finish_task :
      (s : Shared) (task : Task)
      → s.writer ≡ wrote task
      → Step limits s (record s {
        writer = looks;
        inflight_raw_bytes = s.inflight_raw_bytes - task.1;
        written_tasks = task.0 + 1;
      })

pub data Run (limits : StreamLimits) (s : Shared) : Shared → Type 0 where
  here : Run limits s s
  on : {t u : Shared} → Run limits s t → Step limits t u → Run limits s u
