-- ===== src/Deflate/StreamSchedule/Tests.antt =====
-- A whole run on an input of one chunk, with one chunk in flight.
use cozip.Base.{◌-◌, ◌≤◌, ◌≡◌, refl, true, false, [], ◌∷◌, All, arith}
use cozip.Deflate.StreamSchedule.{
  StreamLimits, stopped, looks, Shared, begin, has_room, go_on, read_chunk, queue_task, reach_eof,
  compress, take_chunk, load_total, write_task, finish_task, Run, here, on,
}
use cozip.Deflate.StreamSchedule.InFlight.{Run-within, Run-never_final}

abbrev one_in_flight : StreamLimits
one_in_flight = record { stream_max_inflight_chunks = 1; stream_max_inflight_bytes = 0 }

-- All is written and the input is at its end, and the one chunk was not taken for the last.
abbrev all_written : Shared
all_written = record {
  input = [];
  total_tasks = 1;
  written_tasks = 1;
  inflight_raw_bytes = 0;
  closed = true;
  queue = [];
  ready = [];
  producer = stopped;
  writer = looks;
  finals = false ∷ [];
}

one_chunk : Run one_in_flight (begin (5 ∷ [])) all_written
unfolding begin has_room
one_chunk =
    on
      (on
        (on
          (on
            (on
              (on
                (on
                  (on (on (on here (go_on _ refl refl refl)) (read_chunk _ 5 [] refl refl))
                    (queue_task _ (0, 5) refl))
                  (compress _ [] [] (0, 5) refl))
                (take_chunk _ [] [] 5 refl refl))
              (load_total _ (0, 5) refl))
            (write_task _ (0, 5) 1 refl))
          (finish_task _ (0, 5) refl))
        (go_on _ refl refl refl))
      (reach_eof _ refl refl)

Run-within_example :
    (all_written.written_tasks ≤ all_written.total_tasks)
    × (all_written.total_tasks - all_written.written_tasks
        ≤ one_in_flight.stream_max_inflight_chunks)
Run-within_example = Run-within one_in_flight (5 ∷ []) (omega arith) one_chunk

Run-never_final_example : All (λ final. final ≡ false) all_written.finals
Run-never_final_example = Run-never_final one_in_flight (5 ∷ []) refl one_chunk
