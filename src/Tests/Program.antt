-- ===== src/Tests/Program.antt =====
-- The program at concrete inputs: a frame comes, and then a signal.
use montion_sense.Prelude.{◌/◌, ℕ, ◌≡◌, refl, arith, Bool, true, false, some, List, [], ◌∷◌, ok}
use montion_sense.Detector.{app_ctx_init, on_signal}
use montion_sense.FrameQueue.{fq_create, fq_push, push_locked, admit}
use montion_sense.Storage.Sql.{db_open_rw, db_exec, exec_rc}
use montion_sense.Storage.MetaDb.{meta_db_init, create_day_table}
use montion_sense.Storage.EventDb.{event_db_open, create_tables, event_db_add_segment, inserted_id}
use montion_sense.Prelude.Int.{to_int}
use montion_sense.Storage.Retention.Store.{Store, run_store}
use montion_sense.Storage.Writer.{
  open_today, with_folder, with_event_db, start_segment, close_on_fail, hls_create,
}
use montion_sense.Storage.Writer.Thread.{storage_init, boot, with_boot, with_today, with_meta_db}
use montion_sense.Program.{
  App, Start, Stop, after_loop, Threads, none_yet, then_step, pushed, signalled, ran, at_start,
  init_storage,
}
use montion_sense.Program.Ends.{Ends, Main-Ends}
use montion_sense.Program.Drains.{Good, depth, set_up, main-Emptied}
use montion_sense.Program.Filming.{Turn, encoded, written, film, then_drain}
use montion_sense.Program.Filming.Decodable.{Filmed, film-Filmed}
use montion_sense.Tests.Queue.{every_third, four, four-IsValid}
use montion_sense.Tests.Media.{all_succeed, starts}
use montion_sense.Tests.Writer.{
  cfg, media_input, opening, both_ok, moment, New, table, default_rates, opening-New,
  moment-Openable, open_writer,
}

abbrev start : Start Store ℕ
start = record {
  queue_alloc = true;
  slots_alloc = true;
  created = true;
  writes = both_ok;
  opening = opening;
  meta = some table;
  answers = all_succeed;
}

abbrev stop : Stop Store ℕ
stop = record { writes = both_ok; moments = moment ∷ [] }

abbrev no_day : List ℕ → Bool
no_day _ = false

ctx_starts : (app_ctx_init true true).0 ≡ ok
unfolding app_ctx_init fq_create
ctx_starts = refl

storage_starts :
    (init_storage media_input 5000 run_store cfg start
      (at_start media_input 5000 run_store cfg no_day).service).0
    ≡ ok
unfolding storage_init boot with_boot with_today with_meta_db meta_db_init create_day_table
    open_today with_folder with_event_db start_segment close_on_fail hls_create event_db_open
    create_tables db_open_rw db_exec exec_rc run_store event_db_add_segment inserted_id to_int
storage_starts = refl

abbrev running : App Store ℕ
running = set_up media_input 5000 run_store cfg New start no_day

abbrev with_frame : App Store ℕ
with_frame = record running {
  ctx = record running.ctx { vq = (fq_push running.ctx.vq (some (1 ∷ [])) 1 true 0 true).1 };
}

abbrev late : App Store ℕ
late = record with_frame { ctx = on_signal with_frame.ctx }

one_frame :
    Threads media_input 5000 run_store cfg (Good media_input 5000 run_store cfg New) running late
one_frame =
    then_step (then_step none_yet (pushed running (some (1 ∷ [])) 1 true 0 true))
      (signalled with_frame)

late_depth : depth late.ctx.vq ≡ 1
unfolding on_signal fq_push push_locked admit app_ctx_init fq_create
late_depth = refl

signal_seen : late.ctx.is_running ≡ false
unfolding on_signal
signal_seen = refl

ending : (end : App Store ℕ) × (after_loop media_input 5000 run_store cfg stop late ≡ some end)
ending =
    let e =
      main-Emptied media_input 5000 run_store cfg New 1 30 default_rates.0 default_rates.1
        (omega arith) (omega arith) start no_day stop opening-New storage_starts one_frame
        (moment-Openable, tt) (rw late_depth (omega arith)) in
    (e.1, e.2)

Main-Ends_example : Ends 0 ending.0
Main-Ends_example =
    Main-Ends media_input 5000 run_store cfg (Good media_input 5000 run_store cfg New) no_day
      (ran start stop ctx_starts storage_starts (starts "0.05") one_frame signal_seen ending.1)

-- Two frames, of which the writer has taken one when the recording ends.
abbrev turns : List (Turn Store ℕ)
turns = encoded ∷ written moment ∷ encoded ∷ []

film-Filmed_example :
    Filmed media_input New
      (λ pts. pts / 33_333)
      (then_drain media_input 5000 run_store cfg every_third
        (moment ∷ moment ∷ [])
        (film media_input 5000 run_store cfg every_third 0 turns four (open_writer, no_day)))
film-Filmed_example =
    film-Filmed media_input 5000 run_store cfg New 1 30 default_rates.0 default_rates.1
      (omega arith) (omega arith) every_third turns (moment ∷ moment ∷ []) four open_writer no_day 0
      four-IsValid refl refl (omega arith) refl refl refl (moment-Openable, tt)
      (moment-Openable, (moment-Openable, tt))
