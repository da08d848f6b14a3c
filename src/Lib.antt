-- ===== src/Lib.antt =====
-- MotionSense records what a camera sees. It runs on a small board with 32-bit words. src/media.c
-- reads the sensor: h264_thread keeps some of its frames, gives them a time line and pushes the
-- encoded frames into the queue of src/frame_queue.c; mjpeg_thread sends pictures to the web
-- process over a socket; ivs_thread sets the motion state. The writer thread of src/storage.c
-- takes the frames from the queue and gives them to libhls, which cuts segments; it writes each
-- segment and the playlist to the card, keeps two SQLite databases (src/storage_db.c), opens a new
-- folder for each day and deletes old days when the card is full. src/config.c reads the
-- configuration, src/utils.c has the file helpers, and src/main.c starts and stops all this.
--
-- The modules, with the files that they model:
--
--   FrameQueue: src/frame_queue.c, all of it. A call holds the mutex from its start to its end,
--     so a call is one step; fq_pop gives `blocked` where the code waits. size_t has 32 bits.
--     The loop of drop_frames has the count as its fuel, which is enough since each turn takes
--     a frame away. FrameQueue.Calls has the sequences of calls, and FrameQueue.Feed the
--     abstract queue.
--
--   Capture: src/media.c, h264_thread: which frames are kept and how they are stamped
--     (Capture), and its turns through the encoder into the queue (Encode). The encoder is a
--     parameter: the picture that it gives for a time stamp.
--
--   Detector: include/motionsense/app_ctx.h, src/media.c, ivs_thread, and src/main.c up to
--     app_ctx_deinit: the motion state and the rate that the threads share. The type float, in
--     which the threshold is computed, is a parameter.
--
--   WebSock: src/media.c, web_sock_srv_init, web_sock_push and the loop of mjpeg_thread.
--
--   Media: src/media.c, the device and the image processor (Devices), the three pipelines
--     (Attrs and Pipelines), the overlay with its place and its time (Overlay), and media_init,
--     media_stop and media_deinit (Life), over a board: all that the vendor's library, the
--     overlay and the threads hold, with the file's static variables. Which calls succeed is an
--     argument, and those that release never fail. A label of media_init is a function that
--     goes on to the next label. A thread that is told to stop returns by itself; that it has
--     been joined is what the flags say.
--
--   Config: src/config.c and include/motionsense/config.h. A document of libyaml is a tree of
--     nodes; atoi and strtoul are written out, but for what atoi makes of a numeral that no int
--     holds, which is a parameter, as are the type float and atof.
--
--   Utils: src/utils.c, with the results of the system calls as arguments. A list of results
--     stands for the calls of write in write_all, which has no bound of its own.
--
--   Storage.AtomicFile: src/storage.c, failpoint_hit and write_file_atomic, with every disk
--     between two system calls.
--
--   Storage.Sql, MetaDb, EventDb, Retention: src/storage_db.c. SQLite is a parameter: a
--     function that answers a statement. Storage.Retention.Engine states what its answers mean
--     for the table VideoMetadata, and Storage.Retention.Store is a table that has this
--     meaning; Storage.EventDb.Journal states it for VideoSegments and EventDetails.
--
--   Storage.Writer: src/storage_internal.h, and src/storage.c from hls_cb to storage_deinit:
--     the segments and days (Writer), the clean-up (Cleanup), one frame (Ingest) and the thread
--     (Thread). libhls is a parameter: a muxer that takes a frame, calls hls_cb at most once,
--     with the segment that it cuts, and goes on by its result. How many lines of the playlist
--     the 2 MiB of s_m3u_buf hold is an argument; a line that is cut is left out. Undefined
--     behaviour is `none`. The log is left out.
--
--   Storage.Paths: the names on the card, from src/storage.c, src/storage_db.c and
--     src/storage_internal.h: dates, folders and files as texts, cut as snprintf cuts them, the
--     time at which a segment starts, and the count of a day's folders. An int that is not
--     negative has at most 10 digits, the fuel of digits.
--
--   Program: src/main.c, main, as a relation: which calls it makes, what it returns and what is
--     held then. Between its calls the threads of src/media.c and src/storage.c take steps, in
--     any order. Program.Stopping, Ends and Drains have its end. Program.Filming has the way of
--     a frame from the encoder of src/media.c, h264_thread, through the queue to the muxer of
--     src/storage.c, writer_thread, the two taking turns in any order; the time stamp of a
--     frame tells which one it is.
--
--   Prelude: numbers, lists, texts and results that the others share. Tests: runs at fixed
--     inputs.
--
-- Not modelled: the pixels that 3rdparty/osd draws, the log, the copies of other projects in
-- 3rdparty, and the web agent.
pub mod Prelude
pub mod FrameQueue
pub mod Capture
pub mod Utils
pub mod Storage
pub mod Config
pub mod WebSock
pub mod Detector
pub mod Media
pub mod Program
mod Tests
