-- ===== src/Media/Life/Labels.antt =====
-- The labels of `media_init` in src/media.c: what they give back.
use montion_sense.Prelude.{◌≡◌, refl, ◌∙◌, false, none, Rc, ok, fail}
use montion_sense.Media.{Board, off}
use montion_sense.Media.Devices.{vi_dev_deinit}
use montion_sense.Media.Pipelines.{record_pipeline_deinit, stream_pipeline_deinit}
use montion_sense.Media.Life.Stop.{aiq_stop_lem, fail_threads_lem}
use montion_sense.Media.Life.{
  fail_sys, fail_vi, fail_aiq, fail_pipe0, fail_pipe1, fail_threads, or_goto,
}

-- The producers are told to stop, and none but the overlay's thread waits to be joined.
pub record Quiet (b : Board) : Type 0 where
  pub producers_run : b.producers_run ≡ false
  pub h264_started : b.h264_started ≡ false
  pub mjpeg_started : b.mjpeg_started ≡ false
  pub ivs_started : b.ivs_started ≡ false

-- Nor is there an H264 encoder.
pub record Idle (b : Board) : Type 0 where
  pub quiet : Quiet b
  pub venc_h264 : b.venc_h264 ≡ none
  pub recv_h264 : b.recv_h264 ≡ false

-- Nor do the image processor and the vendor's system run.
pub record Down (b : Board) : Type 0 where
  pub idle : Idle b
  pub aiq : b.aiq ≡ false
  pub sys : b.sys ≡ false

abbrev pub DownOnFail : Rc × Board → Type 0
DownOnFail r = r.0 ≡ fail → Down r.1

pub or_goto-DownOnFail :
    (label next : Board → Rc × Board) (r : Rc × Board)
    → (r.0 ≡ fail → DownOnFail (label r.1))
    → (r.0 ≡ ok → DownOnFail (next r.1))
    → DownOnFail (or_goto label next r)
unfolding or_goto
or_goto-DownOnFail label next (ok, b) f n = n refl
or_goto-DownOnFail label next (fail, b) f n = f refl

pub same-Quiet :
    (b c : Board)
    → Quiet b
    → c.producers_run ≡ b.producers_run
    → c.h264_started ≡ b.h264_started
    → c.mjpeg_started ≡ b.mjpeg_started
    → c.ivs_started ≡ b.ivs_started
    → Quiet c
same-Quiet b c q p h m i = record {
  producers_run = p ∙ q.producers_run;
  h264_started = h ∙ q.h264_started;
  mjpeg_started = m ∙ q.mjpeg_started;
  ivs_started = i ∙ q.ivs_started;
}

pub same-Idle :
    (b c : Board)
    → Idle b
    → c.producers_run ≡ b.producers_run
    → c.h264_started ≡ b.h264_started
    → c.mjpeg_started ≡ b.mjpeg_started
    → c.ivs_started ≡ b.ivs_started
    → c.venc_h264 ≡ b.venc_h264
    → c.recv_h264 ≡ b.recv_h264
    → Idle c
same-Idle b c d p h m i v r = record {
  quiet = same-Quiet b c d.quiet p h m i;
  venc_h264 = v ∙ d.venc_h264;
  recv_h264 = r ∙ d.recv_h264;
}

pub fail_sys-Down : (b : Board) → Idle b → b.aiq ≡ false → DownOnFail (fail_sys b)
unfolding fail_sys
fail_sys-Down b d q h = record {
  idle = same-Idle b _ d refl refl refl refl refl refl;
  aiq = q;
  sys = refl;
}

pub fail_vi-Down : (b : Board) → Idle b → b.aiq ≡ false → DownOnFail (fail_vi b)
unfolding fail_vi vi_dev_deinit
fail_vi-Down b d q = fail_sys-Down _ (same-Idle b _ d refl refl refl refl refl refl) q

pub fail_aiq-Down : (b : Board) → Idle b → DownOnFail (fail_aiq b)
unfolding fail_aiq
fail_aiq-Down b d =
    rw (aiq_stop_lem b) (fail_vi-Down _ (same-Idle b _ d refl refl refl refl refl refl) refl)

pub fail_pipe0-Down : (b : Board) → Quiet b → DownOnFail (fail_pipe0 b)
unfolding fail_pipe0 record_pipeline_deinit
fail_pipe0-Down b q =
    fail_aiq-Down _
      (record { quiet = same-Quiet b _ q refl refl refl refl; venc_h264 = refl; recv_h264 = refl })

pub fail_pipe1-Down : (b : Board) → Quiet b → DownOnFail (fail_pipe1 b)
unfolding fail_pipe1 stream_pipeline_deinit
fail_pipe1-Down b q = fail_pipe0-Down _ (same-Quiet b _ q refl refl refl refl)

pub fail_threads-Down : (b : Board) → DownOnFail (fail_threads b)
fail_threads-Down b h = rw (fail_threads_lem b) (record {
  idle = record {
    quiet = record {
      producers_run = refl;
      h264_started = refl;
      mjpeg_started = refl;
      ivs_started = refl;
    };
    venc_h264 = refl;
    recv_h264 = refl;
  };
  aiq = refl;
  sys = refl;
})

pub off-Idle : Idle off
off-Idle = record {
  quiet = record {
    producers_run = refl;
    h264_started = refl;
    mjpeg_started = refl;
    ivs_started = refl;
  };
  venc_h264 = refl;
  recv_h264 = refl;
}

pub off-Down : Down off
off-Down = record { idle = off-Idle; aiq = refl; sys = refl }
