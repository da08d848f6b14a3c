-- ===== src/Media/Devices.antt =====
-- src/media.c, `vi_dev_init` to `aiq_stop`: the camera device and its image processor.
use montion_sense.Prelude.{true, false, not, ◌&&◌, if◌then◌else◌, Rc, ok, fail}
use montion_sense.Media.{Board, Answers}

module _ (a : Answers) where
  -- Its second half: a device that is not enabled is enabled, and bound to the pipe.
  unfoldable pub enable_device : Board → Rc × Board
  enable_device b =
      if b.vi_dev
      then (ok, b)
      else if not a.enable_dev
      then (fail, b)
      else if not a.bind_pipe
      then (fail, record b { vi_dev = true })
      else (ok, record b { vi_dev = true })

  unfoldable pub vi_dev_init : Board → Rc × Board
  vi_dev_init b = if a.dev_not_config && not a.set_dev_attr then (fail, b) else enable_device b

  -- A context that cannot be prepared or started is given back.
  unfoldable pub aiq_init : Board → Rc × Board
  aiq_init b =
      if not a.aiq_enum
      then (fail, b)
      else if not a.aiq_init
      then (fail, record b { aiq = false })
      else if not a.aiq_prepare
      then (fail, record b { aiq = false })
      else if not a.aiq_start
      then (fail, record b { aiq = false })
      else (ok, record b { aiq = true })

unfoldable pub vi_dev_deinit : Board → Board
vi_dev_deinit b = record b { vi_dev = false }

unfoldable pub aiq_stop : Board → Board
aiq_stop b = if not b.aiq then b else record b { aiq = false }
