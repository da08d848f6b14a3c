-- ===== src/Detector.antt =====
-- include/motionsense/app_ctx.h, src/main.c (`app_ctx_init`, `app_ctx_deinit`) and src/media.c
-- (`ivs_thread`): the motion state that the threads share.
--
-- The type float and its operations are parameters.
pub mod Follow
use montion_sense.Prelude.{
  ℕ, ◌-◌, ◌*◌, ◌%◌, ◌^◌, Bool, true, false, ◌&&◌, Option, none, some, List, [], ◌∷◌, ◌==◌, ltb,
  if◌then◌else◌, Rc, ok, fail,
}
use montion_sense.Prelude.Int.{ℤ, pos, pos_part}
use montion_sense.Config.{IvsCfg}
use montion_sense.Capture.{Motion, undetected, detected, same_motion}
use montion_sense.FrameQueue.{FrameQueue, fq_create}

-- `app_ctx_t`
pub record AppCtx : Type 0 where
  pub is_running : Bool
  pub motion_state : Motion
  pub current_fps : ℤ
  pub vq : Option FrameQueue

abbrev pub rc_of : Option FrameQueue → Rc
rc_of none = fail
rc_of (some q) = ok

-- The flags say whether the two allocations of `fq_create` succeed. CFG_FQ_CAPACITY is 64.
unfoldable pub app_ctx_init : Bool → Bool → Rc × AppCtx
app_ctx_init queue_alloc slots_alloc =
    let vq = fq_create 64 queue_alloc slots_alloc in
    (
      rc_of vq,
      record { is_running = true; motion_state = undetected; current_fps = pos 1; vq = vq },
    )

unfoldable pub app_ctx_deinit : AppCtx → AppCtx
app_ctx_deinit ctx = record ctx { vq = none }

-- `on_signal`
unfoldable pub on_signal : AppCtx → AppCtx
on_signal ctx = record ctx { is_running = false }

-- The state of one result: the count of results, and the area of the first.
unfoldable pub detect : ℕ → ℕ → ℕ → Motion
detect md_threshold count square =
    if count == 1 && ltb md_threshold square then detected else undetected

-- How long the thread sleeps, in milliseconds, after a poll that took `elapsed` of them.
unfoldable pub sleep_ms : ℤ → ℕ → ℕ
sleep_ms poll_ms elapsed = pos_part poll_ms - elapsed

module _ (md_threshold : ℕ) (fps_low fps_high : ℤ) where
  unfoldable pub rate_of : Motion → ℤ
  rate_of undetected = fps_low
  rate_of detected = fps_high

  unfoldable pub set_state : Motion → AppCtx → AppCtx
  set_state state ctx =
      if same_motion state (some ctx.motion_state)
      then ctx
      else record ctx { motion_state = state; current_fps = rate_of state }

  -- `none` is a poll that gives no result.
  unfoldable pub poll : Option (ℕ × ℕ) → AppCtx → AppCtx
  poll none ctx = ctx
  poll (some (count, square)) ctx = set_state (detect md_threshold count square) ctx

  unfoldable pub polls : List (Option (ℕ × ℕ)) → AppCtx → AppCtx
  polls [] ctx = ctx
  polls (r ∷ rs) ctx = polls rs (poll r ctx)

-- The product of an uint32_t and an uint32_t wraps before it becomes a float.
module _ {Float : Type 0} (of_u32 : ℕ → Float) (times : Float → Float → Float)
    (to_u32 : Float → ℕ) where
  unfoldable pub md_threshold_of : IvsCfg Float → ℕ
  md_threshold_of ivs = to_u32 (times (of_u32 (ivs.width * ivs.height % 2 ^ 32)) ivs.area_ratio)

  -- The turns of the thread, with what each poll gives.
  unfoldable pub ivs_thread : IvsCfg Float → List (Option (ℕ × ℕ)) → AppCtx → AppCtx
  ivs_thread ivs rs ctx = polls (md_threshold_of ivs) ivs.fps_low ivs.fps_high rs ctx
