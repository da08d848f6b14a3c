-- ===== src/Prelude/Results.antt =====
-- The results of the functions that return an `int`: 0, and -1.
pub data Rc : Type 0 where
  ok fail : Rc
