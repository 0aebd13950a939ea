-- ===== src/Tests/Runnings.antt =====
-- A connection of the server that is closed from outside, and one that hangs.
use securetunnel.Base.{refl, true, arith, ◌≤◌}
use securetunnel.Server.Running.{
  Reader, Writer, in_close, Run, announced, close_run, takes_write_error, queues, takes, write_lost,
  closes, Reach, starts, acts, reacts, rests, runs, read_fails,
}
use securetunnel.Server.Running.Returning.{CanFinish, run-CanFinish}

abbrev closed_outside : Run
closed_outside = close_run true announced

Reach-closed_outside : Reach closed_outside
Reach-closed_outside = reacts starts (closes true (λ e. absurd (ground arith)))

abbrev read_failed : Run
read_failed = record closed_outside { reader = Reader.failing }

run-CanFinish_example : (1 ≤ 7) × CanFinish read_failed
run-CanFinish_example =
    run-CanFinish Reach-closed_outside (refl, λ e. absurd (ground arith))
      (runs (read_fails refl refl refl) rests)

-- A failed write, at `close`.
abbrev write_failed : Run
write_failed = record announced { cancelled = true; writer = Writer.ended; caller = in_close }

Reach-write_failed : Reach write_failed
Reach-write_failed =
    acts (reacts (acts (reacts starts queues) (takes 0 refl refl)) (write_lost refl))
      (takes_write_error refl refl)
