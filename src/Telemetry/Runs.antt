-- ===== src/Telemetry/Runs.antt =====
-- Concrete interleavings, and the theorems about the threads at one of them.
use ffb_interceptor_visualiz.Common.{true, false, List, [], ◌∷◌, arith, Falling}
use ffb_interceptor_visualiz.Wire.Model.{blank}
use ffb_interceptor_visualiz.Telemetry.System.{
  viewer, simhub, worker, fresh_system, Action, starts, emits, publishes, connects, greets, sends,
  collects, closes, run,
}
use ffb_interceptor_visualiz.Telemetry.Order.{sequences, line}
use ffb_interceptor_visualiz.Telemetry.Sequence.{wire-Falling}

-- The viewer takes one frame of two and then fails; simhub never connects.
abbrev broken_pipe : List Action
broken_pipe =
    starts true true true
    ∷ connects viewer true
    ∷ emits 5 blank
    ∷ publishes
    ∷ greets viewer true
    ∷ publishes
    ∷ emits 6 blank
    ∷ publishes
    ∷ publishes
    ∷ collects viewer
    ∷ sends viewer true
    ∷ sends viewer false
    ∷ closes viewer
    ∷ connects simhub false
    ∷ []

wire-Falling_example :
    Falling (sequences (worker (run broken_pipe fresh_system) viewer).wire)
    × Falling (line (worker (run broken_pipe fresh_system) viewer))
wire-Falling_example = wire-Falling broken_pipe viewer (omega arith)
