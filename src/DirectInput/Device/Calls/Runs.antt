-- ===== src/DirectInput/Device/Calls/Runs.antt =====
-- The reports of a device at concrete calls.
use ffb_interceptor_visualiz.Common.{◌≡◌, refl, List, [], ◌∷◌, some, pos, replicate, length}
use ffb_interceptor_visualiz.DirectInput.Effect.{Environment}
use ffb_interceptor_visualiz.DirectInput.Device.{
  dierr_inputlost, ff_gain, acquire, unacquire, read_device, set_property, send_command,
  invalidate_playback, acquisition_is_lost, emit_property,
}
use ffb_interceptor_visualiz.DirectInput.Device.Calls.{
  Call, acquires, unacquires, reads, sets_property, sends, step, run, fresh, expected, run_reports,
}

abbrev env : Environment
env = record {
  process_id = 4242;
  guid_of = λ k. replicate 16 0;
  sizes = record { dx5 = 52; dx6 = 56 };
}

-- Newest first: a game in the background polls three times after it has lost the device.
abbrev calls : List Call
calls =
    reads dierr_inputlost
    ∷ reads dierr_inputlost
    ∷ reads dierr_inputlost
    ∷ sends 1 (pos 0)
    ∷ sets_property ff_gain (some (20 ∷ 16 ∷ 0 ∷ 0 ∷ 7000 ∷ [])) (pos 0)
    ∷ acquires (pos 0)
    ∷ unacquires (pos 1)
    ∷ []

run_reports_example : (run env calls (fresh 3)).emitted ≡ expected env 3 calls
run_reports_example = run_reports env 3 calls

-- One STOPALL, one command, one property.
reports_total : length (run env calls (fresh 3)).emitted ≡ 3
unfolding run step acquire unacquire read_device set_property send_command invalidate_playback
    acquisition_is_lost emit_property
reports_total = refl
