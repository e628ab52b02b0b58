-- ===== src/ConnectionMonitor/Runs.antt =====
-- Runs of the monitor on a connection that is slow.
use aws_c_http.Prelude.{◌*◌, ◌/◌, ◌≡◌, refl, true, false, List, [], ◌∷◌, arith}
use aws_c_http.ConnectionMonitor.Statistics
use aws_c_http.ConnectionMonitor.Statistics.{
  Options, Monitor, Statistics, socket, http2_channel, Units, new_monitor, process_statistics,
}
use aws_c_http.ConnectionMonitor.Samples.{run, AllSlow, run-slow, IsStarved, run-IsStarved}

abbrev exact : Units
exact = record { per_second = λ bytes ms. bytes * 1000 / ms; seconds_to_ms = λ s. s * 1000 }

-- A thousand bytes each second, or else a second of grace.
abbrev watching : Monitor
unfolding new_monitor
watching = new_monitor (record {
  minimum_throughput_bytes_per_second = 1000;
  allowable_throughput_failure_interval_seconds = 1;
})

-- Ten bytes written in 600 milliseconds, on a connection that always had an active stream.
abbrev slow_sample : List Statistics
slow_sample = socket 0 10 ∷ http2_channel 0 600 false ∷ []

valid : Statistics.options_is_valid watching.options ≡ true
unfolding watching Statistics.options_is_valid
valid = refl

stays_slow : AllSlow exact 600 watching (slow_sample ∷ slow_sample ∷ [])
unfolding process_statistics Statistics.options_is_valid watching Statistics.judge
    Statistics.check_throughput Statistics.gather Statistics.bytes_per_second
    Statistics.max_pending_io_interval_ms Statistics.remember_streams
stays_slow = ((refl, omega arith), omega arith, ((refl, omega arith), omega arith, tt))

run-slow_example : (run exact watching (slow_sample ∷ slow_sample ∷ [])).1 ≡ true
unfolding watching new_monitor Statistics.check_throughput Statistics.gather
    Statistics.bytes_per_second Statistics.max_pending_io_interval_ms
run-slow_example =
    run-slow exact 600 watching (slow_sample ∷ slow_sample ∷ []) valid (omega arith) (omega arith)
      stays_slow (omega arith)

shuts_down : (run exact watching (slow_sample ∷ slow_sample ∷ [])).1 ≡ true
unfolding run process_statistics Statistics.options_is_valid watching Statistics.judge
    Statistics.check_throughput Statistics.gather Statistics.bytes_per_second
    Statistics.max_pending_io_interval_ms Statistics.remember_streams
shuts_down = refl

run-IsStarved_example : IsStarved exact watching (slow_sample ∷ slow_sample ∷ [])
unfolding watching
run-IsStarved_example =
    run-IsStarved exact watching (slow_sample ∷ slow_sample ∷ []) valid shuts_down

-- Half of the minimum read and half of it written each second, which is enough for the code.
abbrev half_each_way : List Statistics
half_each_way = socket 300 300 ∷ http2_channel 600 600 false ∷ []

half_each_way-run :
    (run exact watching (half_each_way ∷ half_each_way ∷ half_each_way ∷ [])).1 ≡ false
unfolding run process_statistics Statistics.options_is_valid watching Statistics.judge
    Statistics.check_throughput Statistics.gather Statistics.bytes_per_second
    Statistics.max_pending_io_interval_ms Statistics.remember_streams
half_each_way-run = refl
