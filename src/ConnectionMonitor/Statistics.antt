-- ===== src/ConnectionMonitor/Statistics.antt =====
-- `s_process_statistics` of source/connection_monitor.c and what it reads.
use aws_c_http.Prelude.{
  ℕ, ◌^◌, Bool, true, false, not, ◌&&◌, ◌||◌, List, [], ◌∷◌, ltb, leb, ◌==◌, if◌then◌else◌,
}
use aws_c_http.Prelude.Words.{u64_max, add_u64_saturating}

-- `struct aws_http_connection_monitoring_options`; the observer callback has no part in the state.
pub record Options : Type 0 where
  pub minimum_throughput_bytes_per_second : ℕ
  pub allowable_throughput_failure_interval_seconds : ℕ

-- `struct aws_statistics_handler_http_connection_monitor_impl`
pub record Monitor : Type 0 where
  pub options : Options
  pub throughput_failure_time_ms : ℕ
  pub last_incoming_stream_id : ℕ
  pub last_outgoing_stream_id : ℕ
  pub last_measured_throughput : ℕ

-- An element of the statistics list, by its category. `socket` has the bytes read and written; the
-- channels have the pending incoming and outgoing milliseconds, and then the current incoming and
-- outgoing stream, or whether the connection was inactive.
pub data Statistics : Type 0 where
  socket : ℕ → ℕ → Statistics
  http1_channel : ℕ → ℕ → ℕ → ℕ → Statistics
  http2_channel : ℕ → ℕ → Bool → Statistics
  other_category : Statistics

-- What the loop over the list gathers: the local variables in front of it.
pub record Sample : Type 0 where
  pub pending_read_interval_ms : ℕ
  pub pending_write_interval_ms : ℕ
  pub bytes_read : ℕ
  pub bytes_written : ℕ
  pub h1_current_outgoing_stream_id : ℕ
  pub h1_current_incoming_stream_id : ℕ
  pub h2 : Bool
  pub h2_was_inactive : Bool

abbrev pub no_sample : Sample
no_sample = record {
  pending_read_interval_ms = 0;
  pending_write_interval_ms = 0;
  bytes_read = 0;
  bytes_written = 0;
  h1_current_outgoing_stream_id = 0;
  h1_current_incoming_stream_id = 0;
  h2 = false;
  h2_was_inactive = false;
}

unfoldable pub gather_one : Sample → Statistics → Sample
gather_one s (socket read written) = record s { bytes_read = read; bytes_written = written }
gather_one s (http1_channel incoming outgoing incoming_id outgoing_id) = record s {
  pending_read_interval_ms = incoming;
  pending_write_interval_ms = outgoing;
  h1_current_outgoing_stream_id = outgoing_id;
  h1_current_incoming_stream_id = incoming_id;
}
gather_one s (http2_channel incoming outgoing was_inactive) = record s {
  pending_read_interval_ms = incoming;
  pending_write_interval_ms = outgoing;
  h2_was_inactive = s.h2_was_inactive || was_inactive;
  h2 = true;
}
gather_one s other_category = s

unfoldable pub gather : Sample → List Statistics → Sample
unfolding gather_one
gather s [] = s
gather s (x ∷ xs) = gather (gather_one s x) xs

-- What the code takes from outside: the integer part of `(double)bytes * 1000.0 / (double)ms`, a
-- quotient of floating-point numbers, and `aws_timestamp_convert` from seconds to milliseconds.
pub record Units : Type 0 where
  pub per_second : ℕ → ℕ → ℕ
  pub seconds_to_ms : ℕ → ℕ

unfoldable pub options_is_valid : Options → Bool
options_is_valid o =
    ltb 0 o.allowable_throughput_failure_interval_seconds
    && ltb 0 o.minimum_throughput_bytes_per_second

unfoldable pub max_pending_io_interval_ms : Sample → ℕ
max_pending_io_interval_ms s =
    if ltb s.pending_write_interval_ms s.pending_read_interval_ms
    then s.pending_read_interval_ms
    else s.pending_write_interval_ms

unfoldable pub check_throughput : Monitor → Sample → Bool
check_throughput m s =
    if s.h2
    then not s.h2_was_inactive
    else not (s.h1_current_incoming_stream_id == 0)
        && s.h1_current_incoming_stream_id == m.last_incoming_stream_id
      || not (s.h1_current_outgoing_stream_id == 0)
        && s.h1_current_outgoing_stream_id == m.last_outgoing_stream_id

-- The streams of this sample, for the next one.
unfoldable pub remember_streams : Monitor → Sample → Monitor
remember_streams m s = if s.h2 then m else record m {
  last_outgoing_stream_id = s.h1_current_outgoing_stream_id;
  last_incoming_stream_id = s.h1_current_incoming_stream_id;
}

module _ (units : Units) where
  -- `(double)UINT64_MAX` is 2^64.
  unfoldable pub written_per_second : Sample → ℕ
  written_per_second s =
      let fractional = units.per_second s.bytes_written s.pending_write_interval_ms in
      if ltb 0 s.pending_write_interval_ms
      then (if leb (2 ^ 64) fractional then u64_max else fractional)
      else 0

  unfoldable pub bytes_per_second : Sample → ℕ
  unfolding written_per_second
  bytes_per_second s =
      let fractional = units.per_second s.bytes_read s.pending_read_interval_ms in
      if ltb 0 s.pending_read_interval_ms
      then (if leb (2 ^ 64) fractional
          then u64_max
          else add_u64_saturating (written_per_second s) fractional)
      else written_per_second s

  -- The flag says that the channel is shut down.
  unfoldable pub judge : Monitor → Sample → Monitor × Bool
  judge m s =
      let throughput = bytes_per_second s in
      let m' = record (remember_streams m s) { last_measured_throughput = throughput } in
      let failure =
        add_u64_saturating m.throughput_failure_time_ms (max_pending_io_interval_ms s) in
      let maximum = units.seconds_to_ms m.options.allowable_throughput_failure_interval_seconds in
      if not (check_throughput m s)
      then (record m' { throughput_failure_time_ms = 0 }, false)
      else (if leb m.options.minimum_throughput_bytes_per_second throughput
          then (record m' { throughput_failure_time_ms = 0 }, false)
          else (record m' { throughput_failure_time_ms = failure }, not (leb failure maximum)))

  -- `s_process_statistics`
  unfoldable pub process_statistics : Monitor → List Statistics → Monitor × Bool
  process_statistics m stats_list =
      if not (options_is_valid m.options) then (m, false) else judge m (gather no_sample stats_list)

-- `aws_crt_statistics_handler_new_http_connection_monitor`
unfoldable pub new_monitor : Options → Monitor
new_monitor options = record {
  options = options;
  throughput_failure_time_ms = 0;
  last_incoming_stream_id = 0;
  last_outgoing_stream_id = 0;
  last_measured_throughput = 0;
}
