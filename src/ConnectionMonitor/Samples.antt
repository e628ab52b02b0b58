-- ===== src/ConnectionMonitor/Samples.antt =====
-- The monitor of source/connection_monitor.c over a sequence of samples.
use aws_c_http.Prelude.{
  ℕ, ◌+◌, ◌*◌, ◌≤◌, ◌<◌, ◌≡◌, ◌⊎◌, refl, ap, ◌∙◌, inl, inr, Bool, true, false, not, Bool-cases,
  List, [], ◌∷◌, ◌++◌, leb, if◌then◌else◌, length, arith,
}
use aws_c_http.Prelude.Words.{u64_max, add_u64_saturating}
use aws_c_http.ConnectionMonitor.Statistics.{
  Monitor, Statistics, Sample, no_sample, gather, Units, options_is_valid, bytes_per_second,
  max_pending_io_interval_ms, check_throughput, remember_streams, judge, process_statistics,
}

module _ (units : Units) where
  -- The samples of a channel, one after the other, up to the one that shuts it down.
  unfoldable pub run : Monitor → List (List Statistics) → Monitor × Bool
  run m [] = (m, false)
  run m (x ∷ xs) =
      let (m', down) = process_statistics units m x in
      let rest = run m' xs in if down then (m', true) else rest

  -- A sample that counts and whose throughput is below the minimum. The code takes the rates of reading
  -- and of writing together: a sample is slow if their sum is below the minimum.
  abbrev pub IsSlow : Monitor → List Statistics → Type 0
  IsSlow m x =
      (check_throughput m (gather no_sample x) ≡ true)
      × (bytes_per_second units (gather no_sample x)
          < m.options.minimum_throughput_bytes_per_second)

  abbrev pub interval : List Statistics → ℕ
  interval x = max_pending_io_interval_ms (gather no_sample x)

  -- Samples that are slow, one after the other, and each has been pending for `d` milliseconds.
  abbrev pub AllSlow : ℕ → Monitor → List (List Statistics) → Type 0
  AllSlow d m [] = Unit {0}
  AllSlow d m (x ∷ xs) =
      IsSlow m x × (d ≤ interval x) × AllSlow d (process_statistics units m x).0 xs

  abbrev pub allowed : Monitor → ℕ
  allowed m = units.seconds_to_ms m.options.allowable_throughput_failure_interval_seconds

  remember_streams_options : (m : Monitor) (s : Sample) → (remember_streams m s).options ≡ m.options
  unfolding remember_streams
  remember_streams_options m s = ground arith

  judge_slow :
      (m : Monitor) (s : Sample)
      → check_throughput m s ≡ true
      → bytes_per_second units s < m.options.minimum_throughput_bytes_per_second
      → ((judge units m s).0.options ≡ m.options)
        × ((judge units m s).0.throughput_failure_time_ms
            ≡ add_u64_saturating m.throughput_failure_time_ms (max_pending_io_interval_ms s))
        × ((judge units m s).1
            ≡ not (
                leb
                  (add_u64_saturating m.throughput_failure_time_ms (max_pending_io_interval_ms s))
                  (allowed m)))
  unfolding judge
  judge_slow m s c b =
      let low : leb m.options.minimum_throughput_bytes_per_second (bytes_per_second units s)
          ≡ false =
        ground arith in
      let kept = remember_streams_options m s in rw (c, low, kept) (refl, refl, refl)

  judged :
      (m : Monitor) (x : List Statistics)
      → options_is_valid m.options ≡ true
      → process_statistics units m x ≡ judge units m (gather no_sample x)
  unfolding process_statistics
  judged m x v = rw v refl

  -- A connection that stays slow, its read and write rates taken together, is shut down: where in each
  -- sample of a sequence the sum of the two rates is below the minimum, and the sample counts and has been
  -- pending for `d` milliseconds, and the time counted before and `d` for each sample exceed what is
  -- allowed, one of the samples shuts the channel down.
  pub run-slow :
      (d : ℕ) (m : Monitor) (xs : List (List Statistics))
      → options_is_valid m.options ≡ true
      → m.throughput_failure_time_ms ≤ allowed m
      → allowed m < u64_max
      → AllSlow d m xs
      → allowed m < m.throughput_failure_time_ms + length xs * d
      → (run m xs).1 ≡ true
  unfolding run
  run-slow d m [] v below bound slow long = absurd (omega arith)
  run-slow d m (x ∷ xs) v below bound ((c, b), e, slow) long =
      let j = judged m x v in
      let (opts, time, down) = judge_slow m (gather no_sample x) c b in
      let m' : Monitor = (process_statistics units m x).0 in
      let opts' : m'.options ≡ m.options = ap (λ z. z.0.options) j ∙ opts in
      let time' = ap (λ z. z.0.throughput_failure_time_ms) j ∙ time in
      let down' = ap (λ z. z.1) j ∙ down in
      let same : allowed m' ≡ allowed m =
        ap (λ o. units.seconds_to_ms o.allowable_throughput_failure_interval_seconds) opts' in
      let rest = run-slow d m' xs (ap options_is_valid opts' ∙ v) in ground (arith, rest)

  -- The pending time of a sequence of samples, and the monitor after them.
  pub total_time : List (List Statistics) → ℕ
  total_time [] = 0
  total_time (x ∷ xs) = interval x + total_time xs

  pub after : Monitor → List (List Statistics) → Monitor
  after m [] = m
  after m (x ∷ xs) = after (process_statistics units m x).0 xs

  -- The failure time that counts together with the samples behind `before`.
  abbrev pub carried : Monitor → List (List Statistics) → ℕ
  carried m [] = m.throughput_failure_time_ms
  carried m (x ∷ xs) = 0

  -- Somewhere in the sequence there are slow samples, one after the other, that have been pending for
  -- longer than is allowed.
  pub record IsStarved (m : Monitor) (xs : List (List Statistics)) : Type 0 where
    pub before : List (List Statistics)
    pub during : List (List Statistics)
    pub behind : List (List Statistics)
    pub split : xs ≡ before ++ (during ++ behind)
    pub slow : AllSlow 0 (after m before) during
    pub long : allowed m < carried m before + total_time during

  judge_keeps : (m : Monitor) (s : Sample) → (judge units m s).0.options ≡ m.options
  unfolding judge
  judge_keeps m s = ground (arith, remember_streams_options m s)

  -- A sample that is not slow sets the failure time to zero and does not shut the channel down.
  judge_cases :
      (m : Monitor) (s : Sample)
      → ((check_throughput m s ≡ true)
          × (bytes_per_second units s < m.options.minimum_throughput_bytes_per_second))
        ⊎ (((judge units m s).0.throughput_failure_time_ms ≡ 0) × ((judge units m s).1 ≡ false))
  unfolding judge
  judge_cases m s = elim (Bool-cases (check_throughput m s)) [
    | inr c ↦ inr (rw c refl, rw c refl)
    | inl c ↦
        elim (Bool-cases
          (leb m.options.minimum_throughput_bytes_per_second (bytes_per_second units s))) [
            | inl b ↦ inr (rw (c, b) refl, rw (c, b) refl)
            | inr b ↦ inl (c, ground arith)
          ]
  ]

  split_first :
      (m : Monitor) (x : List Statistics) (xs : List (List Statistics))
      → IsSlow m x
      → allowed m < m.throughput_failure_time_ms + interval x
      → IsStarved m (x ∷ xs)
  unfolding total_time after
  split_first m x xs s long = record {
    before = [];
    during = x ∷ [];
    behind = xs;
    split = refl;
    slow = (s, omega arith, tt);
    long = omega arith;
  }

  split_later :
      (m : Monitor) (x : List Statistics) (xs before during behind : List (List Statistics))
      → allowed (process_statistics units m x).0 ≡ allowed m
      → (IsSlow m x
          × ((process_statistics units m x).0.throughput_failure_time_ms
              ≤ m.throughput_failure_time_ms + interval x))
        ⊎ ((process_statistics units m x).0.throughput_failure_time_ms ≡ 0)
      → xs ≡ before ++ (during ++ behind)
      → AllSlow 0 (after (process_statistics units m x).0 before) during
      → allowed (process_statistics units m x).0
        < carried (process_statistics units m x).0 before + total_time during
      → IsStarved m (x ∷ xs)
  unfolding total_time after
  split_later m x xs [] during behind same (inl (now, time)) e slow long = record {
    before = [];
    during = x ∷ during;
    behind = behind;
    split = ap (◌∷◌ x) e;
    slow = (now, omega arith, slow);
    long = omega arith;
  }
  split_later m x xs [] during behind same (inr time) e slow long = record {
    before = x ∷ [];
    during = during;
    behind = behind;
    split = ap (◌∷◌ x) e;
    slow = slow;
    long = omega arith;
  }
  split_later m x xs (b ∷ before) during behind same now e slow long = record {
    before = x ∷ b ∷ before;
    during = during;
    behind = behind;
    split = ap (◌∷◌ x) e;
    slow = slow;
    long = omega arith;
  }

  -- The channel is shut down only where somewhere in the sequence there are slow samples, one after the
  -- other, whose read and write rates have a sum below the minimum, and which, with the failure time
  -- counted before the first sample where they begin there, have been pending for longer than is allowed.
  pub run-IsStarved :
      (m : Monitor) (xs : List (List Statistics))
      → options_is_valid m.options ≡ true
      → (run m xs).1 ≡ true
      → IsStarved m xs
  unfolding run
  run-IsStarved m [] v down = absurd (ground (arith, down))
  run-IsStarved m (x ∷ xs) v down =
      let j = judged m x v in
      let opts = ap (λ z. z.0.options) j ∙ judge_keeps m (gather no_sample x) in
      let same =
        ap (λ o. units.seconds_to_ms o.allowable_throughput_failure_interval_seconds) opts in
      let m' : Monitor = (process_statistics units m x).0 in
      let later = λ (now : _) (more : (run m' xs).1 ≡ true).
        let s = run-IsStarved m' xs (ap options_is_valid opts ∙ v) more in
        split_later m x xs s.before s.during s.behind same now s.split s.slow s.long in
      elim (judge_cases m (gather no_sample x)) [
        | inl (c, b) ↦
            let (_, time, stop) = judge_slow m (gather no_sample x) c b in
            let time' = ap (λ z. z.0.throughput_failure_time_ms) j ∙ time in
            let stop' = ap (λ z. z.1) j ∙ stop in
            elim (Bool-cases (process_statistics units m x).1) [
              | inl now ↦ split_first m x xs (c, b) (ground arith)
              | inr on ↦ later (inl ((c, b), ground arith)) (ground arith)
            ]
        | inr (zeroed, on) ↦
            let on' = ap (λ z. z.1) j ∙ on in
            later (inr (ap (λ z. z.0.throughput_failure_time_ms) j ∙ zeroed)) (ground arith)
      ]
