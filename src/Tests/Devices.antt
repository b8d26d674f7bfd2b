-- ===== src/Tests/Devices.antt =====
-- The randomness device, the clock and the I/O channel at concrete states.
use bedrock.Base.{
  ℕ, ◌+◌, ◌/◌, ◌%◌, ◌^◌, ◌≤◌, ◌<◌, ◌≡◌, ◌⊎◌, refl, true, false, List, [], ◌∷◌, ◌++◌, length, arith,
}
use bedrock.Random.{with_exits, exit_to_userspace}
use bedrock.Rtc.{
  default_rtc, days_to_date, is_leap_year, days_in_months, days_in_year, elapsed_secs, year_loop,
  month_loop,
}
use bedrock.Rtc.Calendar.{date_after, tomorrow, month_length, is_leap}
use bedrock.Rtc.Days.{days_to_date-date_after}
use bedrock.Rtc.Clock.{shown, Shows, shown_clock}
use bedrock.IoChannel.{
  PendingIoAction, IoChannelState, new, promote_next_pending, enqueue_pending, queued, full,
  out_of_memory, pending_io_queue_cap,
}
use bedrock.IoChannel.Queue.{requests, requests-promote_next_pending, requests-enqueue_pending}

exits : with_exits.mode ≡ exit_to_userspace
unfolding with_exits
exits = refl

abbrev reply_bytes : List ℕ
reply_bytes = 1 ∷ 2 ∷ 3 ∷ []

-- 1971-03-01
days_to_date-date_after_example : days_to_date 424 ≡ date_after 424
days_to_date-date_after_example = days_to_date-date_after 424 (omega arith)

leap_day : date_after 789 ≡ record { year = 1972; month = 2; day = 29; day_of_week = 3 }
unfolding date_after tomorrow month_length is_leap
leap_day = refl

seconds_fit : default_rtc.base_time + elapsed_secs 5000 1000 < 2 ^ 38
unfolding default_rtc elapsed_secs
seconds_fit = omega arith

this_century : (date_after ((default_rtc.base_time + elapsed_secs 5000 1000) / 86400)).year < 10000
unfolding default_rtc elapsed_secs days_to_date year_loop month_loop is_leap_year days_in_months
    days_in_year
this_century = rw⁻¹ (days_to_date-date_after 19723 (omega arith)) (omega arith)

shown_clock_example :
    Shows
      ((default_rtc.base_time + elapsed_secs 5000 1000) / 86400)
      ((default_rtc.base_time + elapsed_secs 5000 1000) % 86400)
      (shown default_rtc 5000 1000)
shown_clock_example = shown_clock default_rtc 5000 1000 seconds_fit this_century

abbrev action : PendingIoAction
action = record { target_tsc = 9; bytes = 5 ∷ 6 ∷ [] }

abbrev waiting : IoChannelState
waiting = record new { pending = action ∷ [] }

requests-promote_next_pending_example : requests (promote_next_pending waiting) ≡ requests waiting
requests-promote_next_pending_example =
    requests-promote_next_pending waiting ((omega arith, omega arith), tt)

requests-enqueue_pending_example :
    (length (enqueue_pending true action waiting).1.pending ≤ pending_io_queue_cap)
    × ((((enqueue_pending true action waiting).0 ≡ queued)
          × (requests (enqueue_pending true action waiting).1
              ≡ requests waiting ++ (action.bytes ∷ [])))
        ⊎ (((enqueue_pending true action waiting).1 ≡ waiting)
            × ((((enqueue_pending true action waiting).0 ≡ out_of_memory) × (true ≡ false))
                ⊎ (((enqueue_pending true action waiting).0 ≡ full)
                    × (length waiting.pending ≡ pending_io_queue_cap)))))
requests-enqueue_pending_example = requests-enqueue_pending true action waiting (omega arith)

abbrev registers : ℕ → ℕ
registers = λ i. 1000000
