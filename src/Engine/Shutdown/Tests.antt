-- ===== src/Engine/Shutdown/Tests.antt =====
-- A shutdown before which the watchdog panicked, and instances of the theorems.
use monitra.Base.{◌≡◌, refl, [], ◌∷◌}
use monitra.Engine.Shutdown.{
  scheduler, watchdog, writer, alerts, finished, panicked, running, awaiting, EngineHandle, start,
  shutdown, end_task, join, finishes, joins, proceeds, panics, readies, shuts_down, Reach, here,
  after, mark_ready,
}
use monitra.Engine.Shutdown.Ending.{IsOrderly, reach-IsOrderly}
use monitra.Engine.Shutdown.Returning.{Returns, shutdown-Returns}

abbrev without_watchdog : EngineHandle
without_watchdog = end_task (mark_ready start) watchdog panicked

without_watchdog_Reach : Reach start without_watchdog
unfolding start mark_ready
without_watchdog_Reach =
    after (after here (readies start refl)) (panics (mark_ready start) watchdog refl)

-- The alert task ends before the writer does.
abbrev nearly_done : EngineHandle
nearly_done =
    end_task
      (join (join (end_task (shutdown without_watchdog) scheduler finished) scheduler finished)
        watchdog panicked)
      alerts finished

nearly_done_Reach : Reach start nearly_done
unfolding start mark_ready end_task join shutdown
nearly_done_Reach =
    after
      (after
        (after
          (after (after without_watchdog_Reach (shuts_down _ refl))
            (proceeds (finishes _ scheduler refl refl)))
          (proceeds (joins _ scheduler finished refl refl)))
        (proceeds (joins _ watchdog panicked refl refl)))
      (proceeds (finishes _ alerts refl refl))

warned_of_watchdog : (nearly_done.warnings ≡ watchdog ∷ []) × (nearly_done.phase ≡ awaiting writer)
unfolding start mark_ready end_task join shutdown
warned_of_watchdog = (refl, refl)

reach-IsOrderly_example : IsOrderly nearly_done
reach-IsOrderly_example = reach-IsOrderly nearly_done_Reach

without_watchdog_running : without_watchdog.phase ≡ running
unfolding start mark_ready end_task
without_watchdog_running = refl

shutdown-Returns_example : Returns (shutdown without_watchdog)
shutdown-Returns_example =
    shutdown-Returns without_watchdog without_watchdog_Reach without_watchdog_running
