-- ===== src/Tests/Polling.antt =====
-- The poller after two ticks, between which the first attempt has ended.
use traefik_kop.Prelude.{◌≡◌, ◌%◌}
use traefik_kop.Polling.{
  Poller, uint64_size, start_poll_attempt, finish_attempt, new_polling_provider, Polls, started,
  tick, finished,
}
use traefik_kop.Polling.Single.{IsSingle, Polls-IsSingle}

abbrev ticked : Poller
ticked = start_poll_attempt (finish_attempt 0 (start_poll_attempt new_polling_provider))

two_ticks : Polls 2 ticked
two_ticks = tick (finished (tick started) 0)

Polls-IsSingle_example : IsSingle ticked × (ticked.attempt_number ≡ 2 % uint64_size)
Polls-IsSingle_example = Polls-IsSingle 2 ticked two_ticks
