-- ===== src/Polling.antt =====
-- polling_provider.go: `startPollAttempt`, `cancelActiveAttempt`, and the loop of `Provide` as
-- steps.
pub mod Single
use traefik_kop.Prelude.{
  ℕ, ◌+◌, ◌%◌, Bool, true, false, Option, none, some, List, [], ◌∷◌, ◌==◌, if◌then◌else◌,
}

-- `PollingProvider`, with the attempts, each known by a number of its own, whose context is not
-- cancelled, and those whose goroutines run. A cancelled attempt runs on until it ends by itself or
-- `Stop` of its pool has waited for it.
pub record Poller : Type 0 where
  pub active_attempt : Option ℕ
  pub active_attempt_cancel : Option ℕ
  pub attempt_number : ℕ
  pub live : List ℕ
  pub running : List ℕ
  pub fresh : ℕ

-- 2 ^ 64
abbrev pub uint64_size : ℕ
uint64_size = 18_446_744_073_709_551_616

unfoldable pub end_attempt : ℕ → List ℕ → List ℕ
end_attempt id [] = []
end_attempt id (other ∷ rest) =
    let others = end_attempt id rest in if other == id then others else other ∷ others

-- the call of a cancel function, where there is one: the context of the attempt is cancelled
unfoldable pub cancel_at : Option ℕ → Poller → Poller
cancel_at none p = p
cancel_at (some id) p = record p { live = end_attempt id p.live }

-- `Stop` of a pool, where there is one, which waits until the goroutines of the attempt have ended
unfoldable pub stop_at : Option ℕ → Poller → Poller
stop_at none p = p
stop_at (some id) p = record p { running = end_attempt id p.running }

-- `startPollAttempt`: the upstream provider runs goroutines in the pool of the new attempt; its
-- error is only logged
unfoldable pub start_poll_attempt : Poller → Poller
start_poll_attempt p =
    let cancelled = cancel_at p.active_attempt_cancel p in
    let stopped = stop_at p.active_attempt cancelled in
    record {
      active_attempt = some p.fresh;
      active_attempt_cancel = some p.fresh;
      attempt_number = (p.attempt_number + 1) % uint64_size;
      live = p.fresh ∷ stopped.live;
      running = p.fresh ∷ stopped.running;
      fresh = p.fresh + 1;
    }

-- `cancelActiveAttempt`
unfoldable pub cancel_active_attempt : Poller → Poller
cancel_active_attempt p =
    let cancelled = cancel_at p.active_attempt_cancel p in
    let stopped = stop_at p.active_attempt cancelled in
    record stopped { active_attempt = none; active_attempt_cancel = none }

-- the goroutines of an attempt end by themselves
unfoldable pub finish_attempt : ℕ → Poller → Poller
finish_attempt id p = record p { running = end_attempt id p.running }

-- `NewPollingProvider`
unfoldable pub new_polling_provider : Poller
new_polling_provider = record {
  active_attempt = none;
  active_attempt_cancel = none;
  attempt_number = 0;
  live = [];
  running = [];
  fresh = 0;
}

-- The loop of `Provide` after some ticks, among which attempts may have ended, and after its end.
pub data Polls : ℕ → Poller → Type 0 where
  started : Polls 0 new_polling_provider
  tick : {n : ℕ} {p : Poller} → Polls n p → Polls (n + 1) (start_poll_attempt p)
  finished : {n : ℕ} {p : Poller} → Polls n p → (id : ℕ) → Polls n (finish_attempt id p)

pub data Ended : ℕ → Poller → Type 0 where
  context_done : {n : ℕ} {p : Poller} → Polls n p → Ended n (cancel_active_attempt p)
