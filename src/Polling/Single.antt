-- ===== src/Polling/Single.antt =====
-- polling_provider.go: at most one attempt of the poller runs.
use traefik_kop.Prelude.{
  ℕ, ◌%◌, ◌≡◌, ap, ◌∙◌, ◌⊎◌, inl, inr, refl, none, some, List, [], ◌∷◌, arith, ==_iff, Bool-cases,
  ◌==◌,
}
use traefik_kop.Polling.{
  Poller, uint64_size, end_attempt, cancel_at, stop_at, start_poll_attempt, cancel_active_attempt,
  finish_attempt, new_polling_provider, Polls, started, tick, finished, Ended, context_done,
}

-- Nothing is active, no context is open and no attempt runs; or one attempt is active, its context
-- alone is not cancelled, and no other attempt runs.
abbrev pub IsSingle : Poller → Type 0
IsSingle p =
    ((p.live ≡ [])
      × (p.running ≡ [])
      × (p.active_attempt ≡ none)
      × (p.active_attempt_cancel ≡ none))
    ⊎ ((id : ℕ) × (p.live ≡ id ∷ [])
        × ((p.running ≡ []) ⊎ (p.running ≡ id ∷ []))
        × (p.active_attempt ≡ some id)
        × (p.active_attempt_cancel ≡ some id))

end_self : (id : ℕ) → end_attempt id (id ∷ []) ≡ []
unfolding end_attempt
end_self id = ground (arith, ==_iff id id)

end_running : (id : ℕ) (l : List ℕ) → (l ≡ []) ⊎ (l ≡ id ∷ []) → end_attempt id l ≡ []
unfolding end_attempt
end_running id l (inl e) = rw e refl
end_running id l (inr e) = rw e (end_self id)

-- cancelling and stopping the active attempt leaves nothing
cancel-stop_none :
    (p : Poller)
    → IsSingle p
    → ((stop_at p.active_attempt (cancel_at p.active_attempt_cancel p)).live ≡ [])
      × ((stop_at p.active_attempt (cancel_at p.active_attempt_cancel p)).running ≡ [])
unfolding cancel_at stop_at
cancel-stop_none p (inl (l, r, a, c)) = rw (a, c) (l, r)
cancel-stop_none p (inr (id, l, r, a, c)) =
    rw (a, c) (ap (end_attempt id) l ∙ end_self id, end_running id p.running r)

pub start_poll_attempt-IsSingle : (p : Poller) → IsSingle p → IsSingle (start_poll_attempt p)
unfolding start_poll_attempt
start_poll_attempt-IsSingle p single =
    let (l, r) = cancel-stop_none p single in
    inr (p.fresh, ap (λ x. p.fresh ∷ x) l, inr (ap (λ x. p.fresh ∷ x) r), refl, refl)

end_either :
    (other id : ℕ) (l : List ℕ)
    → (l ≡ []) ⊎ (l ≡ id ∷ [])
    → (end_attempt other l ≡ []) ⊎ (end_attempt other l ≡ id ∷ [])
unfolding end_attempt
end_either other id l (inl e) = inl (rw e refl)
end_either other id l (inr e) = elim (Bool-cases (id == other)) [
  | inl same ↦ inl (rw (e, end_attempt) (rw same refl))
  | inr apart ↦ inr (rw (e, end_attempt) (rw apart refl))
]

pub finish_attempt-IsSingle :
    (other : ℕ) (p : Poller) → IsSingle p → IsSingle (finish_attempt other p)
unfolding finish_attempt end_attempt
finish_attempt-IsSingle other p (inl (l, r, a, c)) = inl (l, rw r refl, a, c)
finish_attempt-IsSingle other p (inr (id, l, r, a, c)) =
    inr (id, l, end_either other id p.running r, a, c)

-- After any number of ticks, among which attempts may have ended by themselves: either nothing is
-- active, no context is open and no attempt runs, or one attempt is active, its context alone is
-- not cancelled, and no other attempt runs; and the number of the attempt is that of the ticks in
-- 64 bits.
pub Polls-IsSingle :
    (n : ℕ) (p : Poller) → Polls n p → IsSingle p × (p.attempt_number ≡ n % uint64_size)
unfolding start_poll_attempt finish_attempt new_polling_provider
Polls-IsSingle n p started = (inl (refl, refl, refl, refl), refl)
Polls-IsSingle n p (tick {n = m} {p = q} before) =
    let (single, number) = Polls-IsSingle m q before in
    (start_poll_attempt-IsSingle q single, omega arith)
Polls-IsSingle n p (finished {p = q} before id) =
    let (single, number) = Polls-IsSingle n q before in
    (finish_attempt-IsSingle id q single, number)

-- When the context of the poller is done, no context of an attempt is open, none runs and none is
-- active.
pub Ended-none_live :
    (n : ℕ) (p : Poller)
    → Ended n p
    → (p.live ≡ [])
      × (p.running ≡ [])
      × (p.active_attempt ≡ none)
      × (p.active_attempt_cancel ≡ none)
unfolding cancel_active_attempt
Ended-none_live n p (context_done {n = m} {p = q} before) =
    let (l, r) = cancel-stop_none q (Polls-IsSingle m q before).0 in (l, r, refl, refl)
