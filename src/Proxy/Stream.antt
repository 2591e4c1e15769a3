-- ===== src/Proxy/Stream.antt =====
-- docker_proxy.go: which events `handleEvents` passes on.
use traefik_kop.Prelude.{
  ◌≡◌, ◌≢◌, ◌⊎◌, ◌↔◌, refl, ap, Bool-cases, sym, subst, Bool, true, false, ◌&&◌, List, [], ◌∷◌,
  arith, inl, inr, if◌then◌else◌,
}
use mathlib.Core.List.{Memᴰ}
use mathlib.Core.List.Memᴰ.{head, tail}
use traefik_kop.Proxy.{
  DockerProxyServer, Event, Received, event, no_error, an_error, Line, event_line, error_line,
  should_expose, filter_labels, filtered_event, is_dropped, handle_events,
}
use traefik_kop.Text.{str, str_eq}
use traefik_kop.Text.Equality.{eq_iff}

-- No error is received and no flush fails.
unfoldable pub is_smooth : {R : Type 0} → List (Received R) → Bool
is_smooth [] = true
is_smooth (event e flushed ∷ rest) = flushed && is_smooth rest
is_smooth (no_error flushed ∷ rest) = flushed && is_smooth rest
is_smooth (an_error e ∷ rest) = false

if-flushed :
    {A : Type 0} (flushed : Bool) (d : A) (others : List A)
    → Memᴰ d (if flushed then others else [])
    → Memᴰ d others
if-flushed true d others m = m
if-flushed false d others m = elim m [ ]

if-kept :
    {A : Type 0} (dropped flushed : Bool) (x d : A) (others : List A)
    → Memᴰ d (if dropped then others else x ∷ (if flushed then others else []))
    → ((d ≡ x) × (dropped ≡ false)) ⊎ Memᴰ d others
if-kept true flushed x d others m = inr m
if-kept false flushed x d others (head e) = inl (e, refl)
if-kept false flushed x d others (tail m) = inr (if-flushed flushed d others m)

later :
    {A : Type 0} (dropped flushed : Bool) (x d : A) (others : List A)
    → flushed ≡ true
    → Memᴰ d others
    → Memᴰ d (if dropped then others else x ∷ (if flushed then others else []))
later true flushed x d others h m = m
later false true x d others h m = tail m
later false false x d others h m = cc

at_once :
    {A : Type 0} (dropped flushed : Bool) (x d : A) (others : List A)
    → dropped ≡ false
    → d ≡ x
    → Memᴰ d (if dropped then others else x ∷ (if flushed then others else []))
at_once true flushed x d others h e = cc
at_once false flushed x d others h e = head e

abbrev received_of : {R : Type 0} → Event R → Received R → Event R
received_of e (event f b) = f
received_of e (no_error b) = e
received_of e (an_error x) = e

abbrev event_of : {R : Type 0} → Event R → Line R → Event R
event_of e (event_line f) = f
event_of e (error_line x) = e

module _ {R : Type 0} (s : DockerProxyServer) where
  -- Every written event is a received one, as the proxy makes it, and not a dropped one.
  handle_events_sound :
      (ms : List (Received R)) (e : Event R)
      → Memᴰ (event_line e) (handle_events s ms)
      → (from : Event R) × (flushed : Bool) × Memᴰ (event from flushed) ms
        × (e ≡ filtered_event s from)
        × (is_dropped s e ≡ false)
  unfolding handle_events
  handle_events_sound [] e m = elim m [ ]
  handle_events_sound (event f flushed ∷ ms) e m =
      elim (if-kept (is_dropped s (filtered_event s f)) flushed _ _ (handle_events s ms) m) [
        | inl (q, kept) ↦
            let same = ap (event_of e) q in
            (f, flushed, head refl, same, subst (λ x. is_dropped s x ≡ false) (sym same) kept)
        | inr n ↦ let (g, b, k, q, kept) = handle_events_sound ms e n in (g, b, tail k, q, kept)
      ]
  handle_events_sound (no_error flushed ∷ ms) e m =
      let (g, b, k, q, kept) = handle_events_sound ms e (if-flushed flushed _ _ m) in
      (g, b, tail k, q, kept)
  handle_events_sound (an_error x ∷ ms) e (head q) = cc
  handle_events_sound (an_error x ∷ ms) e (tail m) = elim m [ ]

  -- Where no error is received and no flush fails, each received event that is not dropped is
  -- written.
  handle_events_complete :
      (ms : List (Received R)) (e : Event R) (b : Bool)
      → is_smooth ms ≡ true
      → Memᴰ (event e b) ms
      → is_dropped s (filtered_event s e) ≡ false
      → Memᴰ (event_line (filtered_event s e)) (handle_events s ms)
  unfolding handle_events is_smooth
  handle_events_complete [] e b h m k = elim m [ ]
  handle_events_complete (event f c ∷ ms) e b h (head q) k =
      let same = ap (received_of e) q in
      at_once _ c _ _ _ (subst (λ x. is_dropped s (filtered_event s x) ≡ false) same k)
        (ap (λ x. event_line (filtered_event s x)) same)
  handle_events_complete (event f c ∷ ms) e b h (tail m) k =
      later _ c _ _ _ (ground arith) (handle_events_complete ms e b (ground arith) m k)
  handle_events_complete (no_error c ∷ ms) e b h (head q) k = cc
  handle_events_complete (no_error true ∷ ms) e b h (tail m) k = handle_events_complete ms e b h m k
  handle_events_complete (no_error false ∷ ms) e b h (tail m) k = cc
  handle_events_complete (an_error x ∷ ms) e b h m k = cc

  -- What the proxy shows of a received event: one of a container that it exposes, with filtered
  -- labels, and any other event as it is.
  abbrev pub Passes : Event R → Event R → Type 0
  Passes from to =
      ((from.type ≢ str "container") × (to ≡ from))
      ⊎ ((from.type ≡ str "container")
          × (to ≡ record from { attributes = filter_labels s from.attributes })
          × (should_expose s (filter_labels s from.attributes) ≡ true))

  passed :
      (from to : Event R)
      → Passes from to
      → (to ≡ filtered_event s from) × (is_dropped s (filtered_event s from) ≡ false)
  unfolding filtered_event is_dropped
  passed from to (inl (other, e)) =
      let b : str_eq from.type (str "container") ≡ false =
        ground (arith, eq_iff from.type (str "container")) in
      (rw b e, rw b (ground arith))
  passed from to (inr (same, e, seen)) =
      let b : str_eq from.type (str "container") ≡ true =
        (eq_iff from.type (str "container")).1 same in
      (rw b e, rw b (ground arith))

  kept-Passes :
      (from : Event R)
      → is_dropped s (filtered_event s from) ≡ false
      → Passes from (filtered_event s from)
  unfolding filtered_event is_dropped
  kept-Passes from k = elim (Bool-cases (str_eq from.type (str "container"))) [
    | inl e ↦
        let to : Event R = record from { attributes = filter_labels s from.attributes } in
        let same : filtered_event s from ≡ to = rw e refl in
        let kept : is_dropped s to ≡ false = subst (λ x. is_dropped s x ≡ false) same k in
        inr ((eq_iff from.type (str "container")).0 e, same, ground arith)
    | inr e ↦ inl (λ t. ground (arith, eq_iff from.type (str "container")), rw e refl)
  ]

  -- Every event that is written is what the proxy shows of a received one.
  pub handle_events-from :
      (ms : List (Received R)) (to : Event R)
      → Memᴰ (event_line to) (handle_events s ms)
      → (from : Event R) × (flushed : Bool) × Memᴰ (event from flushed) ms × Passes from to
  handle_events-from ms to m =
      let (from, b, n, e, kept) = handle_events_sound ms to m in
      (
        from,
        b,
        n,
        subst (Passes from) (sym e) (kept-Passes from (subst (λ x. is_dropped s x ≡ false) e kept)),
      )

  -- Where no error is received and no flush fails, an event is written exactly where it is what the
  -- proxy shows of a received one: an event of a container that the proxy exposes, with filtered
  -- labels, or an event of another type as it is.
  pub handle_events_iff :
      (ms : List (Received R)) (to : Event R)
      → is_smooth ms ≡ true
      → Memᴰ (event_line to) (handle_events s ms)
        ↔ ((from : Event R) × (flushed : Bool) × Memᴰ (event from flushed) ms × Passes from to)
  handle_events_iff ms to h = (
    λ m. handle_events-from ms to m,
    λ u.
        let (from, b, n, passes) = u in
        let (e, kept) = passed from to passes in
        subst (λ x. Memᴰ (event_line x) (handle_events s ms)) (sym e)
          (handle_events_complete ms from b h n kept),
  )
