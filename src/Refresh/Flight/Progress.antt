-- ===== src/Refresh/Flight/Progress.antt =====
-- What callers of RefreshOpenTickets rely on: one synchronization at a time, one result for all who
-- share it, and no caller that is left waiting.
use secarch_tickets.Base.{
  ℕ, ◌≡◌, ◌≢◌, refl, inl, inr, none, some, Bool-cases, ap, ◌∙◌, sentinel, err_refresh_rejected,
  ==-self, ==-ne, nat_eq, option_eq, if◌then◌else◌, arith, Result,
}
use secarch_tickets.Base.Floats.{Floats}
use secarch_tickets.Refresh.{
  Time, RefreshPolicy, Coordinator, reject_refresh, record_outcome, refresh_open_tickets_once,
}
use secarch_tickets.Refresh.Flight.{
  Outcome, Call, idle, leading, syncing, worked, waiting, returned, cancelled, Service, update,
  enter, entered, check, complete, finish, receive, Step, enters, checks, completes, finishes,
  receives, Steps, stays, then_step,
}
use secarch_tickets.Refresh.Flight.Invariant.{leads, IsSafeService, Steps-IsSafe}

-- No call was made since the service started.
abbrev pub at_start : {W : Type 0} → Coordinator → W → Service W
at_start c w = record {
  in_flight = none;
  next_flight = 0;
  results = λ f. none;
  calls = λ i. idle;
  coordinator = c;
  world = w;
}

at_start-IsSafe : {W : Type 0} (c : Coordinator) (w : W) → IsSafeService (at_start c w)
at_start-IsSafe c w = record {
  current = λ i f h. absurd (ground arith);
  alone = λ i j f h k. absurd (ground arith);
  led = λ f h. absurd (ground arith);
  pending = λ f h. refl;
  numbered = λ f h. absurd (ground arith);
  fresh = λ f h. refl;
  waits = λ i f h. absurd (ground arith);
  told = λ i f o h. absurd (ground arith);
}

some-injective : {A : Type 0} {a b : A} → some a ≡ some b → a ≡ b
some-injective h = cc

update_self : {A : Type 0} (f : ℕ → A) (i : ℕ) (a : A) → update f i a i ≡ a
unfolding update
update_self f i a = rw (==-self i) refl

update_other : {A : Type 0} (f : ℕ → A) (i j : ℕ) (a : A) → i ≢ j → update f i a j ≡ f j
unfolding update
update_other f i j a h = rw (==-ne i j h) refl

module _ ⦃fl : Floats⦄ {W : Type 0} (clock : W → Time × W) (sync : W → Result ℕ × W)
    (p : RefreshPolicy) where
  -- At any time, however calls overlap, at most one is in a synchronization, and two calls that
  -- returned from the same flight returned the same result.
  pub single_flight :
      (c : Coordinator) (w : W) (s : Service W)
      → Steps clock sync p (at_start c w) s
      → ((i j f g : ℕ)
          → leads (s.calls i) ≡ some f
          → leads (s.calls j) ≡ some g
          → (i ≡ j) × (f ≡ g))
        × ((i j f : ℕ) (o r : Outcome)
            → s.calls i ≡ returned f o
            → s.calls j ≡ returned f r
            → o ≡ r)
  single_flight c w s steps =
      let safe = Steps-IsSafe clock sync p steps (at_start-IsSafe c w) in
      (
        λ i j f g h k.
            let same : f ≡ g = ground (arith, safe.current i f h, safe.current j g k) in
            (safe.alone i j g (rw same at h) k, same),
        λ i j f o r h k. ground (arith, safe.told i f o h, safe.told j f r k),
      )

  -- Some further steps let the call return from its flight.
  abbrev pub CanReturn : Service W → ℕ → ℕ → Type 0
  CanReturn s i f =
      (t : Service W) × (o : Outcome) × Steps clock sync p s t × (t.calls i ≡ returned f o)

  Steps-front :
      {s t u : Service W} → Step clock sync p s t → Steps clock sync p t u → Steps clock sync p s u
  Steps-front k stays = then_step stays k
  Steps-front k (then_step r l) = then_step (Steps-front k r) l

  after_step :
      {s t : Service W} (i f : ℕ) → Step clock sync p s t → CanReturn t i f → CanReturn s i f
  after_step i f k (t, o, steps, told) = (t, o, Steps-front k steps, told)

  waiter_closed :
      (s : Service W) (i f : ℕ) (o : Outcome)
      → s.calls i ≡ waiting f
      → s.results f ≡ some o
      → CanReturn s i f
  waiter_closed s i f o h r = (
    receive clock sync p s i f o,
    o,
    then_step stays (receives i f o h r),
    update_self s.calls i (returned f o),
  )

  waiter_worked :
      (s : Service W) (i j f : ℕ) (o : Outcome)
      → j ≢ i
      → s.calls i ≡ waiting f
      → s.calls j ≡ worked f o
      → CanReturn s i f
  waiter_worked s i j f o ne h k = after_step i f (finishes j f o k) (
      waiter_closed (finish clock sync p s j f o) i f o
        (rw (update_other s.calls j i (returned f o) ne) h) (update_self s.results f (some o)))

  waiter_syncing :
      (s : Service W) (i j f : ℕ)
      → j ≢ i
      → s.calls i ≡ waiting f
      → s.calls j ≡ syncing f
      → CanReturn s i f
  waiter_syncing s i j f ne h k =
      let o = (record_outcome clock sync p (sync s.world).0 s.coordinator (sync s.world).1).0 in
      after_step i f (completes j f k) (
        waiter_worked (complete clock sync p s j f) i j f o ne
          (rw (update_other s.calls j i (worked f o) ne) h) (update_self s.calls j (worked f o)))

  waiter_leading :
      (s : Service W) (i j f : ℕ)
      → j ≢ i
      → s.calls i ≡ waiting f
      → s.calls j ≡ leading f
      → CanReturn s i f
  waiter_leading s i j f ne h k =
      let (result, rejected, c1) = reject_refresh s.coordinator (clock s.world).0 in
      let place =
        if rejected then worked f (result, some (sentinel err_refresh_rejected)) else syncing f in
      let still = update_other s.calls j i place ne ∙ h in
      let there = update_self s.calls j place in
      after_step i f (checks j f k) (elim (Bool-cases rejected) [
        | inl e ↦
            waiter_worked (check clock sync p s j f) i j f
              (result, some (sentinel err_refresh_rejected)) ne still (there ∙ rw e refl)
        | inr e ↦ waiter_syncing (check clock sync p s j f) i j f ne still (there ∙ rw e refl)
      ])

  -- Whatever place the leader of a flight is in, it can close the flight.
  waiter_led :
      (s : Service W) (i j f : ℕ)
      → s.calls i ≡ waiting f
      → leads (s.calls j) ≡ some f
      → CanReturn s i f
  waiter_led s i j f h l = from (s.calls j) refl l
    where
      other : j ≢ i
      other same = let k = rw (ap (λ n. leads (s.calls n)) same ∙ ap leads h) at l in ground arith

      from : (c : Call) → s.calls j ≡ c → leads c ≡ some f → CanReturn s i f
      from idle e k = absurd (ground arith)
      from (leading g) e k = waiter_leading s i j f other h (e ∙ ap leading (some-injective k))
      from (syncing g) e k = waiter_syncing s i j f other h (e ∙ ap syncing (some-injective k))
      from (worked g o) e k =
          waiter_worked s i j f o other h (e ∙ ap (λ n. worked n o) (some-injective k))
      from (waiting g) e k = absurd (ground arith)
      from (returned g o) e k = absurd (ground arith)
      from (cancelled o) e k = absurd (ground arith)

  -- A call that waits is never stuck: in every state that is reached, further steps of the leader of
  -- its flight close the flight, and the call returns with its result.
  pub waiter_returns :
      (c : Coordinator) (w : W) (s : Service W)
      → Steps clock sync p (at_start c w) s
      → (i f : ℕ) → s.calls i ≡ waiting f
      → CanReturn s i f
  waiter_returns c w s steps i f h =
      let safe = Steps-IsSafe clock sync p steps (at_start-IsSafe c w) in
      elim (safe.waits i f h) [
        | inr (o, r) ↦ waiter_closed s i f o h r
        | inl e ↦ let (j, l) = safe.led f e in waiter_led s i j f h l
      ]

  abbrev once : Coordinator → W → Outcome × (Coordinator × W)
  once = refresh_open_tickets_once clock sync p

  -- A call that nobody joins is refreshOpenTicketsOnce: it can return that function's result, and leaves
  -- its coordinator, with no flight open.
  pub solo_call-once :
      (s : Service W) (i : ℕ)
      → s.in_flight ≡ none
      → s.calls i ≡ idle
      → (t : Service W) × Steps clock sync p s t
        × (t.calls i ≡ returned s.next_flight (once s.coordinator s.world).0)
        × (t.coordinator ≡ (once s.coordinator s.world).1.0)
        × (t.world ≡ (once s.coordinator s.world).1.1)
        × (t.in_flight ≡ none)
  unfolding refresh_open_tickets_once
  solo_call-once s i alone h =
      let f = s.next_flight in
      let (result, rejected, c1) = reject_refresh s.coordinator (clock s.world).0 in
      let s1 = entered clock sync p s i none in
      let s2 = check clock sync p s1 i f in
      let entering : Step clock sync p s (enter clock sync p s i) = enters i h in
      let first : Step clock sync p s s1 = rw (ap (entered clock sync p s i) alone) at entering in
      let o : Outcome = (result, some (sentinel err_refresh_rejected)) in
      let place = if rejected then worked f o else syncing f in
      let there = update_self s1.calls i place in
      let second = checks i f (update_self s.calls i (leading f)) in
      elim (Bool-cases rejected) [
        | inl e ↦ (
          finish clock sync p s2 i f o,
          then_step (then_step (then_step stays first) second) (finishes i f o (there ∙ rw e refl)),
          update_self s2.calls i (returned f o) ∙ rw e refl,
          rw e refl,
          rw e refl,
          rw (==-self (some f)) refl,
        )
        | inr e ↦
            let s3 = complete clock sync p s2 i f in
            let r =
              (record_outcome clock sync p (sync (clock s.world).1).0 c1
                (sync (clock s.world).1).1).0 in
            (
              finish clock sync p s3 i f r,
              then_step
                  (then_step (then_step (then_step stays first) second)
                    (completes i f (there ∙ rw e refl)))
                  (finishes i f r (update_self s2.calls i (worked f r))),
              update_self s3.calls i (returned f r) ∙ rw e refl,
              rw e refl,
              rw e refl,
              rw (==-self (some f)) refl,
            )
      ]
