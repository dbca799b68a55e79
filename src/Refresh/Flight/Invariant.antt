-- ===== src/Refresh/Flight/Invariant.antt =====
-- What holds in every state that concurrent calls of RefreshOpenTickets reach.
use secarch_tickets.Base.{
  ℕ, suc, ◌≤◌, ◌<◌, ◌≡◌, ◌≢◌, refl, ◌⊎◌, inl, inr, Bool, true, false, Option, none, some,
  Bool-cases, ◌==◌, ==-iff, ==-self, nat_eq, option_eq, if◌then◌else◌, arith, Result,
}
use secarch_tickets.Base.Floats.{Floats}
use secarch_tickets.Refresh.{Time, RefreshPolicy, reject_refresh}
use secarch_tickets.Refresh.Flight.{
  Outcome, Call, idle, leading, syncing, worked, waiting, returned, cancelled, Service, update,
  enter, entered, Step, enters, checks, completes, finishes, receives, cancels, Steps, stays,
  then_step,
}

-- The flight that a call leads.
abbrev pub leads : Call → Option ℕ
leads idle = none
leads (leading f) = some f
leads (syncing f) = some f
leads (worked f o) = some f
leads (waiting f) = none
leads (returned f o) = none
leads (cancelled o) = none

pub record IsSafe (in_flight : Option ℕ) (next : ℕ) (results : ℕ → Option Outcome)
    (calls : ℕ → Call) : Type 0 where
  -- A leader leads the flight that there is, which has one leader.
  pub current : (i f : ℕ) → leads (calls i) ≡ some f → in_flight ≡ some f
  pub alone : (i j f : ℕ) → leads (calls i) ≡ some f → leads (calls j) ≡ some f → i ≡ j
  pub led : (f : ℕ) → in_flight ≡ some f → (i : ℕ) × (leads (calls i) ≡ some f)
  pub pending : (f : ℕ) → in_flight ≡ some f → results f ≡ none
  pub numbered : (f : ℕ) → in_flight ≡ some f → f < next
  pub fresh : (f : ℕ) → next ≤ f → results f ≡ none
  -- A call that waits does so for the flight that there is, or for one that is closed.
  pub waits :
      (i f : ℕ)
      → calls i ≡ waiting f
      → (in_flight ≡ some f) ⊎ ((o : Outcome) × (results f ≡ some o))
  -- A call that returned has the result of its flight.
  pub told : (i f : ℕ) (o : Outcome) → calls i ≡ returned f o → results f ≡ some o

module _ (next : ℕ) (results : ℕ → Option Outcome) (calls : ℕ → Call) (i : ℕ) where
  start-IsSafe :
      IsSafe none next results calls
      → IsSafe (some next) (suc next) results (update calls i (leading next))
  unfolding update
  start-IsSafe s = record {
    current = λ j f h. ground (arith, ==-iff i j, s.current j f);
    alone = λ j k f h l. ground (arith, ==-iff i j, ==-iff i k, s.current j f, s.current k f);
    led = λ f h. (i, ground (arith, ==-self i));
    pending = λ f h. ground (arith, s.fresh f);
    numbered = λ f h. ground arith;
    fresh = λ f h. ground (arith, s.fresh f);
    waits = λ j f h. elim (s.waits j f (ground (arith, ==-iff i j))) [
      | inl k ↦ absurd (ground arith)
      | inr k ↦ inr k
    ];
    told = λ j f o h. ground (arith, ==-iff i j, s.told j f o);
  }

module _ (in_flight : Option ℕ) (next : ℕ) (results : ℕ → Option Outcome) (calls : ℕ → Call)
    (s : IsSafe in_flight next results calls) (i : ℕ) where
  -- A call that leads goes on leading the same flight.
  keep_leading-IsSafe :
      (f : ℕ) (c : Call)
      → leads (calls i) ≡ some f
      → leads c ≡ some f
      → ((g : ℕ) → c ≢ waiting g) × ((g : ℕ) (o : Outcome) → c ≢ returned g o)
      → IsSafe in_flight next results (update calls i c)
  unfolding update
  keep_leading-IsSafe f c now after (no_wait, no_return) = record {
    current = λ j g h. ground (arith, ==-iff i j, s.current j g, s.current i f);
    alone = λ j k g h l.
        ground (arith, ==-iff i j, ==-iff i k, s.alone j k g, s.alone i k g, s.alone j i g);
    led = λ g h. let (j, k) = s.led g h in (j, ground (arith, ==-iff i j));
    pending = s.pending;
    numbered = s.numbered;
    fresh = s.fresh;
    waits = λ j g h. s.waits j g (ground (arith, ==-iff i j, no_wait g));
    told = λ j g o h. s.told j g o (ground (arith, ==-iff i j, no_return g o));
  }

  -- A call that leads no flight takes a place from which it leads none.
  step_aside-IsSafe :
      (c : Call)
      → leads (calls i) ≡ none
      → leads c ≡ none
      → ((g : ℕ) → c ≡ waiting g → (in_flight ≡ some g) ⊎ ((o : Outcome) × (results g ≡ some o)))
      → ((g : ℕ) (o : Outcome) → c ≡ returned g o → results g ≡ some o)
      → IsSafe in_flight next results (update calls i c)
  unfolding update
  step_aside-IsSafe c before after waits told = record {
    current = λ j g h. ground (arith, ==-iff i j, s.current j g);
    alone = λ j k g h l. ground (arith, ==-iff i j, ==-iff i k, s.alone j k g);
    led = λ g h. let (j, k) = s.led g h in (j, ground (arith, ==-iff i j));
    pending = s.pending;
    numbered = s.numbered;
    fresh = s.fresh;
    waits = λ j g h. elim (Bool-cases (i == j)) [
      | inl e ↦ waits g (rw e at h)
      | inr e ↦ s.waits j g (rw e at h)
    ];
    told = λ j g o h. elim (Bool-cases (i == j)) [
      | inl e ↦ told g o (rw e at h)
      | inr e ↦ s.told j g o (rw e at h)
    ];
  }

  -- The leader closes its flight.
  finish-IsSafe :
      (f : ℕ) (o : Outcome)
      → leads (calls i) ≡ some f
      → IsSafe
          (if in_flight == some f then none else in_flight)
          next
          (update results f (some o))
          (update calls i (returned f o))
  unfolding update
  finish-IsSafe f o now =
      let open_flight : in_flight ≡ some f = s.current i f now in
      let others : (j g : ℕ) → i == j ≡ false → leads (calls j) ≡ some g → i ≡ j =
        λ j g ne h. s.alone i j f now (ground (arith, s.current j g h)) in
      rw open_flight (
        rw (==-self (some f)) (record {
          current = λ j g h. absurd (ground (arith, ==-iff i j, others j g));
          alone = λ j k g h l. absurd (ground (arith, ==-iff i j, others j g));
          led = λ g h. absurd (ground arith);
          pending = λ g h. absurd (ground arith);
          numbered = λ g h. absurd (ground arith);
          fresh = λ g h. ground (arith, ==-iff f g, s.numbered f, s.fresh g);
          waits = λ j g h. inr (elim (Bool-cases (f == g)) [
            | inl e ↦ (o, rw e refl)
            | inr e ↦ elim (s.waits j g (ground (arith, ==-iff i j))) [
              | inl k ↦ absurd (ground (arith, ==-iff f g))
              | inr k ↦ (k.0, rw e k.1)
            ]
          ]);
          told = λ j g r h. elim (Bool-cases (i == j)) [
            | inl e ↦ let k = rw e at h in ground (arith, ==-iff f g)
            | inr e ↦
                let k = s.told j g r (rw e at h) in
                let no = s.pending f open_flight in ground (arith, ==-iff f g)
          ];
        }))

abbrev pub IsSafeService : {W : Type 0} → Service W → Type 0
IsSafeService s = IsSafe s.in_flight s.next_flight s.results s.calls

module _ ⦃fl : Floats⦄ {W : Type 0} (clock : W → Time × W) (sync : W → Result ℕ × W)
    (p : RefreshPolicy) where
  enter-IsSafe :
      (s : Service W) (i : ℕ)
      → s.calls i ≡ idle
      → IsSafeService s
      → IsSafeService (enter clock sync p s i)
  enter-IsSafe s i h safe = from s.in_flight refl
    where
      from : (o : Option ℕ) → s.in_flight ≡ o → IsSafeService (entered clock sync p s i o)
      from none e = start-IsSafe s.next_flight s.results s.calls i (rw e at safe)
      from (some f) e =
          step_aside-IsSafe s.in_flight s.next_flight s.results s.calls safe i (waiting f)
            (rw h refl) refl (λ g k. inl (ground arith)) (λ g o k. absurd (ground arith))

  checked-leads :
      (f : ℕ) (b : Bool) (o : Outcome) → leads (if b then worked f o else syncing f) ≡ some f
  checked-leads f true o = refl
  checked-leads f false o = refl

  checked-places :
      (f : ℕ) (b : Bool) (o : Outcome)
      → ((g : ℕ) → (if b then worked f o else syncing f) ≢ waiting g)
        × ((g : ℕ) (r : Outcome) → (if b then worked f o else syncing f) ≢ returned g r)
  checked-places f true o = (λ g k. ground arith, λ g r k. ground arith)
  checked-places f false o = (λ g k. ground arith, λ g r k. ground arith)

  pub Step-IsSafe : {s t : Service W} → Step clock sync p s t → IsSafeService s → IsSafeService t
  Step-IsSafe {s} (enters i h) safe = enter-IsSafe s i h safe
  Step-IsSafe {s} (checks i f h) safe =
      let answer = reject_refresh s.coordinator (clock s.world).0 in
      keep_leading-IsSafe s.in_flight s.next_flight s.results s.calls safe i f _ (rw h refl)
        (checked-leads f answer.1 _) (checked-places f answer.1 _)
  Step-IsSafe {s} (completes i f h) safe =
      keep_leading-IsSafe s.in_flight s.next_flight s.results s.calls safe i f _ (rw h refl) refl
        (λ g k. ground arith, λ g r k. ground arith)
  Step-IsSafe {s} (finishes i f o h) safe =
      finish-IsSafe s.in_flight s.next_flight s.results s.calls safe i f o (rw h refl)
  Step-IsSafe {s} (receives i f o h r) safe =
      step_aside-IsSafe s.in_flight s.next_flight s.results s.calls safe i (returned f o)
        (rw h refl) refl (λ g k. absurd (ground arith)) (λ g q k. ground arith)
  Step-IsSafe {s} (cancels i f h) safe =
      step_aside-IsSafe s.in_flight s.next_flight s.results s.calls safe i _ (rw h refl) refl
        (λ g k. absurd (ground arith)) (λ g q k. absurd (ground arith))

  pub Steps-IsSafe : {s t : Service W} → Steps clock sync p s t → IsSafeService s → IsSafeService t
  Steps-IsSafe stays safe = safe
  Steps-IsSafe (then_step r k) safe = Step-IsSafe k (Steps-IsSafe r safe)
