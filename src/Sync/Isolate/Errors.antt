-- ===== src/Sync/Isolate/Errors.antt =====
-- Which errors the isolated lookup returns; that its fuel is enough.
use secarch_tickets.Base.{
  ℕ, zero, suc, ◌/◌, ◌<◌, ◌≡◌, ◌≢◌, ◌∙◌, ap, inl, inr, refl, false, Text, List, [], ◌∷◌, some, Map,
  Result, ok, err, Error, arith, ◌==◌, nat_eq, length, take, drop, length-take, length-drop,
  Bool-cases, Option-cases,
}
use secarch_tickets.Cmdb.Types.{SystemReference}
use secarch_tickets.Sync.World.{World, is_system_resolution_data_error}
use secarch_tickets.Sync.Isolate.{
  Resolution, then_second, after_answer, resolve_subset, resolve_departments_isolated,
  ordered_references, resolution_result,
}

module _ {W : Type 0} (world : World W) where
  -- Where an error may come from: the context, or an answer of the client that is no matter of one
  -- System's data.
  pub data Cause (e : Error) : Type 0 where
    context : (w : W) → world.ctx_err w ≡ some e → Cause e
    client :
        (subset : List SystemReference) (w : W)
        → (world.resolve_departments subset w).0 ≡ err e
        → is_system_resolution_data_error e ≡ false
        → Cause e

  -- Every error of an outcome has a cause.
  Sound : Resolution W → Type 0
  Sound r = (e : Error) → r.0 ≡ err e → Cause e

  then_second-Sound :
      (first second : Resolution W) → Sound first → Sound second → Sound (then_second first second)
  unfolding Sound
  then_second-Sound (err e, r, w) second a b = a
  then_second-Sound (ok u, r, w) second a b = b

  after_answer-Sound :
      (answer : Result (Map Text Text)) (subset : List SystemReference) (resolved : Map Text Text)
      (w w' : W) (halves : Resolution W)
      → (world.resolve_departments subset w).0 ≡ answer
      → (length subset ≢ 1 → Sound halves)
      → Sound (after_answer world answer subset resolved w' halves)
  unfolding after_answer Sound
  after_answer-Sound (ok ds) subset resolved w w' halves a h e k = absurd (ground arith)
  after_answer-Sound (err x) subset resolved w w' halves a h e k =
      elim (Option-cases (world.ctx_err w')) [
        | inr (c, cancelled) ↦ context w' (cancelled ∙ ap some (ground arith))
        | inl live ↦ elim (Bool-cases (is_system_resolution_data_error x)) [
          | inr serious ↦
              let same : x ≡ e = ground arith in
              client subset w (a ∙ ap err same) (rw (← same) serious)
          | inl its_data ↦ elim (Bool-cases (length subset == 1)) [
            | inl one ↦ absurd (ground arith)
            | inr more ↦ h (ground arith) e (rw (live, after_answer, its_data, more) at k)
          ]
        ]
      ]

  resolve_subset-step :
      (fuel : ℕ) (s : SystemReference) (subset : List SystemReference) (resolved : Map Text Text)
      (w : W)
      → (length (s ∷ subset) ≢ 1
          → (half : List SystemReference) (r : Map Text Text) (v : W)
          → length half < length (s ∷ subset)
          → Sound (resolve_subset world fuel half r v))
      → Sound (resolve_subset world (suc fuel) (s ∷ subset) resolved w)
  unfolding resolve_subset
  resolve_subset-step fuel s subset resolved w h =
      let all = s ∷ subset in
      after_answer-Sound (world.resolve_departments all w).0 all resolved w _ _ refl λ several.
        then_second-Sound _ _
          (h several (take (length all / 2) all) _ _
            (omega (arith, length-take (length all / 2) all, several)))
          (h several (drop (length all / 2) all) _ _
            (omega (arith, length-drop (length all / 2) all, several)))

  resolve_subset-Sound :
      (fuel : ℕ) (subset : List SystemReference) (resolved : Map Text Text) (w : W)
      → length subset < fuel
      → Sound (resolve_subset world fuel subset resolved w)
  resolve_subset-Sound zero subset resolved w f = absurd (omega arith)
  resolve_subset-Sound (suc fuel) [] resolved w f =
      unfold resolve_subset Sound in λ e k. absurd (ground arith)
  resolve_subset-Sound (suc fuel) (s ∷ subset) resolved w f =
      resolve_subset-step fuel s subset resolved w
        λ several half r v l. resolve_subset-Sound fuel half r v (omega (arith, f, l))

  isolated-ok :
      (r : Resolution W) (e : Error) → Sound r → (resolution_result world r).0 ≡ err e → Cause e
  unfolding Sound
  isolated-ok (ok u, m, w) e s h = absurd (ground arith)
  isolated-ok (err x, m, w) e s h = s e (ground arith)

  -- The isolated lookup fails only if the context ends, or the client fails for another reason than
  -- the data of a System; a System whose data is wrong never fails it, and its fuel never runs out.
  pub isolated_errors :
      (references : List SystemReference) (w : W) (e : Error)
      → (resolve_departments_isolated world references w).0 ≡ err e
      → Cause e
  unfolding resolve_departments_isolated
  isolated_errors references w e h =
      let ordered = ordered_references references in
      isolated-ok _ e (resolve_subset-Sound (suc (length ordered)) ordered [] w (omega arith)) h
