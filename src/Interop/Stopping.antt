-- ===== src/Interop/Stopping.antt =====
-- No scenario of interop/harness/scenarios.go leaves a client process behind.
use relayly.Base.{
  ◌≡◌, refl, ◌∙◌, ap, ℕ, zero, suc, Bool, true, false, none, arith, Result, ok, err, Result-cases,
  inl, inr, Option-cases, String, ◌||◌, if◌then◌else◌,
}
use relayly.Sdk.Client.{Base64}
use relayly.Sdk.Frames.{before}
use relayly.Interop.{wait_for}
use relayly.Interop.Script.{
  Side, side_a, side_b, World, Script, after, shim, set_shim, head_or, tail, register_device, await,
  Event, is_type, greeted, start_instance, send_command, close_instance, with_instance,
}
use relayly.Interop.Scenarios.{
  run_positive_flow, run_wrong_pin_test, run_key_rewrite_test, register_ordered,
  run_rekey_safety_test, seed_pin_file,
}

-- Neither client under test runs.
abbrev pub AtRest : World → Type 0
AtRest w = (w.shim_a.running ≡ false) × (w.shim_b.running ≡ false)

close_a : (w : World) → w.shim_b.running ≡ false → AtRest (close_instance side_a w)
unfolding close_instance send_command
close_a w h = (ground arith, ground arith)

close_b-stops : (w : World) → (close_instance side_b w).shim_b.running ≡ false
unfolding close_instance send_command
close_b-stops w = ground arith

await_a-other : (fits : Event → Bool) (w : World) → (await side_a fits w).1.shim_b ≡ w.shim_b
unfolding await
await_a-other fits w = elim (Option-cases (wait_for fits w.shim_a.instance').0) [
  | inl e ↦ ground arith
  | inr (x, e) ↦ ground arith
]

greeted_a-other :
    (r : Result String Event) (w : World) → (greeted side_a (r, w)).1.shim_b ≡ w.shim_b
greeted_a-other (err e) w = refl
greeted_a-other (ok e) w = ground arith

greeted_a-failed :
    (r : Result String Event) (w : World) (e : String)
    → (greeted side_a (r, w)).0 ≡ err e
    → (greeted side_a (r, w)).1.shim_a.running ≡ false
greeted_a-failed (err x) w e h = refl
greeted_a-failed (ok x) w e h = ground arith

greeted_b-failed :
    (r : Result String Event) (w : World) (e : String)
    → (greeted side_b (r, w)).0 ≡ err e
    → (greeted side_b (r, w)).1.shim_b.running ≡ false
greeted_b-failed (err x) w e h = refl
greeted_b-failed (ok x) w e h = ground arith

-- The world in which the launched shim is waited for.
abbrev launched : Side → World → World
launched side w =
    let v = record w { launches = tail w.launches } in
    set_shim side (record (shim side v) { running = true }) v

abbrev awaited : Side → World → Result String Event × World
awaited side w = await side (λ e. is_type "ready" e || is_type "connect_error" e) (launched side w)

start_a-other : (w : World) → (start_instance side_a w).1.shim_b ≡ w.shim_b
unfolding start_instance
start_a-other w = ground (
  arith,
  greeted_a-other (awaited side_a w).0 (awaited side_a w).1,
  await_a-other (λ (e : Event). is_type "ready" e || is_type "connect_error" e) (launched side_a w),
)

start_a-failed :
    (w : World) (e : String)
    → (start_instance side_a w).0 ≡ err e
    → w.shim_a.running ≡ false
    → (start_instance side_a w).1.shim_a.running ≡ false
unfolding start_instance
start_a-failed w e h rest =
    ground (arith, greeted_a-failed (awaited side_a w).0 (awaited side_a w).1 e)

start_b-failed :
    (w : World) (e : String)
    → (start_instance side_b w).0 ≡ err e
    → w.shim_b.running ≡ false
    → (start_instance side_b w).1.shim_b.running ≡ false
unfolding start_instance
start_b-failed w e h rest =
    ground (arith, greeted_b-failed (awaited side_b w).0 (awaited side_b w).1 e)

module _ {A : Type 0} where
  with_b-stops :
      (body : Script A) (w : World)
      → w.shim_b.running ≡ false
      → (with_instance side_b body w).1.shim_b.running ≡ false
  unfolding with_instance
  with_b-stops body w h = elim (Result-cases (start_instance side_b w).0) [
    | inl (u, e) ↦ ground (arith, close_b-stops (body (start_instance side_b w).1).1)
    | inr (x, e) ↦ ground (arith, start_b-failed w x)
  ]

  with_both-AtRest :
      (body : Script A) (w : World)
      → AtRest w
      → AtRest (with_instance side_a (with_instance side_b body) w).1
  unfolding with_instance
  with_both-AtRest body w (a, b) = elim (Result-cases (start_instance side_a w).0) [
    | inl (u, e) ↦
        let v = (start_instance side_a w).1 in
        let stopped : v.shim_b.running ≡ false = ap (λ s. s.running) (start_a-other w) ∙ b in
        let after = close_a (with_instance side_b body v).1 (with_b-stops body v stopped) in
        ground arith
    | inr (x, e) ↦ ground (arith, start_a-failed w x, start_a-other w)
  ]

-- An action that leaves no client behind if it is begun with none.
abbrev pub Stops : {A : Type 0} → Script A → Type 0
Stops m = (w : World) → AtRest w → AtRest (m w).1

Stops-bind :
    {A B : Type 0} (m : Script A) (f : A → Script B)
    → Stops m
    → ((x : A) → Stops (f x))
    → Stops (λ w. after (m w) f)
Stops-bind m f sm sf w h = elim (Result-cases (m w).0) [
  | inl (x, e) ↦ rw (after, e) (sf x (m w).1 (sm w h))
  | inr (x, e) ↦ rw (after, e) (sm w h)
]

Stops-if :
    {A : Type 0} (test : Bool) (m n : Script A) → Stops m → Stops n → Stops (if test then m else n)
Stops-if true m n sm sn = sm
Stops-if false m n sm sn = sn

register_device-Stops : Stops register_device
unfolding register_device
register_device-Stops w h = elim (Option-cases (head_or none w.registrations)) [
  | inl e ↦ (ground arith, ground arith)
  | inr (x, e) ↦ (ground arith, ground arith)
]

seed_pin_file-Stops : Stops seed_pin_file
unfolding seed_pin_file
seed_pin_file-Stops w h = (ground arith, ground arith)

register_ordered-Stops : (n : ℕ) → Stops (register_ordered n)
unfolding register_ordered
register_ordered-Stops zero = λ w h. h
register_ordered-Stops (suc n) = Stops-bind register_device _ register_device-Stops λ victim.
    Stops-bind register_device _ register_device-Stops λ partner.
      Stops-if (before partner.device_id victim.device_id) _ _ (λ w h. h) (register_ordered-Stops n)

module _ (base64 : Base64) where
  pub scenarios-Stops :
      Stops (run_positive_flow base64)
      × Stops (run_wrong_pin_test base64)
      × Stops (run_key_rewrite_test base64)
      × Stops (run_rekey_safety_test base64)
  unfolding run_positive_flow run_wrong_pin_test run_key_rewrite_test run_rekey_safety_test
  scenarios-Stops = (
    Stops-bind register_device _ register_device-Stops
        λ dev_a. Stops-bind register_device _ register_device-Stops λ dev_b. with_both-AtRest _,
    Stops-bind register_device _ register_device-Stops λ dev_a.
        Stops-bind register_device _ register_device-Stops
          λ dev_b. Stops-bind seed_pin_file _ seed_pin_file-Stops λ u. with_both-AtRest _,
    Stops-bind register_device _ register_device-Stops
        λ dev_a. Stops-bind register_device _ register_device-Stops λ dev_b. with_both-AtRest _,
    Stops-bind (register_ordered 10) _ (register_ordered-Stops 10) λ devices. with_both-AtRest _,
  )
