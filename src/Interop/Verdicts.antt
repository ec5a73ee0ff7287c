-- ===== src/Interop/Verdicts.antt =====
-- What the scenarios of interop/harness/scenarios.go leave behind, and what their success means.
use relayly.Base.{
  ◌≡◌, ◌⊎◌, inl, inr, refl, ap, sym, ◌∙◌, subst, String, ℕ, Bool, true, some, List, [], ◌∷◌, arith,
  ok, Option-cases, Result-cases, Bool-cases, nat_eq, string_eq,
}
use relayly.Sdk.Client.{Base64}
use relayly.Interop.{take_first, fill_bytes}
use relayly.Interop.Waiting.{events, wait_for_lem}
use relayly.Interop.Script.{
  Event, str, Command, send, Side, side_a, side_b, World, shim, send_command, await,
}
use relayly.Interop.Scenarios.{is_message, same_bytes, read_payload, roundtrip}

-- Some element is such.
abbrev pub Any : {A : Type 0} → (A → Type 0) → List A → Type 0
Any P [] = ⊥
Any P (x ∷ xs) = P x ⊎ Any P xs

module _ {A : Type 0} (fits : A → Bool) where
  take_first-fits :
      (xs : List A) (r : A × List A)
      → take_first fits xs ≡ some r
      → (fits r.0 ≡ true) × Any (λ x. x ≡ r.0) xs
  unfolding take_first
  take_first-fits [] r h = absurd (ground arith)
  take_first-fits (x ∷ xs) r h = elim (Bool-cases (fits x)) [
    | inl e ↦ (ground arith, inl (ground arith))
    | inr e ↦ elim (Option-cases (take_first fits xs)) [
      | inl f ↦ absurd (ground arith)
      | inr (q, f) ↦
          let (fit, at) = take_first-fits xs q f in
          let same : q.0 ≡ r.0 = ground arith in
          (ap fits (sym same) ∙ fit, inr (subst (λ y. Any (λ x. x ≡ y) xs) same at))
    ]
  ]

await-fits :
    (side : Side) (fits : Event → Bool) (w : World) (e : Event)
    → (await side fits w).0 ≡ ok e
    → (fits e ≡ true) × Any (λ x. x ≡ e) (events fits (shim side w).instance')
unfolding await
await-fits side fits w e h =
    let i = (shim side w).instance' in
    elim (Option-cases (take_first fits (events fits i))) [
      | inl f ↦ absurd (ground (arith, wait_for_lem fits i))
      | inr (r, f) ↦
          let (fit, at) = take_first-fits fits (events fits i) r f in
          let same : r.0 ≡ e = ground (arith, wait_for_lem fits i) in
          (ap fits (sym same) ∙ fit, subst (λ y. Any (λ x. x ≡ y) (events fits i)) same at)
    ]

same_bytes-eq : (xs ys : List ℕ) → same_bytes xs ys ≡ true → xs ≡ ys
unfolding same_bytes
same_bytes-eq [] [] h = refl
same_bytes-eq (x ∷ xs) (y ∷ ys) h = ground (arith, same_bytes-eq xs ys)
same_bytes-eq [] (y ∷ ys) h = absurd (ground arith)
same_bytes-eq (x ∷ xs) [] h = absurd (ground arith)

Any-map :
    {A : Type 0} (P Q : A → Type 0) (xs : List A) → ((x : A) → P x → Q x) → Any P xs → Any Q xs
Any-map P Q [] f h = h
Any-map P Q (x ∷ xs) f (inl p) = inl (f x p)
Any-map P Q (x ∷ xs) f (inr q) = inr (Any-map P Q xs f q)

send_command-instance :
    (side other : Side) (c : Command) (w : World)
    → (shim other (send_command side c w).1).instance' ≡ (shim other w).instance'
unfolding send_command
send_command-instance side_a side_a c w = ground arith
send_command-instance side_a side_b c w = ground arith
send_command-instance side_b side_a c w = ground arith
send_command-instance side_b side_b c w = ground arith

module _ (base64 : Base64) where
  -- What a message of the payload is.
  abbrev pub Carries : String → ℕ → Event → Type 0
  Carries sender n e =
      (is_message sender e ≡ true) × (base64.decode (str e "payload_b64") ≡ some (fill_bytes n))

  received-Carries :
      (sender : String) (n : ℕ) (e : Event) (w : World)
      → is_message sender e ≡ true
      → (read_payload base64 (fill_bytes n) e w).0 ≡ ok tt
      → Carries sender n e
  unfolding read_payload
  received-Carries sender n e w fit h = elim (Option-cases (base64.decode (str e "payload_b64"))) [
    | inl f ↦ absurd (ground arith)
    | inr (got, f) ↦ (fit, ground (arith, same_bytes-eq got (fill_bytes n)))
  ]

  pub roundtrip_sound :
      (sender receiver : Side) (sender_id receiver_id : String) (n : ℕ) (w : World)
      → (roundtrip base64 sender receiver sender_id receiver_id n w).0 ≡ ok tt
      → Any (Carries sender_id n) (events (is_message sender_id) (shim receiver w).instance')
  unfolding roundtrip
  roundtrip_sound sender receiver sender_id receiver_id n w h =
      let command = send receiver_id (base64.encode (fill_bytes n)) in
      let v = (send_command sender command w).1 in
      elim (Result-cases (send_command sender command w).0) [
        | inr (x, f) ↦ absurd (ground arith)
        | inl (u, f) ↦ elim (Result-cases (await receiver (is_message sender_id) v).0) [
          | inr (x, g) ↦ absurd (ground arith)
          | inl (e, g) ↦
              let (fit, at) = await-fits receiver (is_message sender_id) v e g in
              let v' = (await receiver (is_message sender_id) v).1 in
              let carries = received-Carries sender_id n e v' fit (ground arith) in
              subst (λ i. Any (Carries sender_id n) (events (is_message sender_id) i))
                (send_command-instance sender receiver command w)
                (Any-map (λ x. x ≡ e) (Carries sender_id n)
                  (events (is_message sender_id) (shim receiver v).instance')
                  (λ x same. subst (Carries sender_id n) (sym same) carries) at)
        ]
      ]
