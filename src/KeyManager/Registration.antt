-- ===== src/KeyManager/Registration.antt =====
-- key_manager/key_manager.rs: when `initialize` succeeds, and how often it tries.
use chain_adjacent_service.Prelude.{
  ltb, ◌==◌, ==_iff, Bool-cases, Option-cases, Result-cases, Result, ok, err, bind_ok, guard_ok,
  guard, ℕ, zero, suc, ◌+◌, ◌≤◌, ◌<◌, ◌≡◌, ◌↔◌, refl, sym, ap, ◌∙◌, subst, ◌⊎◌, inl, inr, not, Bool,
  true, false, Option, none, some, arith,
}
use chain_adjacent_service.Prelude.Words.{Bytes}
use chain_adjacent_service.KeyManager.{
  TeeType, tee_type_byte, KeyManagerError, invalid_config, Services, Registrar,
  new_with_attestation_provider, on_chain_tee_type, prepare_register_service,
  verify_registration_on_chain, prepare_loop, register_loop, register_round, Outcome, register_with,
  initialize,
}

module _ (S : Services) (k : Registrar) where
  abbrev pub registers : Bytes → Bytes → ℕ → Bool
  registers journal proof attempt =
      S.register_service attempt journal proof (tee_type_byte (on_chain_tee_type k.tee_type))

  -- The first preparation that succeeds, among `left` from `attempt` on.
  abbrev pub Prepared : ℕ → ℕ → Bytes × Bytes → Type 0
  Prepared left attempt registration =
      (i : ℕ) × (attempt ≤ i)
      × (i < attempt + left)
      × (prepare_register_service S k i ≡ ok registration)
      × ((j : ℕ)
          → attempt ≤ j
          → j < i
          → (e : KeyManagerError) × (prepare_register_service S k j ≡ err e))

  -- A registration that the chain confirms; of those before it each failed or was denied.
  abbrev pub Registered : Bytes → Bytes → ℕ → ℕ → Type 0
  Registered journal proof left attempt =
      (i : ℕ) × (attempt ≤ i)
      × (i < attempt + left)
      × (registers journal proof i ≡ true)
      × (verify_registration_on_chain S k i ≡ some true)
      × ((j : ℕ)
          → attempt ≤ j
          → j < i
          → (registers journal proof j ≡ false) ⊎ (verify_registration_on_chain S k j ≡ some false))

  prepare_loop_bound : (left attempt : ℕ) → (prepare_loop S k left attempt).1 ≤ left
  unfolding prepare_loop
  prepare_loop_bound zero attempt = omega arith
  prepare_loop_bound (suc left) attempt =
      elim (Result-cases (prepare_register_service S k attempt)) [
        | inl (r, e) ↦ rw (prepare_loop, e) (omega arith)
        | inr (x, e) ↦ rw (prepare_loop, e) (omega (arith, prepare_loop_bound left (suc attempt)))
      ]

  register_round_bound :
      (left : ℕ) (made : Bool) (verified : Option Bool)
      (rest : Result KeyManagerError (Unit {0}) × ℕ)
      → rest.1 ≤ left
      → (register_round S k made verified rest).1 ≤ suc left
  register_round_bound left true none rest h = omega arith
  register_round_bound left true (some true) rest h = omega arith
  register_round_bound left true (some false) rest h = omega arith
  register_round_bound left false verified rest h = omega arith

  register_loop_bound :
      (journal proof : Bytes) (left attempt : ℕ)
      → (register_loop S k journal proof left attempt).1 ≤ left
  unfolding register_loop
  register_loop_bound journal proof zero attempt = omega arith
  register_loop_bound journal proof (suc left) attempt =
      register_round_bound left _ _ (register_loop S k journal proof left (suc attempt))
        (register_loop_bound journal proof left (suc attempt))

  Bounded : Outcome → Type 0
  Bounded o =
      (o.preparations ≤ k.max_register_attempts) × (o.registrations ≤ k.max_register_attempts)

  register_with_bound :
      (prepared : Option (Bytes × Bytes) × ℕ)
      → prepared.1 ≤ k.max_register_attempts
      → Bounded (register_with S k prepared)
  unfolding Bounded
  register_with_bound (none, calls) h = (h, omega arith)
  register_with_bound (some (journal, proof), calls) h =
      (h, register_loop_bound journal proof k.max_register_attempts 1)

  initialize_bound : Bounded (initialize S k)
  unfolding initialize Bounded
  initialize_bound = elim (Option-cases (verify_registration_on_chain S k 0)) [
    | inl e ↦ rw (initialize, e) (omega arith, omega arith)
    | inr (true, e) ↦ rw (initialize, e) (omega arith, omega arith)
    | inr (false, e) ↦
        rw (initialize, e)
          (register_with_bound (prepare_loop S k k.max_register_attempts 1)
            (prepare_loop_bound k.max_register_attempts 1))
  ]

  -- A property of the numbers from `attempt` on below `i`, from the first and the others.
  from_first :
      (P : ℕ → Type 0) (attempt i : ℕ)
      → P attempt
      → ((j : ℕ) → suc attempt ≤ j → j < i → P j)
      → (j : ℕ) → attempt ≤ j
      → j < i
      → P j
  from_first P attempt i first others j le lt = elim (Bool-cases (attempt == j)) [
    | inl e ↦ subst P ((==_iff attempt j).0 e) first
    | inr e ↦ others j (ground arith) lt
  ]

  abbrev Refused : Bytes → Bytes → ℕ → Type 0
  Refused journal proof j =
      (registers journal proof j ≡ false) ⊎ (verify_registration_on_chain S k j ≡ some false)

  register_loop_sound :
      (journal proof : Bytes) (left attempt : ℕ)
      → (register_loop S k journal proof left attempt).0 ≡ ok tt
      → Registered journal proof left attempt
  unfolding register_loop
  register_loop_sound journal proof zero attempt h = absurd (cc)
  register_loop_sound journal proof (suc left) attempt h =
      elim (Bool-cases (registers journal proof attempt)) [
        | inr e ↦
            let (i, le, lt, made, verified, before) =
              register_loop_sound journal proof left (suc attempt) (rw e at h) in
            (
              i,
              omega arith,
              omega arith,
              made,
              verified,
              from_first (Refused journal proof) attempt i (inl e) before,
            )
        | inl e ↦ elim (Option-cases (verify_registration_on_chain S k attempt)) [
          | inl g ↦ let failed = rw (e, g) at h in absurd (cc)
          | inr (true, g) ↦
              (attempt, omega arith, omega arith, e, g, λ j le lt. absurd (omega arith))
          | inr (false, g) ↦
              let (i, le, lt, made, verified, before) =
                register_loop_sound journal proof left (suc attempt) (rw (e, g) at h) in
              (
                i,
                omega arith,
                omega arith,
                made,
                verified,
                from_first (Refused journal proof) attempt i (inr g) before,
              )
        ]
      ]

  register_loop_complete :
      (journal proof : Bytes) (left attempt : ℕ)
      → Registered journal proof left attempt
      → (register_loop S k journal proof left attempt).0 ≡ ok tt
  unfolding register_loop
  register_loop_complete journal proof zero attempt (i, le, lt, made, verified, before) =
      absurd (omega arith)
  register_loop_complete journal proof (suc left) attempt (i, le, lt, made, verified, before) =
      elim (Bool-cases (attempt == i)) [
        | inl e ↦
            let same = (==_iff attempt i).0 e in
            let made' = subst (λ n. registers journal proof n ≡ true) (sym same) made in
            let verified' =
              subst (λ n. verify_registration_on_chain S k n ≡ some true) (sym same) verified in
            rw (made', verified') refl
        | inr e ↦
            let rest =
              register_loop_complete journal proof left (suc attempt)
                (i, ground arith, omega arith, made, verified, λ j a b. before j (omega arith) b) in
            elim (before attempt (omega arith) (ground arith)) [
              | inl g ↦ rw g rest
              | inr g ↦ elim (Bool-cases (registers journal proof attempt)) [
                | inl f ↦ rw (f, g) rest
                | inr f ↦ rw f rest
              ]
            ]
      ]

  prepare_loop_sound :
      (left attempt : ℕ) (registration : Bytes × Bytes)
      → (prepare_loop S k left attempt).0 ≡ some registration
      → Prepared left attempt registration
  unfolding prepare_loop
  prepare_loop_sound zero attempt registration h = absurd (cc)
  prepare_loop_sound (suc left) attempt registration h =
      elim (Result-cases (prepare_register_service S k attempt)) [
        | inl (r, e) ↦
            let found : some r ≡ some registration = rw (prepare_loop, e) at h in
            (
              attempt,
              omega arith,
              omega arith,
              e ∙ ap ok (inside found),
              λ j le lt. absurd (omega arith),
            )
        | inr (x, e) ↦
            let (i, le, lt, made, before) =
              prepare_loop_sound left (suc attempt) registration (rw (prepare_loop, e) at h) in
            (
              i,
              omega arith,
              omega arith,
              made,
              from_first (λ j. (x : KeyManagerError) × (prepare_register_service S k j ≡ err x))
                  attempt i (x, e) before,
            )
      ]
    where
      inside : {a b : Bytes × Bytes} → Path (Option (Bytes × Bytes)) (some a) (some b) → a ≡ b
      inside h = cc

  prepare_loop_complete :
      (left attempt : ℕ) (registration : Bytes × Bytes)
      → Prepared left attempt registration
      → (prepare_loop S k left attempt).0 ≡ some registration
  unfolding prepare_loop
  prepare_loop_complete zero attempt registration (i, le, lt, made, before) = absurd (omega arith)
  prepare_loop_complete (suc left) attempt registration (i, le, lt, made, before) =
      elim (Bool-cases (attempt == i)) [
        | inl e ↦
            let made' =
              subst (λ n. prepare_register_service S k n ≡ ok registration)
                (sym ((==_iff attempt i).0 e)) made in
            rw (prepare_loop, made') refl
        | inr e ↦
            let (x, failed) = before attempt (omega arith) (ground arith) in
            rw (prepare_loop, failed)
              (prepare_loop_complete left (suc attempt) registration
                (i, ground arith, omega arith, made, λ j a b. before j (omega arith) b))
      ]

  -- The key is registered already, or it is prepared and registered by as many attempts as are allowed.
  abbrev pub Initializes : Type 0
  Initializes =
      (verify_registration_on_chain S k 0 ≡ some true)
      ⊎ ((verify_registration_on_chain S k 0 ≡ some false)
          × ((journal : Bytes) × (proof : Bytes) × Prepared k.max_register_attempts 1
                (journal, proof)
              × Registered journal proof k.max_register_attempts 1))

  register_with_sound :
      (prepared : Option (Bytes × Bytes) × ℕ)
      → (register_with S k prepared).result ≡ ok tt
      → (journal : Bytes) × (proof : Bytes) × (prepared.0 ≡ some (journal, proof))
        × Registered journal proof k.max_register_attempts 1
  register_with_sound (none, calls) h = absurd (cc)
  register_with_sound (some (journal, proof), calls) h =
      (journal, proof, refl, register_loop_sound journal proof k.max_register_attempts 1 h)

  register_with_complete :
      (prepared : Option (Bytes × Bytes) × ℕ) (journal proof : Bytes)
      → prepared.0 ≡ some (journal, proof)
      → Registered journal proof k.max_register_attempts 1
      → (register_with S k prepared).result ≡ ok tt
  register_with_complete (p, calls) journal proof e r =
      rw e (register_loop_complete journal proof k.max_register_attempts 1 r)

  -- `initialize` succeeds exactly if the chain knows the key at the start, or says that it does not, one
  -- of the allowed preparations succeeds, the first such, and with what it prepared one of the allowed
  -- registrations succeeds and is then confirmed by the chain, where each before it failed or was not
  -- confirmed. In every case it tries no more preparations and no more registrations than are allowed.
  pub initialize_iff :
      (((initialize S k).result ≡ ok tt) ↔ Initializes)
      × ((initialize S k).preparations ≤ k.max_register_attempts)
      × ((initialize S k).registrations ≤ k.max_register_attempts)
  unfolding Bounded initialize
  initialize_iff = ((sound, complete), initialize_bound.0, initialize_bound.1)
    where
      sound : (initialize S k).result ≡ ok tt → Initializes
      sound h = elim (Option-cases (verify_registration_on_chain S k 0)) [
        | inl e ↦ let failed = rw (initialize, e) at h in absurd (cc)
        | inr (true, e) ↦ inl e
        | inr (false, e) ↦
            let (journal, proof, prepared, registered) =
              register_with_sound (prepare_loop S k k.max_register_attempts 1)
                (rw (initialize, e) at h) in
            inr (
              e,
              (
                journal,
                proof,
                prepare_loop_sound k.max_register_attempts 1 (journal, proof) prepared,
                registered,
              ),
            )
      ]

      complete : Initializes → (initialize S k).result ≡ ok tt
      complete (inl e) = rw (initialize, e) refl
      complete (inr (e, (journal, proof, prepared, registered))) =
          rw (initialize, e)
            (register_with_complete (prepare_loop S k k.max_register_attempts 1) journal proof
              (prepare_loop_complete k.max_register_attempts 1 (journal, proof) prepared)
              registered)

-- A key manager that is made with a number of attempts keeps it between 1 and 10, so `initialize` calls
-- the contract for at most 10 registrations, whatever the services answer.
pub new_with_attestation_provider-initialize :
    (S : Services) (attempts signer_address : ℕ) (tee_type : TeeType) (public_key : Bytes)
    (k : Registrar)
    → new_with_attestation_provider attempts tee_type signer_address public_key ≡ ok k
    → (k.max_register_attempts ≡ attempts)
      × (1 ≤ attempts)
      × (attempts ≤ 10)
      × ((initialize S k).preparations ≤ 10)
      × ((initialize S k).registrations ≤ 10)
unfolding new_with_attestation_provider
new_with_attestation_provider-initialize S attempts signer_address tee_type public_key k h =
    let (u, positive, h1) = bind_ok (guard (not (attempts == 0)) invalid_config) h in
    let (v, small, h2) = bind_ok (guard (not (ltb 10 attempts)) invalid_config) h1 in
    let same = sym (ap (λ x. x.max_register_attempts) (inside h2)) in
    let (success, preparations, registrations) = initialize_iff S k in
    let lower : 1 ≤ attempts =
      at_least attempts (guard_ok (not (attempts == 0)) invalid_config positive) in
    let upper : attempts ≤ 10 =
      at_most attempts (guard_ok (not (ltb 10 attempts)) invalid_config small) in
    (
      same,
      lower,
      upper,
      omega (arith, same, upper, preparations),
      omega (arith, same, upper, registrations),
    )
  where
    inside : {a b : Registrar} → Path (Result KeyManagerError Registrar) (ok a) (ok b) → a ≡ b
    inside h = cc

    at_least : (n : ℕ) → not (n == 0) ≡ true → 1 ≤ n
    at_least n h = ground arith

    at_most : (n : ℕ) → not (ltb 10 n) ≡ true → n ≤ 10
    at_most n h = ground arith
