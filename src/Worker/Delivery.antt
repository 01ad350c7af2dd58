-- ===== src/Worker/Delivery.antt =====
-- What the attempts of `_fire_callback` in backend/app/engine/worker.py do, against the answers of
-- the HTTP client; and what the whole function does to the job's row.
use researchhub_engine.Prelude.{
  ℕ, zero, suc, ◌+◌, ◌*◌, ◌<◌, ◌≡◌, ◌⊎◌, inl, inr, refl, Bool, true, false, Option, List, [], ◌∷◌,
  if◌then◌else◌, arith, Bool-cases,
}
use researchhub_engine.Worker.Callback.{is_delivered, Delivery, after_failure, attempts}

-- the delays of `n` sleeps, each the double of the one before
abbrev pub delays : ℕ → ℕ → List ℕ
delays zero delay = []
delays (suc n) delay = delay ∷ delays n (delay * 2)

abbrev pub waits : Bool → ℕ → ℕ → List ℕ
waits sleep n delay = if sleep then delays n delay else []

-- the number of gaps between `n` attempts
abbrev pub gaps : ℕ → ℕ
gaps zero = 0
gaps (suc n) = n

module _ (post : ℕ → Option ℕ) where
  -- none of the `n` attempts from `attempt` on delivers
  abbrev pub AllFail : (n attempt : ℕ) → Type 0
  AllFail zero attempt = Unit
  AllFail (suc n) attempt = (is_delivered (post attempt) ≡ false) × AllFail n (attempt + 1)

  -- `n` attempts fail, and the next one delivers
  abbrev pub DeliversAfter : (n attempt : ℕ) → Type 0
  DeliversAfter zero attempt = is_delivered (post attempt) ≡ true
  DeliversAfter (suc n) attempt =
      (is_delivered (post attempt) ≡ false) × DeliversAfter n (attempt + 1)

  -- What a delivery of at most `left` attempts is: it stops at the first that delivers, and it
  -- sleeps between the attempts, not after the last.
  abbrev pub IsDelivery : Bool → (left attempt delay : ℕ) → Delivery → Type 0
  IsDelivery sleep left attempt delay d =
      ((k : ℕ) × (k < left)
        × DeliversAfter k attempt
        × (d ≡ record { delivered = true; posts = suc k; sleeps = waits sleep k delay }))
      ⊎ (AllFail left attempt
          × (d
              ≡ record { delivered = false; posts = left; sleeps = waits sleep (gaps left) delay }))

  no_waits_at :
      {b : Bool} (sleep : Bool) (posts delay : ℕ)
      → ◌≡◌ {A = Delivery}
          (record { delivered = b; posts = posts; sleeps = [] })
          (record { delivered = b; posts = posts; sleeps = waits sleep 0 delay })
  no_waits_at true posts delay = refl
  no_waits_at false posts delay = refl

  after_failure-waits :
      (sleep b : Bool) (posts n delay : ℕ) (d : Delivery)
      → d ≡ record { delivered = b; posts = posts; sleeps = waits sleep n (delay * 2) }
      → after_failure post sleep delay d
        ≡ record { delivered = b; posts = suc posts; sleeps = waits sleep (suc n) delay }
  after_failure-waits true b posts n delay d h = rw h refl
  after_failure-waits false b posts n delay d h = rw h refl

  one_more :
      (sleep : Bool) (left attempt delay : ℕ) (rest : Delivery) (b : Bool)
      → is_delivered (post attempt) ≡ b
      → IsDelivery sleep (suc left) (attempt + 1) (delay * 2) rest
      → IsDelivery sleep (suc (suc left)) attempt delay (
          if b
          then record { delivered = true; posts = 1; sleeps = [] }
          else after_failure post sleep delay rest)
  one_more sleep left attempt delay rest true hit _ =
      inl (0, omega arith, hit, no_waits_at sleep 1 delay)
  one_more sleep left attempt delay rest false miss (inl (k, lt, ds, e)) =
      inl (suc k, omega arith, (miss, ds), after_failure-waits sleep true (suc k) k delay rest e)
  one_more sleep left attempt delay rest false miss (inr (fs, e)) =
      inr ((miss, fs), after_failure-waits sleep false (suc left) left delay rest e)

  -- A delivery stops at the first attempt that is answered with a status code below 400, and fails
  -- where none of the allowed ones is; it doubles the delay from sleep to sleep, and sleeps between
  -- two attempts only, never after the last.
  pub attempts-IsDelivery :
      (sleep : Bool) (left attempt delay : ℕ)
      → IsDelivery sleep left attempt delay (attempts post sleep left attempt delay)
  unfolding attempts
  attempts-IsDelivery sleep zero attempt delay = inr (tt, no_waits_at sleep 0 delay)
  attempts-IsDelivery sleep (suc zero) attempt delay =
      elim (Bool-cases (is_delivered (post attempt))) [
        | inl hit ↦ inl (0, omega arith, hit, rw (hit) (no_waits_at sleep 1 delay))
        | inr miss ↦ inr ((miss, tt), rw miss (no_waits_at sleep 1 delay))
      ]
  attempts-IsDelivery sleep (suc (suc left)) attempt delay =
      one_more sleep left attempt delay _ _ refl
        (attempts-IsDelivery sleep (suc left) (attempt + 1) (delay * 2))
