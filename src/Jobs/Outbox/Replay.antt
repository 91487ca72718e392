-- ===== src/Jobs/Outbox/Replay.antt =====
-- Runs of a job over its outbox (services/compute/jobs/src/outbox.rs), with a crash between.
use linvesther.Prelude.{
  ◌≡◌, ◌∙◌, refl, sym, ap, List, [], ◌∷◌, ◌++◌, Bool, true, false, ◌||◌, Bool-cases, inl, inr, All,
}
use linvesther.Prelude.Bytes.{bytes_eq, bytes_eq_refl}
use linvesther.Jobs.Outbox.{Effect, Outbox, has_key, apply}

-- A job applies its effects one after the other.
abbrev pub apply_all : Outbox → List Effect → Outbox
apply_all outbox [] = outbox
apply_all outbox (effect ∷ effects) = apply_all (apply outbox effect).0 effects

-- The effect's key is known to the outbox.
abbrev pub IsApplied : Outbox → Effect → Type 0
IsApplied outbox effect = has_key outbox.applied_keys effect.idempotency_key ≡ true

or-right : (a b : Bool) → b ≡ true → (a || b) ≡ true
or-right true b h = refl
or-right false b h = h

apply-IsApplied : (outbox : Outbox) (effect : Effect) → IsApplied (apply outbox effect).0 effect
unfolding apply has_key
apply-IsApplied outbox effect =
    elim (Bool-cases (has_key outbox.applied_keys effect.idempotency_key)) [
      | inl known ↦ rw known known
      | inr new_ ↦ rw (new_, bytes_eq_refl effect.idempotency_key) refl
    ]

apply-keeps :
    (outbox : Outbox) (effect other : Effect)
    → IsApplied outbox other
    → IsApplied (apply outbox effect).0 other
unfolding apply has_key
apply-keeps outbox effect other h =
    elim (Bool-cases (has_key outbox.applied_keys effect.idempotency_key)) [
      | inl known ↦ rw known h
      | inr new_ ↦ rw new_ (or-right (bytes_eq effect.idempotency_key other.idempotency_key) _ h)
    ]

apply-again :
    (outbox : Outbox) (effect : Effect)
    → IsApplied outbox effect
    → apply outbox effect ≡ (outbox, false)
unfolding apply
apply-again outbox effect h = rw h refl

apply_all-keeps :
    (outbox : Outbox) (effects : List Effect) (other : Effect)
    → IsApplied outbox other
    → IsApplied (apply_all outbox effects) other
apply_all-keeps outbox [] other h = h
apply_all-keeps outbox (effect ∷ effects) other h =
    apply_all-keeps (apply outbox effect).0 effects other (apply-keeps outbox effect other h)

apply_all-AllApplied :
    (outbox : Outbox) (effects : List Effect) → All (IsApplied (apply_all outbox effects)) effects
apply_all-AllApplied outbox [] = tt
apply_all-AllApplied outbox (effect ∷ effects) = (
  apply_all-keeps (apply outbox effect).0 effects effect (apply-IsApplied outbox effect),
  apply_all-AllApplied (apply outbox effect).0 effects,
)

apply_all-again :
    (outbox : Outbox) (effects : List Effect)
    → All (IsApplied outbox) effects
    → apply_all outbox effects ≡ outbox
apply_all-again outbox [] h = refl
apply_all-again outbox (effect ∷ effects) h =
    ap (λ (p : Outbox × Bool). apply_all p.0 effects) (apply-again outbox effect h.0)
    ∙ apply_all-again outbox effects h.1

apply_all-append :
    (outbox : Outbox) (done rest : List Effect)
    → apply_all outbox (done ++ rest) ≡ apply_all (apply_all outbox done) rest
apply_all-append outbox [] rest = refl
apply_all-append outbox (effect ∷ done) rest = apply_all-append (apply outbox effect).0 done rest

-- A job that crashed after it applied the effects `done`, and is run again from its start, leaves the
-- outbox (its keys and its effects, in order) as one run without a crash does.
pub apply-replay :
    (outbox : Outbox) (done rest : List Effect)
    → apply_all (apply_all outbox done) (done ++ rest) ≡ apply_all outbox (done ++ rest)
apply-replay outbox done rest =
    apply_all-append (apply_all outbox done) done rest
    ∙ ap (λ o. apply_all o rest)
        (apply_all-again (apply_all outbox done) done (apply_all-AllApplied outbox done))
    ∙ sym (apply_all-append outbox done rest)
