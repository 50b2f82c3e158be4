-- ===== src/Inference/Health/Cooldown.antt =====
-- The rate-limit cooldown of inference/health.py.
use the_creation_os.Prelude.{
  ℕ, ◌+◌, ◌≤◌, String, ◌≡◌, none, some, arith, lookup, lookup-insert_self, lookup-delete_self, max,
  leb, string_eq, ◌∙◌, ap,
}
use the_creation_os.Inference.Health.{RateLimitCooldown, register, cooldown_can_attempt}

-- The time until which a provider is left alone; 0 where nothing holds it.
abbrev pub held_until : RateLimitCooldown → String → ℕ
held_until c p = elim (lookup p c.blocked_until) [ none ↦ 0 | some t ↦ t ]

held_until-register :
    (c : RateLimitCooldown) (p : String) (now retry_after : ℕ)
    → held_until (register c p now retry_after) p ≡ max (held_until c p) (now + retry_after)
unfolding register
held_until-register c p now retry_after =
    ground (arith, lookup-insert_self p (now + retry_after) c.blocked_until)

asked :
    (c : RateLimitCooldown) (p : String) (t : ℕ)
    → (cooldown_can_attempt c p t).1 ≡ leb (held_until c p) t
unfolding cooldown_can_attempt
asked c p t = ground arith

asked_twice :
    (c : RateLimitCooldown) (p : String) (t later : ℕ)
    → t ≤ later
    → held_until (cooldown_can_attempt c p t).0 p ≤ held_until c p
      × ((cooldown_can_attempt (cooldown_can_attempt c p t).0 p later).1
          ≡ (cooldown_can_attempt c p later).1)
unfolding cooldown_can_attempt
asked_twice c p t later h = ground (arith, lookup-delete_self p c.blocked_until)

-- After a rate limit a provider may be called exactly from the end of its longest registered cooldown
-- on: registering never shortens one, and to ask earlier changes no later answer.
pub register_extends :
    (c : RateLimitCooldown) (p : String) (now retry_after t later : ℕ)
    → t ≤ later
    → let c' = register c p now retry_after in
      ((cooldown_can_attempt c' p t).1 ≡ leb (max (held_until c p) (now + retry_after)) t)
      × ((cooldown_can_attempt (cooldown_can_attempt c' p t).0 p later).1
          ≡ leb (max (held_until c p) (now + retry_after)) later)
register_extends c p now retry_after t later h =
    let c' = register c p now retry_after in
    let e = held_until-register c p now retry_after in
    (
      asked c' p t ∙ ap (λ u. leb u t) e,
      (asked_twice c' p t later h).1 ∙ asked c' p later ∙ ap (λ u. leb u later) e,
    )
