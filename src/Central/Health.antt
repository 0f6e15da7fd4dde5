-- ===== src/Central/Health.antt =====
-- The health of a host (backend/app/schemas/health_status.py).
use port_forge.Prelude.{
  ℕ, zero, suc, ◌+◌, ◌-◌, ◌*◌, ◌/◌, ◌≤◌, ◌<◌, ◌≡◌, ◌↔◌, Bool, true, false, arith, ltb, leb,
  if◌then◌else◌,
}
use port_forge.Central.Tables.{Settings, Host}

pub data HostHealthState : Type 0 where
  healthy stale offline : HostHealthState

pub data HostHealthReason : Type 0 where
  agent_healthy agent_sync_stale agent_offline : HostHealthReason

-- A signed number of seconds; `negsuc n` is -(n + 1).
pub data ℤ : Type 0 where
  pos : ℕ → ℤ
  negsuc : ℕ → ℤ

abbrev pub negate : ℕ → ℤ
negate zero = pos 0
negate (suc n) = negsuc n

-- `int((now - last_seen).total_seconds())`: whole seconds, rounded towards zero. An agent's clock
-- may run ahead, and the age is then negative.
abbrev pub age_seconds : ℕ → ℕ → ℤ
age_seconds last_seen now =
    if leb last_seen now
    then pos ((now - last_seen) / 1000000)
    else negate ((last_seen - now) / 1000000)

-- `age > limit`
abbrev pub exceeds : ℤ → ℕ → Bool
exceeds (pos n) limit = ltb limit n
exceeds (negsuc _) _ = false

unfoldable pub derive_health_state : ℕ → ℕ → ℕ → ℕ → HostHealthState × HostHealthReason × ℤ
derive_health_state last_seen stale_after offline_after now =
    let age = age_seconds last_seen now in
    if exceeds age offline_after
    then (offline, agent_offline, age)
    else if exceeds age stale_after
    then (stale, agent_sync_stale, age)
    else (healthy, agent_healthy, age)

-- The state of a host under the settings.
unfoldable pub host_health : Settings → Host → ℕ → HostHealthState
unfolding derive_health_state
host_health s host now =
    (derive_health_state host.last_seen s.host_stale_after_seconds s.host_offline_after_seconds
      now).0

exceeds-negate : (n k : ℕ) → exceeds (negate n) k ≡ false
exceeds-negate zero k = ground arith
exceeds-negate (suc n) k = ground arith

-- An age exceeds a limit when the clock has reached one second more.
exceeds-age_seconds :
    (l n k : ℕ) → (exceeds (age_seconds l n) k ≡ true) ↔ (l + (k + 1) * 1000000 ≤ n)
exceeds-age_seconds l n k = ground (arith, exceeds-negate ((l - n) / 1000000) k)

module _ (last_seen stale_after offline_after now : ℕ) (ordered : stale_after < offline_after) where
  -- With the stale threshold below the offline one, which `Settings` enforces, a host is HEALTHY
  -- exactly until the clock has passed its last report by one second more than the stale
  -- threshold, OFFLINE exactly from one second more than the offline threshold on, and STALE
  -- exactly between the two; a report from the future counts as HEALTHY.
  pub derive_health_state_ranges :
      ((derive_health_state last_seen stale_after offline_after now).0 ≡ healthy
        ↔ (now < last_seen + (stale_after + 1) * 1000000))
      × ((derive_health_state last_seen stale_after offline_after now).0 ≡ stale ↔ (
          (last_seen + (stale_after + 1) * 1000000 ≤ now)
          × (now < last_seen + (offline_after + 1) * 1000000)))
      × ((derive_health_state last_seen stale_after offline_after now).0 ≡ offline
          ↔ (last_seen + (offline_after + 1) * 1000000 ≤ now))
  unfolding derive_health_state
  derive_health_state_ranges = ground (
    arith,
    exceeds-age_seconds last_seen now stale_after,
    exceeds-age_seconds last_seen now offline_after,
  )
