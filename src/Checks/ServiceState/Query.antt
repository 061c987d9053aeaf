-- ===== src/Checks/ServiceState/Query.antt =====
-- The query of persistence.ts computes what its function computes.
use alphaping.Prelude.{
  ℕ, suc, max, ◌≤◌, ◌≡◌, refl, Bool, false, ◌&&◌, ◌||◌, Option, List, [], ◌∷◌, any, leb, ◌==◌,
  arith,
}
use alphaping.Checks.ServiceState.{
  LatestCheck, state_is_down, state_is_failing, state_is_healthy, service_state, check_rank,
  service_aggregate, next_service,
}

leb-max : (k a b : ℕ) → leb (suc k) (max a b) ≡ (leb (suc k) a || leb (suc k) b)
leb-max k a b = ground arith

check_rank-le : (check : LatestCheck) → check_rank check ≤ 3
check_rank-le check = ground arith

max-le : (a b : ℕ) → a ≤ 3 → b ≤ 3 → max a b ≤ 3
max-le a b h k = omega arith

-- A level is reached by the maximum when some check reaches it.
any-reaches :
    (level : ℕ) (checks : List LatestCheck)
    → any (λ check. leb (suc level) (check_rank check)) checks
      ≡ leb (suc level) (service_aggregate checks)
unfolding service_aggregate
any-reaches level [] = ground arith
any-reaches level (check ∷ checks) =
    rw (any-reaches level checks, leb-max level (check_rank check) (service_aggregate checks))

any_eq :
    (p q : LatestCheck → Bool) (checks : List LatestCheck)
    → ((check : LatestCheck) → p check ≡ q check)
    → any p checks ≡ any q checks
any_eq p q [] h = refl
any_eq p q (check ∷ checks) h = rw (h check, any_eq p q checks h)

service_aggregate-le : (checks : List LatestCheck) → service_aggregate checks ≤ 3
unfolding service_aggregate
service_aggregate-le [] = omega arith
service_aggregate-le (check ∷ checks) =
    max-le (check_rank check) (service_aggregate checks) (check_rank-le check)
      (service_aggregate-le checks)

critical_down :
    (check : LatestCheck)
    → (check.critical == 1 && state_is_down check.state) ≡ leb 3 (check_rank check)
critical_down check = ground arith

failing : (check : LatestCheck) → state_is_failing check.state ≡ leb 2 (check_rank check)
failing check = ground arith

-- Where no check fails, a rank of one is a healthy check.
healthy_reaches :
    (checks : List LatestCheck)
    → any (λ check. state_is_failing check.state) checks ≡ false
    → any (λ check. state_is_healthy check.state) checks
      ≡ any (λ check. leb 1 (check_rank check)) checks
healthy_reaches [] free = refl
healthy_reaches (check ∷ checks) free = ground (arith, healthy_reaches checks)

-- For every list of checks, maintenance window and time, the query's CASE over the maximal rank is
-- the state that `serviceState` returns.
pub next_service-eq-service_state :
    (checks : List LatestCheck) (maintenance_until : Option ℕ) (now : ℕ)
    → next_service checks maintenance_until now ≡ service_state checks maintenance_until now
unfolding next_service service_state
next_service-eq-service_state checks maintenance_until now = ground (
  arith,
  service_aggregate-le checks,
  any_eq _ _ checks critical_down,
  any_eq _ _ checks failing,
  healthy_reaches checks,
  any-reaches 2 checks,
  any-reaches 1 checks,
  any-reaches 0 checks,
)
