-- ===== src/Breaker/Limits.antt =====
-- What the half-open ceiling of circuitbreaker/circuitbreaker.go is worth in every reachable system.
use gopher_core.Common.{
  ℕ, ◌+◌, ◌≤◌, ◌<◌, ◌≡◌, ◌≢◌, refl, true, false, some, none, List, ◌∷◌, ◌++◌, arith, subst, sym,
}
use gopher_core.Common.Int.{pos, leb_ℤ, pos_part, neg_part, ◌+ℤ◌, ◌-ℤ◌}
use gopher_core.Runtime.{is, sentinel, canceled, returned}
use gopher_core.Breaker.{Breaker, Config, admitted, half_open, current_state, admit, leave_probe}
use gopher_core.Breaker.Invariant.{IsValid}
use gopher_core.Breaker.System.{
  Call, System, Reach, enters, leaves, next, advance, enter_with, enter, leave,
}
use gopher_core.Breaker.Probes.{probes, Reach-Counted, settle_canceled}

-- In every reachable system the breaker is valid: each counter is under its threshold, and is 0 outside
-- the state that it belongs to.
pub Reach-IsValid : {cfg : Config} {s : System} → Reach cfg s → IsValid s.breaker
Reach-IsValid r = (Reach-Counted r).valid

-- In every reachable system the counter of half-open requests is the number of probes in flight that
-- were admitted since the last transition, less the older probes that came back since; and the
-- probes in flight exceed the configured ceiling at most by the number of those.
pub probes_accounted :
    {cfg : Config} {s : System}
    → Reach cfg s
    → (pos_part s.breaker.half_open_requests + s.late
        ≡ neg_part s.breaker.half_open_requests + probes s)
      × (probes s ≤ pos_part s.breaker.config.max_half_open_requests + s.late)
probes_accounted r = ground (arith, Reach-Counted r, (Reach-Counted r).valid)

-- A half-open breaker below its ceiling lets a probe in.
pub admit_half_open :
    (now : ℕ) (b : Breaker)
    → b.state ≡ half_open
    → leb_ℤ b.config.max_half_open_requests b.half_open_requests ≡ false
    → admit now b ≡ (record b { half_open_requests = b.half_open_requests +ℤ pos 1 }, admitted true)
unfolding admit current_state
admit_half_open now b st free = ground arith

saturated_leave :
    (s : System) (rest : List Call) (c : Call) (now : ℕ)
    → c.probe ≡ true
    → c.era ≢ s.era
    → let u = leave now c rest (returned (some (sentinel canceled))) none s in
      (u.breaker ≡ leave_probe true s.breaker) × (u.late ≡ s.late + 1) × (u.era ≡ s.era)
unfolding leave advance leave_probe is
saturated_leave s rest c now probe old =
    ground (arith, settle_canceled now c.probe (sentinel canceled) none s.breaker)

enter_half_open :
    (s : System) (now : ℕ)
    → s.breaker.state ≡ half_open
    → leb_ℤ s.breaker.config.max_half_open_requests s.breaker.half_open_requests ≡ false
    → let t = enter now s in
      (t.breaker
        ≡ record (s.breaker) { half_open_requests = s.breaker.half_open_requests +ℤ pos 1 })
      × (t.late ≡ s.late)
unfolding enter advance
enter_half_open s now st free =
    subst
      (λ r.
        ((enter_with r s).breaker
          ≡ record (s.breaker) { half_open_requests = s.breaker.half_open_requests +ℤ pos 1 })
        × ((enter_with r s).late ≡ s.late))
      (sym (admit_half_open now s.breaker st free)) (refl, ground arith)

-- A half-open breaker whose ceiling is reached, with a probe of an earlier era in flight: when that
-- probe comes back cancelled and a request arrives, more probes of the current era are in flight than
-- `MaxHalfOpenRequests`.
pub stale_probe_overshoots :
    {cfg : Config} (s : System) (xs : List Call) (c : Call) (ys : List Call) (now later : ℕ)
    → Reach cfg s
    → s.breaker.state ≡ half_open
    → s.breaker.half_open_requests ≡ s.breaker.config.max_half_open_requests
    → s.calls ≡ xs ++ c ∷ ys
    → c.probe ≡ true
    → c.era ≢ s.era
    → let t = enter later (leave now c (xs ++ ys) (returned (some (sentinel canceled))) none s) in
      (t.breaker.state ≡ half_open) × (pos_part s.breaker.config.max_half_open_requests < probes t)
unfolding leave_probe ◌+ℤ◌ ◌-ℤ◌
stale_probe_overshoots {cfg} s xs c ys now later r st full at probe old =
    let u : System = leave now c (xs ++ ys) (returned (some (sentinel canceled))) none s in
    let ru : Reach cfg u = next r (leaves s xs c ys now _ none at) in
    let (b, l, e) = saturated_leave s (xs ++ ys) c now probe old in
    let v : IsValid s.breaker = Reach-IsValid r in
    let (b', l') = enter_half_open u later (ground (arith, b)) (ground (arith, b, v)) in
    ground (arith, b, l, b', l', v, probes_accounted (next ru (enters u later)))
