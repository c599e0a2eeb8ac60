-- ===== src/Breaker/Probes.antt =====
-- The invariant of the interleaved system of circuitbreaker/circuitbreaker.go: the breaker and the
-- calls in flight, critical section by critical section.
use gopher_core.Common.{
  ℕ, suc, ◌+◌, ◌≤◌, ◌≡◌, ◌⊎◌, refl, Bool, true, false, Option, some, List, [], ◌∷◌, ◌++◌, arith,
  if◌then◌else◌, Bool-cases, inl, inr, ap, subst, sym, All, count_if, count_if-middle,
  All-drop_middle,
}
use gopher_core.Common.Int.{pos, leb_ℤ, pos_part, neg_part, ◌+ℤ◌, ◌-ℤ◌}
use gopher_core.Runtime.{
  Err, is, is?, Outcome, sentinel, canceled, returned, circuit_open, too_many_requests,
}
use gopher_core.Breaker.{
  Breaker, Config, Admission, admit_in, closed, opened, State, refused, admitted, half_open, new,
  current_state, reset, admit, settle, leave_probe,
}
use gopher_core.Breaker.Invariant.{
  IsValid, new-IsValid, admit-IsValid, current_state-IsValid, reset-IsValid, record_success-IsValid,
  record_failure-IsValid, leave_probe-IsValid,
}
use gopher_core.Breaker.System.{
  Call, System, Step, Reach, enters, leaves, queries, resets, here, next, advance, moved,
  enter_with, enter, leave, start, is_current,
}

pub settle-IsValid :
    (now : ℕ) (probe : Bool) (result : Outcome (Option Err)) (ctx_err : Option Err) (b : Breaker)
    → IsValid b
    → IsValid (settle now probe result ctx_err b)
unfolding settle
settle-IsValid now probe result ctx_err b v = ground (
  arith,
  leave_probe-IsValid probe b v,
  record_success-IsValid (leave_probe probe b),
  record_failure-IsValid now (leave_probe probe b),
)

-- The counter in a critical section: it starts again from 0 if the state changes.
pub settle-half_open_requests :
    (now : ℕ) (probe : Bool) (result : Outcome (Option Err)) (ctx_err : Option Err) (b : Breaker)
    → (settle now probe result ctx_err b).half_open_requests ≡ (
        if moved b (settle now probe result ctx_err b)
        then pos 0
        else if probe
        then b.half_open_requests -ℤ pos 1
        else b.half_open_requests)
unfolding settle ◌-ℤ◌
settle-half_open_requests now probe result ctx_err b = ground arith

pub probes : System → ℕ
probes s = count_if (is_current s.era) s.calls

pub record Counted (s : System) : Type 0 where
  pub valid : IsValid s.breaker
  pub past : All (λ c. c.era ≤ s.era) s.calls
  pub balance :
      pos_part s.breaker.half_open_requests + s.late
      ≡ neg_part s.breaker.half_open_requests + probes s

past_later :
    (cs : List Call) (e : ℕ)
    → All (λ c. c.era ≤ e) cs
    → (All (λ c. c.era ≤ suc e) cs) × (count_if (is_current (suc e)) cs ≡ 0)
past_later [] e h = (tt, refl)
past_later (c ∷ cs) e h = ground (arith, past_later cs e h.1)

advance-Counted :
    (b : Breaker) (cs : List Call) (stale : ℕ) (s : System)
    → IsValid b
    → All (λ c. c.era ≤ s.era) cs
    → (moved s.breaker b ≡ true → b.half_open_requests ≡ pos 0)
    → (moved s.breaker b ≡ false
        → pos_part b.half_open_requests + (s.late + stale)
          ≡ neg_part b.half_open_requests + count_if (is_current s.era) cs)
    → Counted (advance b cs stale s)
unfolding advance probes
advance-Counted b cs stale s v old anew kept = elim (Bool-cases (moved s.breaker b)) [
  | inl e ↦
      rw (e, advance)
        (record {
          valid = v;
          past = (past_later cs s.era old).0;
          balance =
              omega
                (arith, ap pos_part (anew e), ap neg_part (anew e), (past_later cs s.era old).1);
        })
  | inr e ↦ rw (e, advance) (record { valid = v; past = old; balance = kept e })
]

current_state-half_open_requests :
    (now : ℕ) (b : Breaker)
    → (current_state now b).half_open_requests
      ≡ (if moved b (current_state now b) then pos 0 else b.half_open_requests)
unfolding current_state
current_state-half_open_requests now b = ground arith

reset-half_open_requests :
    (b : Breaker)
    → (reset b).half_open_requests ≡ (if moved b (reset b) then pos 0 else b.half_open_requests)
unfolding reset
reset-half_open_requests b = ground arith

leave-Counted :
    (s : System) (xs : List Call) (c : Call) (ys : List Call) (now : ℕ)
    (result : Outcome (Option Err)) (ctx_err : Option Err)
    → s.calls ≡ xs ++ c ∷ ys
    → Counted s
    → Counted (leave now c (xs ++ ys) result ctx_err s)
unfolding leave probes ◌-ℤ◌
leave-Counted s xs c ys now result ctx_err e k =
    let b : Breaker = settle now c.probe result ctx_err s.breaker in
    advance-Counted b (xs ++ ys) _ s (settle-IsValid now c.probe result ctx_err s.breaker k.valid)
      (All-drop_middle (λ c. c.era ≤ s.era) xs c ys (subst (All (λ c. c.era ≤ s.era)) e k.past))
      (λ m. ground (arith, settle-half_open_requests now c.probe result ctx_err s.breaker))
      (λ m. ground (
        arith,
        settle-half_open_requests now c.probe result ctx_err s.breaker,
        k.balance,
        ap (count_if (is_current s.era)) e,
        count_if-middle (is_current s.era) xs c ys,
      ))

query-Counted :
    (now : ℕ) (s : System) → Counted s → Counted (advance (current_state now s.breaker) s.calls 0 s)
unfolding probes
query-Counted now s k =
    advance-Counted (current_state now s.breaker) s.calls 0 s
      (current_state-IsValid now s.breaker k.valid) k.past
      (λ m. ground (arith, current_state-half_open_requests now s.breaker))
      (λ m. ground (arith, current_state-half_open_requests now s.breaker, k.balance))

-- A call that ends cancelled only gives its place back.
pub settle_canceled :
    (now : ℕ) (probe : Bool) (e : Err) (ctx_err : Option Err) (b : Breaker)
    → (is e canceled ≡ true) ⊎ (is? ctx_err canceled ≡ true)
    → settle now probe (returned (some e)) ctx_err b ≡ leave_probe probe b
unfolding settle
settle_canceled now probe e ctx_err b h = ground arith

abbrev pub Admits : Breaker → Breaker × Admission → Type 0
Admits c r =
    ((e : Err) × (r ≡ (c, refused e))
      × ((e ≡ sentinel circuit_open) ⊎ (e ≡ sentinel too_many_requests)))
    ⊎ (r ≡ (c, admitted false))
    ⊎ ((r ≡ (record c { half_open_requests = c.half_open_requests +ℤ pos 1 }, admitted true))
        × (c.state ≡ half_open))

admit_in-Admits : (st : State) (c : Breaker) → c.state ≡ st → Admits c (admit_in st c)
unfolding admit_in
admit_in-Admits closed c e = inr (inl refl)
admit_in-Admits opened c e = inl (sentinel circuit_open, refl, inl refl)
admit_in-Admits half_open c e =
    elim (Bool-cases (leb_ℤ c.config.max_half_open_requests c.half_open_requests)) [
      | inl full ↦ inl (sentinel too_many_requests, rw full, inr refl)
      | inr free ↦ inr (inr (rw free, e))
    ]

-- The three ways through the first critical section.
pub admit-Admits : (now : ℕ) (b : Breaker) → Admits (current_state now b) (admit now b)
unfolding admit
admit-Admits now b = admit_in-Admits (current_state now b).state (current_state now b) refl

probe-Counted :
    (s : System) (c : Breaker)
    → IsValid (record c { half_open_requests = c.half_open_requests +ℤ pos 1 })
    → Counted (advance c s.calls 0 s)
    → Counted (
        enter_with
          (record c { half_open_requests = c.half_open_requests +ℤ pos 1 }, admitted true)
          s)
unfolding enter_with advance probes ◌+ℤ◌
probe-Counted s c v k = record {
  valid = v;
  past = (omega arith, k.past);
  balance = ground (arith, k.balance);
}

enter_with-Counted :
    (now : ℕ) (s : System) (r : Breaker × Admission)
    → Admits (current_state now s.breaker) r
    → IsValid r.0
    → Counted s
    → Counted (enter_with r s)
unfolding enter_with probes ◌+ℤ◌
enter_with-Counted now s r a v k =
    let t : System = advance (current_state now s.breaker) s.calls 0 s in
    let kt : Counted t = query-Counted now s k in
    elim a [
      | inl (e, h, _) ↦ subst (λ r. Counted (enter_with r s)) (sym h) kt
      | inr (inl h) ↦
          subst (λ r. Counted (enter_with r s)) (sym h)
            (record { valid = kt.valid; past = (omega arith, kt.past); balance = kt.balance })
      | inr (inr (h, st)) ↦
          subst (λ r. Counted (enter_with r s)) (sym h)
            (probe-Counted s (current_state now s.breaker) (subst (λ r. IsValid r.0) h v) kt)
    ]

enter-Counted : (now : ℕ) (s : System) → Counted s → Counted (enter now s)
unfolding enter
enter-Counted now s k =
    enter_with-Counted now s (admit now s.breaker) (admit-Admits now s.breaker)
      (admit-IsValid now s.breaker k.valid) k

Step-Counted : {s t : System} → Step s t → Counted s → Counted t
unfolding probes
Step-Counted (enters s now) k = enter-Counted now s k
Step-Counted (leaves s xs c ys now result ctx_err e) k =
    leave-Counted s xs c ys now result ctx_err e k
Step-Counted (queries s now) k = query-Counted now s k
Step-Counted (resets s) k =
    advance-Counted (reset s.breaker) s.calls 0 s (reset-IsValid s.breaker k.valid) k.past
      (λ m. ground (arith, reset-half_open_requests s.breaker))
      (λ m. ground (arith, reset-half_open_requests s.breaker, k.balance))

start-Counted : (cfg : Config) → Counted (start cfg)
unfolding start probes new
start-Counted cfg = record { valid = new-IsValid cfg; past = tt; balance = refl }

pub Reach-Counted : {cfg : Config} {s : System} → Reach cfg s → Counted s
Reach-Counted {cfg} here = start-Counted cfg
Reach-Counted (next r st) = Step-Counted st (Reach-Counted r)
