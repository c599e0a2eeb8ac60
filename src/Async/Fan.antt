-- ===== src/Async/Fan.antt =====
-- `Fan` of async/async.go: a goroutine for each item, with no bound on how many run. The launching loop
-- and the goroutines are the steps of a relation, in any order.
pub mod Errors
pub mod Sound
pub mod Answer
pub mod Progress
pub mod Unbounded
mod Tests
use gopher_core.Common.{
  ℕ, suc, ◌≡◌, Bool, true, false, Option, none, some, List, [], ◌∷◌, ◌++◌, count_if,
}
use gopher_core.Runtime.{Err, Outcome}
use gopher_core.Async.Group.{recovered, append_error}

-- A goroutine, until what its function came to is noted
pub data Task : Type 0 where
  running : Task
  ended : Outcome (Option Err) → Task

pub record Fanout (T : Type 0) : Type 0 where
  -- The launching loop has not been left.
  pub looping : Bool
  -- One for each item that has a goroutine, in the order of the items
  pub launched : List (T × Task)
  pub pending : List T
  pub errs : List Err
  -- `ctx.Err()`
  pub ctx_err : Option Err

abbrev pub is_running : {T : Type 0} → T × Task → Bool
is_running (x, running) = true
is_running (x, ended o) = false

module _ {T : Type 0} where
  unfoldable pub fan_start : List T → Fanout T
  fan_start items = record {
    looping = true;
    launched = [];
    pending = items;
    errs = [];
    ctx_err = none;
  }

  abbrev pub turn : List T → Option Err → Fanout T → Fanout T
  turn [] ctx_err s = record s { looping = false }
  turn (x ∷ rest) none s = record s { launched = s.launched ++ (x, running) ∷ []; pending = rest }
  turn (x ∷ rest) (some e) s = record s { looping = false; errs = s.errs ++ e ∷ [] }

  -- A turn of the loop
  unfoldable pub fan_turn : Fanout T → Fanout T
  fan_turn s = turn s.pending s.ctx_err s

  -- The end of the goroutine between these, with its recovery of a panic
  unfoldable pub fan_end :
      List (T × Task) → T → List (T × Task) → Outcome (Option Err) → Fanout T → Fanout T
  unfolding recovered
  fan_end before x after o s = record s {
    launched = before ++ (x, ended o) ∷ after;
    errs = append_error (recovered o) s.errs;
  }

-- The function ends as `o` on `x` when `Calls x o`.
module _ {T : Type 0} (Calls : T → Outcome (Option Err) → Type 0) where
  pub data FanMove : Fanout T → Fanout T → Type 0 where
    turns : (s : Fanout T) → s.looping ≡ true → FanMove s (fan_turn s)
    ends :
        (s : Fanout T) (before : List (T × Task)) (x : T) (after : List (T × Task))
        (o : Outcome (Option Err))
        → s.launched ≡ before ++ (x, running) ∷ after
        → Calls x o
        → FanMove s (fan_end before x after o s)

  -- A move, or the end of the context
  pub data FanStep : Fanout T → Fanout T → Type 0 where
    moves : {s t : Fanout T} → FanMove s t → FanStep s t
    cancels :
        (s : Fanout T) (e : Err) → s.ctx_err ≡ none → FanStep s (record s { ctx_err = some e })

  -- A run of so many steps
  pub data FanSteps : ℕ → Fanout T → Fanout T → Type 0 where
    stop : (s : Fanout T) → FanSteps 0 s s
    go : {n : ℕ} {s t u : Fanout T} → FanStep s t → FanSteps n t u → FanSteps (suc n) s u

  -- The states that `Fan` of these items can come to
  pub data FanReach (items : List T) : Fanout T → Type 0 where
    here : FanReach items (fan_start items)
    next : {s t : Fanout T} → FanReach items s → FanStep s t → FanReach items t

-- `wg.Wait()` returns.
pub record HasEnded {T : Type 0} (s : Fanout T) : Type 0 where
  pub out : s.looping ≡ false
  pub idle : count_if is_running s.launched ≡ 0
