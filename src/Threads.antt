-- ===== src/Threads.antt =====
-- heyp/threads/lossy-queue.h. Each method runs under the mutex, so a run is a sequence of whole
-- calls; a `Read` whose condition does not hold waits, and changes nothing until it does.
pub mod Delivery
pub mod ParIndexedMap
mod Tests
use heyp_agents.Prelude.{Bool, true, false, List, [], ◌∷◌, ◌++◌, Option, none, some}

-- `data` is the value where `has_data_` is set, and `none` where it is not: the value is moved out
-- as the flag is reset.
pub record LossyQueue (A : Type 0) : Type 0 where
  pub data_held : Option A
  pub closed : Bool

pub data Operation (A : Type 0) : Type 0 where
  write : A → Operation A
  close : Operation A
  read : Operation A

-- What a call gives: nothing, a value, the end, or a wait.
pub data Answer (A : Type 0) : Type 0 where
  done : Answer A
  got : A → Answer A
  ended : Answer A
  waits : Answer A

module _ {A : Type 0} where
  unfoldable pub new_queue : LossyQueue A
  new_queue = record { data_held = none; closed = false }

  unfoldable pub step : Operation A → LossyQueue A → LossyQueue A × Answer A
  step (write v) q = elim q.closed [
    | true ↦ (q, done)
    | false ↦ (record q { data_held = some v }, done)
  ]
  step close q = (record q { closed = true }, done)
  step read q = elim q.data_held [
    | some v ↦ (record q { data_held = none }, got v)
    | none ↦ elim q.closed [ true ↦ (q, ended) | false ↦ (q, waits) ]
  ]
