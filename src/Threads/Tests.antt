-- ===== src/Threads/Tests.antt =====
-- Runs of the queue of heyp/threads/lossy-queue.h, the theorems at concrete inputs.
use heyp_agents.Prelude.{ℕ, ◌≡◌, ◌≢◌, refl, false, List, [], ◌∷◌, ◌++◌}
use heyp_agents.Threads.{Operation, write, close, read, waits, new_queue, step}
use heyp_agents.Threads.Delivery.{
  held, run, delivered, accepted, IsSubsequence, newest, delivered-accepted, read-closed,
}

-- The first read waits, 1 is lost, and 3 comes after the close.
abbrev operations : List (Operation ℕ)
operations = read ∷ write 1 ∷ write 2 ∷ read ∷ write 5 ∷ close ∷ write 3 ∷ read ∷ read ∷ []

delivered-operations : delivered operations new_queue ≡ 2 ∷ 5 ∷ []
unfolding delivered new_queue step
delivered-operations = refl

delivered-accepted_example :
    let out = delivered operations new_queue ++ held (run operations new_queue).data_held in
    IsSubsequence out (accepted false operations)
    × (newest out ≡ newest (accepted false operations))
delivered-accepted_example = delivered-accepted operations

abbrev before_close : List (Operation ℕ)
before_close = write 1 ∷ read ∷ []

abbrev after_close : List (Operation ℕ)
after_close = write 2 ∷ []

read-closed_example : (step read (run (before_close ++ close ∷ after_close) new_queue)).1 ≢ waits
read-closed_example = read-closed before_close after_close
