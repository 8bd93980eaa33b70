-- ===== src/Threads/Delivery.antt =====
-- What readers get of the values that are written to a queue of heyp/threads/lossy-queue.h.
use heyp_agents.Prelude.{
  arith, ◌≡◌, ◌≢◌, ◌∙◌, refl, ap, Bool, true, false, List, [], ◌∷◌, ◌++◌, Option, none, some,
}
use heyp_agents.Threads.{
  LossyQueue, Operation, write, close, read, Answer, done, got, ended, waits, new_queue, step,
}

module _ {A : Type 0} where
  abbrev pub held : Option A → List A
  held none = []
  held (some v) = v ∷ []

  abbrev value : Answer A → List A
  value done = []
  value (got v) = v ∷ []
  value ended = []
  value waits = []

  unfoldable pub run : List (Operation A) → LossyQueue A → LossyQueue A
  run [] q = q
  run (o ∷ os) q = run os (step o q).0

  -- The values that the reads of a run get.
  unfoldable pub delivered : List (Operation A) → LossyQueue A → List A
  unfolding step
  delivered [] q = []
  delivered (o ∷ os) q = value (step o q).1 ++ delivered os (step o q).0

  -- The values written before the queue was closed.
  abbrev pub accepted : Bool → List (Operation A) → List A
  accepted closed [] = []
  accepted true (write v ∷ os) = accepted true os
  accepted false (write v ∷ os) = v ∷ accepted false os
  accepted closed (close ∷ os) = accepted true os
  accepted closed (read ∷ os) = accepted closed os

  -- The first list is the second with elements left out.
  pub data IsSubsequence : List A → List A → Type 0 where
    nothing : IsSubsequence [] []
    skip : (x : A) (xs ys : List A) → IsSubsequence xs ys → IsSubsequence xs (x ∷ ys)
    keep : (x : A) (xs ys : List A) → IsSubsequence xs ys → IsSubsequence (x ∷ xs) (x ∷ ys)

  abbrev or_else : A → Option A → Option A
  or_else x none = some x
  or_else x (some y) = some y

  or_else_twice : (w v : A) (o : Option A) → or_else v o ≡ or_else w (or_else v o)
  or_else_twice w v none = refl
  or_else_twice w v (some y) = refl

  abbrev pub newest : List A → Option A
  newest [] = none
  newest (x ∷ xs) = or_else x (newest xs)

  -- What is delivered and still held, against what was held and is accepted.
  abbrev IsDelivered : List A → List A → Type 0
  IsDelivered out in_order = IsSubsequence out in_order × (newest out ≡ newest in_order)

  delivered-from :
      (os : List (Operation A)) (held_now : Option A) (closed : Bool)
      → let q : LossyQueue A = record { data_held = held_now; closed = closed } in
        IsDelivered
          (delivered os q ++ held (run os q).data_held)
          (held held_now ++ accepted closed os)
  unfolding delivered run step
  delivered-from [] none closed = (nothing, refl)
  delivered-from [] (some v) closed = (keep v [] [] nothing, refl)
  delivered-from (write v ∷ os) h true = delivered-from os h true
  delivered-from (write v ∷ os) none false = delivered-from os (some v) false
  delivered-from (write v ∷ os) (some w) false =
      let p = delivered-from os (some v) false in
      (skip w _ _ p.0, p.1 ∙ or_else_twice w v (newest (accepted false os)))
  delivered-from (close ∷ os) h closed = delivered-from os h true
  delivered-from (read ∷ os) (some v) closed =
      let p = delivered-from os none closed in (keep v _ _ p.0, ap (or_else v) p.1)
  delivered-from (read ∷ os) none true = delivered-from os none true
  delivered-from (read ∷ os) none false = delivered-from os none false

  -- Of the values written before the close, a run delivers some, each at most once and in the order
  -- they were written; the newest of them is the last one delivered, or the one still held.
  pub delivered-accepted :
      (os : List (Operation A))
      → let out = delivered os new_queue ++ held (run os new_queue).data_held in
        IsSubsequence out (accepted false os) × (newest out ≡ newest (accepted false os))
  unfolding new_queue
  delivered-accepted os = delivered-from os none false

  run-append :
      (os ps : List (Operation A)) (q : LossyQueue A) → run (os ++ ps) q ≡ run ps (run os q)
  unfolding run
  run-append [] ps q = refl
  run-append (o ∷ os) ps q = run-append os ps (step o q).0

  abbrev closed_with : Option A → LossyQueue A
  closed_with h = record { data_held = h; closed = true }

  run-closed : (os : List (Operation A)) (h : Option A) → (run os (closed_with h)).closed ≡ true
  unfolding run step
  run-closed [] h = refl
  run-closed (write v ∷ os) h = run-closed os h
  run-closed (close ∷ os) h = run-closed os h
  run-closed (read ∷ os) none = run-closed os none
  run-closed (read ∷ os) (some v) = run-closed os none

  step-closed : (q : LossyQueue A) → q.closed ≡ true → (step read q).1 ≢ waits
  unfolding step
  step-closed q h = ground arith

  run-close :
      (os ps : List (Operation A)) (q : LossyQueue A) → (run (os ++ close ∷ ps) q).closed ≡ true
  unfolding run step
  run-close os ps q =
      ap (λ r. r.closed) (run-append os (close ∷ ps) q) ∙ run-closed ps (run os q).data_held

  -- Once the queue has been closed, whatever else is done to it, a read does not wait.
  pub read-closed :
      (os ps : List (Operation A)) → (step read (run (os ++ close ∷ ps) new_queue)).1 ≢ waits
  read-closed os ps = step-closed (run (os ++ close ∷ ps) new_queue) (run-close os ps new_queue)
