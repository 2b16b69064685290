-- ===== src/Queue/Order.antt =====
-- The queue as a channel: what is drained is what was posted, in order, once.
use sm_rest.Prelude.{
  ◌≡◌, refl, ap, ◌∙◌, sym, Bool, true, false, not, List, [], ◌∷◌, ◌++◌, append-nil, append_assoc,
  arith, is_empty, if◌then◌else◌, Bool-cases, inl, inr,
}
use sm_rest.Queue.{TransferEvent, MainThreadQueue, post, drain, set_enabled}

-- A call of one of the threads, in the order in which the mutex lets them in.
pub data Call : Type 0 where
  posts : TransferEvent → Call
  drains : Call
  enables : Bool → Call

unfoldable pub step : MainThreadQueue → Call → MainThreadQueue × List TransferEvent
unfolding post drain set_enabled
step queue (posts event) = (post queue event, [])
step queue drains = drain queue
step queue (enables enabled) = (set_enabled queue enabled, [])

-- The queue after a history, and all that its drains returned.
unfoldable pub run : MainThreadQueue → List Call → MainThreadQueue × List TransferEvent
unfolding step
run queue [] = (queue, [])
run queue (call ∷ calls) =
    let (next, now) = step queue call in let (last, later) = run next calls in (last, now ++ later)

-- The events posted while the queue was enabled.
unfoldable pub accepted : Bool → List Call → List TransferEvent
accepted enabled [] = []
accepted enabled (posts event ∷ calls) =
    let rest = accepted enabled calls in if enabled then event ∷ rest else rest
accepted enabled (drains ∷ calls) = accepted enabled calls
accepted enabled (enables value ∷ calls) = accepted value calls

post_enabled :
    (queue : MainThreadQueue) (event : TransferEvent)
    → queue.enabled ≡ true
    → post queue event
      ≡ record { events = queue.events ++ event ∷ []; has_events = true; enabled = true }
unfolding post
post_enabled queue event h = ground arith

post_disabled :
    (queue : MainThreadQueue) (event : TransferEvent)
    → queue.enabled ≡ false
    → post queue event ≡ queue
unfolding post
post_disabled queue event h = ground arith

-- What the drains of a history returned, followed by what still waits, is what waited before,
-- followed by the events posted while the queue was enabled: none is lost, doubled or overtaken.
pub run_fifo :
    (queue : MainThreadQueue) (calls : List Call)
    → (run queue calls).1 ++ (run queue calls).0.events
      ≡ queue.events ++ accepted queue.enabled calls
unfolding run accepted
run_fifo queue [] = sym (append-nil queue.events)
run_fifo queue (posts event ∷ calls) = elim (Bool-cases queue.enabled) [
  | inl on ↦
      run_fifo (post queue event) calls
      ∙ rw (post_enabled queue event on, on) (append_assoc queue.events (event ∷ []) _)
  | inr off ↦ rw (post_disabled queue event off) (ground (arith, run_fifo queue calls))
]
run_fifo queue (drains ∷ calls) =
    append_assoc queue.events _ _ ∙ ap (◌++◌ queue.events) (run_fifo (drain queue).0 calls)
run_fifo queue (enables value ∷ calls) = run_fifo (set_enabled queue value) calls

-- The flag that the game thread reads without the mutex.
abbrev pub IsFlagged : MainThreadQueue → Type 0
IsFlagged queue = queue.has_events ≡ not (is_empty queue.events)

append-is_empty {ℓ} : {A : Type ℓ} (xs : List A) (x : A) → is_empty (xs ++ x ∷ []) ≡ false
append-is_empty [] x = refl
append-is_empty (y ∷ xs) x = refl

post-IsFlagged :
    (queue : MainThreadQueue) (event : TransferEvent)
    → IsFlagged queue
    → IsFlagged (post queue event)
unfolding post
post-IsFlagged queue event h = ground (arith, append-is_empty queue.events event)

-- After any history the flag is up exactly when events wait, so no event is overlooked.
pub run-IsFlagged :
    (queue : MainThreadQueue) (calls : List Call) → IsFlagged queue → IsFlagged (run queue calls).0
unfolding run
run-IsFlagged queue [] h = h
run-IsFlagged queue (posts event ∷ calls) h =
    run-IsFlagged (post queue event) calls (post-IsFlagged queue event h)
run-IsFlagged queue (drains ∷ calls) h = run-IsFlagged (drain queue).0 calls refl
run-IsFlagged queue (enables value ∷ calls) h = run-IsFlagged (set_enabled queue value) calls h
