-- ===== src/Runtime/WriteThread.antt =====
-- runtime/service.py `LedgerRuntime`: the queue, the write thread's loop and the clients as a step
-- relation. A request is a command with the number of its future; `None` in the queue is `sentinel`.
-- Timeouts of the clients do not change the queue, so they are no steps; `close` closes the store
-- after the loop has ended.
use finest_vx.Prelude.{
  ℕ, zero, suc, ◌≤◌, String, ◌≡◌, refl, ap, sym, ◌∙◌, Bool, true, false, not, List, [], ◌∷◌, ◌++◌,
  arith, length, Bool-cases, subst, inl, inr, if◌then◌else◌,
}
use mathlib.Core.List.{append_assoc, append-nil}
use finest_vx.Core.Codec.{Codec}
use finest_vx.Core.Engine.{Engine}
use finest_vx.Core.Errors.{Result}
use finest_vx.Persistence.Platform.{Platform}
use finest_vx.Persistence.Rows.{Database}
use finest_vx.Persistence.Store.{Store}
use finest_vx.Runtime.Commands.{Command, Reply, dispatch}

pub record Request : Type 0 where
  pub future : ℕ
  pub command : Command

pub data Item : Type 0 where
  request : Request → Item
  sentinel : Item

-- `resolved` holds the requests whose futures have a result, in the order of the results.
pub record Runtime : Type 0 where
  pub store : Store
  pub queue : List Item
  pub stop_event : Bool
  pub resolved : List (Request × Result Reply)
  pub running : Bool

abbrev pub started : Store → Runtime
started s = record { store = s; queue = []; stop_event = false; resolved = []; running = true }

abbrev pub requests : List Item → List Request
requests [] = []
requests (request r ∷ rest) = r ∷ requests rest
requests (sentinel ∷ rest) = requests rest

-- The requests whose futures are resolved.
abbrev pub futures : List (Request × Result Reply) → List Request
futures [] = []
futures ((r, _) ∷ rest) = r ∷ futures rest

futures-append :
    (xs : List (Request × Result Reply)) (r : Request) (reply : Result Reply)
    → futures (xs ++ (r, reply) ∷ []) ≡ futures xs ++ r ∷ []
futures-append [] r reply = refl
futures-append ((q, _) ∷ rest) r reply =
    ap (λ (l : List Request). q ∷ l) (futures-append rest r reply)

-- `_submit`: the request goes to the end of the queue.
unfoldable pub submit : Request → Runtime → Runtime
submit r rt = record rt { queue = rt.queue ++ request r ∷ [] }

-- `close`: the stop event, and `None` in the queue.
unfoldable pub stop : Runtime → Runtime
stop rt = record rt { queue = rt.queue ++ sentinel ∷ []; stop_event = true }

module _ (e : Engine) (p : Platform) (k' : Codec)
    (save : String → Bool → Database → Result (Unit {0})) where
  -- What the loop's body does with the queue: nothing on a timeout, nothing for `None`.
  unfoldable pub take_item : List Item → Runtime → Runtime
  take_item [] rt = record rt { running = not rt.stop_event }
  take_item (sentinel ∷ rest) rt = record rt { queue = rest }
  take_item (request r ∷ rest) rt =
      let (reply, s) = dispatch e p k' save r.command rt.store in
      record rt { store = s; queue = rest; resolved = rt.resolved ++ (r, reply) ∷ [] }

  -- One round of `while not stop_event.is_set() or not queue.empty()`; once the loop has ended, nothing
  -- takes from the queue.
  unfoldable pub writer_turn : Runtime → Runtime
  unfolding take_item
  writer_turn rt = if rt.running then take_item rt.queue rt else rt

  -- Rounds of the loop, as many as the number.
  unfoldable pub writer_loop : ℕ → Runtime → Runtime
  writer_loop zero rt = rt
  writer_loop (suc n) rt = writer_loop n (writer_turn rt)

  -- The runs of clients and write thread, with the requests in the order of submission.
  pub data Reach (s : Store) : List Request → Runtime → Type 0 where
    start : Reach s [] (started s)
    submitted :
        {rs : List Request} {rt : Runtime} (r : Request)
        → Reach s rs rt
        → Reach s (rs ++ r ∷ []) (submit r rt)
    stopped : {rs : List Request} {rt : Runtime} → Reach s rs rt → Reach s rs (stop rt)
    worked : {rs : List Request} {rt : Runtime} → Reach s rs rt → Reach s rs (writer_turn rt)

  -- The sequential specification: the commands one after another.
  abbrev pub run_all : Store → List Request → List (Request × Result Reply) × Store
  run_all s [] = ([], s)
  run_all s (r ∷ rest) =
      let (reply, s') = dispatch e p k' save r.command s in
      let (replies, s'') = run_all s' rest in ((r, reply) ∷ replies, s'')

  run_all-append :
      (s : Store) (rs qs : List Request)
      → run_all s (rs ++ qs)
        ≡ (let (a, s') = run_all s rs in let (b, s'') = run_all s' qs in (a ++ b, s''))
  run_all-append s [] qs = refl
  run_all-append s (r ∷ rest) qs =
      ap
        (λ (w : List (Request × Result Reply) × Store).
          ((r, (dispatch e p k' save r.command s).0) ∷ w.0, w.1))
        (run_all-append (dispatch e p k' save r.command s).1 rest qs)

  requests-append : (xs ys : List Item) → requests (xs ++ ys) ≡ requests xs ++ requests ys
  requests-append [] ys = refl
  requests-append (request r ∷ rest) ys = ap (λ (l : List Request). r ∷ l) (requests-append rest ys)
  requests-append (sentinel ∷ rest) ys = requests-append rest ys

  -- The resolved requests and those in the queue are the submitted ones in their order, and running
  -- the resolved ones one after another gives the same replies and the same store.
  abbrev pub IsSequential : Store → List Request → Runtime → Type 0
  IsSequential s rs rt =
      (futures rt.resolved ++ requests rt.queue ≡ rs)
      × (run_all s (futures rt.resolved) ≡ (rt.resolved, rt.store))

  take_item-IsSequential :
      (s : Store) (rs : List Request) (rt : Runtime) (queue : List Item)
      → (futures rt.resolved ++ requests queue ≡ rs)
      → run_all s (futures rt.resolved) ≡ (rt.resolved, rt.store)
      → rt.queue ≡ queue
      → IsSequential s rs (take_item queue rt)
  unfolding take_item
  take_item-IsSequential s rs rt [] h k q = (rw q h, k)
  take_item-IsSequential s rs rt (sentinel ∷ rest) h k q = (h, k)
  take_item-IsSequential s rs rt (request r ∷ rest) h k q =
      let reply = (dispatch e p k' save r.command rt.store).0 in
      (
        rw (futures-append rt.resolved r reply)
            (append_assoc (futures rt.resolved) (r ∷ []) (requests rest) ∙ h),
        rw (futures-append rt.resolved r reply, run_all-append s (futures rt.resolved) (r ∷ []), k),
      )

  writer_turn-running : (rt : Runtime) → rt.running ≡ true → writer_turn rt ≡ take_item rt.queue rt
  unfolding writer_turn
  writer_turn-running rt on = rw on refl

  writer_turn-ended : (rt : Runtime) → rt.running ≡ false → writer_turn rt ≡ rt
  unfolding writer_turn
  writer_turn-ended rt off = ground arith

  -- In every run of clients and write thread the futures are resolved in the order of submission,
  -- each with the reply that running the commands one after another gives, and the store is the one
  -- that this leaves.
  pub Reach-IsSequential :
      {s : Store} {rs : List Request} {rt : Runtime} → Reach s rs rt → IsSequential s rs rt
  unfolding submit stop writer_turn
  Reach-IsSequential start = (refl, refl)
  Reach-IsSequential (submitted {rs = rs} {rt = rt} r h) =
      let (a, b) = Reach-IsSequential h in
      (
        rw (requests-append rt.queue (request r ∷ [])) (
            sym (append_assoc (futures rt.resolved) (requests rt.queue) (r ∷ []))
            ∙ ap (λ (l : List Request). l ++ r ∷ []) a),
        b,
      )
  Reach-IsSequential (stopped {rs = rs} {rt = rt} h) =
      let (a, b) = Reach-IsSequential h in
      (rw (requests-append rt.queue (sentinel ∷ []), append-nil) a, b)
  Reach-IsSequential {s} (worked {rs = rs} {rt = rt} h) =
      let (a, b) = Reach-IsSequential h in
      elim (Bool-cases rt.running) [
        | inl on ↦
            subst (IsSequential s rs) (sym (writer_turn-running rt on))
              (take_item-IsSequential s rs rt rt.queue a b refl)
        | inr off ↦ subst (IsSequential s rs) (sym (writer_turn-ended rt off)) (a, b)
      ]

  take_item-rest :
      (x : Item) (rest : List Item) (rt : Runtime) → (take_item (x ∷ rest) rt).queue ≡ rest
  unfolding take_item
  take_item-rest (request r) rest rt = refl
  take_item-rest sentinel rest rt = refl

  Reach-writer_loop :
      (n : ℕ) {s : Store} {rs : List Request} {rt : Runtime}
      → Reach s rs rt
      → Reach s rs (writer_loop n rt)
  unfolding writer_loop
  Reach-writer_loop zero h = h
  Reach-writer_loop (suc n) h = Reach-writer_loop n (worked h)

  -- With items in the queue the thread goes on.
  take_item-running :
      (x : Item) (rest : List Item) (rt : Runtime) → (take_item (x ∷ rest) rt).running ≡ rt.running
  unfolding take_item
  take_item-running (request r) rest rt = refl
  take_item-running sentinel rest rt = refl

  writer_turn_empty : (rt : Runtime) → rt.queue ≡ [] → (writer_turn rt).queue ≡ []
  unfolding writer_turn take_item
  writer_turn_empty rt none_left = elim (Bool-cases rt.running) [
    | inl on ↦ rw (on, none_left) refl
    | inr off ↦ rw (off, none_left) refl
  ]

  writer_loop_empty : (n : ℕ) (rt : Runtime) → rt.queue ≡ [] → (writer_loop n rt).queue ≡ []
  unfolding writer_loop
  writer_loop_empty zero rt none_left = none_left
  writer_loop_empty (suc n) rt none_left =
      writer_loop_empty n (writer_turn rt) (writer_turn_empty rt none_left)

  writer_loop_drains :
      (n : ℕ) (rt : Runtime) (queue : List Item)
      → rt.queue ≡ queue
      → rt.running ≡ true
      → length queue ≤ n
      → (writer_loop n rt).queue ≡ []
  unfolding writer_loop
  writer_loop_drains n rt [] q on h = writer_loop_empty n rt q
  writer_loop_drains zero rt (x ∷ rest) q on h = absurd (omega arith)
  writer_loop_drains (suc n) rt (x ∷ rest) q on h =
      let turn : writer_turn rt ≡ take_item (x ∷ rest) rt =
        writer_turn-running rt on ∙ ap (λ (l : List Item). take_item l rt) q in
      let left : (take_item (x ∷ rest) rt).queue ≡ rest = take_item-rest x rest rt in
      writer_loop_drains n (writer_turn rt) rest (ap (λ (r : Runtime). r.queue) turn ∙ left)
        (ap (λ (r : Runtime). r.running) turn ∙ (take_item-running x rest rt ∙ on)) (omega arith)

  -- While the thread runs, as many rounds as the queue has items resolve the future of every submitted
  -- request, in order.
  pub writer_loop_resolves :
      (n : ℕ) {s : Store} {rs : List Request} {rt : Runtime}
      → Reach s rs rt
      → rt.running ≡ true
      → length rt.queue ≤ n
      → futures (writer_loop n rt).resolved ≡ rs
  writer_loop_resolves n {rt = rt} h on enough =
      let (a, b) = Reach-IsSequential (Reach-writer_loop n h) in
      let none_left = writer_loop_drains n rt rt.queue refl on enough in
      sym (append-nil _) ∙ (rw none_left at a)
