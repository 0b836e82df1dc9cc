-- ===== src/Capability/Pending/Spec.antt =====
-- The queue of requests without its counters, and the queue against it.
use q_browser.Base.{
  ℕ, suc, ◌+◌, Bool, true, false, not, ◌&&◌, ◌||◌, Option, none, some, List, [], ◌∷◌, ◌++◌, ◌≡◌,
  inl, inr, refl, sym, ap, ◌∙◌, arith, leb, if◌then◌else◌, length, Bool-cases, Option-cases,
}
use q_browser.Base.Int.{ℤ}
use q_browser.Base.Text.{Text, text_eq}
use q_browser.Ipc.Json.{JsonObject, in_set}
use q_browser.Ipc.Payload.{QtText}
use q_browser.Capability.Pending.{
  PendingCapabilityRequest, PushResult, accepted, invalid_request, duplicate_request_id,
  limit_exceeded, Entry, PendingCapabilityQueue, at_least_one, create, exceeds, message_bytes,
  enqueue, take_entry, take_next, clear,
}
use q_browser.Capability.Pending.Valid.{
  total_bytes, ids, IsValid, create-IsValid, enqueue-IsValid, take_next-IsValid, clear-IsValid,
}

-- A call of the queue, and what it returns
pub data Call : Type 0 where
  push : PendingCapabilityRequest → Call
  pop wipe : Call

pub data Answer : Type 0 where
  pushed : PushResult → Answer
  popped : Option PendingCapabilityRequest → Answer
  wiped : Answer

-- The ids and the sizes of the requests that wait, from the requests
unfoldable pub has_id : List PendingCapabilityRequest → Text → Bool
has_id [] id = false
has_id (r ∷ rs) id = text_eq r.request_id id || has_id rs id

module _ (qt : QtText) (compact : JsonObject → Text) where
  abbrev pub size_or_zero : Option ℕ → ℕ
  size_or_zero none = 0
  size_or_zero (some n) = n

  unfoldable pub waiting_bytes : List PendingCapabilityRequest → ℕ
  waiting_bytes [] = 0
  waiting_bytes (r ∷ rs) = size_or_zero (message_bytes qt compact r) + waiting_bytes rs

  -- A request is taken in last if it makes a message, is new, and there is room for it.
  unfoldable pub push_spec :
      ℕ
      → ℕ
      → List PendingCapabilityRequest
      → PendingCapabilityRequest
      → List PendingCapabilityRequest × Answer
  push_spec requests bytes rs r = elim (message_bytes qt compact r) [
    | none ↦ (rs, pushed invalid_request)
    | some n ↦
        if has_id rs r.request_id
        then (rs, pushed duplicate_request_id)
        else if leb (suc (length rs)) requests && leb (waiting_bytes rs + n) bytes
        then (rs ++ r ∷ [], pushed accepted)
        else (rs, pushed limit_exceeded)
  ]

  abbrev pub pop_spec : List PendingCapabilityRequest → List PendingCapabilityRequest × Answer
  pop_spec [] = ([], popped none)
  pop_spec (r ∷ rs) = (rs, popped (some r))

  unfoldable pub call_spec :
      ℕ → ℕ → List PendingCapabilityRequest → Call → List PendingCapabilityRequest × Answer
  call_spec requests bytes rs (push r) = push_spec requests bytes rs r
  call_spec requests bytes rs pop = pop_spec rs
  call_spec requests bytes rs wipe = ([], wiped)

  unfoldable pub run_spec : ℕ → ℕ → List PendingCapabilityRequest → List Call → List Answer
  run_spec requests bytes rs [] = []
  run_spec requests bytes rs (c ∷ cs) =
      let next = call_spec requests bytes rs c in next.1 ∷ run_spec requests bytes next.0 cs

  -- The same of the queue
  unfoldable pub call_queue : PendingCapabilityQueue → Call → PendingCapabilityQueue × Answer
  call_queue q (push r) = ((enqueue qt compact q r).0, pushed (enqueue qt compact q r).1)
  call_queue q pop = ((take_next q).0, popped (take_next q).1)
  call_queue q wipe = (clear q, wiped)

  unfoldable pub run_queue : PendingCapabilityQueue → List Call → List Answer
  run_queue q [] = []
  run_queue q (c ∷ cs) = let next = call_queue q c in next.1 ∷ run_queue next.0 cs

  -- The sizes that the entries keep are those of their messages.
  abbrev pub Sized : List Entry → Type 0
  Sized [] = Unit
  Sized (e ∷ es) = (message_bytes qt compact e.waiting ≡ some e.bytes) × Sized es

  view : List Entry → List PendingCapabilityRequest
  view [] = []
  view (e ∷ es) = e.waiting ∷ view es

  waiting_bytes-view : (es : List Entry) → Sized es → waiting_bytes (view es) ≡ total_bytes es
  unfolding waiting_bytes view total_bytes
  waiting_bytes-view [] s = refl
  waiting_bytes-view (e ∷ es) (s, ss) = ground (arith, waiting_bytes-view es ss)

  has_id-view : (es : List Entry) (id : Text) → has_id (view es) id ≡ in_set (ids es) id
  unfolding has_id view ids in_set
  has_id-view [] id = refl
  has_id-view (e ∷ es) id = ground (arith, has_id-view es id)

  length-view : (es : List Entry) → length (view es) ≡ length es
  unfolding view
  length-view [] = refl
  length-view (e ∷ es) = omega (arith, length-view es)

  view-append : (es : List Entry) (e : Entry) → view (es ++ e ∷ []) ≡ view es ++ e.waiting ∷ []
  unfolding view
  view-append [] e = refl
  view-append (x ∷ es) e = ap (λ rs. x.waiting ∷ rs) (view-append es e)

  Sized-append :
      (es : List Entry) (e : Entry)
      → Sized es
      → message_bytes qt compact e.waiting ≡ some e.bytes
      → Sized (es ++ e ∷ [])
  Sized-append [] e s h = (h, tt)
  Sized-append (x ∷ es) e (s, ss) h = (s, Sized-append es e ss h)

  -- Whether room is left for a request of some size
  abbrev room : PendingCapabilityQueue → ℕ → Bool
  room q n =
      leb (suc (length (view q.entries))) q.maximum_requests
      && leb (waiting_bytes (view q.entries) + n) q.maximum_bytes

  limits_agree :
      (q : PendingCapabilityQueue) (n : ℕ)
      → IsValid q
      → Sized q.entries
      → exceeds q n ≡ not (room q n)
  limits_agree q n v s =
      let counted = v.bytes_counted in
      let total = waiting_bytes-view q.entries s in
      let count = length-view q.entries in ground arith

  -- A call and its specification do the same.
  Agrees :
      PendingCapabilityQueue
      → PendingCapabilityQueue × Answer
      → List PendingCapabilityRequest × Answer
      → Type 0
  Agrees q new spec =
      (new.0.maximum_requests ≡ q.maximum_requests)
      × (new.0.maximum_bytes ≡ q.maximum_bytes)
      × Sized new.0.entries
      × (spec ≡ (view new.0.entries, new.1))

  push-Agrees :
      (q : PendingCapabilityQueue) (r : PendingCapabilityRequest)
      → IsValid q
      → Sized q.entries
      → Agrees q
          (call_queue q (push r))
          (push_spec q.maximum_requests q.maximum_bytes (view q.entries) r)
  unfolding Agrees call_queue enqueue push_spec view
  push-Agrees q r v s = elim (Option-cases (message_bytes qt compact r)) [
    | inl e ↦ rw (enqueue, push_spec, e) (refl, refl, s, refl)
    | inr (n, e) ↦
        let same : has_id (view q.entries) r.request_id ≡ in_set q.request_ids r.request_id =
          has_id-view q.entries r.request_id
          ∙ ap (λ ks. in_set ks r.request_id) (sym v.ids_listed) in
        elim (Bool-cases (in_set q.request_ids r.request_id)) [
          | inl f ↦ rw (enqueue, push_spec, e, same, f) (refl, refl, s, refl)
          | inr f ↦ elim (Bool-cases (exceeds q n)) [
            | inl g ↦
                let full : room q n ≡ false = ground (arith, limits_agree q n v s) in
                rw (enqueue, push_spec, e, same, f, g, full) (refl, refl, s, refl)
            | inr g ↦
                let free : room q n ≡ true = ground (arith, limits_agree q n v s) in
                let x : Entry = record { waiting = r; bytes = n } in
                rw (enqueue, push_spec, e, same, f, g, free)
                  (
                    refl,
                    refl,
                    Sized-append q.entries x s e,
                    ap (λ rs. (rs, pushed accepted)) (sym (view-append q.entries x)),
                  )
          ]
        ]
  ]

  pop-Agrees :
      (q : PendingCapabilityQueue) (es : List Entry)
      → Sized es
      → q.entries ≡ es
      → Agrees q ((take_entry q es).0, popped (take_entry q es).1) (pop_spec (view es))
  unfolding Agrees take_entry view
  pop-Agrees q [] s h = (refl, refl, rw h tt, ap (λ xs. (view xs, popped none)) (sym h))
  pop-Agrees q (e ∷ es) (s, ss) h = (refl, refl, ss, refl)

  call-Agrees :
      (q : PendingCapabilityQueue) (c : Call)
      → IsValid q
      → Sized q.entries
      → Agrees q (call_queue q c) (call_spec q.maximum_requests q.maximum_bytes (view q.entries) c)
  unfolding call_queue call_spec take_next clear Agrees view
  call-Agrees q (push r) v s = push-Agrees q r v s
  call-Agrees q pop v s = pop-Agrees q q.entries s refl
  call-Agrees q wipe v s = (refl, refl, tt, refl)

  pub call-IsValid :
      (q : PendingCapabilityQueue) (c : Call) → IsValid q → IsValid (call_queue q c).0
  unfolding call_queue
  call-IsValid q (push r) v = enqueue-IsValid qt compact q r v
  call-IsValid q pop v = take_next-IsValid q v
  call-IsValid q wipe v = clear-IsValid q v

  run_valid :
      (q : PendingCapabilityQueue) (cs : List Call)
      → IsValid q
      → Sized q.entries
      → run_queue q cs ≡ run_spec q.maximum_requests q.maximum_bytes (view q.entries) cs
  unfolding run_queue run_spec Agrees
  run_valid q [] v s = refl
  run_valid q (c ∷ cs) v s =
      let (requests, bytes, s', same) = call-Agrees q c v s in
      let next = (call_queue q c).0 in
      let later = run_valid next cs (call-IsValid q c v) s' in
      let limits =
        ap (λ n. run_spec n next.maximum_bytes (view next.entries) cs) requests
        ∙ ap (λ n. run_spec q.maximum_requests n (view next.entries) cs) bytes in
      rw same (ap (λ rest. (call_queue q c).1 ∷ rest) (later ∙ limits))

  -- The queue behind a list of calls
  unfoldable pub queue_after : PendingCapabilityQueue → List Call → PendingCapabilityQueue
  queue_after q [] = q
  queue_after q (c ∷ cs) = queue_after (call_queue q c).0 cs

  after-IsValid :
      (q : PendingCapabilityQueue) (cs : List Call) → IsValid q → IsValid (queue_after q cs)
  unfolding queue_after
  after-IsValid q [] v = v
  after-IsValid q (c ∷ cs) v = after-IsValid (call_queue q c).0 cs (call-IsValid q c v)

  -- Behind any calls the counter of bytes is the sum of the entries' sizes, the set of ids has those
  -- of the entries, which differ, and neither limit is exceeded.
  pub queue_after-IsValid :
      (requests bytes : ℤ) (cs : List Call) → IsValid (queue_after (create requests bytes) cs)
  queue_after-IsValid requests bytes cs =
      after-IsValid (create requests bytes) cs (create-IsValid requests bytes)

  -- On any calls the queue returns what a plain list of requests does that works out ids and sizes
  -- anew each time: requests come out in the order in which they went in.
  pub run_queue-run_spec :
      (requests bytes : ℤ) (cs : List Call)
      → run_queue (create requests bytes) cs
        ≡ run_spec (at_least_one requests) (at_least_one bytes) [] cs
  unfolding create view
  run_queue-run_spec requests bytes cs =
      run_valid (create requests bytes) cs (create-IsValid requests bytes) tt
