-- ===== src/Capability/Pending/Valid.antt =====
-- The counters and the set of ids of the queue agree with its entries.
use q_browser.Base.{
  ℕ, suc, ◌+◌, ◌≤◌, false, ◌||◌, List, [], ◌∷◌, ◌++◌, ◌≡◌, inl, inr, refl, ap, arith, length,
  length-append, Bool-cases, Option-cases,
}
use q_browser.Base.Int.{ℤ}
use q_browser.Base.Text.{Text, text_eq, text_eq_iff}
use q_browser.Ipc.Json.{JsonObject, in_set}
use q_browser.Ipc.Payload.{QtText}
use q_browser.Capability.Pending.{
  PendingCapabilityRequest, Entry, PendingCapabilityQueue, create, remove_id, push_entry, exceeds,
  message_bytes, enqueue, take_entry, take_next, clear,
}

unfoldable pub total_bytes : List Entry → ℕ
total_bytes [] = 0
total_bytes (e ∷ es) = e.bytes + total_bytes es

unfoldable pub ids : List Entry → List Text
ids [] = []
ids (e ∷ es) = e.waiting.request_id ∷ ids es

-- No two entries have the same id.
abbrev pub Distinct : List Entry → Type 0
Distinct [] = Unit
Distinct (e ∷ es) = (in_set (ids es) e.waiting.request_id ≡ false) × Distinct es

pub record IsValid (q : PendingCapabilityQueue) : Type 0 where
  pub bytes_counted : q.queued_bytes ≡ total_bytes q.entries
  pub ids_listed : q.request_ids ≡ ids q.entries
  pub distinct : Distinct q.entries
  pub bytes_bound : q.queued_bytes ≤ q.maximum_bytes
  pub count_bound : length q.entries ≤ q.maximum_requests

pub total_bytes-append :
    (es : List Entry) (e : Entry) → total_bytes (es ++ e ∷ []) ≡ total_bytes es + e.bytes
unfolding total_bytes
total_bytes-append [] e = omega arith
total_bytes-append (x ∷ es) e = omega (arith, total_bytes-append es e)

ids-append :
    (es : List Entry) (e : Entry) → ids (es ++ e ∷ []) ≡ ids es ++ e.waiting.request_id ∷ []
unfolding ids
ids-append [] e = refl
ids-append (x ∷ es) e = ap (λ ks. x.waiting.request_id ∷ ks) (ids-append es e)

in_set-append :
    (ks : List Text) (a b : Text) → in_set (ks ++ a ∷ []) b ≡ (in_set ks b || text_eq a b)
unfolding in_set
in_set-append [] a b = ground arith
in_set-append (k ∷ ks) a b = ground (arith, in_set-append ks a b)

Distinct-append :
    (es : List Entry) (e : Entry)
    → Distinct es
    → in_set (ids es) e.waiting.request_id ≡ false
    → Distinct (es ++ e ∷ [])
unfolding ids in_set
Distinct-append [] e d h = (refl, tt)
Distinct-append (x ∷ es) e (d, ds) h = (
  ground (
    arith,
    ids-append es e,
    in_set-append (ids es) e.waiting.request_id x.waiting.request_id,
    text_eq_iff e.waiting.request_id x.waiting.request_id,
    text_eq_iff x.waiting.request_id e.waiting.request_id,
  ),
  Distinct-append es e ds (ground arith),
)

remove-absent : (ks : List Text) (id : Text) → in_set ks id ≡ false → remove_id id ks ≡ ks
unfolding remove_id in_set
remove-absent [] id h = refl
remove-absent (k ∷ ks) id h = ground (arith, remove-absent ks id)

remove-first : (ks : List Text) (id : Text) → in_set ks id ≡ false → remove_id id (id ∷ ks) ≡ ks
unfolding remove_id
remove-first ks id h = ground (arith, remove-absent ks id, text_eq_iff id id)

pub create-IsValid : (requests bytes : ℤ) → IsValid (create requests bytes)
unfolding create total_bytes ids
create-IsValid requests bytes = record {
  bytes_counted = refl;
  ids_listed = refl;
  distinct = tt;
  bytes_bound = omega arith;
  count_bound = omega arith;
}

push_entry-IsValid :
    (q : PendingCapabilityQueue) (e : Entry)
    → IsValid q
    → in_set q.request_ids e.waiting.request_id ≡ false
    → exceeds q e.bytes ≡ false
    → IsValid (push_entry q e)
push_entry-IsValid q e v new fits =
    let counted = v.bytes_counted in
    let listed = v.ids_listed in
    record {
      bytes_counted = ground (arith, total_bytes-append q.entries e);
      ids_listed = ground (arith, ids-append q.entries e);
      distinct = Distinct-append q.entries e v.distinct (ground arith);
      bytes_bound = ground arith;
      count_bound = ground (arith, length-append q.entries (e ∷ []));
    }

module _ (qt : QtText) (compact : JsonObject → Text) where
  pub enqueue-IsValid :
      (q : PendingCapabilityQueue) (r : PendingCapabilityRequest)
      → IsValid q
      → IsValid (enqueue qt compact q r).0
  unfolding enqueue
  enqueue-IsValid q r v = elim (Option-cases (message_bytes qt compact r)) [
    | inl e ↦ rw (enqueue, e) v
    | inr (bytes, e) ↦ elim (Bool-cases (in_set q.request_ids r.request_id)) [
      | inl f ↦ rw (enqueue, e, f) v
      | inr f ↦ elim (Bool-cases (exceeds q bytes)) [
        | inl g ↦ rw (enqueue, e, f, g) v
        | inr g ↦
            rw (enqueue, e, f, g)
              (push_entry-IsValid q (record { waiting = r; bytes = bytes }) v f g)
      ]
    ]
  ]

take_entry-IsValid :
    (q : PendingCapabilityQueue) (es : List Entry)
    → IsValid q
    → q.entries ≡ es
    → IsValid (take_entry q es).0
unfolding take_entry total_bytes ids
take_entry-IsValid q [] v h = v
take_entry-IsValid q (e ∷ es) v h =
    let counted = v.bytes_counted in
    let listed = v.ids_listed in
    let apart : Distinct (e ∷ es) = rw h at v.distinct in
    let total : total_bytes q.entries ≡ e.bytes + total_bytes es = rw h refl in
    let names : ids q.entries ≡ e.waiting.request_id ∷ ids es = rw h refl in
    let count : length q.entries ≡ suc (length es) = rw h refl in
    record {
      bytes_counted = ground arith;
      ids_listed = ground (arith, remove-first (ids es) e.waiting.request_id apart.0);
      distinct = apart.1;
      bytes_bound = omega (arith, v.bytes_bound);
      count_bound = omega (arith, v.count_bound);
    }

pub take_next-IsValid : (q : PendingCapabilityQueue) → IsValid q → IsValid (take_next q).0
unfolding take_next
take_next-IsValid q v = take_entry-IsValid q q.entries v refl

pub clear-IsValid : (q : PendingCapabilityQueue) → IsValid q → IsValid (clear q)
unfolding clear total_bytes ids
clear-IsValid q v = record {
  bytes_counted = refl;
  ids_listed = refl;
  distinct = tt;
  bytes_bound = omega arith;
  count_bound = omega arith;
}
