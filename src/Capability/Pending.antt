-- ===== src/Capability/Pending.antt =====
-- The requests of a worker that wait for its session: apps/worker/PendingCapabilityQueue.h and
-- .cpp.
--
-- `compact` stands for `QJsonDocument::toJson` in the compact form. The `QSet` of the request ids is
-- a list.
pub mod Valid
pub mod Spec
use q_browser.Base.{
  ℕ, ◌+◌, ◌-◌, Bool, true, false, not, ◌&&◌, ◌||◌, Option, none, some, List, [], ◌∷◌, ◌++◌, ltb,
  leb, ◌==◌, if◌then◌else◌, length,
}
use q_browser.Base.Int.{ℤ, pos, negsuc}
use q_browser.Base.Text.{Text, text_eq}
use q_browser.Ipc.Json.{JsonObject, in_set}
use q_browser.Ipc.Payload.{QtText}
use q_browser.Ipc.Protocol.{to_json, request}

pub record PendingCapabilityRequest : Type 0 where
  pub request_id : Text
  pub capability : Text
  pub operation : Text
  pub payload : JsonObject

pub data PushResult : Type 0 where
  accepted invalid_request duplicate_request_id limit_exceeded : PushResult

pub record Entry : Type 0 where
  pub waiting : PendingCapabilityRequest
  pub bytes : ℕ

pub record PendingCapabilityQueue : Type 0 where
  pub maximum_requests : ℕ
  pub maximum_bytes : ℕ
  pub queued_bytes : ℕ
  pub entries : List Entry
  pub request_ids : List Text

-- `std::max<qsizetype>(1, n)`
abbrev pub at_least_one : ℤ → ℕ
at_least_one (pos n) = if n == 0 then 1 else n
at_least_one (negsuc n) = 1

unfoldable pub create : ℤ → ℤ → PendingCapabilityQueue
create requests bytes = record {
  maximum_requests = at_least_one requests;
  maximum_bytes = at_least_one bytes;
  queued_bytes = 0;
  entries = [];
  request_ids = [];
}

-- `QSet<QString>::remove`
unfoldable pub remove_id : Text → List Text → List Text
remove_id id [] = []
remove_id id (k ∷ ks) = let rest = remove_id id ks in if text_eq k id then rest else k ∷ rest

abbrev pub push_entry : PendingCapabilityQueue → Entry → PendingCapabilityQueue
push_entry q e = record q {
  queued_bytes = q.queued_bytes + e.bytes;
  entries = q.entries ++ e ∷ [];
  request_ids = q.request_ids ++ e.waiting.request_id ∷ [];
}

-- The limits of `enqueue`
abbrev pub exceeds : PendingCapabilityQueue → ℕ → Bool
exceeds q bytes =
    leb q.maximum_requests (length q.entries)
    || ltb q.maximum_bytes bytes
    || ltb (q.maximum_bytes - bytes) q.queued_bytes

module _ (qt : QtText) (compact : JsonObject → Text) where
  -- The size of the message that a request becomes; `none` for a request that makes no message
  unfoldable pub message_bytes : PendingCapabilityRequest → Option ℕ
  message_bytes r = elim (request qt r.request_id r.capability r.operation r.payload) [
    | none ↦ none
    | some m ↦ some (length (compact (to_json m)))
  ]

  unfoldable pub enqueue :
      PendingCapabilityQueue → PendingCapabilityRequest → PendingCapabilityQueue × PushResult
  enqueue q r = elim (message_bytes r) [
    | none ↦ (q, invalid_request)
    | some bytes ↦
        if in_set q.request_ids r.request_id
        then (q, duplicate_request_id)
        else if exceeds q bytes
        then (q, limit_exceeded)
        else (push_entry q (record { waiting = r; bytes = bytes }), accepted)
  ]

-- `dequeue` and what goes with it
unfoldable pub take_entry :
    PendingCapabilityQueue → List Entry → PendingCapabilityQueue × Option PendingCapabilityRequest
take_entry q [] = (q, none)
take_entry q (e ∷ es) = (
  record q {
    queued_bytes = q.queued_bytes - e.bytes;
    entries = es;
    request_ids = remove_id e.waiting.request_id q.request_ids;
  },
  some e.waiting,
)

unfoldable pub take_next :
    PendingCapabilityQueue → PendingCapabilityQueue × Option PendingCapabilityRequest
take_next q = take_entry q q.entries

unfoldable pub clear : PendingCapabilityQueue → PendingCapabilityQueue
clear q = record q { queued_bytes = 0; entries = []; request_ids = [] }
