-- ===== src/Provisioner/Jobs.antt =====
-- The handlers of hwallocator/provisioner/webapp/rest.py: the list of jobs, one job, the websocket on
-- which a client sends its requests, and the release of an allocation.
use habertest_backend.Base.{
  string_eq, String, ◌≡◌, refl, ap, Bool, true, false, Option, List, [], ◌∷◌, ◌++◌, All, arith,
}
use habertest_backend.Base.Dict.{lookup, values}
use habertest_backend.Base.Exec.{Result, ok, err}
use habertest_backend.Provisioner.Store.{Allocation, Redis, Fault, Request}
use habertest_backend.Provisioner.Fulfiller.{World, fulfill}

-- `alljobs`, its `data`
pub alljobs : Redis → List Allocation
alljobs r = values r.allocations

-- `onejob`: `none` is the reply with status 404.
pub onejob : String → Redis → Option Allocation
onejob id r = lookup id r.allocations

-- What the websocket sends back: the allocation, or the text of an exception.
pub data JobReply : Type 0 where
  job : Option Allocation → JobReply
  exception : Fault → JobReply

job_reply : Result Fault (Option Allocation) → JobReply
job_reply (ok a) = job a
job_reply (err e) = exception e

-- A message on the websocket: a text that is no JSON object, an object without `data`, or a request with the
-- world in which it is handled.
pub data Message : Type 0 where
  malformed no_data : Message
  asks : World → Request → Message

-- `json.loads(msg.data)` stands outside the inner `try`, so its exception ends the loop.
pub data SocketError : Type 0 where
  decode_error : SocketError

-- `fulfill`, the loop over the messages: the replies that are sent, how the loop ends, and redis then. A
-- message without `data` is not answered.
pub fulfill_messages : List Message → Redis → List JobReply × Result SocketError (Unit {0}) × Redis
unfolding job_reply
fulfill_messages [] r = ([], ok tt, r)
fulfill_messages (malformed ∷ messages) r = ([], err decode_error, r)
fulfill_messages (no_data ∷ messages) r = fulfill_messages messages r
fulfill_messages (asks w req ∷ messages) r =
    let (result, t) = fulfill w req r in
    let (replies, end, u) = fulfill_messages messages t in (job_reply result ∷ replies, end, u)

-- No message of the list is malformed.
abbrev pub is_read : Message → Bool
is_read malformed = false
is_read no_data = true
is_read (asks w req) = true

-- A malformed message ends the websocket with an exception: the messages before it are handled as if they were
-- all, and of those that come after it none is answered or changes redis.
pub fulfill_messages_malformed :
    (before after : List Message) (r : Redis)
    → All (λ m. is_read m ≡ true) before
    → fulfill_messages (before ++ malformed ∷ after) r
      ≡ ((fulfill_messages before r).0, err decode_error, (fulfill_messages before r).2)
unfolding fulfill_messages
fulfill_messages_malformed [] after r read = refl
fulfill_messages_malformed (malformed ∷ before) after r read = absurd (ground (arith, read.0))
fulfill_messages_malformed (no_data ∷ before) after r read =
    fulfill_messages_malformed before after r read.1
fulfill_messages_malformed (asks w req ∷ before) after r read =
    ap
      (λ (o : List JobReply × Result SocketError (Unit {0}) × Redis).
        (job_reply (fulfill w req r).0 ∷ o.0, o.1, o.2))
      (fulfill_messages_malformed before after (fulfill w req r).1 read.1)
