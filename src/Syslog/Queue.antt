-- ===== src/Syslog/Queue.antt =====
-- What the ring of the syslog forwarder promises (internal/server/syslogfwd/forwarder.go): a queue,
-- oldest record first, whose budget drops the oldest.
use polarbeam.Base.{
  ℕ, ◌+◌, Bool, true, false, ◌&&◌, not, Option, none, some, List, [], ◌∷◌, ◌++◌, length, drop, leb,
  if◌then◌else◌,
}
use polarbeam.Syslog.{Message, queue_size, inc64}

pub record Queue : Type 0 where
  pub items : List Message
  pub inflight : Option Message
  pub dropped : ℕ
  pub stopping : Bool

-- How many records are waiting at most before another one is added: a reserved record may stand
-- beside a whole queue.
abbrev pub capacity : Bool → ℕ
capacity true = queue_size + 1
capacity false = queue_size

abbrev pub is_full : Queue → Bool → Bool
is_full q reserved = leb (capacity reserved) (length q.items)

unfoldable pub append : Queue → Message → Bool → Queue
append q msg reserved =
    if is_full q reserved
    then record q { items = drop 1 q.items ++ msg ∷ []; dropped = inc64 q.dropped }
    else record q { items = q.items ++ msg ∷ [] }

abbrev pub take_from : Queue → List Message → Queue
take_from q [] = q
take_from q (msg ∷ rest) = record q { items = rest; inflight = some msg }

-- The oldest record goes in flight.
unfoldable pub take_first : Queue → Queue
take_first q = take_from q q.items

unfoldable pub acknowledge : Queue → Queue
acknowledge q = record q { inflight = none }

abbrev pub put_front : Option Message → List Message → List Message
put_front none ms = ms
put_front (some m) ms = m ∷ ms

unfoldable pub put_back : Queue → Queue
put_back q =
    if leb queue_size (length q.items) && not q.stopping
    then record q { inflight = none; dropped = inc64 q.dropped }
    else record q { inflight = none; items = put_front q.inflight q.items }
