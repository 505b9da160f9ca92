-- ===== src/Transport/RequestTable.antt =====
-- transport/requesttable.go: the requests that wait for a reply.
pub mod Laws
pub mod Spec
pub mod Exchange
use phabrik.Base.{
  ℕ, suc, ◌+◌, Bool, true, false, not, ◌&&◌, List, [], ◌∷◌, Option, none, some, ◌==◌, if◌then◌else◌,
}
use phabrik.Serialization.Guid.{guid_eq}
use phabrik.Transport.Headers.{MessageId, is_empty}

-- A pending request; `channel` is the identity of its channel.
pub record PendingRequest : Type 0 where
  pub id : MessageId
  pub channel : ℕ

-- The sync.Map as an association list, the channels that are closed, and the next channel to make.
pub record RequestTable : Type 0 where
  pub table : List (MessageId × PendingRequest)
  pub closed : List ℕ
  pub next_channel : ℕ

unfoldable pub id_eq : MessageId → MessageId → Bool
id_eq a b = guid_eq a.id b.id && (a.index == b.index)

unfoldable pub load : MessageId → List (MessageId × PendingRequest) → Option PendingRequest
load k [] = none
load k ((j, p) ∷ m) = if id_eq j k then some p else load k m

unfoldable pub delete :
    MessageId → List (MessageId × PendingRequest) → List (MessageId × PendingRequest)
delete k [] = []
delete k ((j, p) ∷ m) = let rest = delete k m in if id_eq j k then rest else (j, p) ∷ rest

unfoldable pub load_and_delete : MessageId → RequestTable → Option PendingRequest × RequestTable
load_and_delete k r = (load k r.table, record r { table = delete k r.table })

unfoldable pub contains : ℕ → List ℕ → Bool
contains c [] = false
contains c (d ∷ ds) = if d == c then true else contains c ds

-- close.Do(close(ch))
unfoldable pub close_channel : ℕ → RequestTable → RequestTable
unfolding contains
close_channel c r = if contains c r.closed then r else record r { closed = c ∷ r.closed }

unfoldable pub close_found : Option PendingRequest → RequestTable → RequestTable
close_found none r = r
close_found (some q) r = close_channel q.channel r

-- PendingRequest.Close: it is by the identifier that the request to close is found.
unfoldable pub close_pending : PendingRequest → RequestTable → RequestTable
unfolding load_and_delete close_found
close_pending p r = let (found, r') = load_and_delete p.id r in close_found found r'

-- RequestTable.Close, over the entries that Range comes to.
unfoldable pub close_all : List (MessageId × PendingRequest) → RequestTable → RequestTable
close_all [] r = r
close_all ((_, p) ∷ m) r = close_all m (close_pending p r)

unfoldable pub close : RequestTable → RequestTable
close r = close_all r.table r

unfoldable pub put : MessageId → RequestTable → PendingRequest × RequestTable
unfolding delete
put id r =
    let p : PendingRequest = record { id = id; channel = r.next_channel } in
    (p, record r { table = (id, p) ∷ delete id r.table; next_channel = r.next_channel + 1 })

-- Feed, up to the send: the request whose channel the message is sent on, if there is one.
unfoldable pub feed : MessageId → RequestTable → Option PendingRequest × RequestTable
unfolding load_and_delete
feed relates_to r = if is_empty relates_to then (none, r) else load_and_delete relates_to r
