-- ===== src/Transport/RequestTable/Exchange.antt =====
-- One request between the goroutine that waits for its reply and the goroutine that feeds the reply
-- (PendingRequest.Wait and RequestTable.Feed of transport/requesttable.go). The channel has no
-- buffer, so a send ends only when the waiter receives.
use phabrik.Base.{◌≡◌, refl, sym, ◌∙◌, ◌⊎◌, inl, inr, true, false, none, some, arith, Bool-cases}
use phabrik.Transport.Headers.{MessageId, is_empty}
use phabrik.Transport.RequestTable.{
  PendingRequest, RequestTable, load, delete, contains, close_pending, close_found, load_and_delete,
  feed, put,
}
use phabrik.Transport.RequestTable.Laws.{
  load-delete, feed-put_self, id_eq_self, close_pending-table,
}

pub data Waiter : Type 0 where
  waiting replied cancelled : Waiter

pub data Feeder : Type 0 where
  idle sending sent : Feeder

pub record Exchange : Type 0 where
  pub requests : RequestTable
  pub waiter : Waiter
  pub feeder : Feeder

-- The steps for the request p: Feed finds it; the two meet at the channel; the context of the waiter
-- is done; the waiter sees its channel closed; somebody closes the request. Wait ends with Close.
pub data Step (p : PendingRequest) : Exchange → Exchange → Type 0 where
  finds :
      (r : RequestTable) (w : Waiter)
      → (feed p.id r).0 ≡ some p
      → Step p
          (record { requests = r; waiter = w; feeder = idle })
          (record { requests = (feed p.id r).1; waiter = w; feeder = sending })
  meets :
      (r : RequestTable)
      → Step p
          (record { requests = r; waiter = waiting; feeder = sending })
          (record { requests = close_pending p r; waiter = replied; feeder = sent })
  gives_up :
      (r : RequestTable) (f : Feeder)
      → Step p
          (record { requests = r; waiter = waiting; feeder = f })
          (record { requests = close_pending p r; waiter = cancelled; feeder = f })
  sees_closed :
      (r : RequestTable) (f : Feeder)
      → contains p.channel r.closed ≡ true
      → Step p
          (record { requests = r; waiter = waiting; feeder = f })
          (record { requests = close_pending p r; waiter = cancelled; feeder = f })
  closes :
      (r : RequestTable) (w : Waiter) (f : Feeder)
      → Step p
          (record { requests = r; waiter = w; feeder = f })
          (record { requests = close_pending p r; waiter = w; feeder = f })

pub data Reach (p : PendingRequest) (s : Exchange) : Exchange → Type 0 where
  here : Reach p s s
  next : {t u : Exchange} → Reach p s t → Step p t u → Reach p s u

-- The request as it was put, with nothing received yet.
unfoldable pub start : MessageId → RequestTable → Exchange
start k r = record { requests = (put k r).1; waiter = waiting; feeder = idle }

-- Either the request is in the table with its channel open and nothing was sent, or it is out of the
-- table, and a send under way is on an open channel.
unfoldable pub IsSettled : PendingRequest → Exchange → Type 0
IsSettled p s =
    ((load p.id s.requests.table ≡ some p)
      × ((contains p.channel s.requests.closed ≡ false) × (s.feeder ≡ idle)))
    ⊎ ((load p.id s.requests.table ≡ none)
        × (s.feeder ≡ sending → contains p.channel s.requests.closed ≡ false))

gone : (p : PendingRequest) (r : RequestTable) → load p.id (close_pending p r).table ≡ none
gone p r = rw (close_pending-table p r, load-delete p.id p.id r.table, id_eq_self p.id)

close_pending-closed :
    (p : PendingRequest) (r : RequestTable)
    → load p.id r.table ≡ none
    → (close_pending p r).closed ≡ r.closed
unfolding close_pending load_and_delete close_found
close_pending-closed p r h = rw h

close_pending-IsSettled :
    (p : PendingRequest) (r : RequestTable) (w w' : Waiter) (f : Feeder)
    → IsSettled p (record { requests = r; waiter = w; feeder = f })
    → IsSettled p (record { requests = close_pending p r; waiter = w'; feeder = f })
unfolding IsSettled
close_pending-IsSettled p r w w' f (inl (a, (b, c))) = inr (gone p r, λ e. cc)
close_pending-IsSettled p r w w' f (inr (a, b)) =
    inr (gone p r, λ e. rw (close_pending-closed p r a) (b e))

feed-finds :
    (p : PendingRequest) (k : MessageId) (r : RequestTable)
    → (feed k r).0 ≡ some p
    → (load k r.table ≡ some p)
      × (((feed k r).1.table ≡ delete k r.table) × ((feed k r).1.closed ≡ r.closed))
unfolding feed load_and_delete
feed-finds p k r h = elim (Bool-cases (is_empty k)) [ inl e ↦ ground arith | inr e ↦ ground arith ]

finds-IsSettled :
    (p : PendingRequest) (r : RequestTable) (w : Waiter)
    → (load p.id r.table ≡ some p)
      × (((feed p.id r).1.table ≡ delete p.id r.table) × ((feed p.id r).1.closed ≡ r.closed))
    → IsSettled p (record { requests = r; waiter = w; feeder = idle })
    → IsSettled p (record { requests = (feed p.id r).1; waiter = w; feeder = sending })
unfolding IsSettled
finds-IsSettled p r w (found, (table_is, closed_is)) (inl (a, (b, c))) =
    inr (rw (table_is, load-delete p.id p.id r.table, id_eq_self p.id) refl, λ e. rw closed_is b)
finds-IsSettled p r w (found, rest) (inr (a, b)) = let clash : none ≡ some p = sym a ∙ found in cc

Step-IsSettled : (p : PendingRequest) {s t : Exchange} → Step p s t → IsSettled p s → IsSettled p t
unfolding IsSettled
Step-IsSettled p (finds r w h) s = finds-IsSettled p r w (feed-finds p p.id r h) s
Step-IsSettled p (meets r) s = inr (gone p r, λ e. cc)
Step-IsSettled p (gives_up r f) s = close_pending-IsSettled p r waiting cancelled f s
Step-IsSettled p (sees_closed r f h) s = close_pending-IsSettled p r waiting cancelled f s
Step-IsSettled p (closes r w f) s = close_pending-IsSettled p r w w f s

start-IsSettled :
    (k : MessageId) (r : RequestTable)
    → contains r.next_channel r.closed ≡ false
    → IsSettled (put k r).0 (start k r)
unfolding IsSettled start put load
start-IsSettled k r fresh = inl (rw (id_eq_self k) refl, (fresh, refl))

Reach-IsSettled :
    (k : MessageId) (r : RequestTable) (s : Exchange)
    → contains r.next_channel r.closed ≡ false
    → Reach (put k r).0 (start k r) s
    → IsSettled (put k r).0 s
Reach-IsSettled k r s fresh here = start-IsSettled k r fresh
Reach-IsSettled k r s fresh (next {t} reached step) =
    Step-IsSettled (put k r).0 step (Reach-IsSettled k r t fresh reached)

-- A message is only ever sent on an open channel: wherever the steps lead from a request that was put
-- with a new channel, a send under way finds the channel not closed, so it does not panic.
pub sends_on_open_channel :
    (k : MessageId) (r : RequestTable) (s : Exchange)
    → contains r.next_channel r.closed ≡ false
    → Reach (put k r).0 (start k r) s
    → s.feeder ≡ sending
    → contains (put k r).0.channel s.requests.closed ≡ false
unfolding IsSettled
sends_on_open_channel k r s fresh reached f = elim (Reach-IsSettled k r s fresh reached) [
  | inl (a, (b, c)) ↦ b
  | inr (a, b) ↦ b f
]

IsBlocked : Exchange → Type 0
IsBlocked s = (s.waiter ≡ cancelled) × (s.feeder ≡ sending)

-- The reply was found, then the waiter gave up.
abbrev pub given_up : MessageId → RequestTable → Exchange
given_up k r = record {
  requests = close_pending (put k r).0 (feed k (put k r).1).1;
  waiter = cancelled;
  feeder = sending;
}

pub given_up_reached :
    (k : MessageId) (r : RequestTable)
    → is_empty k ≡ false
    → Reach (put k r).0 (start k r) (given_up k r)
unfolding start put
given_up_reached k r h =
    next (next here (finds (put k r).1 waiting (feed-put_self k r h)))
      (gives_up (feed k (put k r).1).1 sending)
