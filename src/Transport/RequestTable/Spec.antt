-- ===== src/Transport/RequestTable/Spec.antt =====
-- The request table as its callers see it: a partial function from identifiers to the requests that
-- wait, whatever the order in which the map of transport/requesttable.go keeps them.
use phabrik.Base.{
  ℕ, ◌+◌, ◌≡◌, refl, ap, ◌∙◌, inl, inr, List, [], ◌∷◌, Option, none, some, if◌then◌else◌, arith,
  Bool-cases,
}
use phabrik.Transport.Headers.{MessageId, is_empty}
use phabrik.Transport.RequestTable.{
  PendingRequest, RequestTable, id_eq, load, delete, load_and_delete, close_pending, close_channel,
  close_found, close_all, close, put, feed,
}
use phabrik.Transport.RequestTable.Laws.{load-delete, close_pending-table}

-- The calls on a table.
pub data Op : Type 0 where
  puts : MessageId → Op
  feeds : MessageId → Op
  closes : PendingRequest → Op
  closes_all : Op

-- One call and the request that it gives: the new one, or the one that is fed.
unfoldable pub call : Op → RequestTable → Option PendingRequest × RequestTable
unfolding put feed close_pending close
call (puts k) r = let (p, r') = put k r in (some p, r')
call (feeds k) r = feed k r
call (closes p) r = (none, close_pending p r)
call closes_all r = (none, close r)

unfoldable pub calls : List Op → RequestTable → List (Option PendingRequest) × RequestTable
unfolding call
calls [] r = ([], r)
calls (o ∷ os) r = let (p, r') = call o r in let (ps, r'') = calls os r' in (p ∷ ps, r'')

-- What a table promises.
pub record Pending : Type 0 where
  pub find : MessageId → Option PendingRequest
  pub next : ℕ

remove : MessageId → (MessageId → Option PendingRequest) → MessageId → Option PendingRequest
remove k f j = if id_eq k j then none else f j

store :
    MessageId
    → PendingRequest
    → (MessageId → Option PendingRequest)
    → MessageId
    → Option PendingRequest
store k p f j = if id_eq k j then some p else f j

unfoldable pub spec_call : Op → Pending → Option PendingRequest × Pending
unfolding remove store
spec_call (puts k) s =
    let p : PendingRequest = record { id = k; channel = s.next } in
    (some p, record { find = store k p s.find; next = s.next + 1 })
spec_call (feeds k) s =
    if is_empty k then (none, s) else (s.find k, record s { find = remove k s.find })
spec_call (closes p) s = (none, record s { find = remove p.id s.find })
spec_call closes_all s = (none, record s { find = λ _. none })

unfoldable pub spec_calls : List Op → Pending → List (Option PendingRequest) × Pending
unfolding spec_call
spec_calls [] s = ([], s)
spec_calls (o ∷ os) s =
    let (p, s') = spec_call o s in let (ps, s'') = spec_calls os s' in (p ∷ ps, s'')

unfoldable pub view : RequestTable → Pending
view r = record { find = λ k. load k r.table; next = r.next_channel }

-- Each request stands under its identifier.
pub data AreKeyed : List (MessageId × PendingRequest) → Type 0 where
  nil : AreKeyed []
  cons :
      (p : PendingRequest) (m : List (MessageId × PendingRequest))
      → AreKeyed m
      → AreKeyed ((p.id, p) ∷ m)

delete-AreKeyed :
    (k : MessageId) (m : List (MessageId × PendingRequest)) → AreKeyed m → AreKeyed (delete k m)
unfolding delete
delete-AreKeyed k [] nil = nil
delete-AreKeyed k ((_, _) ∷ _) (cons p m h) = elim (Bool-cases (id_eq p.id k)) [
  | inl e ↦ rw e (delete-AreKeyed k m h)
  | inr e ↦ rw e (cons p (delete k m) (delete-AreKeyed k m h))
]

same : (r s : Pending) → ((j : MessageId) → r.find j ≡ s.find j) → r.next ≡ s.next → r ≡ s
same r s h e = λ i. record { find = λ j. h j i; next = e i }

close_channel-next : (c : ℕ) (r : RequestTable) → (close_channel c r).next_channel ≡ r.next_channel
unfolding close_channel
close_channel-next c r = ground arith

close_pending-next :
    (p : PendingRequest) (r : RequestTable) → (close_pending p r).next_channel ≡ r.next_channel
unfolding close_pending load_and_delete
close_pending-next p r = found (load p.id r.table) _
  where
    found :
        (o : Option PendingRequest) (s : RequestTable)
        → (close_found o s).next_channel ≡ s.next_channel
    found none s = unfold close_found in refl
    found (some q) s = unfold close_found in close_channel-next q.channel s

close_all-next :
    (m : List (MessageId × PendingRequest)) (r : RequestTable)
    → (close_all m r).next_channel ≡ r.next_channel
unfolding close_all
close_all-next [] r = refl
close_all-next ((_, p) ∷ m) r = close_all-next m (close_pending p r) ∙ close_pending-next p r

load-close_pending :
    (k : MessageId) (p : PendingRequest) (r : RequestTable)
    → load k (close_pending p r).table ≡ (if id_eq p.id k then none else load k r.table)
load-close_pending k p r = ap (load k) (close_pending-table p r) ∙ load-delete p.id k r.table

-- What closing one request leaves out stays out.
still_none :
    (k : MessageId) (p : PendingRequest) (r : RequestTable)
    → load k r.table ≡ none
    → load k (close_pending p r).table ≡ none
still_none k p r h =
    load-close_pending k p r
    ∙ elim (Bool-cases (id_eq p.id k)) [ inl e ↦ rw e refl | inr e ↦ rw e h ]

close_all-none :
    (k : MessageId) (m : List (MessageId × PendingRequest)) (r : RequestTable)
    → load k r.table ≡ none
    → load k (close_all m r).table ≡ none
unfolding close_all
close_all-none k [] r h = h
close_all-none k ((_, p) ∷ m) r h = close_all-none k m (close_pending p r) (still_none k p r h)

close_all-empty :
    (k : MessageId) (m : List (MessageId × PendingRequest)) (r : RequestTable)
    → AreKeyed m
    → (load k m ≡ none → load k r.table ≡ none)
    → load k (close_all m r).table ≡ none
unfolding close_all load
close_all-empty k [] r nil h = h refl
close_all-empty k ((_, _) ∷ _) r (cons p m km) h = elim (Bool-cases (id_eq p.id k)) [
  | inl e ↦ close_all-none k m (close_pending p r) (load-close_pending k p r ∙ rw e refl)
  | inr e ↦ close_all-empty k m (close_pending p r) km (λ n. still_none k p r (h (rw e n)))
]

close_all-AreKeyed :
    (m : List (MessageId × PendingRequest)) (r : RequestTable)
    → AreKeyed r.table
    → AreKeyed (close_all m r).table
unfolding close_all
close_all-AreKeyed [] r h = h
close_all-AreKeyed ((_, p) ∷ m) r h =
    close_all-AreKeyed m (close_pending p r)
      (rw (close_pending-table p r) (delete-AreKeyed p.id r.table h))

call-AreKeyed : (o : Op) (r : RequestTable) → AreKeyed r.table → AreKeyed (call o r).1.table
unfolding call put feed load_and_delete close
call-AreKeyed (puts k) r h =
    cons (record { id = k; channel = r.next_channel }) (delete k r.table)
      (delete-AreKeyed k r.table h)
call-AreKeyed (feeds k) r h = elim (Bool-cases (is_empty k)) [
  | inl e ↦ rw e h
  | inr e ↦ rw e (delete-AreKeyed k r.table h)
]
call-AreKeyed (closes p) r h = rw (close_pending-table p r) (delete-AreKeyed p.id r.table h)
call-AreKeyed closes_all r h = close_all-AreKeyed r.table r h

put-view :
    (k j : MessageId) (r : RequestTable)
    → load j (put k r).1.table ≡ store k (put k r).0 (λ i. load i r.table) j
unfolding put load store
put-view k j r = elim (Bool-cases (id_eq k j)) [
  | inl e ↦ rw e refl
  | inr e ↦ rw (load-delete k j r.table, e) refl
]

call-spec_call :
    (o : Op) (r : RequestTable)
    → AreKeyed r.table
    → ((call o r).0 ≡ (spec_call o (view r)).0) × (view (call o r).1 ≡ (spec_call o (view r)).1)
unfolding call spec_call view
call-spec_call (puts k) r h =
    (unfold put in refl, same _ _ (λ j. put-view k j r ∙ unfold put in refl) (unfold put in refl))
call-spec_call (feeds k) r h = elim (Bool-cases (is_empty k)) [
  | inl e ↦ unfold feed in rw e (refl, refl)
  | inr e ↦
      unfold feed load_and_delete remove in
      rw e (refl, same _ _ (λ j. load-delete k j r.table) refl)
]
call-spec_call (closes p) r h =
    (refl, same _ _ (λ j. unfold remove in load-close_pending j p r) (close_pending-next p r))
call-spec_call closes_all r h =
    unfold close in
    (refl, same _ _ (λ j. close_all-empty j r.table r h (λ e. e)) (close_all-next r.table r))

-- The table refines its specification: through any sequence of calls, from a table whose requests
-- stand under their identifiers, the calls give the requests that the specification gives, and the
-- table shows what the specification comes to.
pub calls-spec_calls :
    (os : List Op) (r : RequestTable)
    → AreKeyed r.table
    → ((calls os r).0 ≡ (spec_calls os (view r)).0)
      × (view (calls os r).1 ≡ (spec_calls os (view r)).1)
unfolding calls spec_calls
calls-spec_calls [] r h = (refl, refl)
calls-spec_calls (o ∷ os) r h =
    let (out, after) = call-spec_call o r h in
    let (outs, last) = calls-spec_calls os (call o r).1 (call-AreKeyed o r h) in
    (
      λ i. out i ∷ (outs ∙ ap (λ s. (spec_calls os s).0) after) i,
      last ∙ ap (λ s. (spec_calls os s).1) after,
    )
