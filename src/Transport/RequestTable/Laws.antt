-- ===== src/Transport/RequestTable/Laws.antt =====
-- Who gets a reply, and what closing does (transport/requesttable.go).
use phabrik.Base.{
  ℕ, ◌≡◌, refl, ap, sym, ◌∙◌, inl, inr, Bool, true, false, List, [], ◌∷◌, Option, none, some,
  if◌then◌else◌, arith, Bool-cases, ==_self,
}
use phabrik.Serialization.Guid.{guid_eq_sound, guid_eq_self}
use phabrik.Transport.Headers.{MessageId, is_empty}
use phabrik.Transport.RequestTable.{
  PendingRequest, RequestTable, id_eq, load, delete, load_and_delete, contains, close_channel,
  close_found, close_pending, put, feed,
}

pub id_eq_sound : (a b : MessageId) → id_eq a b ≡ true → a ≡ b
unfolding id_eq
id_eq_sound a b h = ground (arith, guid_eq_sound a.id b.id)

constant : (b : Bool) (x : Option PendingRequest) → x ≡ (if b then x else x)
constant true x = refl
constant false x = refl

pub load-delete :
    (k j : MessageId) (m : List (MessageId × PendingRequest))
    → load j (delete k m) ≡ (if id_eq k j then none else load j m)
unfolding load delete
load-delete k j [] = constant (id_eq k j) none
load-delete k j ((i, p) ∷ m) = elim (Bool-cases (id_eq i k)) [
  | inl e ↦ rw (e, id_eq_sound i k e, load-delete k j m) (shadow (id_eq k j) _ _ _)
  | inr e ↦
      rw (e, load-delete k j m)
        (elim (Bool-cases (id_eq k j)) [
          | inl f ↦
              let apart : id_eq i j ≡ false = ap (id_eq i) (sym (id_eq_sound k j f)) ∙ e in
              rw (f, apart)
          | inr f ↦ rw f
        ])
]
  where
    shadow :
        (b : Bool) (x y z : Option PendingRequest)
        → (if b then x else y) ≡ (if b then x else (if b then z else y))
    shadow true x y z = refl
    shadow false x y z = refl

pub id_eq_self : (a : MessageId) → id_eq a a ≡ true
unfolding id_eq
id_eq_self a = rw (guid_eq_self a.id) (==_self a.index)

-- After a put, a reply to that identifier goes to the request that was put, and the reply to
-- another identifier to the request it went to before; an empty identifier gets nothing.
pub feed-put :
    (j k : MessageId) (r : RequestTable)
    → (feed j (put k r).1).0
      ≡ (if is_empty j then none else if id_eq k j then some (put k r).0 else (feed j r).0)
unfolding feed put load_and_delete load
feed-put j k r = elim (Bool-cases (is_empty j)) [
  | inl e ↦ rw e
  | inr e ↦ rw (e, load-delete k j r.table) (shadow (id_eq k j) _ _ _)
]
  where
    shadow :
        (b : Bool) (x y z : Option PendingRequest)
        → (if b then x else (if b then z else y)) ≡ (if b then x else y)
    shadow true x y z = refl
    shadow false x y z = refl

pub feed-put_self :
    (k : MessageId) (r : RequestTable)
    → is_empty k ≡ false
    → (feed k (put k r).1).0 ≡ some (put k r).0
feed-put_self k r h = feed-put k k r ∙ rw (h, id_eq_self k) refl

-- A request is fed at most once: after a reply to k has been fed, another reply to k finds no
-- request, while the reply to another identifier finds what it found before.
pub feed-feed :
    (j k : MessageId) (r : RequestTable)
    → (feed j (feed k r).1).0 ≡ (if id_eq k j then none else (feed j r).0)
unfolding feed load_and_delete
feed-feed j k r = elim (Bool-cases (is_empty j)) [
  | inl e ↦ rw e (constant (id_eq k j) none)
  | inr e ↦ elim (Bool-cases (is_empty k)) [
    | inl f ↦ elim (Bool-cases (id_eq k j)) [
      | inl g ↦
          let clash : true ≡ false = sym f ∙ (ap is_empty (id_eq_sound k j g) ∙ e) in ground arith
      | inr g ↦ rw (e, f, g)
    ]
    | inr f ↦ rw (e, f, load-delete k j r.table)
  ]
]

close_channel-table : (c : ℕ) (r : RequestTable) → (close_channel c r).table ≡ r.table
unfolding close_channel
close_channel-table c r = ground arith

close_found-table :
    (o : Option PendingRequest) (r : RequestTable) → (close_found o r).table ≡ r.table
unfolding close_found
close_found-table none r = refl
close_found-table (some q) r = close_channel-table q.channel r

pub close_pending-table :
    (p : PendingRequest) (r : RequestTable) → (close_pending p r).table ≡ delete p.id r.table
unfolding close_pending load_and_delete
close_pending-table p r = close_found-table (load p.id r.table) _

-- After a request is closed, no reply to its identifier is fed, and the reply to another
-- identifier finds what it found before.
pub feed-close_pending :
    (j : MessageId) (p : PendingRequest) (r : RequestTable)
    → (feed j (close_pending p r)).0 ≡ (if id_eq p.id j then none else (feed j r).0)
unfolding feed load_and_delete
feed-close_pending j p r = elim (Bool-cases (is_empty j)) [
  | inl e ↦ rw e (constant (id_eq p.id j) none)
  | inr e ↦ rw (e, close_pending-table p r, load-delete p.id j r.table)
]

contains-close_channel : (c : ℕ) (r : RequestTable) → contains c (close_channel c r).closed ≡ true
unfolding close_channel contains
contains-close_channel c r = elim (Bool-cases (contains c r.closed)) [
  | inl e ↦ rw e e
  | inr e ↦ rw (e, ==_self c)
]

-- Closing a request closes the channel of the request that was put last under its identifier,
-- which need not be the request that is closed.
pub close_pending-put :
    (p : PendingRequest) (r : RequestTable)
    → contains ((put p.id r).0).channel (close_pending p (put p.id r).1).closed ≡ true
unfolding put close_pending close_found load_and_delete load
close_pending-put p r = rw (id_eq_self p.id) (contains-close_channel r.next_channel _)
