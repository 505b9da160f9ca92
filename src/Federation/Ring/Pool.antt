-- ===== src/Federation/Ring/Pool.antt =====
-- Connections are made once and made anew after they ended (getConn and cachedConn of
-- federation/sitenode_sender.go).
use text.Mathlib.TextPositions.{compare_refl}
use phabrik.Base.{
  ℕ, ◌≡◌, refl, ap, sym, ◌∙◌, inl, inr, true, String, List, [], ◌∷◌, Option, none, some, Result, ok,
  err, panic, if◌then◌else◌, Bool-cases,
}
use phabrik.Transport.Conn.{Connection}
use phabrik.Federation.Ring.{
  Ring, is_eq, same_address, load, delete, dialled, pooled, get_conn, close_conn,
}

same_address_self : (a : String) → same_address a a ≡ true
same_address_self a = ap is_eq (compare_refl a)

load-delete : (a : String) (pool : List (String × ℕ)) → load a (delete a pool) ≡ none
unfolding load delete
load-delete a [] = refl
load-delete a ((b, conn) ∷ pool) = elim (Bool-cases (same_address b a)) [
  | inl e ↦ rw e (load-delete a pool)
  | inr e ↦ rw e (rw e (load-delete a pool))
]

dialled-load :
    (a : String) (d : Result Connection) (s t : Ring) (n : ℕ)
    → dialled a d s ≡ (ok n, t)
    → load a t.pool ≡ some n
unfolding dialled load
dialled-load a (ok c) s t n e =
    ap (λ r. load a r.1.pool) (sym e)
    ∙ (ap (λ b. if b then some s.next_conn else load a s.pool) (same_address_self a)
        ∙ number (ap (λ r. r.0) e))
  where
    number : ok s.next_conn ≡ ok n → some s.next_conn ≡ some n
    number h = cc h
dialled-load a (err x) s t n e = cc (ap (λ r. r.0) e)
dialled-load a panic s t n e = cc (ap (λ r. r.0) e)

get_conn-load :
    (a : String) (d : Result Connection) (s t : Ring) (n : ℕ) (found : Option ℕ)
    → load a s.pool ≡ found
    → pooled a found d s ≡ (ok n, t)
    → load a t.pool ≡ some n
unfolding pooled
get_conn-load a d s t n none e h = dialled-load a d s t n h
get_conn-load a d s t n (some m) e h =
    ap (λ r. load a r.1.pool) (sym h) ∙ (e ∙ cc (ap (λ r. r.0) h))

-- A connection that was got is got again, whatever the dialer gives, and nothing else changes; after
-- it has ended, the dialer is asked anew.
pub get_conn-get_conn :
    (a : String) (d d' : Result Connection) (s t : Ring) (n : ℕ)
    → get_conn a d s ≡ (ok n, t)
    → (get_conn a d' t ≡ (ok n, t))
      × (get_conn a d' (close_conn a t) ≡ dialled a d' (close_conn a t))
unfolding get_conn close_conn
get_conn-get_conn a d d' s t n e = (
  rw (get_conn-load a d s t n (load a s.pool) refl e) (unfold pooled in refl),
  rw (load-delete a t.pool) (unfold pooled in refl),
)
