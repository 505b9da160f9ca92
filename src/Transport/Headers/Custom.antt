-- ===== src/Transport/Headers/Custom.antt =====
-- The custom headers of a message (SetCustomHeader, AppendCustomHeader and GetCustomHeaders of
-- transport/messageheaders.go).
use phabrik.Base.{
  ℕ, ◌≡◌, refl, ap, sym, ◌∙◌, inl, inr, Bool, true, false, List, [], ◌∷◌, Option, none, some, ◌==◌,
  ==_iff, ==_self, if◌then◌else◌, Bool-cases,
}
use phabrik.Serialization.Marshal.{Argument}
use phabrik.Transport.Headers.{
  MessageHeaders, lookup, insert, entries, or_nil, is_absent, get_custom_headers,
  append_custom_header,
}

lookup-insert :
    (typ asked : ℕ) (header : List Argument) (more : List (ℕ × List Argument))
    → lookup asked (insert typ header more)
      ≡ (if typ == asked then some header else lookup asked more)
unfolding lookup insert
lookup-insert typ asked header [] = refl
lookup-insert typ asked header ((other, values) ∷ more) = elim (Bool-cases (other == typ)) [
  | inl e ↦ rw (e, (==_iff other typ).0 e) (shadow (typ == asked) _ _ _)
  | inr e ↦
      rw (e, lookup-insert typ asked header more)
        (elim (Bool-cases (typ == asked)) [
          | inl f ↦
              let apart : (other == asked) ≡ false =
                ap (λ x. other == x) (sym ((==_iff typ asked).0 f)) ∙ e in
              rw (f, apart)
          | inr f ↦ rw f
        ])
]
  where
    shadow :
        (b : Bool) (x y z : Option (List Argument))
        → (if b then x else y) ≡ (if b then x else (if b then z else y))
    shadow true x y z = refl
    shadow false x y z = refl

-- After an append that answers true, the type has just the headers of the call; after one that
-- answers false, it has those that it had. The headers of every other type are as they were.
pub get_custom_headers-append :
    (k j : ℕ) (vs : List Argument) (h : MessageHeaders)
    → get_custom_headers j (append_custom_header k vs h).0 ≡ (
        if (k == j)
        then (if (append_custom_header k vs h).1 then vs else get_custom_headers j h)
        else get_custom_headers j h)
unfolding append_custom_header get_custom_headers
get_custom_headers-append k j vs h =
    elim (Bool-cases (is_absent (lookup k (entries h.custom_headers)))) [
      | inl e ↦ rw (e, lookup-insert k j vs (entries h.custom_headers)) (pick (k == j) _ _)
      | inr e ↦ rw e (same (k == j) _)
    ]
  where
    pick :
        (b : Bool) (x : List Argument) (o : Option (List Argument))
        → or_nil (if b then some x else o) ≡ (if b then x else or_nil o)
    pick true x o = refl
    pick false x o = refl

    same : (b : Bool) (x : List Argument) → x ≡ (if b then x else x)
    same true x = refl
    same false x = refl

abbrev pub IsPresent : ℕ → MessageHeaders → Type 0
IsPresent k h = is_absent (lookup k (entries h.custom_headers)) ≡ false

pub append-IsPresent :
    (k : ℕ) (vs : List Argument) (h : MessageHeaders) → IsPresent k (append_custom_header k vs h).0
unfolding append_custom_header
append-IsPresent k vs h = elim (Bool-cases (is_absent (lookup k (entries h.custom_headers)))) [
  | inl e ↦ rw (e, lookup-insert k k vs (entries h.custom_headers), ==_self k) refl
  | inr e ↦ rw e e
]

append_taken :
    (k : ℕ) (vs : List Argument) (h : MessageHeaders)
    → lookup k (entries h.custom_headers) ≡ none
    → (append_custom_header k vs h).1 ≡ true
unfolding append_custom_header
append_taken k vs h e = rw e

pub get-append_taken :
    (k : ℕ) (vs : List Argument) (h : MessageHeaders)
    → lookup k (entries h.custom_headers) ≡ none
    → get_custom_headers k (append_custom_header k vs h).0 ≡ vs
get-append_taken k vs h e =
    get_custom_headers-append k k vs h ∙ rw (==_self k, append_taken k vs h e) refl

append_refused :
    (k : ℕ) (vs : List Argument) (h : MessageHeaders)
    → IsPresent k h
    → (append_custom_header k vs h).1 ≡ false
unfolding append_custom_header
append_refused k vs h p = rw p

pub get-append_refused :
    (k : ℕ) (vs : List Argument) (h : MessageHeaders)
    → IsPresent k h
    → get_custom_headers k (append_custom_header k vs h).0 ≡ get_custom_headers k h
get-append_refused k vs h p =
    get_custom_headers-append k k vs h ∙ rw (==_self k, append_refused k vs h p) refl

-- A second append to a type adds nothing, whatever the first one answered.
pub append-append :
    (k : ℕ) (vs ws : List Argument) (h : MessageHeaders)
    → get_custom_headers k (append_custom_header k ws (append_custom_header k vs h).0).0
      ≡ get_custom_headers k (append_custom_header k vs h).0
append-append k vs ws h =
    get-append_refused k ws (append_custom_header k vs h).0 (append-IsPresent k vs h)
