-- ===== src/Routing/LongestMatch.antt =====
-- The table's order, and what `lookup` finds in it.
use norr.Prelude.{
  ℕ, ◌+◌, ◌≤◌, ◌<◌, ◌≡◌, ◌≢◌, refl, sym, inl, inr, true, false, List, [], ◌∷◌, arith, length, All,
  ok, Bool-cases, subst, length-append,
}
use mathlib.Core.List.{Mem, mem-cons_self, mem-cons_of_mem}
use norr.Address.{Address, Prefix, octets_eq, address_eq, prefix_eq}
use norr.Routing.{
  PeerId, no_peer, Entry, RoutingTable, absent, find_prefix, insert, add, add_local,
  clear_peer_routes, matches, lookup,
}

-- No later entry has a longer prefix.
abbrev pub Sorted : List Entry → Type 0
Sorted [] = Unit {0}
Sorted (e ∷ es) = All (λ x. x.prefix.length ≤ e.prefix.length) es × Sorted es

-- No two entries have one prefix.
abbrev pub Owned : List Entry → Type 0
Owned [] = Unit {0}
Owned (e ∷ es) = All (λ x. prefix_eq x.prefix e.prefix ≡ false) es × Owned es

abbrev pub Named : Entry → Type 0
Named e = e.peer ≢ no_peer

All-insert :
    (P : Entry → Type 0) (e : Entry) (es : List Entry) → P e → All P es → All P (insert e es)
unfolding insert
All-insert P e [] p h = (p, tt)
All-insert P e (x ∷ xs) p h = ground (arith, All-insert P e xs p)

below :
    (m n : ℕ) (es : List Entry)
    → m ≤ n
    → All (λ x. x.prefix.length ≤ m) es
    → All (λ x. x.prefix.length ≤ n) es
below m n [] le h = tt
below m n (x ∷ xs) le h = (omega (arith, le, h.0), below m n xs le h.1)

insert-Sorted : (e : Entry) (es : List Entry) → Sorted es → Sorted (insert e es)
unfolding insert
insert-Sorted e [] h = (tt, tt)
insert-Sorted e (x ∷ xs) h = ground (
  arith,
  All-insert (λ y. y.prefix.length ≤ x.prefix.length) e xs,
  insert-Sorted e xs h.1,
  below x.prefix.length e.prefix.length xs,
)

length-insert : (e : Entry) (es : List Entry) → length (insert e es) ≡ 1 + length es
unfolding insert
length-insert e [] = omega arith
length-insert e (x ∷ xs) = ground (arith, length-insert e xs)

find_prefix-absent :
    (p : Prefix) (es : List Entry)
    → find_prefix p es ≡ absent
    → All (λ x. prefix_eq x.prefix p ≡ false) es
unfolding find_prefix
find_prefix-absent p [] e = tt
find_prefix-absent p (x ∷ xs) e = ground (arith, find_prefix-absent p xs)

octets_eq_comm : (xs ys : List ℕ) → octets_eq xs ys ≡ octets_eq ys xs
unfolding octets_eq
octets_eq_comm [] [] = refl
octets_eq_comm [] (y ∷ ys) = refl
octets_eq_comm (x ∷ xs) [] = refl
octets_eq_comm (x ∷ xs) (y ∷ ys) = ground (arith, octets_eq_comm xs ys)

prefix_eq_comm : (p q : Prefix) → prefix_eq p q ≡ prefix_eq q p
unfolding prefix_eq address_eq
prefix_eq_comm p q = ground (arith, octets_eq_comm p.address.octets q.address.octets)

insert-Owned :
    (e : Entry) (es : List Entry)
    → All (λ x. prefix_eq x.prefix e.prefix ≡ false) es
    → Owned es
    → Owned (insert e es)
unfolding insert
insert-Owned e [] n h = (tt, tt)
insert-Owned e (x ∷ xs) n h = ground (
  arith,
  All-insert (λ y. prefix_eq y.prefix x.prefix ≡ false) e xs,
  prefix_eq_comm e.prefix x.prefix,
  insert-Owned e xs n.1 h.1,
)

-- Every table that calls of `add`, `add_local` and `clear_peer_routes` make of the empty one.
pub data Reached : RoutingTable → Type 0 where
  start : Reached (record { entries = []; locals = [] })
  added :
      {t u : RoutingTable} (peer : PeerId) (p : Prefix)
      → Reached t
      → add peer p t ≡ ok u
      → Reached u
  added_local : {t u : RoutingTable} (p : Prefix) → Reached t → add_local p t ≡ ok u → Reached u
  cleared : {t : RoutingTable} → Reached t → Reached (clear_peer_routes t)

pub record WellFormed (t : RoutingTable) : Type 0 where
  pub sorted : Sorted t.entries
  pub owned : Owned t.entries
  pub named : All Named t.entries
  pub entries_size : length t.entries ≤ 4096
  pub locals_size : length t.locals ≤ 4096

data AddCases (peer : PeerId) (p : Prefix) (t u : RoutingTable) : Type 0 where
  kept : u ≡ t → AddCases peer p t u
  inserted :
      peer ≢ no_peer
      → length t.entries < 4096
      → find_prefix p t.entries ≡ absent
      → u ≡ record t { entries = insert (record { prefix = p; peer = peer }) t.entries }
      → AddCases peer p t u

add-cases :
    (peer : PeerId) (p : Prefix) (t u : RoutingTable) → add peer p t ≡ ok u → AddCases peer p t u
unfolding add
add-cases peer p t u e = ground arith

add-WellFormed :
    (peer : PeerId) (p : Prefix) (t u : RoutingTable)
    → WellFormed t
    → add peer p t ≡ ok u
    → WellFormed u
add-WellFormed peer p t u w e = elim (add-cases peer p t u e) [
  | kept same ↦ subst WellFormed (sym same) w
  | inserted n small f same ↦
      let entry : Entry = record { prefix = p; peer = peer } in
      subst WellFormed (sym same) (record {
        sorted = insert-Sorted entry t.entries w.sorted;
        owned = insert-Owned entry t.entries (find_prefix-absent p t.entries f) w.owned;
        named = All-insert Named entry t.entries n w.named;
        entries_size = omega (arith, length-insert entry t.entries);
        locals_size = w.locals_size;
      })
]

add_local-WellFormed :
    (p : Prefix) (t u : RoutingTable) → WellFormed t → add_local p t ≡ ok u → WellFormed u
unfolding add_local
add_local-WellFormed p t u w e = ground (arith, length-append t.locals (p ∷ []))

clear_peer_routes-WellFormed : (t : RoutingTable) → WellFormed t → WellFormed (clear_peer_routes t)
unfolding clear_peer_routes
clear_peer_routes-WellFormed t w = record {
  sorted = tt;
  owned = tt;
  named = tt;
  entries_size = omega arith;
  locals_size = w.locals_size;
}

-- A table made by `add`, `add_local` and `clear_peer_routes` keeps its entries sorted from longest to
-- shortest prefix, holds no prefix twice, names a peer in every entry and stays within 4096 entries and 4096 local
-- prefixes.
pub Reached-WellFormed : (t : RoutingTable) → Reached t → WellFormed t
Reached-WellFormed _ start = record {
  sorted = tt;
  owned = tt;
  named = tt;
  entries_size = omega arith;
  locals_size = omega arith;
}
Reached-WellFormed u (added {t} peer p r e) = add-WellFormed peer p t u (Reached-WellFormed t r) e
Reached-WellFormed u (added_local {t} p r e) = add_local-WellFormed p t u (Reached-WellFormed t r) e
Reached-WellFormed _ (cleared {t} r) = clear_peer_routes-WellFormed t (Reached-WellFormed t r)

-- The peer of the longest entry that matches, or none.
pub data Longest (es : List Entry) (a : Address) (peer : PeerId) : Type 0 where
  unmatched : All (λ x. matches x.prefix a ≡ false) es → peer ≡ no_peer → Longest es a peer
  matched :
      (e : Entry)
      → Mem e es
      → matches e.prefix a ≡ true
      → All (λ x. matches x.prefix a ≡ true → x.prefix.length ≤ e.prefix.length) es
      → peer ≡ e.peer
      → Longest es a peer

no_longer :
    (n : ℕ) (es : List Entry) (a : Address)
    → All (λ x. x.prefix.length ≤ n) es
    → All (λ x. matches x.prefix a ≡ true → x.prefix.length ≤ n) es
no_longer n [] a h = tt
no_longer n (x ∷ xs) a h = (λ m. h.0, no_longer n xs a h.1)

passed :
    (x : Entry) (es : List Entry) (a : Address) (peer : PeerId)
    → matches x.prefix a ≡ false
    → Longest es a peer
    → Longest (x ∷ es) a peer
passed x es a peer n (unmatched all none_) = unmatched (n, all) none_
passed x es a peer n (matched e m hit longest same) =
    matched e (mem-cons_of_mem x m) hit ((λ c. ground (arith, n, c)), longest) same

lookup-Longest_of-Sorted : (es : List Entry) (a : Address) → Sorted es → Longest es a (lookup es a)
unfolding lookup
lookup-Longest_of-Sorted [] a h = unmatched tt refl
lookup-Longest_of-Sorted (x ∷ xs) a h = elim (Bool-cases (matches x.prefix a)) [
  | inl c ↦
      matched x (mem-cons_self) c ((λ m. omega arith), no_longer x.prefix.length xs a h.0)
        (rw c refl)
  | inr c ↦ rw c (passed x xs a (lookup xs a) c (lookup-Longest_of-Sorted xs a h.1))
]

-- In a table made by `add`, `add_local` and `clear_peer_routes`, `lookup` finds the peer of the longest prefix that
-- matches the address, and none when no prefix does.
pub lookup-Longest :
    (t : RoutingTable) (a : Address) → Reached t → Longest t.entries a (lookup t.entries a)
lookup-Longest t a r = lookup-Longest_of-Sorted t.entries a (Reached-WellFormed t r).sorted
