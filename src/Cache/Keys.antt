-- ===== src/Cache/Keys.antt =====
-- The entries of a queue and the slots of the index that have a given map key.
use fluxkv.Base.{ℕ, ◌≡◌, refl, true, false, List, [], ◌∷◌, ◌++◌, none, some, arith, if◌then◌else◌}
use fluxkv.Cache.Entry.{Entry, map_key, bytes_eq, eq_of_bytes_eq}
use fluxkv.Cache.Fifo.{find_key, remove_key}
use fluxkv.Cache.Shard.{index_has, index_erase}

unfoldable pub matching : List ℕ → List Entry → List Entry
matching mk [] = []
matching mk (e ∷ es) = if bytes_eq (map_key e) mk then e ∷ matching mk es else matching mk es

unfoldable pub slots_of : List ℕ → List (ℕ × List ℕ) → List (ℕ × List ℕ)
slots_of mk [] = []
slots_of mk ((h, k) ∷ ix) = if bytes_eq k mk then (h, k) ∷ slots_of mk ix else slots_of mk ix

pub matching_hit :
    (mk : List ℕ) (e : Entry) (es : List Entry)
    → bytes_eq (map_key e) mk ≡ true
    → matching mk (e ∷ es) ≡ e ∷ matching mk es
unfolding matching
matching_hit mk e es h = rw h

pub matching_miss :
    (mk : List ℕ) (e : Entry) (es : List Entry)
    → bytes_eq (map_key e) mk ≡ false
    → matching mk (e ∷ es) ≡ matching mk es
unfolding matching
matching_miss mk e es h = rw h

pub matching-nil : (mk : List ℕ) → matching mk [] ≡ []
unfolding matching
matching-nil mk = refl

pub matching-append :
    (mk : List ℕ) (xs ys : List Entry) → matching mk (xs ++ ys) ≡ matching mk xs ++ matching mk ys
unfolding matching
matching-append mk [] ys = refl
matching-append mk (x ∷ xs) ys = ground (arith, matching-append mk xs ys)

pub find_key-matching :
    (mk : List ℕ) (xs : List Entry) (e : Entry) (r : List Entry)
    → matching mk xs ≡ e ∷ r
    → find_key mk xs ≡ some e
unfolding matching find_key
find_key-matching mk [] e r h = cc
find_key-matching mk (x ∷ xs) e r h = ground (arith, find_key-matching mk xs e r)

pub find_key-none : (mk : List ℕ) (xs : List Entry) → matching mk xs ≡ [] → find_key mk xs ≡ none
unfolding matching find_key
find_key-none mk [] h = refl
find_key-none mk (x ∷ xs) h = ground (arith, find_key-none mk xs)

-- Two keys that differ are not both equal to a third.
pub other_key :
    (a k mk : List ℕ) → bytes_eq a k ≡ true → bytes_eq k mk ≡ false → bytes_eq a mk ≡ false
other_key a k mk h o = rw (eq_of_bytes_eq a k h) o

pub matching-remove_key_ne :
    (mk k : List ℕ) (xs : List Entry)
    → bytes_eq k mk ≡ false
    → matching mk (remove_key k xs) ≡ matching mk xs
unfolding matching remove_key
matching-remove_key_ne mk k [] o = refl
matching-remove_key_ne mk k (x ∷ xs) o =
    ground (arith, other_key (map_key x) k mk, matching-remove_key_ne mk k xs o)

pub matching-remove_key_self :
    (mk : List ℕ) (xs : List Entry) (e : Entry) (r : List Entry)
    → matching mk xs ≡ e ∷ r
    → matching mk (remove_key mk xs) ≡ r
unfolding matching remove_key
matching-remove_key_self mk [] e r h = cc
matching-remove_key_self mk (x ∷ xs) e r h = ground (arith, matching-remove_key_self mk xs e r)

pub index_has-slots_of :
    (mk : List ℕ) (ix : List (ℕ × List ℕ)) (h : ℕ) (k : List ℕ) (r : List (ℕ × List ℕ))
    → slots_of mk ix ≡ (h, k) ∷ r
    → index_has h mk ix ≡ true
unfolding slots_of index_has
index_has-slots_of mk [] h k r e = cc
index_has-slots_of mk ((h', k') ∷ ix) h k r e = ground (arith, index_has-slots_of mk ix h k r)

pub index_has_none :
    (mk : List ℕ) (ix : List (ℕ × List ℕ)) (h : ℕ) → slots_of mk ix ≡ [] → index_has h mk ix ≡ false
unfolding slots_of index_has
index_has_none mk [] h e = refl
index_has_none mk ((h', k') ∷ ix) h e = ground (arith, index_has_none mk ix h)

pub slots_of-index_erase_ne :
    (mk k : List ℕ) (h : ℕ) (ix : List (ℕ × List ℕ))
    → bytes_eq k mk ≡ false
    → slots_of mk (index_erase h k ix) ≡ slots_of mk ix
unfolding slots_of index_erase
slots_of-index_erase_ne mk k h [] o = refl
slots_of-index_erase_ne mk k h ((h', k') ∷ ix) o =
    ground (arith, other_key k' k mk, slots_of-index_erase_ne mk k h ix o)

pub slots_of-index_erase_self :
    (mk k : List ℕ) (h : ℕ) (ix : List (ℕ × List ℕ)) (r : List (ℕ × List ℕ))
    → slots_of mk ix ≡ (h, k) ∷ r
    → slots_of mk (index_erase h mk ix) ≡ r
unfolding slots_of index_erase
slots_of-index_erase_self mk k h [] r e = cc
slots_of-index_erase_self mk k h ((h', k') ∷ ix) r e =
    ground (arith, slots_of-index_erase_self mk k h ix r)

pub slots_of-cons_self :
    (mk k : List ℕ) (h : ℕ) (ix : List (ℕ × List ℕ))
    → bytes_eq k mk ≡ true
    → slots_of mk ((h, k) ∷ ix) ≡ (h, k) ∷ slots_of mk ix
unfolding slots_of
slots_of-cons_self mk k h ix e = rw e

pub slots_of-cons_ne :
    (mk k : List ℕ) (h : ℕ) (ix : List (ℕ × List ℕ))
    → bytes_eq k mk ≡ false
    → slots_of mk ((h, k) ∷ ix) ≡ slots_of mk ix
unfolding slots_of
slots_of-cons_ne mk k h ix e = rw e
