-- ===== src/Deadlock/Graph/Laws.antt =====
-- What the reads of the wait-for graph give after each write to it.
use rsactor.Base.{
  ℕ, zero, suc, ◌+◌, ◌-◌, ◌≡◌, refl, ◌∙◌, ◌≢◌, inl, inr, false, none, some, List, [], ◌∷◌, ◌++◌,
  set, get_elem?, get_last?, init, ◌==◌, if◌then◌else◌, Bool-cases, Option-cases, arith,
}
use rsactor.Identity.{Identity}
use rsactor.Deadlock.Graph.{
  Graph, contains_key, callees, push_edge, position, swap_remove, remove_callee, keep_entry,
  remove_edge, count, IsMap,
}

pub count-append : (k : ℕ) (xs ys : List Identity) → count k (xs ++ ys) ≡ count k xs + count k ys
unfolding count
count-append k [] ys = omega arith
count-append k (x ∷ xs) ys = ground (arith, count-append k xs ys)

count-init_last :
    (k : ℕ) (x : Identity) (xs : List Identity) (l : Identity)
    → get_last? (x ∷ xs) ≡ some l
    → count k (l ∷ init (x ∷ xs)) ≡ count k (x ∷ xs)
unfolding count
count-init_last k x [] l e = ground arith
count-init_last k x (y ∷ xs) l e = ground (arith, count-init_last k y xs l e)

get_last?-cons :
    (x : Identity) (xs : List Identity) → (l : Identity) × (get_last? (x ∷ xs) ≡ some l)
get_last?-cons x [] = (x, refl)
get_last?-cons x (y ∷ xs) = get_last?-cons y xs

count-set-init :
    (k i : ℕ) (es : List Identity) (l x : Identity)
    → get_last? es ≡ some l
    → get_elem? es i ≡ some x
    → count k (set (init es) i l) + (if x.id == k then 1 else 0) ≡ count k es
unfolding count
count-set-init k i [] l x e f = cc
count-set-init k zero (y ∷ []) l x e f = ground arith
count-set-init k (suc i) (y ∷ []) l x e f = cc
count-set-init k zero (y ∷ z ∷ es) l x e f = ground (arith, count-init_last k z es l e)
count-set-init k (suc i) (y ∷ z ∷ es) l x e f = ground (arith, count-set-init k i (z ∷ es) l x e f)

get_elem?-position :
    (es : List Identity) (c i : ℕ)
    → position es c ≡ some i
    → (x : Identity) × (get_elem? es i ≡ some x) × (x.id ≡ c)
unfolding position
get_elem?-position [] c i e = cc
get_elem?-position (x ∷ es) c i e = elim (Bool-cases (x.id == c)) [
  | inl hit ↦ (x, ground arith, ground arith)
  | inr miss ↦ elim (Option-cases (position es c)) [
    | inl missing ↦ cc
    | inr (j, found) ↦
        let (y, at, named) = get_elem?-position es c j found in (y, ground arith, named)
  ]
]

count-position-none : (es : List Identity) (c : ℕ) → position es c ≡ none → count c es ≡ 0
unfolding position count
count-position-none [] c e = refl
count-position-none (x ∷ es) c e = ground (arith, count-position-none es c)

count-swap_remove :
    (k i : ℕ) (es : List Identity) (x : Identity)
    → get_elem? es i ≡ some x
    → count k (swap_remove es i) + (if x.id == k then 1 else 0) ≡ count k es
unfolding swap_remove count
count-swap_remove k i [] x e = cc
count-swap_remove k i (y ∷ es) x e =
    let (l, last) = get_last?-cons y es in
    ground (arith, last, count-set-init k i (y ∷ es) l x last e)

-- One edge to `c` is gone, if there was one, and every other edge is still there.
pub count-remove_callee :
    (k c : ℕ) (es : List Identity)
    → count k (remove_callee es c) ≡ (if c == k then count k es - 1 else count k es)
unfolding remove_callee
count-remove_callee k c es = elim (Option-cases (position es c)) [
  | inl missing ↦ rw (missing, remove_callee) (ground (arith, count-position-none es c missing))
  | inr (i, found) ↦
      let (x, at, named) = get_elem?-position es c i found in
      rw (found, remove_callee) (ground (arith, count-swap_remove k i es x at, named))
]

pub callees-push_edge :
    (g : Graph) (k : ℕ) (c : Identity) (x : ℕ)
    → callees (push_edge g k c) x ≡ (if k == x then callees g x ++ c ∷ [] else callees g x)
unfolding callees push_edge
callees-push_edge [] k c x = refl
callees-push_edge ((j, es) ∷ g) k c x = ground (arith, callees-push_edge g k c x)

contains_key-push_edge :
    (g : Graph) (k : ℕ) (c : Identity) (x : ℕ)
    → k ≢ x
    → contains_key (push_edge g k c) x ≡ contains_key g x
unfolding contains_key push_edge
contains_key-push_edge [] k c x h = ground arith
contains_key-push_edge ((j, es) ∷ g) k c x h = ground (arith, contains_key-push_edge g k c x h)

pub push_edge-IsMap : (g : Graph) (k : ℕ) (c : Identity) → IsMap g → IsMap (push_edge g k c)
unfolding push_edge contains_key
push_edge-IsMap [] k c m = (refl, tt)
push_edge-IsMap ((j, es) ∷ g) k c m = elim (Bool-cases (j == k)) [
  | inl hit ↦ rw hit m
  | inr miss ↦
      rw miss (contains_key-push_edge g k c j (λ e. ground arith) ∙ m.0, push_edge-IsMap g k c m.1)
]

-- An entry is missing exactly where no edge leaves.
pub callees-contains_key-false : (g : Graph) (k : ℕ) → contains_key g k ≡ false → callees g k ≡ []
unfolding contains_key callees
callees-contains_key-false [] k e = refl
callees-contains_key-false ((j, es) ∷ g) k e = ground (arith, callees-contains_key-false g k)

callees-keep_entry :
    (g : Graph) (j x : ℕ) (es : List Identity)
    → contains_key g j ≡ false
    → callees (keep_entry j es g) x ≡ (if j == x then es else callees g x)
unfolding keep_entry callees
callees-keep_entry g j x [] h = elim (Bool-cases (j == x)) [
  | inl hit ↦ ground (arith, callees-contains_key-false g x, callees-contains_key-false g j h)
  | inr miss ↦ rw miss
]
callees-keep_entry g j x (e ∷ es) h = refl

pub callees-remove_edge :
    (g : Graph) (k c x : ℕ)
    → IsMap g
    → callees (remove_edge g k c) x
      ≡ (if k == x then remove_callee (callees g x) c else callees g x)
unfolding remove_edge callees remove_callee position
callees-remove_edge [] k c x m = ground arith
callees-remove_edge ((j, es) ∷ g) k c x m = elim (Bool-cases (j == k)) [
  | inl hit ↦ rw hit (ground (arith, callees-keep_entry g j x (remove_callee es c) m.0))
  | inr miss ↦ rw miss (ground (arith, callees-remove_edge g k c x m.1))
]

contains_key-remove_edge :
    (g : Graph) (k c x : ℕ) → contains_key g x ≡ false → contains_key (remove_edge g k c) x ≡ false
unfolding remove_edge contains_key
contains_key-remove_edge [] k c x h = refl
contains_key-remove_edge ((j, es) ∷ g) k c x h = elim (Bool-cases (j == k)) [
  | inl hit ↦ rw hit (dropped (remove_callee es c))
  | inr miss ↦ rw miss (ground (arith, contains_key-remove_edge g k c x))
]
  where
    dropped : (fs : List Identity) → contains_key (keep_entry j fs g) x ≡ false
    dropped [] = ground arith
    dropped (f ∷ fs) = h

pub remove_edge-IsMap : (g : Graph) (k c : ℕ) → IsMap g → IsMap (remove_edge g k c)
unfolding remove_edge contains_key
remove_edge-IsMap [] k c m = tt
remove_edge-IsMap ((j, es) ∷ g) k c m = elim (Bool-cases (j == k)) [
  | inl hit ↦ rw hit (dropped (remove_callee es c))
  | inr miss ↦ rw miss (contains_key-remove_edge g k c j m.0, remove_edge-IsMap g k c m.1)
]
  where
    dropped : (fs : List Identity) → IsMap (keep_entry j fs g)
    dropped [] = m.1
    dropped (f ∷ fs) = m
