-- ===== src/ActorGraph/Resolve/Build/Named.antt =====
-- The list of the types of each name that `Index::build` of rsactor-graph/src/resolve.rs keeps.
use mathlib.Core.List.{append-nil, Memᴰ}
use mathlib.Core.List.Memᴰ
use text.Mathlib.Text.{◌==◌}
use text.Mathlib.TextEquality.{eq_iff}
use rsactor.Base.{
  ℕ, suc, ◌+◌, ◌≡◌, refl, sym, ap, subst, ◌∙◌, inl, inr, String, Bool, true, false, Option, none,
  some, List, [], ◌∷◌, ◌++◌, length, get_elem?, if◌then◌else◌, Bool-cases, arith,
}
use rsactor.ActorGraph.Resolve.{DeclKind, Decl, Scope, value_of}
use rsactor.ActorGraph.Resolve.Build.{Built, push_named, declare_as}

-- the numbers of the declarations of a name, where the first has the number `k`
unfoldable pub ids_named : String → ℕ → List Decl → List ℕ
ids_named name k [] = []
ids_named name k (d ∷ decls) =
    if d.name == name then k ∷ ids_named name (suc k) decls else ids_named name (suc k) decls

or_nil : Option (List ℕ) → List ℕ
or_nil none = []
or_nil (some ids) = ids

unfoldable pub ids_of : String → List (String × List ℕ) → List ℕ
unfolding or_nil value_of
ids_of name entries = or_nil (value_of name entries)

abbrev one_if : Bool → ℕ → List ℕ
one_if b id = if b then id ∷ [] else []

agree : (a b c : String) → (a == b) ≡ true → (a == c) ≡ (b == c)
agree a b c y = ap (λ t. t == c) ((eq_iff a b).0 y)

differ : (a b c : String) → (a == b) ≡ false → (a == c) ≡ true → (b == c) ≡ false
differ a b c n y = elim (Bool-cases (b == c)) [
  | inr f ↦ f
  | inl t ↦
      let e : (a == b) ≡ true = (eq_iff a b).1 ((eq_iff a c).0 y ∙ sym ((eq_iff b c).0 t)) in cc
]

ids_of-nil : (name : String) → ids_of name [] ≡ []
unfolding ids_of value_of or_nil
ids_of-nil name = refl

ids_of-cons :
    (name key : String) (ids : List ℕ) (entries : List (String × List ℕ))
    → ids_of name ((key, ids) ∷ entries) ≡ (if key == name then ids else ids_of name entries)
unfolding ids_of value_of or_nil
ids_of-cons name key ids entries = elim (Bool-cases (key == name)) [
  | inl y ↦ rw (y, value_of) refl
  | inr n ↦ rw (n, value_of) refl
]

ids_of-push_named :
    (name key : String) (id : ℕ) (entries : List (String × List ℕ))
    → ids_of name (push_named key id entries) ≡ ids_of name entries ++ one_if (key == name) id
unfolding push_named
ids_of-push_named name key id [] = rw (ids_of-cons name key (id ∷ []) [], ids_of-nil name) refl
ids_of-push_named name key id ((k, ids) ∷ entries) = elim (Bool-cases (k == key)) [
  | inl y ↦ elim (Bool-cases (key == name)) [
    | inl z ↦
        rw
          (
            y,
            push_named,
            ids_of-cons name k (ids ++ id ∷ []) entries,
            ids_of-cons name k ids entries,
            agree k key name y,
            z,
          )
          refl
    | inr z ↦
        rw
          (
            y,
            push_named,
            ids_of-cons name k (ids ++ id ∷ []) entries,
            ids_of-cons name k ids entries,
            agree k key name y,
            z,
          )
          (sym (append-nil (ids_of name entries)))
  ]
  | inr n ↦ elim (Bool-cases (k == name)) [
    | inl z ↦
        rw
          (
            n,
            push_named,
            ids_of-cons name k ids (push_named key id entries),
            ids_of-cons name k ids entries,
            z,
            differ k key name n z,
          )
          (sym (append-nil ids))
    | inr z ↦
        rw
          (
            n,
            push_named,
            ids_of-cons name k ids (push_named key id entries),
            ids_of-cons name k ids entries,
            z,
          )
          (ids_of-push_named name key id entries)
  ]
]

ids_named-snoc :
    (name : String) (k n : ℕ) (decls : List Decl) (d : Decl)
    → k + length decls ≡ n
    → ids_named name k (decls ++ d ∷ []) ≡ ids_named name k decls ++ one_if (d.name == name) n
unfolding ids_named
ids_named-snoc name k n [] d q = let z : n ≡ k = omega arith in rw z refl
ids_named-snoc name k n (x ∷ decls) d q = elim (Bool-cases (x.name == name)) [
  | inl y ↦
      rw (y, ids_named) (ap (λ t. k ∷ t) (ids_named-snoc name (suc k) n decls d (omega arith)))
  | inr o ↦ rw (o, ids_named) (ids_named-snoc name (suc k) n decls d (omega arith))
]

-- The list of each name is that of its declarations.
unfoldable pub IsListed : Built → Type 0
IsListed b = (name : String) → ids_of name b.by_last_segment ≡ ids_named name 0 b.decls

pub declare_as-IsListed :
    (c m i : ℕ) (o : Option (String × DeclKind × List String)) (b : Built) (s : Scope)
    → IsListed b
    → IsListed (declare_as c m i o (b, s)).0
unfolding declare_as IsListed
declare_as-IsListed c m i none b s h name = h name
declare_as-IsListed c m i (some (key, kind, generics)) b s h name =
    rw (ids_of-push_named name key (length b.decls) b.by_last_segment, h name)
      (sym (ids_named-snoc name 0 (length b.decls) b.decls _ (omega arith)))

pub ids_named-lt :
    (name : String) (k : ℕ) (decls : List Decl) (id : ℕ)
    → Memᴰ id (ids_named name k decls)
    → (d : Decl) × (i : ℕ) × (k + i ≡ id) × (get_elem? decls i ≡ some d) × (d.name ≡ name)
unfolding ids_named
ids_named-lt name k [] id m = elim m [ ]
ids_named-lt name k (x ∷ decls) id m = elim (Bool-cases (x.name == name)) [
  | inl y ↦
      let m' : Memᴰ id (k ∷ ids_named name (suc k) decls) = rw (y, ids_named) at m in
      elim (Memᴰ.cases_cons m') [
        | inl e ↦ (x, 0, omega arith, refl, (eq_iff x.name name).0 y)
        | inr t ↦
            let (d, i, q, e, h) = ids_named-lt name (suc k) decls id t in
            (d, suc i, omega arith, e, h)
      ]
  | inr n ↦
      let m' : Memᴰ id (ids_named name (suc k) decls) = rw (n, ids_named) at m in
      let (d, i, q, e, h) = ids_named-lt name (suc k) decls id m' in (d, suc i, omega arith, e, h)
]

pub nil-IsListed : IsListed (record { decls = []; by_last_segment = [] })
unfolding IsListed ids_named
nil-IsListed name = ids_of-nil name

pub ids_of-some :
    (name : String) (entries : List (String × List ℕ)) (ids : List ℕ)
    → value_of name entries ≡ some ids
    → ids_of name entries ≡ ids
unfolding ids_of or_nil
ids_of-some name entries ids e = rw (e, or_nil) refl

-- the declarations of a name are among all
pub ids_of-IsDeclared :
    (name : String) (b : Built) (id : ℕ)
    → IsListed b
    → Memᴰ id (ids_of name b.by_last_segment)
    → (d : Decl) × (get_elem? b.decls id ≡ some d)
unfolding IsListed
ids_of-IsDeclared name b id h m =
    let (d, i, q, e, p) = ids_named-lt name 0 b.decls id (subst (λ t. Memᴰ id t) (h name) m) in
    let z : i ≡ id = omega arith in (d, subst (λ k. get_elem? b.decls k ≡ some d) z e)
