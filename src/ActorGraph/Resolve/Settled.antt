-- ===== src/ActorGraph/Resolve/Settled.antt =====
-- What the lookups of rsactor-graph/src/resolve.rs answer in a well-formed index: no panic, no fuel
-- that runs out, and only modules and declarations that exist.
pub mod Steps
pub mod Keys
pub mod Fuel
pub mod Globs
pub mod Paths
use mathlib.Core.List.{Memᴰ}
use rsactor.Base.{
  ℕ, zero, suc, ◌≡◌, refl, String, Bool, true, false, Option, none, some, List, ◌∷◌, get_elem?,
  if◌then◌else◌, ◌>>=◌,
}
use rsactor.ActorGraph.Crates.{Module, Crate}
use rsactor.ActorGraph.Resolve.{
  DeclKind, enum_kind, is_enum, Decl, Res, in_module, declaration, variant, rsactor_name, std_name,
  external_name, value_name, Scope, Index, value_of, module_of, scope_of,
}
use rsactor.ActorGraph.Resolve.Lookup.{
  Lookup, found, missing, out_of_range, exhausted, then_find, when_missing, or_find, of_option,
  in_range,
}

-- The answer is none, or has the property.
pub data Settles {A : Type 0} (P : A → Type 0) : Lookup A → Type 0 where
  is_found : {a : A} → P a → Settles P (found a)
  is_missing : Settles P missing

abbrev pub IsModule : Index → ℕ → ℕ → Type 0
IsModule ix c m = (md : Module) × (module_of ix c m ≡ some md)

abbrev pub IsDeclared : Index → ℕ → Type 0
IsDeclared ix id = (d : Decl) × (get_elem? ix.decls id ≡ some d)

-- What a path resolves to is there: the module, the declaration, or the enum of the variant.
abbrev pub IsValid : Index → Res → Type 0
IsValid ix (in_module c m) = IsModule ix c m
IsValid ix (declaration id) = IsDeclared ix id
IsValid ix (variant id name) =
    (d : Decl) × (get_elem? ix.decls id ≡ some d) × (is_enum d.kind ≡ true)
IsValid ix (rsactor_name name) = Unit {0}
IsValid ix (std_name path) = Unit {0}
IsValid ix (external_name path) = Unit {0}
IsValid ix (value_name path) = Unit {0}

-- Each module has a scope, the modules above and below it exist, and what the maps name exists.
pub record IsWellFormed (ix : Index) : Type 0 where
  pub scoped : (c m : ℕ) → IsModule ix c m → (s : Scope) × (scope_of ix c m ≡ some s)
  pub below :
      (c m : ℕ) (md : Module) (name : String) (k : ℕ)
      → module_of ix c m ≡ some md
      → value_of name md.children ≡ some k
      → IsModule ix c k
  pub above :
      (c m : ℕ) (md : Module) (p : ℕ)
      → module_of ix c m ≡ some md
      → md.parent ≡ some p
      → IsModule ix c p
  pub typed :
      (c m : ℕ) (s : Scope) (name : String) (id : ℕ)
      → IsModule ix c m
      → scope_of ix c m ≡ some s
      → value_of name s.types ≡ some id
      → IsDeclared ix id
  pub rooted : (name : String) (c : ℕ) → value_of name ix.crate_by_name ≡ some c → IsModule ix c 0
  pub listed :
      (name : String) (ids : List ℕ) (id : ℕ)
      → value_of name ix.by_last_segment ≡ some ids
      → Memᴰ id ids
      → IsDeclared ix id

module _ {A B : Type 0} where
  pub Settles-then :
      {P : A → Type 0} {Q : B → Type 0} {l : Lookup A} {next : A → Lookup B}
      → Settles P l
      → ((a : A) → P a → Settles Q (next a))
      → Settles Q (then_find l next)
  unfolding then_find
  Settles-then (is_found h) k = k _ h
  Settles-then is_missing k = is_missing

  pub Settles-when :
      {P : A → Type 0} {Q : B → Type 0} {l : Lookup A} {o : Lookup B}
      → Settles P l
      → Settles Q o
      → Settles Q (when_missing l o)
  unfolding when_missing
  Settles-when (is_found h) k = is_missing
  Settles-when is_missing k = k

module _ {A : Type 0} where
  pub Settles-weaken :
      {P Q : A → Type 0} {l : Lookup A} → ((a : A) → P a → Q a) → Settles P l → Settles Q l
  Settles-weaken k (is_found h) = is_found (k _ h)
  Settles-weaken k is_missing = is_missing

  pub Settles-or :
      {P : A → Type 0} {l o : Lookup A} → Settles P l → Settles P o → Settles P (or_find l o)
  unfolding or_find
  Settles-or (is_found h) k = is_found h
  Settles-or is_missing k = k

  pub Settles-if :
      {P : A → Type 0} {x y : Lookup A} (b : Bool)
      → Settles P x
      → Settles P y
      → Settles P (if b then x else y)
  Settles-if true h k = h
  Settles-if false h k = k

  pub Settles-of_option :
      {P : A → Type 0} (o : Option A) → ((a : A) → o ≡ some a → P a) → Settles P (of_option o)
  unfolding of_option
  Settles-of_option none h = is_missing
  Settles-of_option (some a) h = is_found (h a refl)

  -- an element that is there is answered
  pub Settles-in_range :
      {o : Option A} {a : A} → o ≡ some a → Settles (λ x. o ≡ some x) (in_range o)
  unfolding in_range
  Settles-in_range {o} {a} e = by_cases o e
    where
      by_cases : (q : Option A) → q ≡ some a → Settles (λ x. q ≡ some x) (in_range q)
      by_cases none f = cc
      by_cases (some x) f = is_found refl

module _ {A : Type 0} where
  pub get_elem?-first :
      (xs : List A) (m : ℕ) (a : A) → get_elem? xs m ≡ some a → (b : A) × (get_elem? xs 0 ≡ some b)
  get_elem?-first List.[] m a e = cc
  get_elem?-first (x ∷ xs) m a e = (x, refl)

-- a crate with a module has a root
pub IsModule-root : (ix : Index) (c m : ℕ) → IsModule ix c m → IsModule ix c 0
unfolding module_of
IsModule-root ix c m (md, e) = by_crate (get_elem? ix.crates c) md e
  where
    by_crate :
        (o : Option Crate) (md : Module)
        → (o >>= λ krate. get_elem? krate.modules m) ≡ some md
        → (b : Module) × ((o >>= λ krate. get_elem? krate.modules 0) ≡ some b)
    by_crate none md e = cc
    by_crate (some krate) md e = get_elem?-first krate.modules m md e
