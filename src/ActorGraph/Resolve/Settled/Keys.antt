-- ===== src/ActorGraph/Resolve/Settled/Keys.antt =====
-- A lookup of rsactor-graph/src/resolve.rs never meets a name twice that it is looking up, and there
-- are finitely many names in finitely many modules.
use mathlib.Core.List.{Memᴰ}
use mathlib.Core.List.Memᴰ
use text.Mathlib.TextEquality.{eq_iff}
use mathlib.Core.Option.{some-injective}
use rsactor.Base.{
  unless, unless-lt, ℕ, zero, suc, ◌+◌, ◌<◌, ◌≡◌, refl, sym, subst, String, true, false, some, List,
  [], ◌∷◌, get_elem?, ◌>>=◌, arith,
}
use rsactor.ActorGraph.Crates.{Module, Crate}
use rsactor.ActorGraph.Resolve.{Scope}
use rsactor.ActorGraph.Resolve.Lookup.{Key, same_key, is_active}
use rsactor.ActorGraph.Resolve.Paths.{
  module_keys, crate_keys, all_keys, import_names, scopes_names, all_names,
}
use rsactor.ActorGraph.Resolve.Settled.Steps.{Within}

-- the keys that are not being looked up
abbrev pub free : List Key → List Key → ℕ
free keys active = unless (λ k. is_active k active) keys

same_key_refl : (k : Key) → same_key k k ≡ true
unfolding same_key
same_key_refl k = ground (arith, (eq_iff k.name k.name).1 refl)

is_active-cons :
    (k x : Key) (active : List Key) → is_active x active ≡ true → is_active x (k ∷ active) ≡ true
unfolding is_active
is_active-cons k x active h = ground arith

is_active_self : (k : Key) (active : List Key) → is_active k (k ∷ active) ≡ true
unfolding is_active
is_active_self k active = ground (arith, same_key_refl k)

pub free-lt :
    (keys active : List Key) (k : Key)
    → Memᴰ k keys
    → is_active k active ≡ false
    → free keys (k ∷ active) < free keys active
free-lt keys active k m h =
    unless-lt (λ x. is_active x active) (λ x. is_active x (k ∷ active)) keys k
      (λ x. is_active-cons k x active) m h (is_active_self k active)

-- every name in every module has its key
module_keys-mem :
    (c m : ℕ) (name : String) (names : List String)
    → Memᴰ name names
    → Memᴰ (record { krate = c; module_id = m; name = name }) (module_keys c m names)
unfolding module_keys
module_keys-mem c m name names k = Memᴰ.map (λ n. record { krate = c; module_id = m; name = n }) k

crate_keys-mem :
    (c k m i : ℕ) (name : String) (names : List String) (modules : List Module) (md : Module)
    → k + m ≡ i
    → get_elem? modules m ≡ some md
    → Memᴰ name names
    → Memᴰ (record { krate = c; module_id = i; name = name }) (crate_keys c k modules names)
unfolding crate_keys
crate_keys-mem c k m i name names [] md q e n = cc
crate_keys-mem c k zero i name names (x ∷ modules) md q e n =
    let z : i ≡ k = omega arith in
    rw z (Memᴰ.append_left (crate_keys c (suc k) modules names) (module_keys-mem c k name names n))
crate_keys-mem c k (suc m) i name names (x ∷ modules) md q e n =
    Memᴰ.append_right (module_keys c k names)
      (crate_keys-mem c (suc k) m i name names modules md (omega arith) e n)

pub all_keys-mem :
    (k c m i : ℕ) (name : String) (names : List String) (crates : List Crate) (md : Module)
    → k + c ≡ i
    → (get_elem? crates c >>= λ krate. get_elem? krate.modules m) ≡ some md
    → Memᴰ name names
    → Memᴰ (record { krate = i; module_id = m; name = name }) (all_keys k crates names)
unfolding all_keys
all_keys-mem k c m i name names [] md q e n = cc
all_keys-mem k zero m i name names (x ∷ crates) md q e n =
    let z : i ≡ k = omega arith in
    rw z (
      Memᴰ.append_left (all_keys (suc k) crates names)
        (crate_keys-mem k 0 m m name names x.modules md (omega arith) e n))
all_keys-mem k (suc c) m i name names (x ∷ crates) md q e n =
    Memᴰ.append_right (crate_keys k 0 x.modules names)
      (all_keys-mem (suc k) c m i name names crates md (omega arith) e n)

-- every import's names are among those of all scopes
scopes_names-Within :
    (scopes : List Scope) (m : ℕ) (s : Scope)
    → get_elem? scopes m ≡ some s
    → Within (import_names s.imports) (scopes_names scopes)
unfolding scopes_names
scopes_names-Within [] m s e x k = cc
scopes_names-Within (t ∷ scopes) zero s e x k =
    Memᴰ.append_left _ (subst (λ q. Memᴰ x (import_names q.imports)) (sym (some-injective _ _ e)) k)
scopes_names-Within (t ∷ scopes) (suc m) s e x k =
    Memᴰ.append_right (import_names t.imports) (scopes_names-Within scopes m s e x k)

pub all_names-Within :
    (scopes : List (List Scope)) (c m : ℕ) (s : Scope)
    → (get_elem? scopes c >>= λ ss. get_elem? ss m) ≡ some s
    → Within (import_names s.imports) (all_names scopes)
unfolding all_names
all_names-Within [] c m s e x k = cc
all_names-Within (t ∷ scopes) zero m s e x k = Memᴰ.append_left _ (scopes_names-Within t m s e x k)
all_names-Within (t ∷ scopes) (suc c) m s e x k =
    Memᴰ.append_right (scopes_names t) (all_names-Within scopes c m s e x k)
