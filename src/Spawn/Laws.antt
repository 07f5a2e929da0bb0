-- ===== src/Spawn/Laws.antt =====
-- Capacities and identities of the actors that src/lib.rs spawns.
use rsactor.Base.{
  ℕ, suc, ◌+◌, ◌%◌, ◌^◌, ◌≤◌, ◌<◌, ◌≡◌, refl, Bool, true, not, ◌&&◌, Option, none, some, List, [],
  ◌∷◌, length, ltb, if◌then◌else◌, arith,
}
use rsactor.Identity.{Identity}
use rsactor.Spawn.{
  Checked, given, panics, panics_in_tokio, SpawnOptions, default_options, ActorType, Statics,
  Spawned, with_priority, with_idle, resolve_capacity, set_mailbox_capacity, with_idle_capacity,
  set_default_mailbox_capacity, channel_panics, idle_panics, spawned_idle, spawn_sized,
  spawn_with_options,
}

module _ (max_permits : ℕ) where
  -- the calls that build options, none of which panicked
  pub data Built : SpawnOptions → Type 0 where
    fresh : Built default_options
    sized :
        {o o' : SpawnOptions} (n : ℕ)
        → Built o
        → set_mailbox_capacity max_permits o n ≡ given o'
        → Built o'
    prioritized : {o : SpawnOptions} → Built o → Built (with_priority o)
    idling : {o : SpawnOptions} → Built o → Built (with_idle o)
    idle_sized :
        {o o' : SpawnOptions} (n : ℕ)
        → Built o
        → with_idle_capacity max_permits o n ≡ given o'
        → Built o'

  -- A capacity that tokio takes, where there is one.
  abbrev pub IsCapacity : Option ℕ → Type 0
  IsCapacity none = Unit {0}
  IsCapacity (some n) = (0 < n) × (n ≤ max_permits)

  abbrev IsValid : SpawnOptions → Type 0
  IsValid o = IsCapacity o.mailbox_capacity × IsCapacity (some o.idle_capacity)

  Built-IsValid : {o : SpawnOptions} → 32 ≤ max_permits → Built o → IsValid o
  unfolding set_mailbox_capacity with_idle_capacity with_priority with_idle
  Built-IsValid large fresh = (tt, (omega arith, omega arith))
  Built-IsValid large (sized {o} {o' = o2} n b e) = let v = Built-IsValid large b in ground arith
  Built-IsValid large (prioritized b) = Built-IsValid large b
  Built-IsValid large (idling b) = Built-IsValid large b
  Built-IsValid large (idle_sized {o} {o' = o2} n b e) =
      let v = Built-IsValid large b in ground arith

  -- the statics' default after some calls of `set_default_mailbox_capacity`
  pub set_all : Option ℕ → List ℕ → Option ℕ
  set_all d [] = d
  set_all d (n ∷ ns) = set_all (set_default_mailbox_capacity max_permits d n).0 ns

  -- the first size that is a capacity
  abbrev pub first_capacity : List ℕ → Option ℕ
  first_capacity [] = none
  first_capacity (n ∷ ns) = if ltb 0 n && not (ltb max_permits n) then some n else first_capacity ns

  set_all-some : (n : ℕ) (ns : List ℕ) → set_all (some n) ns ≡ some n
  unfolding set_all set_default_mailbox_capacity
  set_all-some n [] = refl
  set_all-some n (m ∷ ns) = let ih = set_all-some n ns in ground arith

  -- The default mailbox capacity is the first of the sizes given to `set_default_mailbox_capacity`
  -- that is not zero and that tokio takes, whatever is given after it, and none without such a size.
  pub set_all-first_capacity : (ns : List ℕ) → set_all none ns ≡ first_capacity ns
  unfolding set_all set_default_mailbox_capacity
  set_all-first_capacity [] = refl
  set_all-first_capacity (n ∷ ns) =
      let ih = set_all-first_capacity ns in let kept = set_all-some n ns in ground arith

  first_capacity-IsCapacity : (ns : List ℕ) → IsCapacity (first_capacity ns)
  first_capacity-IsCapacity [] = tt
  first_capacity-IsCapacity (n ∷ ns) = let ih = first_capacity-IsCapacity ns in ground arith

  resolve_capacity-IsCapacity :
      (a b c : Option ℕ)
      → 32 ≤ max_permits
      → IsCapacity a
      → IsCapacity b
      → IsCapacity c
      → IsCapacity (some (resolve_capacity a b c))
  unfolding resolve_capacity
  resolve_capacity-IsCapacity (some n) b c large x y z = x
  resolve_capacity-IsCapacity none (some n) c large x y z = y
  resolve_capacity-IsCapacity none none (some n) large x y z = z
  resolve_capacity-IsCapacity none none none large x y z = (omega arith, large)

  -- The first of the sizes that is there.
  pub data FirstOf : List (Option ℕ) → ℕ → Type 0 where
    here : {n : ℕ} {os : List (Option ℕ)} → FirstOf (some n ∷ os) n
    after : {n : ℕ} {os : List (Option ℕ)} → FirstOf os n → FirstOf (none ∷ os) n

  resolve_capacity-FirstOf :
      (a b c : Option ℕ) → FirstOf (a ∷ b ∷ c ∷ some 32 ∷ []) (resolve_capacity a b c)
  unfolding resolve_capacity
  resolve_capacity-FirstOf (some n) b c = here
  resolve_capacity-FirstOf none (some n) c = after here
  resolve_capacity-FirstOf none none (some n) = after (after here)
  resolve_capacity-FirstOf none none none = after (after (after here))

  spawn_sized-given :
      (s : Statics) (t : ActorType) (o : SpawnOptions) (n : ℕ)
      → IsCapacity (some n)
      → IsCapacity (some o.idle_capacity)
      → spawn_sized max_permits s t o true n ≡ (
        record s { actor_ids = (s.actor_ids + 1) % 2 ^ 64 },
        given (record {
          identity = record { id = s.actor_ids; type_name = t.type_name };
          mailbox = n;
          has_priority = o.priority_enabled;
          idle = if o.idle_enabled then some o.idle_capacity else none;
        }),
      )
  unfolding spawn_sized channel_panics idle_panics spawned_idle
  spawn_sized-given s t o n x y = ground arith

  -- In a runtime, `spawn_with_options` does not panic, if the options were built by the builder
  -- calls, the default was set by `set_default_mailbox_capacity` and the constant of the actor's
  -- type is missing or a capacity that tokio takes. The mailbox gets the capacity of the options,
  -- else of the type, else the default, else 32, which tokio takes; the priority channel is there if
  -- the options enable it, and the idle channel with its capacity if they do; and the identity is the
  -- next one.
  pub spawn_succeeds :
      (ns : List ℕ) (t : ActorType) (o : SpawnOptions) (next : ℕ)
      → 32 ≤ max_permits
      → Built o
      → IsCapacity t.mailbox_capacity_const
      → (n : ℕ) × FirstOf
          (o.mailbox_capacity ∷ t.mailbox_capacity_const ∷ first_capacity ns ∷ some 32 ∷ [])
          n
        × (spawn_with_options max_permits
              (record { configured_default = set_all none ns; actor_ids = next })
              t
              o
              true
            ≡ (
              record { configured_default = set_all none ns; actor_ids = (next + 1) % 2 ^ 64 },
              given (record {
                identity = record { id = next; type_name = t.type_name };
                mailbox = n;
                has_priority = o.priority_enabled;
                idle = if o.idle_enabled then some o.idle_capacity else none;
              }),
            ))
        × IsCapacity (some n)
  unfolding spawn_with_options
  spawn_succeeds ns t o next large b c =
      let v = Built-IsValid large b in
      let d = first_capacity-IsCapacity ns in
      let r =
        resolve_capacity-IsCapacity o.mailbox_capacity t.mailbox_capacity_const (first_capacity ns)
          large v.0 c d in
      (
        resolve_capacity o.mailbox_capacity t.mailbox_capacity_const (first_capacity ns),
        resolve_capacity-FirstOf o.mailbox_capacity t.mailbox_capacity_const (first_capacity ns),
        rw (set_all-first_capacity ns) (spawn_sized-given _ t o _ r v.1),
        r,
      )

  -- the identity that a spawn gives, if it does not panic
  pub given_identity : Checked Spawned → List Identity → List Identity
  given_identity (given x) is = x.identity ∷ is
  given_identity _ is = is

  pub spawn_all : Statics → List (ActorType × SpawnOptions × Bool) → List Identity
  unfolding given_identity
  spawn_all s [] = []
  spawn_all s ((t, o, in_runtime) ∷ rs) =
      let rest = spawn_all (spawn_with_options max_permits s t o in_runtime).0 rs in
      given_identity (spawn_with_options max_permits s t o in_runtime).1 rest

  -- Each number is at least the one given, and larger than those before it.
  abbrev pub Increasing : ℕ → List Identity → Type 0
  Increasing n [] = Unit {0}
  Increasing n (i ∷ is) = (n ≤ i.id) × Increasing (suc i.id) is

  Increasing-mono : (m n : ℕ) (is : List Identity) → m ≤ n → Increasing n is → Increasing m is
  Increasing-mono m n [] h x = tt
  Increasing-mono m n (i ∷ is) h (x, y) = (omega arith, y)

  -- A spawn that succeeds takes the next number, and one that panics may use it up.
  abbrev Numbered : Statics → Statics × Checked Spawned → Type 0
  Numbered s (s', given x) = (x.identity.id ≡ s.actor_ids) × (s'.actor_ids ≡ s.actor_ids + 1)
  Numbered s (s', panics m) = (s.actor_ids ≤ s'.actor_ids) × (s'.actor_ids ≤ s.actor_ids + 1)
  Numbered s (s', panics_in_tokio) = (s.actor_ids ≤ s'.actor_ids) × (s'.actor_ids ≤ s.actor_ids + 1)

  spawn_sized-Numbered :
      (s : Statics) (t : ActorType) (o : SpawnOptions) (r : Bool) (n : ℕ)
      → s.actor_ids + 1 < 2 ^ 64
      → Numbered s (spawn_sized max_permits s t o r n)
  unfolding spawn_sized
  spawn_sized-Numbered s t o r n h = ground arith

  Numbered-≤ :
      (s : Statics) (x : Statics × Checked Spawned) → Numbered s x → x.0.actor_ids ≤ s.actor_ids + 1
  Numbered-≤ s (s', given x) (i, n) = omega arith
  Numbered-≤ s (s', panics m) (l, u) = u
  Numbered-≤ s (s', panics_in_tokio) (l, u) = u

  given_identity-Increasing :
      (s : Statics) (x : Statics × Checked Spawned) (rest : List Identity)
      → Numbered s x
      → Increasing x.0.actor_ids rest
      → Increasing s.actor_ids (given_identity x.1 rest)
  unfolding given_identity
  given_identity-Increasing s (s', given x) rest (i, n) h =
      (omega arith, Increasing-mono _ s'.actor_ids _ (omega arith) h)
  given_identity-Increasing s (s', panics m) rest (l, u) h = Increasing-mono _ s'.actor_ids _ l h
  given_identity-Increasing s (s', panics_in_tokio) rest (l, u) h =
      Increasing-mono _ s'.actor_ids _ l h

  -- Over any spawns that do not use up the `u64` numbers, whether they succeed or panic, the
  -- identities that are given increase from one spawn to the next: no two actors share one.
  pub spawn_all-Increasing :
      (s : Statics) (rs : List (ActorType × SpawnOptions × Bool))
      → s.actor_ids + length rs < 2 ^ 64
      → Increasing s.actor_ids (spawn_all s rs)
  unfolding spawn_all spawn_with_options
  spawn_all-Increasing s [] h = tt
  spawn_all-Increasing s ((t, o, r) ∷ rs) h =
      let x = spawn_with_options max_permits s t o r in
      let n =
        spawn_sized-Numbered s t o r
          (resolve_capacity o.mailbox_capacity t.mailbox_capacity_const s.configured_default)
          (omega arith) in
      given_identity-Increasing s x _ n
        (spawn_all-Increasing x.0 rs (omega (arith, Numbered-≤ s x n)))
