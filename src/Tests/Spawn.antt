-- ===== src/Tests/Spawn.antt =====
-- Spawns of src/lib.rs with options, and their identities.
use rsactor.Base.{
  ℕ, ◌+◌, ◌≡◌, ◌%◌, ◌^◌, refl, Bool, true, false, none, some, List, [], ◌∷◌, arith, if◌then◌else◌,
}
use rsactor.Spawn.{
  given, SpawnOptions, default_options, ActorType, Statics, with_priority, set_mailbox_capacity,
  spawn_with_options,
}
use rsactor.Spawn.Laws.{
  Built, fresh, sized, prioritized, IsCapacity, FirstOf, set_all, first_capacity, spawn_succeeds,
  spawn_all, Increasing, spawn_all-Increasing,
}

abbrev permits : ℕ
permits = 1000

abbrev sizes : List ℕ
sizes = 0 ∷ 2000 ∷ 64 ∷ 16 ∷ []

abbrev pinger : ActorType
pinger = record { type_name = "Pinger"; mailbox_capacity_const = some 8 }

abbrev sized_options : SpawnOptions
sized_options = record default_options { mailbox_capacity = some 4 }

sized_options-Built : Built permits sized_options
unfolding set_mailbox_capacity
sized_options-Built = sized 4 fresh refl

spawn_succeeds_example :
    (n : ℕ) × FirstOf permits
      ((with_priority sized_options).mailbox_capacity
        ∷ some 8
        ∷ first_capacity permits sizes
        ∷ some 32
        ∷ [])
      n
    × (spawn_with_options permits
          (record { configured_default = set_all permits none sizes; actor_ids = 5 })
          pinger
          (with_priority sized_options)
          true
        ≡ (
          record { configured_default = set_all permits none sizes; actor_ids = (5 + 1) % 2 ^ 64 },
          given (record {
            identity = record { id = 5; type_name = "Pinger" };
            mailbox = n;
            has_priority = (with_priority sized_options).priority_enabled;
            idle =
                if (with_priority sized_options).idle_enabled
                then some (with_priority sized_options).idle_capacity
                else none;
          }),
        ))
    × IsCapacity permits (some n)
spawn_succeeds_example =
    spawn_succeeds permits sizes pinger (with_priority sized_options) 5 (omega arith)
      (prioritized sized_options-Built) (omega arith, omega arith)

abbrev spawns : List (ActorType × SpawnOptions × Bool)
spawns =
    (pinger, sized_options, true)
    ∷ (pinger, default_options, false)
    ∷ (pinger, sized_options, true)
    ∷ []

abbrev statics : Statics
statics = record { configured_default = none; actor_ids = 1 }

spawn_all-Increasing_example : Increasing permits 1 (spawn_all permits statics spawns)
spawn_all-Increasing_example = spawn_all-Increasing permits statics spawns (omega arith)
