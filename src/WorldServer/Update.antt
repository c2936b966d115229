-- ===== src/WorldServer/Update.antt =====
-- `update` of services/world/src/worldserver.rs, the task that updates the world every 100 milliseconds,
-- and `update` of services/world/src/world/world.rs, which it calls.
use azerust.Prelude.{
  ℕ, ◌+◌, ◌-◌, ◌%◌, ◌^◌, ◌≡◌, refl, Bool, true, false, List, [], ◌∷◌, length, arith,
}
use azerust.Protocol.HeaderCrypto.{Ciphers}
use azerust.WorldServer.World.{World}

module _ (k : Ciphers) (C : Type 0) where
  -- `World::update`: the time since the last one is not used
  unfoldable update_world : ℕ → World k C → World k C
  update_world diff w = w

  -- What the task holds: the counter of the server, the time of the last tick, and the world.
  pub record Updates : Type 0 where
    pub update_counter : ℕ
    pub prev_time : ℕ
    pub world : World k C

  -- one tick of the interval; `fetch_add` wraps around
  unfoldable tick : ℕ → Updates → Updates
  unfolding update_world
  tick curr_time u = record {
    update_counter = (u.update_counter + 1) % 2 ^ 64;
    prev_time = curr_time;
    world = update_world (curr_time - u.prev_time) u.world;
  }

  -- the ticks of the interval, taken while the server is running
  unfoldable pub update : Bool → List ℕ → Updates → Updates
  unfolding tick
  update false ticks u = u
  update true [] u = u
  update true (curr_time ∷ ticks) u = update true ticks (tick curr_time u)

  -- The ticks are counted modulo 2 ^ 64, and the world stays as it is.
  pub update_lem :
      (ticks : List ℕ) (u : Updates)
      → (update true ticks u).update_counter % 2 ^ 64 ≡ (u.update_counter + length ticks) % 2 ^ 64
        × ((update true ticks u).world ≡ u.world)
  unfolding update
  update_lem [] u = (omega arith, refl)
  update_lem (curr_time ∷ ticks) u =
      let (counted, same) = update_lem ticks (tick curr_time u) in (omega arith, same)
