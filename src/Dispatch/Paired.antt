-- ===== src/Dispatch/Paired.antt =====
-- Every station has its own client (haysel/src/dispatch.rs).
use hayselnut.Common.{ℕ, ◌≤◌, ◌<◌, ◌≡◌, List, some}
use hayselnut.Squirrel.Packet.{Packet}
use hayselnut.Registry.Maps.{get}
use hayselnut.Registry.Data.{uuid-HasSame}
use hayselnut.Dispatch.{HandlerInstance, Event, answered}
use hayselnut.Dispatch.Controller.{Controller, Host}
use hayselnut.Dispatch.Delivery.{IsUp}

-- A host that is up: its bus is, for the handlers that are live; one that is spawned is. Spawning and receiving send
-- nothing and end no handler, and the instances that are spawned are numbered: each is beyond the ones before.
pub record IsRunning {W : Type 0} (host : Host W) (log : HandlerInstance → W → List Event)
    (Live : W → HandlerInstance → Type 0) (next : W → ℕ) : Type 0 where
  pub up : IsUp host.bus log Live
  pub spawns_trans :
      (addr : ℕ) (w : W)
      → (inst : HandlerInstance) × (w' : W) × (host.spawn_trans_cli addr w ≡ (inst, w'))
        × (next w ≤ inst)
        × (inst < next w')
        × Live w' inst
        × ((h : HandlerInstance) → Live w h → Live w' h)
        × ((h : HandlerInstance) → log h w' ≡ log h w)
  pub spawns_appl :
      (addr : ℕ) (trans : HandlerInstance) (w : W)
      → (inst : HandlerInstance) × (w' : W) × (host.spawn_appl_cli addr trans w ≡ (inst, w'))
        × (next w ≤ inst)
        × (inst < next w')
        × Live w' inst
        × ((h : HandlerInstance) → Live w h → Live w' h)
        × ((h : HandlerInstance) → log h w' ≡ log h w)
  pub receives :
      (w : W)
      → (next w ≤ next (host.recv_next w))
        × ((h : HandlerInstance) → Live w h → Live (host.recv_next w) h)
        × ((h : HandlerInstance) → log h (host.recv_next w) ≡ log h w)
  pub dispatches_on :
      (target : HandlerInstance) (event : Event) (w w' : W)
      → host.bus.dispatch target event w ≡ answered _ w'
      → next w ≤ next w'

-- An address has a client exactly where the client has the address, and the clients are of before.
abbrev pub IsPaired : ℕ → Controller → Type 0
IsPaired bound c =
    ((addr inst : ℕ)
      → get c.active_clients addr ≡ some inst
      → get c.active_clients_inv inst ≡ some addr)
    × ((addr inst : ℕ)
        → get c.active_clients_inv inst ≡ some addr
        → get c.active_clients addr ≡ some inst)
    × ((addr inst : ℕ) → get c.active_clients_inv inst ≡ some addr → inst < bound)

-- The clients are live.
abbrev pub AreLive : (HandlerInstance → Type 0) → Controller → Type 0
AreLive IsLive c = (addr inst : ℕ) → get c.active_clients addr ≡ some inst → IsLive inst
