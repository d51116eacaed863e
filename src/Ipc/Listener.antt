-- ===== src/Ipc/Listener.antt =====
-- The handler that accepts IPC clients, and the connection that it spawns (haysel/src/ipc.rs).
use hayselnut.Common.{true, false, Bool, ◌≡◌, ◌⊎◌, List, [], ◌∷◌, Option, none, some}
use hayselnut.Registry.Maps.{HashMap}
use hayselnut.Registry.Data.{Uuid, Channel, StationInfo}
use hayselnut.Dispatch.{Asked, answered, dispatch_err}
use hayselnut.Ipc.{
  Connection, Peer, Read, Method, goes_on, errs, method_panics, handle_read, start, tell, Told,
}
use hayselnut.Ipc.Reading.{IsIdle}

abbrev pub Known : Type 0
Known = HashMap Uuid StationInfo × HashMap Uuid Channel

abbrev pub accepted : {Half : Type 0} → Half → Known → Connection Half
accepted half known = record { read = some half; reading = none; init_known = some known }

-- The listener accepts in the background, or its handler is shut down.
pub data Listens (W : Type 0) : Type 0 where
  accepts shut_down : W → Listens W

-- The answer of the registry, and `spawn`, are the bus's.
unfoldable pub handle_new_client :
    {Half W : Type 0}
    → (W → Asked Known W)
    → (Connection Half → W → W)
    → Option Half
    → W
    → Listens W
handle_new_client query_all spawn none w = shut_down w
handle_new_client query_all spawn (some half) w = elim (query_all w) [
  | dispatch_err w' ↦ shut_down w'
  | answered known w' ↦ accepts (spawn (accepted half known) w')
]

-- What happens to a connection: an event of the bus, or its task has read; and the world that the method leaves if
-- it is dropped before its end, which it may be once the handler's flag for a shutdown is set.
pub data Happening (F DateTime E W : Type 0) : Type 0 where
  told : Told F DateTime → Option W → Happening F DateTime E W
  arrives : Read F DateTime E → Option W → Happening F DateTime E W

abbrev pub dropped_to : {W : Type 0} → Bool → Option W → Option W
dropped_to true dropped = dropped
dropped_to false dropped = none

-- Where a connection is: its handler runs, with the flag set or not, or has ended, or has panicked.
pub data Life (C W : Type 0) : Type 0 where
  alive : Bool → C → W → Life C W
  ended : W → Life C W
  life_panics : Life C W

-- What the runtime does after a method that a message called: an error, whose `on_error` only sets the flag and
-- never returns, lets the loop go on.
abbrev pub after_message : {E C W : Type 0} → Bool → Method E C W → Life C W
after_message shut (goes_on c w) = alive shut c w
after_message shut (errs e c w) = alive true c w
after_message shut method_panics = life_panics

-- After `init`, or a method called with what the task has read, an error ends the runtime.
abbrev pub after_background : {E C W : Type 0} → Bool → Method E C W → Life C W
after_background shut (goes_on c w) = alive shut c w
after_background shut (errs e c w) = ended w
after_background shut method_panics = life_panics

module _ {F DateTime E W Half : Type 0} (peer : Peer F DateTime E W) where
  -- Where no task reads, nothing arrives. A message's method that is dropped leaves the connection as it is, which
  -- none of them changes; a dropped one with what was read ends the runtime.
  abbrev pub happen :
      Happening F DateTime E W → Bool → Connection Half → W → Life (Connection Half) W
  happen (told event dropped) shut c w = elim (dropped_to shut dropped) [
    | some w' ↦ alive shut c w'
    | none ↦ after_message shut (tell peer event c w)
  ]
  happen (arrives r dropped) shut c w = elim c.reading [
    | none ↦ alive shut c w
    | some half ↦ elim (dropped_to shut dropped) [
      | some w' ↦ ended w'
      | none ↦ after_background shut (handle_read peer half r (record c { reading = none }) w)
    ]
  ]

  abbrev pub and_then :
      Life (Connection Half) W
      → (Bool → Connection Half → W → Life (Connection Half) W)
      → Life (Connection Half) W
  and_then (alive shut c w) rest = rest shut c w
  and_then (ended w) rest = ended w
  and_then life_panics rest = life_panics

  unfoldable pub run :
      List (Happening F DateTime E W) → Bool → Connection Half → W → Life (Connection Half) W
  run [] shut c w = alive shut c w
  run (h ∷ hs) shut c w = and_then (happen h shut c w) (run hs)

  -- The whole life of a connection, from `init` on.
  unfoldable pub live :
      List (Happening F DateTime E W) → Connection Half → W → Life (Connection Half) W
  live hs c w = and_then (after_background false (start peer c w)) (run hs)

abbrev pub HasHalf : {Half : Type 0} → Half → Connection Half → Type 0
HasHalf half c = ((c.read ≡ none) × (c.reading ≡ some half)) ⊎ IsIdle half c

-- It has not panicked, and while its handler runs, the half is in one place.
abbrev pub Lives : {Half W : Type 0} → Half → Life (Connection Half) W → Type 0
Lives half (alive shut c w) = HasHalf half c
Lives half (ended w) = Unit
Lives half life_panics = ⊥

-- The same of a method.
abbrev EndsWell : {E Half W : Type 0} → Half → Method E (Connection Half) W → Type 0
EndsWell half (goes_on c w) = HasHalf half c
EndsWell half (errs e c w) = HasHalf half c
EndsWell half method_panics = ⊥
