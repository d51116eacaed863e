-- ===== src/Lib.antt =====
-- A model of the Hayselnut weather station's programs, with proofs.
--
-- The squirrel transport (haysel/squirrel/src/transport.rs and below) carries data between a weather
-- station, the client, and the server over UDP.
--   * Squirrel/Packet.antt and Squirrel/Wire.antt: the packets `Frame` and `Cmd`, `UidGenerator`,
--     `as_bytes`, `as_bytes_compact`, `from_bytes_compact` and `read_packet`. A packet is a list of
--     bytes on the wire. The bytes of an integer are those of the machine that zerocopy views, so
--     they are a parameter, `ByteOrder`.
--   * Squirrel/Server.antt: `ClientInterface` of transport/server.rs, with `new`, `queue` and
--     `handle`. `handle` takes the time of the call and returns the next state and the events, or a
--     panic. Its arms are functions that `dispatch` calls state by state.
--   * Squirrel/Shared.antt and Squirrel/Client.antt: `send_and_wait` of transport/shared.rs, and
--     `mvp_send` and `mvp_recv` of transport/client.rs, over an abstract socket. `attempt` recurs on
--     the attempts left, `wait` on what has arrived. The loop of `mvp_recv` takes fuel, one unit for
--     each frame after the first and one for `Complete`.
--   * Squirrel/Link.antt: a client and a server joined by a network that loses requests and answers.
--     It is no part of the program: it says what the theorems about both ends assume of the network.
--
-- The time series database (haysel/src/tsdb3) keeps the readings of the stations' channels.
--   * Tsdb/Time.antt: the conversions of times of repr.rs.
--   * Tsdb/Channel.antt: a channel and its chain of chunks, the parts of `insert_data` and
--     `qery_data_raw` of mod.rs that work on them. `scan` is the loop of `qery_data_raw`; its fuel is one
--     unit for each chunk. Channel/History.antt says what readings a channel stands for.
--   * Tsdb/Query.antt: `QueryBuilder` of query.rs. The const parameter is an index of the type.
--   * Tsdb/Database.antt and Tsdb/Database/Readings.antt: `DB` of mod.rs, `init`, `open`, the maps of
--     stations and channels, `insert_station`, `insert_channels`, `insert_data`, `query_data` and
--     `qery_data_raw`. What they ask of the allocator is the interface `Store`, with `ChunkMemory` for
--     the chunks. chrono's dates are parameters.
--   * Tsdb/Access.antt: `MultipleAccess` of alloc/access.rs, which hands out slices of the memory.
--   * Tsdb/Layouts.antt and Tsdb/Alloc.antt: registry.rs, ptr.rs and repr.rs of alloc/, and `AllocAccess` of
--     alloc.rs. A type is its layout; of the memory the headers are kept, not the values.
--
-- The later transport (haysel/cs_squirrel/src) is a pair of state machines that read and write packets in
-- buffers that the caller gives.
--   * CsSquirrel/Cursor.antt: `Cursor` of buf.rs, from which it takes the parts that it sends.
--   * CsSquirrel/Uid.antt, CsSquirrel/Env.antt and CsSquirrel/Packet.antt: uid.rs, env.rs, packet.rs,
--     packet/cmd.rs and packet/frame.rs. A reference into a buffer is the bytes; a `Write` is the buffer
--     that it borrows. The bytes of numbers are the parameter `ByteOrder`.
--   * CsSquirrel/Server.antt: `ConnState` of server/mech.rs. `process` takes the time, the packet, the
--     scratch buffer, the connection and the cursor, and gives the result, the next connection and the
--     cursor, or a panic. Each arm of its match is a function, which `on_packet` chooses.
--   * CsSquirrel/Client.antt: `ConnState` of client/mech.rs, which is unfinished.
--   * CsSquirrel/Server/Transfer.antt, Session.antt and Client.antt beside it: a client as the theorems
--     assume it, no part of the program. The fuel of Server/Delivery.antt is one unit more than there
--     are bytes to send; the result is of the number of packets, not of fuel.
--
-- The driver of the lightning sensor (hayselnut/src/lightning) talks to it over four pins.
--   * Lightning/Bits.antt, Lightning/Repr.antt and Lightning/Registers.antt: the bits of a byte of
--     mod.rs, the values of repr.rs with their conversions, and the registers of registers/.
--   * Lightning/Sensor.antt and Lightning/Driver.antt: `LightningSensor` of mod.rs, over parameters
--     for the pins and for sleeping. Where a pin fails, so does the function.
--   * Lightning/Wires.antt: a receiver behind the pins, no part of the program, by which the theorems
--     say what is sent.
--
-- Around the database, on the server:
--   * Registry/Data.antt, Registry/Maps.antt and Registry.antt: `KnownChannels` and `KnownStations` of
--     haysel/squirrel/src/api/station, and `process_connect` of haysel/src/registry.rs. A hash map is the
--     list of its entries; the ids that are drawn, and the announcements, are written out.
--   * Tsdb/Bus.antt: the database's thread and its handler (haysel/src/tsdb3/bus.rs and bus/rt.rs), and
--     what haysel/src/main.rs does with the database at its start.
--   * Dispatch.antt and the files below it: `Controller`, `TransportClient` and `AppClient` of
--     haysel/src/dispatch.rs and haysel/src/dispatch. A transport client holds the `ClientInterface` of
--     Squirrel/Server.antt; what an application client announces goes to the database's handler. The
--     bus, the spawning of handlers, the socket and the clock are parameters.
--   * Roundtable.antt, Roundtable/Runtime.antt and Roundtable/Interface.antt: the bus itself
--     (haysel/roundtable/src/msg.rs and handler/): `HandlerTaskRt`, `bus_dispatch_event` and the
--     functions of `Interface` over it. The code of the handlers is a parameter, and
--     whether a wait ends within its 15 seconds.
--   * Ipc.antt and Ipc/Listener.antt: the connections to IPC clients, and the handler that accepts them
--     (haysel/src/ipc.rs); the sockets, the answers of the database and the registry, and the clock are
--     parameters.
--   * Mycelium.antt: the messages over a stream of haysel/mycelium/src/lib.rs. The loop of
--     `ipc_recv_cancel_safe` takes fuel; one unit more than there are bytes on the way is enough.
--
-- Station.antt is what a station keeps in its flash over a restart (hayselnut/src/store.rs).
--
-- Common.antt holds what these share: tests on numbers, lists over the native numbers, and `Outcome`,
-- the result of code that may panic.
--
-- Numbers of w bits are native numbers; where the source wraps, the modulus is written out, and the
-- ranges are hypotheses. Not modelled: the socket and the timer (parameters), logging, a network
-- that reorders datagrams, or duplicates those of the first transport, and the order in which the
-- handlers on the bus run: a message is taken by one after the other. PROJECT.json lists the parts that are left out.
pub mod Common
pub mod Squirrel
pub mod CsSquirrel
pub mod Tsdb
pub mod Lightning
pub mod Mycelium
pub mod Registry
pub mod Dispatch
pub mod Roundtable
pub mod Station
pub mod Ipc
