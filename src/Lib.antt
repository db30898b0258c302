-- ===== src/Lib.antt =====
-- Verification library of the vehicle simulator: a C++ application of nine services on a message
-- bus, driven by a clock and by a UDP client.
--
-- The parts, and the files that model them (the paths on the right from the root of the repository):
--   Messages       the payloads, identifiers and wire values: messages/*.h
--   World          the members of all services as one state, the mutexes and the log calls:
--                  src/services/*.h, src/udp_bridge.h, src/app_components.h, src/component_logger.h
--   Services/Log   the loggers and the log queue: src/component_logger.cpp,
--                  src/services/log_service.cpp, and the heartbeat of src/main.cpp
--   Services/*     one module per service: src/services/<name>_service.cpp
--   Bridge         the UDP bridge, and which ids each service subscribes to and may publish:
--                  src/udp_bridge.*, src/component.h, the Subscribes and Publishes of src/services/*.h
--                  Bridge/Sockets has its constructor and destructor, Bridge/Receiver the end of its loop
--   Bus            the table of handlers, subscription, dispatch: src/message_bus.*, src/component.h;
--                  Bus/Broadcast is the bus as its clients see it
--   App            the services of the application and its runs: src/app_components.h, src/main.cpp;
--                  App/Requests follows a request from the client through the bus and back,
--                  App/Process is the main thread from the constructors to the destructors, whose
--                  joins wait for the other threads to end;
--                  Startup has its examples
--   Generator      the layout of the generated Python classes: generator/python_code_generator.h;
--                  Generator/Python is the Python side of it, Bindings has its examples
--   Generator/Types  the names and the order of the classes: generator/common.h,
--                  generator/python_code_generator.h, generator/generate_bindings.cpp
--   Generator/Source  the text of the generated Python: generator/python_code_generator.h,
--                  generator/generate_bindings.cpp; Generated compares it with
--                  tests/python/reflect_pytest/generated.py
--   Generator/Values  what the generated pack_wire and unpack_wire do on the values of an object;
--                  Objects has its examples
--   Docs           the protocol document: Docs/Text has the text of labels, Docs/Flow the edges of the
--                  diagram, Docs/Page the direction and the components of a message, Docs/Dot the whole
--                  diagram, Docs/Tables the tables and sections, Docs/Document the whole document:
--                  generator/doc_generator.h, generator/generate_docs.cpp; Documents has examples, Diagram and Protocol compare
--                  the output with doc/ipc/ipc_flow.dot and doc/ipc/protocol.md
--   Safety         the invariant of the application and its proofs, one file per group of services
--   Float          the float arithmetic as a parameter, and the order laws that some theorems assume
--   Fixture        a concrete float, platform and payloads; Scenarios (the application) and Units (the
--                  services) run the model and apply the theorems
--   Prelude        lists, numbers and the names that the modules share
--
-- A handler `on_message(const XPayload&)` of a service is the function `on_x` of its module. It is a
-- command: a function from the mutexes that the thread holds and the state to the next state, or to
-- `none` where the C++ program has undefined behaviour or throws (an index outside an array, a null
-- or dangling pointer, a std::any_cast to another type, a plain mutex taken twice by its holder, a
-- char array without a NUL printed by %s, a float converted to an int16_t that has no room for it).
-- The state also records what a run does: the messages published, the datagrams sent, the lines
-- printed, and each mutex taken with those held at that time. The handlers call each other through
-- the bus, as in the program: `publish` runs every handler of the message before it returns.
--
-- The threads (clock, receiver, log worker, heartbeat) are a list of events; an event is one round
-- of a thread's loop, and rounds do not overlap. So a data race inside a round is not seen.
-- Nested publishes run on fuel: the application gives eight levels (App.depth), which is enough as
-- no message starts a chain of more than seven (`height` in Safety/Inv).
--
-- Integers are natural or whole numbers with the wrap-around of their C++ type written out. Floats
-- are a type with operations that are left open. sizeof, memcpy and the text of printf are a
-- Platform; IsAbi says what is assumed of it: a payload's bytes are as many as its size, a payload
-- read from bytes has the type asked for and arrays of their declared length. What the runs assume of a
-- command and of a region that arrive is RoutesFit (Safety/Run): no more nodes than the array holds, a NUL
-- in the name, and speeds that an int16_t has room for.
--
-- The system calls of the bridge's constructor are their answers (Bridge/Sockets), and its receive
-- loop runs over a list of what it meets. The reflection of the generators is their input: the
-- types as trees, the components as the services of the application. What the compiler displays
-- for an array type is a parameter. Texts are lists of bytes; a number is printed on fuel for 20
-- digits, which every 64-bit number has room in. What Python does for the generated classes
-- (struct.pack and struct.unpack of a number, the constructors and methods of other classes) is
-- the record Generator.Values.Python.
--
-- Not modelled: the reflection itself, the build files and the tests. The moves of the main thread
-- (App/Process) and the rounds of the other threads (App) are two models: a run of App is between
-- start and end of the process.
pub mod Prelude
pub mod Float
pub mod Messages
pub mod World
pub mod Services
pub mod Bridge
pub mod Bus
pub mod App
pub mod Fixture
pub mod Scenarios
pub mod Startup
pub mod Units
pub mod Safety
pub mod Generator
pub mod Bindings
pub mod Docs
pub mod Documents
pub mod Diagram
pub mod Protocol
pub mod Generated
pub mod Objects
