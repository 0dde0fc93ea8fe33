-- ===== src/Lib.antt =====
-- esp32-vag-data-server reads diagnostic data from a vehicle with an ESP32. The modelled parts are
-- its protocol stack, its scheduler, its vehicle data and its CAN driver, C++ under src/ of the
-- repository:
--
--   scheduler             which polling job runs next
--   UDS, OBD services     one request at a time each: send, wait, check the response
--   read-only guard       builds each request; nothing but reading passes
--   diagnostic transport  the interface between the guard and a transport
--   ISO-TP transport      segments messages into CAN frames, and puts them together again
--   CAN driver and clock  interfaces of the platform, and the CAN driver for the ESP32
--   vehicle data          bounded texts, values and samples
--   store                 the newest sample of each signal, in a table of a fixed size
--   profiles              which vehicle profile is selected, and the signals that are its candidates
--   read model            one consistent copy of the selection, the samples and the candidates
--   export record         a sample as bytes, and back
--   BLE payload           a snapshot's metadata, a capability or a sample as bytes
--
-- A caller registers jobs with the scheduler and takes the one that is due. A job asks a service for data;
-- the service calls the guard, the guard the transport, and the transport the driver's `send`. Frames that
-- the driver receives are handed to the transport's `onCanFrame` by their owner. Everything is polled: no
-- operation blocks, and each reads the clock itself. Samples go into the store, from where the read model
-- copies them for its callers; the export record and a BLE payload are made of one of its copies.
--
-- Files, and the code that they model:
--
--   Prelude    numbers, lists, machine words and buffers: shared, with no code of its own
--   Can        src/core/can_types.h, src/core/clock.h, src/hal/can_hal.h
--   Twai       src/esp32_twai_can.cpp, src/hal/esp32_twai_can.h, src/config/hardware_config.h; Resources has
--              what is installed, Frames what is received
--   Transport  src/protocol/diagnostic_transport.h
--   IsoTp      src/protocol/isotp_transport.h. State has the fields (the receiving side Rx, the sending
--              side Tx), Frames the frames that are built, Receiver and Sender the handlers, Node the
--              operations of `DiagnosticTransport` and `onCanFrame`. Invariant has what holds between
--              two calls, Calls the calls in any order. Segments is a segmentation written without the
--              code, against which Assembly, Reassembly, Ends and Delivery (receiving), Transmission,
--              Opening and Transfer (sending) are stated; FlowControl and Refusals have the rest.
--   Guard      src/protocol/read_only_guard.h; Guard/Policy the requests that are read-only: those of
--              docs/READ_ONLY_POLICY.md (01 and 09 with a single PID, 22, 19 02), and 03 of README.md
--   Uds        src/protocol/uds_service.h. State has the fields and small helpers, Service the
--              requests, the responses and `poll`; Safety, Answers, Reports and Progress the proofs.
--   Obd        src/protocol/obd_service.h, laid out in the same way; Results and StoredDtcs have what
--              its responses deliver
--   Stack      the UDS service over the ISO-TP transport, with frames from the bus between its calls.
--              Request has what a request puts on the bus, Permitted and Bus the frames of any run.
--   Scheduler  src/core/scheduler.h; Choice and Deadlines on single steps, Entries, Invariant and Runs on
--              what holds between calls
--   VehicleData
--              src/core/vehicle_data.h. Utf8 has the check of a text, Text the operations of one, Sample
--              the values, the samples and the ways to make them. Sequences and CodePoints state the
--              check against an encoder of code points, Rounds has its loop without fuel, Assign what a
--              text holds, Making what every sample keeps; Example is a sample for the tests.
--   Store      src/core/vehicle_data_store.h; Find and View have the map that a store stands for, Upsert,
--              Snapshot and History what the operations do
--   Profiles   src/profiles/active_vehicle_profile.h and signal_registry.h, src/vag/profile_set.h and
--              kamiq_nw4_capabilities.h; Selection and Registry have the proofs
--   ReadModel  src/application/vehicle_data_read_model.h; Read and Association have the proofs
--   Export     src/application/vehicle_data_export_record.h. Layout has the numbers, bytes and lengths,
--              Encode and Decode the two directions; Bytes, Written, Rebuild, RoundTrip and Outcome the
--              proofs.
--   Ble        src/application/ble_vehicle_data_payload.h. Writer has the calls of the writer, Records what
--              is written and the encoders; Emits, Payloads, Encoders and Metadata state the bytes,
--              Published what becomes of a read of the read model.
--
-- How the code is translated. A method is a function from the object's fields, and from the state of what
-- it calls, to its status, the fields and that state. Names are the source's in lower case. The driver and
-- the clock are records of functions on a world of any type, so a driver may accept or refuse any frame
-- and two readings of the clock may differ; a theorem that needs an accepting driver or a clock within
-- bounds says so. A service takes any transport in the same way. An array is a list of its length, a
-- pointer that may be null an Option. 64-bit times wrap (`add64`), bytes wrap (`u8`), and a subtraction of
-- unsigned numbers wraps (`sub64`) wherever the code does not exclude it first. Bytes that an operation
-- leaves in a buffer behind the message stay there in the model.
--
-- Where the code reads something only on one path (the clock, the driver's answer), the model binds the
-- reading first and uses it, and the world behind it, on that path alone. The scheduler's clock is the
-- argument `now` of each operation.
--
-- A `const char*` is the memory behind it, and bytes that an assignment leaves in the array of a text stay
-- there. A `double` is its 64 bits: the code only stores, copies and exports it, and tests it by
-- `std::isfinite`. A function that writes its result through a reference returns the result's new value
-- with its status. The profile, the store and the registry that the read model refers to are values, since
-- its operation reads them only.
--
-- Bounds. A message has at most 4095 bytes and a service's buffer 64, as in the code; a text has 64, 32 or
-- 17 bytes and a record at most 136. The check of a text is the one loop with fuel, as many rounds as the
-- text has bytes; each round takes a byte at least. Every other loop runs over a list or a number that gets
-- smaller.
--
-- Not modelled: the response for the web, whose text hangs on how the standard library formats a double;
-- the vendor's CAN driver, which is a parameter of ours; the sketch, the web page, tools and tests. The
-- protocol code needs `send` alone of the driver interface.
pub mod Prelude
pub mod Can
pub mod Twai
pub mod Transport
pub mod IsoTp
pub mod Guard
pub mod Uds
pub mod Obd
pub mod Stack
pub mod Scheduler
pub mod VehicleData
pub mod Store
pub mod Profiles
pub mod ReadModel
pub mod Export
pub mod Ble
