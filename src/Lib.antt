-- ===== src/Lib.antt =====
-- A model of the firmware of dread, a card reader for a field with little network: slaves read cards
-- and keep the records in memory, a master polls them over a bus, keeps the records on an SD card and
-- uploads them over a modem.
--
-- The parts, their files, and how they meet:
--   Base, Hardware    names, tests, words and lists; the outside of the program. A `World` holds what
--                     the clock, the ports and the SPI bus will say, and a trace of what was done to
--                     them. It stands for Utilities/DreadSystem.h, Drivers/SPI and the virtual
--                     functions of Utilities/Print.h. Hardware/Output is the code of Print itself.
--   Net/Manager       Modules/Net/NetManager.cpp: the master's open-addressed table of slaves.
--   Net/Socket        Modules/Net/Socket.cpp: messages of 20 bytes over a port. Net/Types is their layout.
--   Gateway           Support/Router/Router.cpp and Application/NetGateway: the slave's registration
--                     and answers (Router, Server) and the master's poll (Client), over a socket, the
--                     table of slaves and a persistence; and a slave and the master at the two ends
--                     of a wire (Exchange).
--   Persistence       Support/Persistence: the ring buffer of Stream.h and NonPersistence.cpp over it
--                     (Book), and Support/FilePersistence/FilePersistence.cpp (File, and Filename for the
--                     counting of file names), over the SD library as a parameter. The abstract
--                     class is the record `Persistence` of operations (Interface), which the gateway and
--                     the card reader take as a parameter, and which book and file implement. What the
--                     slave relies on of its reader is the record `Reader` of laws, what a predicate has
--                     to survive is `Stores`, and what the SD library documents is `Appends`.
--   Scheduler         Support/Scheduler/Scheduler.cpp: the linked list of subscriptions to the timer. Its
--                     nodes stand in a store by address.
--   Fsm, Connection   Support/FSM and Application/ConnectionHandler: a state machine behind a queue of
--                     four signals.
--   Hid, Locale       Modules/HID/HID.cpp, and Support/Util: leds and buzzer, clock and decimal fields.
--   Mifare            Modules/RFID/MifareLite.cpp: the registers of the card reader chip and its commands.
--   Bus, Modem        Modules/RS485; Modules/GPRS/Sim900.cpp (Commands) and Support/Modem/Modem.cpp
--                     (Packets).
--   CardReader        Application/CardReader/CardReader.cpp, over the chip and a persistence.
--   DreadClient       Application/DreadClient/DreadClient.cpp, over the modem and the file.
--   Devices           Launcher: the slave (card reader and server over one record book), the master (client,
--                     connection handler and upload over one file) and the standalone device (card
--                     reader, connection handler and upload over one file), each as `setup` and `loop`
--                     on the state of all its objects, with the states that are reached as an indexed
--                     data type (Running).
--
-- A class is a record of its fields, a method a function that takes the object and the world and
-- returns them changed. An object behind a `static` local is passed on in the same way. Bytes and words
-- are natural numbers with their wrap-around written out (u8, u16, u32). A text is the list of its
-- bytes in front of the end mark.
--
-- Fuel: loops that wait for the outside take fuel and end in `none` without it. For the socket one
-- round for each reading of the clock up to the timeout is enough, for the scheduler a round for each
-- node and one more, for the slave's session the waiting lines or one more than the waiting bytes, for the set-up of
-- the SD card one more than the failed attempts. `none` is also a write or a read outside of a
-- buffer, where a function says so. What a variable holds that the code does not initialise is an
-- argument.
--
-- Not modelled: Modules/SD, a copy of the Arduino SD library, whose calls are the record `SdLibrary`; Drivers,
-- copies of the Arduino drivers; UnitTests; and what nothing calls: the function `beep` of the slave's
-- launcher and its prototypes. An interrupt comes between two calls of the standalone device's loop
-- or not at all: an interrupt inside of a call is not modelled.
pub mod Base
pub mod Hardware
pub mod Net
pub mod Locale
pub mod Hid
pub mod Mifare
pub mod Bus
pub mod Modem
pub mod Fsm
pub mod Connection
pub mod Persistence
pub mod Scheduler
pub mod Gateway
pub mod CardReader
pub mod Devices
pub mod DreadClient
