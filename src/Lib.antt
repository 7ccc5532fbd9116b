-- ===== src/Lib.antt =====
-- ScreenViewer: a remote desktop whose streamer shows its screen to a viewer. Both connect to a server
-- over TLS, log in, and are joined by a bridge.
--
-- The parts, and the files that model them:
-- * Messages (include/Message.hpp, src/MessageHeader.cpp): Message.antt. `deserialize` and `convert_to_…`
--   are the code's `deserialize` and `convertTo`; `std::size_t` has 8 bytes, `int` has 4, lowest byte
--   first. Children: Message/Header, Message/Events.
-- * Button masks (include/MouseConfig.hpp, src/MouseConfig.cpp): Mouse.antt, with Mouse/Buttons.
-- * Sockets (include/SocketBase.hpp, src/SocketBase.cpp): Socket.antt. `send`, `receive`,
--   `receive_to_buffer`, `disconnect` and the others are the methods of that name;
--   `async_read_message` leaves a `Pending` read, and `poll` is the io_context completing it.
--   Children: Socket/Framing, Delivery, Buffer, Keeps, Bounds, Async.
-- * The registry of streamers (src/ServerSessionsManager.cpp): SessionsManager.antt, with Registry,
--   Timeouts, Ids, Entries, Refinement and Order below it.
-- * Accounts (src/UsersManager.cpp): UsersManager.antt, with UsersManager/Accounts.
-- * Sessions (src/AuthenticatedSession.cpp, src/ProxySession.cpp): Session.antt over World.antt, the
--   store of all sockets with the registry, the bridges and the accounts. Json.antt reads the
--   credentials. Children: Session/Frame, Invariant, Handlers, Completion, Login,
--   Answers, Conversation, Meeting and Rendezvous.
-- * The server (include/ScreenViewerSessionsServer.hpp, include/Servers.hpp,
--   apps/ScreenViewerServer.cpp): Server.antt, whose `run` takes the events of a server in any order,
--   with Server/Handover; Server/Launch is the constructor and what `main` starts.
-- * The bridge (include/Bridge.hpp): Bridge.antt, with Bridge/Relay and Bridge/Closing.
-- * The client's socket (src/ClientSocket.cpp): ClientSocket.antt has the requests, with
--   ClientSocket/Requests; ClientSocket/Connect the constructor; ClientSocket/Thread the thread of
--   the io_context, `start`, `disconnect` and the destructor, with Steps and Joins below it.
-- * The streamer (src/streamer/ScreenViewerStreamer.cpp): Streamer.antt, with Streamer/Input, and
--   Streamer/Screenshots, with Packets and Frames below it, for what is sent. Streamer/Run is `run`, with
--   Fifo and Order below it, and Streamer/Encoder makes the encoder. All are over the
--   interface of include/streamer/IOController.hpp in IoController.antt; IoController/X11,
--   IoController/Cursor, with Blending below it, and IoController/Controller, with Captures below
--   it, are src/streamer/X11IOController.cpp.
-- * The viewer (src/ScreenViewerClient.cpp): Viewer.antt, with Viewer/Remote and Keeps, the loop in
--   Viewer/Loop, with Textures and Playback below it, what SDL makes in Viewer/Window and the
--   decoder behind it in Viewer/Members; Viewer/Screen
--   joins it with the streamer. Key symbols
--   (src/KeysMapping.cpp): KeysMapping.antt, with Lookup and Injective. The encoder (src/VideoEncoder.cpp): VideoEncoder.antt
--   for `encode`, and VideoEncoder/Context, with Allocated below it, for the constructor. The
--   decoder (src/VideoDecoder.cpp): VideoDecoder.antt and VideoDecoder/Context.
-- * The programs (apps/add_user.cpp, apps/ScreenViewerClient.cpp, apps/ScreenViewerStreamer.cpp):
--   Programs.antt, with Programs/Accounts.
-- Prelude passes the library's names on and has lists over the native numbers and byte strings.
-- Outcome.antt is the monad of calls that change a state and may throw, and Outcome/Ends says how
-- such calls end. Tests has concrete inputs.
--
-- Outside the repository, and so arguments: Boost.Asio (Transport.antt, with `Lawful` for its documented
-- behaviour), nlohmann::json, PostgreSQL and BCrypt (UsersManager.antt), SDL's and X11's codes, the
-- clock, the random draws, the X server (IoController/Controller.antt), the network below a client
-- (ClientSocket/Connect.antt), what a server listens to (Server/Launch.antt), SDL's window, renderer and
-- texture (Viewer/Window.antt) and FFmpeg (Ffmpeg.antt, with `LawfulFfmpeg` for what is allocated).
--
-- Fuel: the loop of `send` takes the length of the content plus one, which is enough since every round
-- takes a positive number of bytes off. The client's wait for its stream takes a list of clock
-- readings, one for each round. A run of the streamer takes the list of what happens, and the
-- context's thread the list of its steps; three of them are enough for it to end once it has been
-- stopped and no handler runs in it. All other loops are structural.
--
-- Not modelled: logging, what the certificates hold, the text of the SQL statements, threads beyond the
-- order of their steps, and how images are drawn, converted and resized. An X11 controller is one
-- screen's. A failed read leaves the buffer as it was, where Boost.Asio may have filled a part of it.
-- In World.antt a bridge is the pair of its sessions, which keep their sockets; Bridge.antt has the bridge
-- itself.
pub mod Prelude
pub mod Message
pub mod Mouse
pub mod Outcome
pub mod Transport
pub mod Socket
pub mod SessionsManager
pub mod UsersManager
pub mod Json
pub mod World
pub mod Session
pub mod Server
pub mod Bridge
pub mod ClientSocket
pub mod Ffmpeg
pub mod IoController
pub mod Streamer
pub mod Viewer
pub mod Programs
pub mod KeysMapping
pub mod VideoEncoder
pub mod VideoDecoder
mod Tests
