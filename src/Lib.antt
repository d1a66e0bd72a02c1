-- ===== src/Lib.antt =====
-- The SIP practice lab (basic/) and the HTTP server that the signalling page is served by
-- (signal_server/), as functions on bytes; the servers' loops and the chat (text_chat/) as steps
-- between states; the UDP receiver of media/, the depacketizer of video/, the jitter buffer of
-- audio/ and the quicksort of wasm/.
--
-- The practice lab. A trace of SIP messages is text: messages separated by an empty line, each a
-- start line and headers. `parse_message_series` reads it into `SipMessage`s, `find_header` and
-- `get_address` look into one, and the third exercise groups the messages of a trace into
-- transactions. The first two exercises parse a request line and a block of headers by themselves.
-- The exercises are listed in a catalog, which a console and a test runner work on.
-- - Practice/RequestLine: `split_space` of basic/src/sip_message.cpp and `parse_request_line` of
--   basic/exercises/01_sip_request_line/starter.cpp.
-- - Practice/Trim: `trim` of basic/src/sip_message.cpp and of
--   basic/include/practice/starter_support.hpp (the one of the second exercise has the same text).
-- - Practice/Message: basic/src/sip_message.cpp and basic/include/practice/sip_message.hpp.
--   `parse_one_message` is split where the source has comments or branches: `breaks_paired`,
--   `next_line`, `parse_start`, `parse_headers`.
-- - Practice/Headers: `parse_headers` of basic/exercises/02_sip_headers/starter.cpp.
-- - Practice/Transaction: basic/exercises/03_sip_transaction/starter.cpp. `State` is the two local
--   containers of `find_transactions`, `step` one round of its loop, `place` what the round does
--   with a message whose Via and CSeq can be read.
-- - Practice/Catalog, Practice/Words and Practice/Runner: basic/src/catalog.cpp and
--   basic/src/runner.cpp. Practice/Words has the words of a command line, Practice/Runner the
--   commands and the loop over the lines of the input; what an exercise prints and returns is a
--   parameter.
-- - Practice/Capture and Practice/TestRunner: basic/src/test_runner.cpp, the first for `run_command`
--   and the functions it calls, the second for the plans and `run` and `run_solution`. What a child
--   process does is a list of rounds of the polling loop: what was read, what `waitpid` said,
--   whether the time was over. Practice/Capture/Resources adds the calls that take and give back the
--   pipe, the actions and the child.
-- - Practice/Repository: basic/src/exercise_repository.cpp, which reads the texts of an exercise
--   from a file system that is a parameter.
-- - Practice/WebServer: basic/src/web_server.cpp, a function for the handler of each route. The HTTP
--   library and its JSON values are parameters.
--
-- The signalling server. A connection hands each read to the request parser, which consumes a byte
-- at a time, and a complete request to the request handler, whose reply it writes.
-- - SignalServer/RequestParser: signal_server/request_parser.cpp and the headers it includes. Each
--   `case` of `consume` is a function; `parse` is the loop over one read.
-- - SignalServer/Reply and SignalServer/MimeTypes: signal_server/reply.cpp and mime_types.cpp.
-- - SignalServer/RequestHandler: signal_server/request_handler.cpp. The file system is a function
--   from paths to contents.
-- - SignalServer/Connection: signal_server/connection.cpp. A `Connection` has the parser's state, the
--   request, the reply and the operation that is outstanding; `on_event` is the handler that its
--   completion runs. A read is at most 8192 bytes long in the source; here it has any length.
-- - SignalServer/Server: signal_server/connection_manager.cpp and server.cpp. `step` is one handler
--   of the loop, on the list of all connections made so far, with a mark for the manager's set.
--
-- The chat. A message is a header of four bytes, which holds the body's length as text, and a body,
-- in a buffer of fixed size. The room of the server delivers each message that a session has read
-- to all participants, whose queues of messages are written one after the other.
-- - Chat/Message: text_chat/chat_message.hpp.
-- - Chat/Room: text_chat/chat_server.cpp. `step` is one handler of the loop, on the list of all
--   sessions made so far.
-- - Chat/Client: text_chat/chat_client.cpp; `compose` is what `main` makes of a line, and `run` a
--   sequence of handlers.
--
-- In these loops the library's sockets, acceptor and terminal are parameters: an event is one
-- completion, and `on_event` has no result for one that cannot happen then.
--
-- The depacketizer (video/) reads dumped RTP packets and writes the NAL units of their payloads to a
-- file, each behind a start code.
-- - Video/MediaFileParser: the handlers of video/MediaUtil.cpp, on the bytes of the packet buffer.
--   What newly allocated memory holds is a parameter, by the number of the allocation. The loop over an aggregation packet has the
--   packet's length as its fuel, and each round takes two bytes or more.
-- - Video/Stream: `parse_stream`, the loop over the dump. Its fuel is one more than the size of the
--   file, which is enough because each packet has eight bytes in front of it.
--
-- The UDP receiver (media/) prints each RTP packet that arrives and appends it to a dump, which is
-- what the depacketizer reads.
-- - Media/RtpUtil: media/rtputil.cpp. A packet is the memory from its first byte on, and a text that
--   is written into a buffer is what the buffer then holds.
-- - Media/UdpServer: media/udpserver.cpp; `on_receive` is a round of the loop of `main`, for a
--   datagram or an error.
--
-- The jitter buffer (audio/).
-- - Audio/JitterBuffer: audio/jitter_buffer_example.cpp, `run` a sequence of
--   arrivals and rounds of its worker.
--
-- The quicksort (wasm/).
-- - Wasm/Qsort: wasm/qsort.cpp. The searches and the loop read the array by index, and a read outside
--   of it is no result. The inner loop has one round more than the array has entries as its fuel, the
--   loop over the stack twice as many: a part of n entries takes less than 2 n rounds.
--
-- Common holds what these share: tests on the native numbers, lists, arrays, bytes and searches in
-- them.
--
-- Texts are lists of bytes, and a byte is its unsigned value; `npos` and `nullopt` are `none`. An
-- `unsigned` is a number below 2 ^ 32, where `std::from_chars` fails beyond it as documented. The
-- loops that cut lines off a text run on fuel, one more than the length of the text, which is
-- enough because each round shortens it. `std::map` is an association list that is only read by
-- key. Sizes of texts are not bounded, so no length overflows.
--
-- Not modelled: the sockets themselves and what they deliver when, the choice of a route, which is
-- the HTTP library's, the lock of its test runner, the arguments of the programs, the exercises from the fourth on, which are skeletons, the programs that only call
-- GStreamer, FFmpeg, OpenSSL or ZeroMQ, and the copies of other projects (webrtc_src, webrtc_cc,
-- gstreamer, image/BMP.h, media/util.c).
pub mod Audio
pub mod Chat
pub mod Common
pub mod Media
pub mod Practice
pub mod SignalServer
pub mod Video
pub mod Wasm
