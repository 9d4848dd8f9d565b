-- ===== src/Lib.antt =====
-- The TVie RTMP server: a publisher connects by RTMP, its bytes are put together to messages, and
-- an actor writes the audio and video on. The development models the path of the bytes: the buffer
-- that they are read from, the AMF0 format, the chunk parser and the parsers of commands, and the
-- buffer and serializer by which answers are written; then the connection that runs them, from a
-- client's bytes to the actor and back, and the actor that writes a stream's messages as FLV tags.
--
-- Parts, and the files of the repository that they model:
-- - Base: numbers, tests, lists, machine integers and texts that the others share.
-- - Exception (rtmpexception.h): the exception classes as constructors, and methods as functions
--   from a state to a result and a state. A throw keeps the state, as it does in the code. Two
--   outcomes are no exceptions: `fault` for an access outside an allocation and `hang` for a loop
--   out of fuel.
-- - ReadBuffer (readbuffer.h, readbuffer.cpp): the growing buffer, its snapshots and typed reads.
--   Its children: View (a method seen as taking bytes off a list), Inside (the same where a byte
--   more of the allocation is needed), Append, Snap, Number and Safe (every use of a buffer).
-- - WriteBuffer (writebuffer.h, writebuffer.cpp): the bit buffer. Its children: Bytes, Words,
--   Parts (a byte in two parts) and Growth (writing where the buffer is doubled).
-- - Utility (utility.cpp): compareData and reverseBytes.
-- - Amf (amf0.h, amf0.cpp): AMF0Parser and AMF0Serializer. Format describes AMF0 on its own, as
--   values and their bytes; RoundTrip, NextType, Exact and Ends compare the code with it.
-- - Message (rtmpmsg.h): headers, commands and metadata.
-- - Parser (rtmpparser.h, rtmpparser.cpp): chunk headers and stream contexts. Header looks at a
--   header's bytes and Times at the times that contexts give; Chunk puts messages together (its
--   children: Whole for one chunk, Pieces and Several for more, Spending and Ends for the loop);
--   Commands and MetaData parse their bodies (Body: the buffer that a body fills; Errors: what the
--   parsers throw; RoundTrip and Peek: commands in the format; Ends: the loops), and Transaction
--   is the part of handleRead in rtmpconnection.cpp that takes a parse back when bytes are
--   missing.
-- - RtmpActor (rtmpactor.h): the interface of the actor, as a record of methods.
-- - Connection (rtmpconnection.h, rtmpconnection.cpp): the connection. Handshake, Exchange and
--   Output are its moves and answers (Output.Pieces: a message in chunks; Exchange.CreateStream: a
--   command from its bytes to the answer's; Exchange.Media: sound and pictures from the client's
--   chunks to the receiver's tags), Receive is handleRead and handleClient (its child Counters:
--   the bytes that are not acknowledged). Along and Phase follow the two states of the connection
--   through all of them.
-- - LiveReceiver (livereceiveractor.h, livereceiveractor.cpp): the actor. StreamSetup is a
--   stream's buffer between the connection's thread and the push thread; Tags, FlvHeader, Fifo and
--   Wait look at it, Streams at the table of streams. Media is what is used of the media library,
--   Push the push thread (Output: the stream map; Times and Thread: the frames; Unmapped: a frame
--   without a stream), and Statics holds the static members, Init and createActor. The actor fills
--   the interface RtmpActor.
-- - Server (rtmpserver.h, rtmpserver.cpp, main.cpp): the accepting loop and the threads of the
--   clients. Its child Client is clientCycle, a client's connection with a new actor from its
--   start to its end, and main.
-- - Tests: runs at concrete inputs.
--
-- An object is a record and a method `m(args)` is `m args` on that record; the shared pointers
-- along `prevMsgHeader` are the list `open_msgs` of the parser, innermost message first, since a
-- message is reached only through the calls that are parsing it. Doubles are their 64-bit patterns.
-- Unsigned values are native numbers with their wrap-around written out, signed ones are integers.
--
-- Fuel. appendData's doubling gets one more than the bytes that are needed, the loop over an AMF0
-- object one more than the unread bytes, since every pass takes a byte at least. So does every
-- chunk, and the loop over the chunks of a message gets one more than the unread bytes too; a
-- message inside another one runs on what is left.
--
-- The loops of handleRead and handleClient need not end, so they are relations between a connection
-- and how they end. feedData gives up after 1000001 waits of ten microseconds, as the code counts
-- them; what the other thread does in a wait is a parameter.
--
-- What each call of av_read_frame returns is a function of the call's number, and the push thread
-- has as many calls as fuel: the theorems say up to which call they look. The accepting loop has no
-- end but an exception: a list of arrivals is its first rounds.
--
-- Parameters: `iequals` is boost's case-insensitive comparison and `num_to_str` the stream
-- formatting of a double; an Environment also holds the actor's methods, the clock, which sends
-- fail, and the memory that S1's random data is. avio_open and av_guess_format are parameters of
-- the actor, the other calls of the media library are the record Library, and the socket calls are
-- the record Sockets. Not modelled: logging and the file dump, which are input and output only; the
-- destructors but for the sockets that they close; read_packet, which calls feedData and drops its
-- result; and what the system does with threads and sockets.
pub mod Base
pub mod Exception
pub mod ReadBuffer
pub mod WriteBuffer
pub mod Utility
pub mod Amf
pub mod Message
pub mod Parser
pub mod RtmpActor
pub mod Connection
pub mod LiveReceiver
pub mod Server
pub mod Tests
