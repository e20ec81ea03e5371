-- ===== src/Lib.antt =====
-- HUST-Network-Programming is a collection of network programs in C. This library is about its
-- largest program, the FTP server and client under FTP-client-server/, and about its chat room
-- server, its TFTP client and server, its registry of UDP clients with the client that shares
-- files, its UDP chat server, its HTTP servers with uploads, its FTP server on select, its
-- command server and its directory of peers.
--
-- The parts and their files:
--   * Base, with Base/Lists and Base/Int, has the shared helpers; CText with CText/Decimal,
--     CText/Scan, CText/Search and CText/Places has the functions of C on strings (strncpy, strcmp, strchr,
--     strstr, sscanf with %d and %s) on lists of bytes with no zero.
--   * Outcome is the result of code that may be undefined: a write past the end of an array and
--     an int out of range are `undefined`, and the array sizes of the source stand in `fit` and
--     `sprintf`.
--   * System has the calls of the operating system. What a call returns is a parameter, the
--     record `Os`, a function of all calls before it; code is a step on a state and the history
--     of the calls, newest first. A loop over `recv` reads the list of the results that are
--     positive.
--   * Account is FTP-client-server/server/src/account.c: the global table is a list, each
--     function of the source a function of its name, and the file its bytes. Account/Login and
--     Account/Storage have its theorems.
--   * FtpServer and FtpServer/Transfer are FTP-client-server/server/src/ftp_server.c, one
--     function for each command, such as handle_retr for handle_RETR; FtpServer/Thread and
--     FtpServer/Main are client_thread and parts of main in
--     FTP-client-server/server/src/server.c. The theorems are in FtpServer/Guard, Invariant,
--     DataConnection, Transfers, Session, Directory, Bounds, Parsing, Ports, Transmission and
--     Delivery.
--   * FtpClient and FtpClient/Data are FTP-client-server/client/src/ftp_client.c, FtpClient/Shell
--     is the login and the command loop of FTP-client-server/client/src/client.c, and
--     FtpClient/Replies puts the server's replies and the client's parsing together.
--   * ChatRoom is assignment/multithread_chatroom.c; ChatRoom/Table has the theorems on its table
--     of clients, ChatRoom/Relay the one on its messages, and ChatRoom/Leaving lemmas on a client that
--     leaves.
--   * TftpClient has the requests and the download of `Trivial File Transfer Protocol
--     (TFTP)/tftp_client.c`; TftpClient/Sending has its upload. The theorems are in
--     TftpClient/Download, TftpClient/Stall and TftpClient/Upload.
--   * UdpRegistry is assignment/udp_file_server.c; UdpRegistry/Lookup has lemmas on its table.
--   * UdpChat is assignment/udp_chat_server.c, with its theorems in UdpChat/Table.
--   * TftpServer is np/np18.c, with its theorem in TftpServer/Replies.
--   * UdpFileClient is assignment/udp_file_client.c: the registry's clients in
--     UdpFileClient/Listing and UdpFileClient/Registering, the offer of a file in
--     UdpFileClient/Requests, the file on its connection in UdpFileClient/Contents, and
--     the registry seen as a directory in UdpFileClient/Directory.
--   * HttpUpload is assignment/http_upload.c: HttpUpload has the functions on strings and pages,
--     HttpUpload/Multipart is ParseMultipart, and ClientThread is in HttpUpload/Request, which
--     reads a request, and HttpUpload/Thread, which answers it. HttpUpload/Reading, Heading,
--     Fields, Upload and Saving have the lemmas, and the theorems are in HttpUpload/Serving and
--     HttpUpload/Posting.
--   * HttpServer and HttpServer/Thread are np/np20.c: HttpServer/Decoding compares its decoding
--     of a path with that of http_upload.c, and HttpServer/Receiving has its uploads.
--   * SelectFtp is np/np22.c: SelectFtp/Paths is about its shared folder and SelectFtp/Commands
--     about its commands, and SelectFtp/Loop has the theorems on its loop.
--   * ExecServer is assignment/multithread_exec_server.c, with the theorem on its log in
--     ExecServer/Log.
--   * PeerServer is np/np15_server.c, with the theorem on the names it lists in PeerServer/Names.
--   * The modules Tests of the parts apply the theorems to concrete inputs.
--
-- How they interact: the thread reads a buffer, splits it and calls a handler, which looks up
-- accounts, makes calls and changes the session; the client sends commands and reads replies on
-- the control connection, and opens the data connection that the reply to PASV names. The clients
-- of udp_file_client.c send datagrams to the registry, read its replies, and offer files to each
-- other. The packets of the TFTP server are read by the TFTP client.
--
-- Fuel: `decimal` has one round more than its number, `load_loop`, `blocks_of`, `read_blocks`,
-- `file_blocks`, `trim` and `send_all` a round for each byte of their text, and `send_rounds` one
-- for each byte that is left; `parts` and the TFTP server's `send_file` have one more.
-- `read_header` of the HTTP servers has one round more than the bytes that arrive, `read_rest`
-- and `receive_data` one for each byte that is wanted, and `decode_path` one more than the bytes
-- of the path. Each round of these loops uses up a byte at least or is the last, so the fuel is
-- not used up before the loop ends.
--
-- Bounds: the arrays of the sources are in `fit`, `word` and `sprintf`. The sizes of files and
-- pages, which the HTTP servers keep in an `int`, are numbers without a bound, and the theorems
-- take them below 2^31.
--
-- The HTTP servers search a request as a string and put no zero behind it. What stands behind it in
-- memory is the parameter `memory` of a `Host`, and their theorems take it to begin with a zero.
--
-- Not modelled: the accept loop, signals and start-up calls of server.c and of the other servers,
-- listen and setsockopt, whose results the source does not use, error and usage texts on a
-- terminal, reading a file that changes while it is read, the wait of the TFTP client for the
-- first acknowledgement, the sockets and the terminal of udp_file_client.c,
-- assignment/http_cont.c, which is http_upload.c without uploads, and the small programs of the
-- other directories.
pub mod Base
pub mod CText
pub mod Outcome
pub mod Account
pub mod System
pub mod FtpServer
pub mod FtpClient
pub mod ChatRoom
pub mod TftpClient
pub mod UdpRegistry
pub mod UdpChat
pub mod TftpServer
pub mod UdpFileClient
pub mod HttpUpload
pub mod HttpServer
pub mod SelectFtp
pub mod ExecServer
pub mod PeerServer
