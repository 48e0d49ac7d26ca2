-- ===== src/Lib.antt =====
-- cando1 is a tunnel between two machines. A client dials a server over one of several carriers, the
-- two prove to each other that they have the same token, and over each carrier connection runs a
-- multiplexer with many streams. The server exposes services of the client on its public ports
-- (reverse), and the client exposes addresses that the server reaches on local ports (forward), for
-- connections and for datagrams.
--
-- The parts, with the code that each models; a definition has its Go name in snake case and the
-- module of its part.
--   Base          what the parts share: bytes, Go's integers, maps and (value, error) pairs.
--   Protocol      internal/protocol/protocol.go. Header is WriteStreamHeader and ReadStreamHeader;
--                 Handshake is ServerAuthenticator with its memory of nonces, and ClientHandshake.
--                 The state of the server is its record; an attempt has what the peer sends, the two
--                 readings of the clock, the random source and whether Write succeeds.
--   Config        internal/config/config.go: the schema, normalize, Validate and Load; Tags has what the
--                 toml tags of the schema make of the tables of a file.
--   Mux           internal/mux/mux.go: Config and SessionSet.
--   Transport     internal/transport: Kcp and KcpListener are kcp.go (normKCP; acceptLoop, Accept and
--                 shutdown as steps), Obfuscation is obfs.go, AsyncListener the listener of
--                 transport.go as steps of its goroutines, WebSocket the connection and the test of a
--                 request of ws.go, Choice NewClientDialer and NewServerListener with tcp.go, tls.go,
--                 ws.go and kcp.go as far as they say what a dialer is given.
--   Tunnel        internal/tunnel. Datagram and Flows are udp.go (bridgeUDP; udpFlows and
--                 serveUDPListener). Reconnect is maintainSession with sleep, grow and Close of
--                 client.go, as what happens to one goroutine, and Reconnect.Pool the goroutines
--                 of Run over one session set. Streams has handleReverseStream of
--                 client.go and handleForwardStream of server.go, Dispatch the sides that open a
--                 stream, with waitSession, and Targets blockedForwardTarget, over the parts of Go's
--                 net package that Addresses has. Slots is Run and handleConn of server.go.
--                 Pipe is pipe.go with the teardown of bridgeUDP, and Listening the listeners of the
--                 client's forwards, from Run to Close.
--   App           internal/app/app.go: RunConfig, and internal/xlog/xlog.go: SetLevel and emit's test.
--   System        the files, processes, signals and the time that Procmgr finds in the system.
--   Procmgr       internal/procmgr/procmgr.go and procmgr_unix.go: Start, Stop, Restart, Status and
--                 LogTail; each takes the System and gives the next one.
--   Cli           main.go: main, runRole and procControl, with the flag package as they use it.
--   Menu          internal/menu: the prompts of menu.go and wizard.go, and the editor and the
--                 background processes of manage.go. Mappings and Wizard are wizard.go: Wizard the
--                 answers, Wizard.Files the text of the two files, which Wizard.Written shows to be
--                 TOML, Wizard.Running how it ends. Cloudflare is cloudflare.go.
--   Tests         runs at concrete inputs, one module for each part.
--
-- How they meet: Load gives App a configuration; App runs the server or the client of Tunnel; these
-- dial and listen through Transport, prove the token with Protocol.Handshake, keep their sessions
-- in Mux.SessionSet, and start every stream with a header of Protocol.Header. Cli loads and runs a
-- configuration in the foreground, or has Procmgr start, stop and tell a background process that
-- does; Menu generates the files of a server and a client that fit, edits the file of a
-- configuration that Load accepts, and starts and stops it as Cli does.
--
-- Numbers are natural numbers with the wrap-around of Go's types written out (the uint64 handles, the
-- int64 products of durations, the uint16 lengths); a Go `int` of the configuration is an integer.
-- Fuel: to_socket has fuel for its rounds, more than the length of the input; write_loop has as
-- much as there are bytes to write; Stop's loop has its twenty turns; an editor has one turn for
-- each line of the input and one more, and so has a list of mappings of the wizard; Itoa has one
-- more than its number; wait_session has its polls, one for each tenth of a second of the timeout,
-- one for what is left and one more.
--
-- Parameters: HMAC-SHA256, SHA-256 and the keystream of XChaCha20; the TOML decoder, of which
-- Config.Tags.Document says for what texts it is relied on; whether a socket may be opened; smux and kcp-go
-- (what a session reports, and whether it opens a stream); the reader of a websocket message;
-- filepath.Abs and os.Executable; the numbers that the system gives to processes; AES; dials, clocks
-- and random bytes. Deadlines appear as input that ends early or as a call that fails. Texts are
-- ASCII. Goroutines take turns at the granularity of the critical sections.
--
-- Not modelled: the sockets, the TLS handshakes and the certificate of internal/transport, the
-- http.Server around the WebSocket listener, the main menu, the Windows variant of the process
-- manager, and the scripts. They are sockets, terminal output or shell for the greater part.
pub mod Base
pub mod Protocol
pub mod Config
pub mod Mux
pub mod Transport
pub mod Tunnel
pub mod System
pub mod Procmgr
pub mod App
pub mod Cli
pub mod Menu
pub mod Tests
