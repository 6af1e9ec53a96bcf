-- ===== src/Lib.antt =====
-- The Rust core of ShadowVPN for iOS, as functions on lists of bytes, with the theorems about them.
--
-- The core is the crate core/rust/shadowvpn-ios-ffi, with the host tool core/rust/chnroute-gen. The app
-- hands IP packets to `ingest`. The ingress task takes them from a channel, lets the chinadns
-- interceptor look at them, encrypts, shapes and sends them to the server; the egress task receives,
-- unshapes and decrypts datagrams, lets the interceptor look at them and hands packets back; a third
-- task sends keepalives.
--
-- Files and the code they are about, under core/rust/shadowvpn-ios-ffi/src:
--   Ffi              lib.rs: strings, the last error, logging; Ffi/Routes: svpn_country_cidrs_file;
--                    Ffi/Tun: the calls on the tunnel
--   Logging          logging.rs: the logger, its file, the panic hook
--   Engine           engine.rs: one round of ingress_loop, egress_loop and keepalive_loop
--   Engine/Session   engine.rs: start, stop, stop_blocking, ingest, is_running; Contract beside it is the
--                    tunnel as its callers see it
--   Intercept        dns_intercept.rs: try_intercept, try_handle_tunneled_reply and what they call
--   Intercept/Build, Intercept/History   dns_intercept.rs: DnsInterceptor::new and query_direct; the
--                    handlers over time, as a step relation
--   Packet           dns_intercept.rs: parse_udp_dns_query, build_udp_ipv4, the checksums
--   Obfs             obfs.rs: the QUIC-like and the base64 framing
--   Config           config.rs: RuntimeConfig::from_json
--   Country          country.rs and core/rust/chnroute-gen/src/main.rs: networks to CIDRs; Country/Main:
--                    the tool's main
--   Country/Cache    country.rs: ensure_country_file, the text of the file and its atomic write
--   Files            what the code uses of std::fs and std::path, over a disk of files by path
--   Engine/Stream    engine.rs: many rounds of two ends, over a lossy network
--   Engine/Started, Engine/Lookup, Engine/Reply   engine.rs with dns_intercept.rs: a lookup between the two
--                    ends, from the start of the session on
--   Inspect          inspect.rs: describe, tls_sni, http_host; Hello and Request beside it are the formats
--                    of a TLS ClientHello and of an HTTP request
--   Crypto, Protocol, Dns, Chnroute   vendor/crypto.rs, protocol.rs, dns.rs and policy/chnroute.rs
--   Dns/Message      the format of DNS messages, and the builders of the unit tests
--   Memory           rss.rs: the resident size of the process, for the one call of the kernel that it makes
--   Text             what the code uses of Rust's str, of the number parsers and of Display
--   Prelude          shared names: lists and tests on native numbers, bytes, Outcome and Result
-- Below a component, files are named for what they prove; Tests and Samples hold runs on examples.
--
-- How the code is modelled. Bytes, addresses and ports are natural numbers; arithmetic that wraps is
-- reduced modulo a power of two where it is done. An indexing that can abort the process is the value
-- `panic` of Outcome, an early `None` is `nothing`. Random bytes, results of sockets and
-- of the JSON parser, and the items of the country database are arguments. A disk is the bytes at each
-- path, and `Os` says which of its operations fail, a write after any number of bytes. A C pointer is
-- absent or the bytes behind it, and a call of the C interface is a step on `Host`. The state that tasks
-- share is passed on; `try_intercept` is cut where it waits for the domestic answer (`begin`, `finish`).
-- `Session` and `Process` carry the running flag, the slot, the channel, and the aborted tasks that may
-- still be in their last poll.
--
-- Bounds. Loops that the code bounds by data run on a count that is enough: three carries for a sum of
-- 32 bits; a round for every wanted byte of a key; a round for every address left in a range; twenty digits
-- for a number of 64 bits; the source's own budget for compressed names; a round for every byte of a
-- TLS record. The halving search runs on the size of the table, which it at least decrements.
--
-- Not modelled: build.rs, the log lines of engine.rs and dns_intercept.rs, what
-- chnroute-gen prints, directories as such, sockets, timers and the runtime, the concurrency
-- within one handler, and the Swift and Objective-C parts. The crates md5, hkdf, aes-gcm and
-- chacha20poly1305 are the record `Primitives` with its laws; Crypto/Toy shows that the laws can hold.
-- maxminddb and serde_json are functions that a call is given; the filter of the log crate is one too.
pub mod Prelude
pub mod Chnroute
pub mod Obfs
pub mod Text
pub mod Crypto
pub mod Protocol
pub mod Config
pub mod Dns
pub mod Packet
pub mod Intercept
pub mod Engine
pub mod Ffi
pub mod Files
pub mod Logging
pub mod Memory
pub mod Country
pub mod Inspect
