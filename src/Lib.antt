-- ===== src/Lib.antt =====
-- A model of nano-dtls, a DTLS 1.3 stack in portable C (RFC 9147, RFC 8446), and proofs about it.
--
-- The program frames records (src/record.c) and handshake messages (src/handshake/header.c) over
-- UDP, protects records with an AEAD (src/record_protect.c), rejects replayed records
-- (src/replay.c), reassembles fragmented messages (src/reassembly.c) and acknowledges records
-- (src/ack.c). The handshake (src/handshake) writes and reads its messages, hashes them
-- (src/handshake/transcript.c) and derives its keys (src/handshake/key_schedule.c) with the hash
-- functions of src/crypto. The handshake drivers (src/handshake/client.c, src/handshake/server.c)
-- call all of these.
--
-- Conventions. A buffer is a list of numbers below 256 (`Bytes`), and a `uint8_t`, `uint16_t`,
-- `uint32_t`, `uint64_t` or `size_t` is a number, with the wrap of the source written out
-- (`u8`, `u16`, `u32`, `u64`). A pointer into an input buffer with its length is a `View`, an
-- offset and a length. A function that returns `nd_status` returns a `Result`: `ok` with what it
-- writes through its pointers, `err` with the status, or `fault` where C would read or write
-- outside an array, which the theorems rule out. Pointers are taken to be valid, so the tests for
-- NULL are not modelled, nor is what a function leaves in its outputs when it fails. An output
-- buffer is given by its capacity, and the result is what is written to its start. A sum of `size_t`
-- that the guards before it do not bound is wrapped.
--
-- Files.
--   Base: comparisons, lists, results, bits of words, byte buffers, `memcpy` and `memset`.
--   Record: the record layer, src/record.c and include/nanodtls/record.h. Record/Plaintext is the
--     13-byte DTLSPlaintext header (`nd_plaintext_parse`, `nd_plaintext_serialize`),
--     Record/Unified the compact header of encrypted records (`nd_unified_parse`,
--     `nd_unified_serialize`), Record/Reconstruct the full epoch and sequence number from the bits on
--     the wire (`nd_reconstruct_epoch`, `nd_reconstruct_sequence_number`).
--   Protect: src/record_protect.c and include/nanodtls/protect.h, over the AEAD of
--     include/nanodtls/aead.h. Aead is that interface: the two operations and the laws that the
--     record layer relies on, which the cipher in src/crypto fulfils.
--   Chacha20, Poly1305: src/crypto/chacha20.c and src/crypto/poly1305.c. Chacha20/Rfc8439 is the cipher
--     of the RFC, with which Chacha20/Conforms compares the code. Poly1305/Multiply,
--     Load, Reduce and Pack are on the limbs and bytes as numbers, Mac on a block,
--     Begin on the key, Final on the end and Whole on all of it.
--   Chacha20Poly1305: src/crypto/aead_chacha20poly1305.c, which fills the interface of Aead.
--   Handshake: Handshake/Header is the 12-byte handshake header of src/handshake/header.c
--     (`nd_handshake_parse`, `nd_handshake_serialize`).
--   Replay: the anti-replay window of src/replay.c, against the history of accepted numbers.
--   Reassembly: src/reassembly.c, against the message that the fragments were cut from.
--   Ack: src/ack.c.
--   Sha256: src/crypto/sha256.c. Sha256/Compress is the compression function, Sha256/Stream and
--     Sha256/Padding relate the context to the bytes that were fed; Sha256/Fips180 is the standard,
--     written apart from the code, and Sha256/Conforms compares the two.
--   Hmac, Hkdf: src/crypto/hmac_sha256.c and src/crypto/hkdf.c. Hmac/Rfc2104 has the
--     definition of the RFC.
--   Transcript, KeySchedule: src/handshake/transcript.c and src/handshake/key_schedule.c.
--   Wire: the byte writer and the byte reader that src/handshake/hello.c and
--     src/handshake/messages.c both define. A reader's step is a function of the reader, with its
--     error; Wire/Writing says what is written, Wire/Reading what is read, and Wire/Progress that
--     the reader goes forward.
--   Hello: src/handshake/hello.c, the serializers and `find_extension`; Hello/Parse the parsers,
--     Hello/Format the wire format.
--   Messages: EncryptedExtensions, Certificate and CertificateVerify of src/handshake/messages.c;
--     Messages/Verify is the check of the signature, with the P-256 verification as an argument.
--   Asn1: src/x509/asn1.c, the reader of DER elements and the encoding of a signature.
--   X509: src/x509/x509.c; X509/Parse is the certificate parser, X509/Chain the check of a chain, with
--     the P-256 operations as arguments.
--
--   Net: the calls of the socket (src/transport/udp.c) and of the random numbers (src/random.c), whose
--     answers are lists in a state that every step of a driver takes and returns.
--   Driver: what the two drivers share: `wrap_and_add`, the opening of a received message, the
--     key agreement, and the record of cryptographic operations that they are given.
--     Driver/Accepted and Driver/Delivery are lemmas on these.
--   Client: src/handshake/client.c. Client.antt has the steps between two calls of the socket,
--     Client/Run the calls and `nd_client_handshake`; Client/Phases and Client/Secure are on what was
--     received and checked when it returns, Net/Traffic on what goes over the socket, Client/Retry on its retransmissions.
--   Server: src/handshake/server.c, in the same way.
--   Complete: the client and the server against each other.
--
-- Loops are recursion on the rounds left; the drivers' are on the attempts left, five and eight. That of `nd_chacha20_xor` is on fuel, the length of the
-- input, of which every round but the last takes 64. That of `nd_poly1305_update` is
-- on the length of its data and one more, of which every round takes 16. That of `nd_sha256_update` is on the length of its data,
-- of which a round takes a byte at least, and that of the padding on 64, the bytes of a block. The loop
-- of `nd_hkdf_expand` has 255 rounds, which its guard bounds. The loops of the parsers in hello.c and
-- messages.c are on the length of the list that they read and one more: a round reads two bytes at
-- least. Those of x509.c are on the length of the sequence and one more, an element having two
-- bytes at least. A parser whose fuel ran out would return `fault`.
--
-- Not modelled: the sockets and the random numbers behind Net, the demos, the benchmarks, the tests and the embedded
-- start-up code, which are input and output, and the parts of src/ that no file above names.
mod Base
pub mod Record
pub mod Handshake
pub mod Replay
pub mod Reassembly
pub mod Ack
pub mod Aead
pub mod Protect
pub mod Chacha20
pub mod Sha256
pub mod Hmac
pub mod Transcript
pub mod Hkdf
pub mod KeySchedule
pub mod Wire
pub mod Messages
pub mod Hello
pub mod Asn1
pub mod X509
pub mod Net
pub mod Driver
pub mod Client
pub mod Server
pub mod Complete
pub mod Poly1305
pub mod Chacha20Poly1305
