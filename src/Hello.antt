-- ===== src/Hello.antt =====
-- src/handshake/hello.c: the serializers of ClientHello and ServerHello, and `find_extension`. The
-- parsers are in Hello/Parse. Pointers are valid, so the tests for NULL fall away; a view into the
-- message is given by the bytes it shows, and what a parser leaves in its outputs when it returns an
-- error is not modelled.
mod Tests
pub mod Parse
pub mod ServerRoundTrip
pub mod ClientRoundTrip
pub mod Returns
pub mod Format
pub mod Extensions
use nano_dtls.Base.{ℕ, zero, suc, Option, none, some, ◌==◌, ◌∷◌, [], ltb, if◌then◌else◌}
use nano_dtls.Base.{Bytes, length, Result, ok, err, fault, Status, bad_length, truncated}
use nano_dtls.Wire.{
  Writer, w_init, w_bytes, w_u8, w_u16, sized_u8, sized_u16, finish, ◌>>>=◌, Reader, Parser, ◌>>=◌,
  run, r_bytes, r_u16,
}

-- `ND_RANDOM_LEN`, `ND_X25519_LEN`, the one cipher suite and group, and the versions.
abbrev pub random_len : ℕ
random_len = 32

abbrev pub x25519_len : ℕ
x25519_len = 32

abbrev pub cipher_suite : ℕ
cipher_suite = 0x1303

abbrev pub group_x25519 : ℕ
group_x25519 = 0x001d

abbrev pub dtls_1_3_version : ℕ
dtls_1_3_version = 0xfefc

abbrev pub legacy_version : ℕ
legacy_version = 0xfefd

-- `nd_client_hello_params`, `nd_server_hello_params` and `nd_client_hello`
pub record Params : Type 0 where
  pub random : Bytes
  pub x25519_public_key : Bytes

abbrev pub nothing : Writer → Writer
nothing w = w

-- `supported_versions` of a ClientHello: a list with a length of one byte.
abbrev pub client_versions : Writer → Writer
client_versions = w_u16 43 >>>= sized_u16 (sized_u8 (w_u16 dtls_1_3_version))

-- `supported_groups`
abbrev pub client_groups : Writer → Writer
client_groups = w_u16 10 >>>= sized_u16 (sized_u16 (w_u16 group_x25519))

-- `KeyShareEntry`
abbrev pub key_share_entry : Bytes → Writer → Writer
key_share_entry key = w_u16 group_x25519 >>>= sized_u16 (w_bytes key)

-- `key_share` of a ClientHello: a list of one entry.
abbrev pub client_key_share : Bytes → Writer → Writer
client_key_share key = w_u16 51 >>>= sized_u16 (sized_u16 (key_share_entry key))

-- `signature_algorithms`
abbrev pub client_algorithms : Writer → Writer
client_algorithms =
    w_u16 13 >>>= sized_u16 (sized_u16 (w_u16 0x0403 >>>= w_u16 0x0804 >>>= w_u16 0x0807))

-- The writes of `nd_client_hello_serialize`.
abbrev pub write_client_hello : Params → Writer → Writer
write_client_hello params =
    w_u16 legacy_version
    >>>= w_bytes params.random
    >>>= sized_u8 nothing
    >>>= sized_u8 nothing
    >>>= sized_u16 (w_u16 cipher_suite)
    >>>= sized_u8 (w_u8 0)
    >>>= sized_u16 (
        client_versions
        >>>= client_groups
        >>>= client_key_share params.x25519_public_key
        >>>= client_algorithms)

-- `nd_client_hello_serialize`: the bytes `out_buf[0 .. *out_len)`.
unfoldable pub client_hello_serialize : Params → ℕ → Result Bytes
client_hello_serialize params out_cap =
    finish bad_length (write_client_hello params (w_init out_cap))

-- `supported_versions` of a ServerHello: the version alone.
abbrev pub server_version : Writer → Writer
server_version = w_u16 43 >>>= sized_u16 (w_u16 dtls_1_3_version)

-- `key_share` of a ServerHello: the entry alone.
abbrev pub server_key_share : Bytes → Writer → Writer
server_key_share key = w_u16 51 >>>= sized_u16 (key_share_entry key)

-- The writes of `nd_server_hello_serialize`.
abbrev pub write_server_hello : Params → Writer → Writer
write_server_hello params =
    w_u16 legacy_version
    >>>= w_bytes params.random
    >>>= sized_u8 nothing
    >>>= w_u16 cipher_suite
    >>>= w_u8 0
    >>>= sized_u16 (server_version >>>= server_key_share params.x25519_public_key)

-- `nd_server_hello_serialize`
unfoldable pub server_hello_serialize : Params → ℕ → Result Bytes
server_hello_serialize params out_cap =
    finish bad_length (write_server_hello params (w_init out_cap))

-- The loop of `find_extension`. Each `return 0` of a step that fails is `err`.
abbrev pub scan : ℕ → ℕ → Parser (Option Bytes)
scan zero want r = fault
scan (suc fuel) want r =
    let entry = (do
      ext_type ← r_u16 truncated
      ext_len ← r_u16 truncated
      content ← r_bytes truncated ext_len
      λ s. if ext_type == want then ok (some content, s) else scan fuel want s) in
    if ltb r.pos (length r.buf) then entry r else ok (none, r)

-- Where the block is malformed nothing is found.
abbrev pub found : Result (Option Bytes) → Result (Option Bytes)
found (ok x) = ok x
found (err e) = ok none
found fault = fault

-- `find_extension`: `none` where it returns 0. Its loop reads four bytes at least in a round.
unfoldable pub find_extension : Bytes → ℕ → Result (Option Bytes)
find_extension ext_block want = found (run ext_block (scan (suc (length ext_block)) want))
