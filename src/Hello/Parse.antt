-- ===== src/Hello/Parse.antt =====
-- `nd_server_hello_parse` and `nd_client_hello_parse` of src/handshake/hello.c.
use nano_dtls.Base.{
  ℕ, zero, suc, ◌+◌, ◌%◌, Bool, false, not, ◌&&◌, ◌||◌, Option, none, some, ◌==◌, ◌!=◌, [], ◌∷◌,
  ltb, if◌then◌else◌,
}
use nano_dtls.Base.{
  Bytes, length, get_or, drop, be16, Result, ok, err, fault, truncated, bad_length, unsupported,
}
use nano_dtls.Wire.{Parser, ◌>>=◌, ◌>>◌, pure, lift, refuse, run, r_bytes, r_skip, r_u8, r_u16}
use nano_dtls.Hello.{
  random_len, x25519_len, cipher_suite, group_x25519, dtls_1_3_version, Params, find_extension,
}

-- `nd_server_hello`
pub record ServerHello : Type 0 where
  pub random : Bytes
  pub cipher_suite : ℕ
  pub selected_version : ℕ
  pub key_share : Bytes

-- `if (!found) return ND_ERR_UNSUPPORTED;`
abbrev pub needed : {A : Type 0} → Option A → Result A
needed none = err unsupported
needed (some a) = ok a

abbrev pub extension : Bytes → ℕ → Parser Bytes
extension ext_block want = do found ← lift (find_extension ext_block want); lift (needed found)

-- The `KeyShareEntry` of a ServerHello.
abbrev pub server_share : Parser Bytes
server_share = do
  group ← r_u16 unsupported
  key_len ← r_u16 unsupported
  key ← r_bytes unsupported key_len
  refuse (group != group_x25519 || key_len != x25519_len) unsupported
  pure key

-- The fields of a ServerHello before its extensions.
abbrev pub server_head : Parser (Bytes × ℕ)
server_head = do
  legacy ← r_u16 truncated
  random ← r_bytes truncated random_len
  session_id_echo_len ← r_u8 truncated
  r_skip truncated session_id_echo_len
  suite ← r_u16 truncated
  legacy_compression ← r_u8 truncated
  pure (random, suite)

-- What the extensions of a ServerHello tell: the version and the key share.
abbrev pub server_extensions : Bytes → Parser (ℕ × Bytes)
server_extensions ext_block = do
  sv_data ← extension ext_block 43
  refuse (length sv_data != 2) unsupported
  refuse (be16 (get_or sv_data 0 0) (get_or sv_data 1 0) != dtls_1_3_version) unsupported
  ks_data ← extension ext_block 51
  key ← lift (run ks_data server_share)
  pure (be16 (get_or sv_data 0 0) (get_or sv_data 1 0), key)

unfoldable pub server_hello_parse : Bytes → Result ServerHello
server_hello_parse buf = run buf do
  (random, suite) ← server_head
  ext_list_len ← r_u16 truncated
  ext_block ← r_bytes bad_length ext_list_len
  (version, key) ← server_extensions ext_block
  pure (record {
    random = random;
    cipher_suite = suite;
    selected_version = version;
    key_share = key;
  })

-- The loop over the cipher suites.
abbrev pub suites : ℕ → Bool → Parser Bool
suites zero found r = fault
suites (suc fuel) found r =
    let entry = (do suite ← r_u16 bad_length; suites fuel (found || suite == cipher_suite)) in
    if ltb r.pos (length r.buf) then entry r else ok (found, r)

-- The loop over the versions, from the list's first byte on.
abbrev pub offers : Bytes → Bool
offers [] = false
offers (a ∷ []) = false
offers (a ∷ b ∷ rest) = be16 a b == dtls_1_3_version || offers rest

-- The list of `supported_versions`.
unfoldable pub check_versions : Bytes → Result (Unit {0})
check_versions sv_data =
    let list_len = get_or sv_data 0 0 in
    if ltb (length sv_data) 1
      || list_len + 1 != length sv_data
      || list_len % 2 != 0
      || not (offers (drop 1 sv_data))
    then err unsupported
    else ok tt

-- The loop over the key shares: the last one that fits is taken.
abbrev pub shares : ℕ → Option Bytes → Parser (Option Bytes)
shares zero found r = fault
shares (suc fuel) found r =
    let entry = (do
      group ← r_u16 unsupported
      key_len ← r_u16 unsupported
      key ← r_bytes unsupported key_len
      shares fuel (if group == group_x25519 && key_len == x25519_len then some key else found)) in
    if ltb r.pos (length r.buf) then entry r else ok (found, r)

-- `KeyShareClientHello`
abbrev pub client_shares : Parser Bytes
client_shares = do
  list_len ← r_u16 unsupported
  list_data ← r_bytes unsupported list_len
  found ← lift (run list_data (shares (suc (length list_data)) none))
  lift (needed found)

-- The fields of a ClientHello before its extensions.
abbrev pub client_head : Parser Bytes
client_head = do
  legacy ← r_u16 truncated
  random ← r_bytes truncated random_len
  session_id_len ← r_u8 truncated
  r_skip truncated session_id_len
  cookie_len ← r_u8 truncated
  r_skip truncated cookie_len
  cs_len ← r_u16 truncated
  cs_data ← r_bytes bad_length cs_len
  found ← lift (run cs_data (suites (suc (length cs_data)) false))
  refuse (not found) unsupported
  comp_len ← r_u8 truncated
  r_skip truncated comp_len
  pure random

abbrev pub client_extensions : Bytes → Parser Bytes
client_extensions ext_block = do
  sv_data ← extension ext_block 43
  lift (check_versions sv_data)
  ks_data ← extension ext_block 51
  lift (run ks_data client_shares)

unfoldable pub client_hello_parse : Bytes → Result Params
client_hello_parse buf = run buf do
  random ← client_head
  ext_list_len ← r_u16 truncated
  ext_block ← r_bytes bad_length ext_list_len
  key ← client_extensions ext_block
  pure (record { random = random; x25519_public_key = key })
