-- ===== src/Node/Tls.antt =====
-- The identity that a socket brings (`load_pem_certs`, `tls_acceptor`, `peer_cn` and the two accept
-- loops of `run`, crates/entmoot-node/src/lib.rs).
--
-- Files, PEM, X.509 and the handshake of rustls are parameters. Certificates and keys are their bytes.
pub mod Identity
mod Runs
use entmoot.Common.{
  ℕ, Bool, Option, none, some, List, [], ◌∷◌, ◌++◌, Result, ok, err, ◌>>=◌, ok_or, and_then, Str,
  Bytes, get_elem?, if◌then◌else◌,
}
use entmoot.Config.{TlsConfig}

pub data TlsError : Type 0 where
  open_file parse_certs : Str → TlsError
  parse_key no_key protocol_versions add_root client_verifier server_config : TlsError

pub record Acceptor : Type 0 where
  pub certs : List Bytes
  pub key : Bytes
  -- the roots of the verifier of client certificates
  pub client_roots : Option (List Bytes)

pub record TlsLibrary : Type 0 where
  pub open_ : Str → Option Bytes
  -- `rustls_pemfile::certs` and `private_key`
  pub pem_certs : Bytes → Option (List Bytes)
  pub pem_key : Bytes → Option (Option Bytes)
  pub versions : Bool
  pub is_root : List Bytes → Bytes → Bool
  pub builds_verifier : List Bytes → Bool
  pub fits : List Bytes → Bytes → Bool
  -- the common names of a certificate's subject, none for one that is not text
  pub common_names : Bytes → Option (List (Option Str))
  -- what a socket presents, if its handshake succeeds
  pub handshake : Acceptor → ℕ → Option (Option (List Bytes))

-- A socket at the plain listener, or one at the TLS listener.
pub data Socket : Type 0 where
  plain : Socket
  secured : ℕ → Socket

module _ (l : TlsLibrary) where
  unfoldable pub load_pem_certs : Str → Result (List Bytes) TlsError
  load_pem_certs path = do
    bytes ← ok_or (l.open_ path) (open_file path)
    ok_or (l.pem_certs bytes) (parse_certs path)

  unfoldable pub load_key : Str → Result Bytes TlsError
  load_key path = do
    bytes ← ok_or (l.open_ path) (open_file path)
    found ← ok_or (l.pem_key bytes) parse_key
    ok_or found no_key

  unfoldable pub add_roots : List Bytes → List Bytes → Result (List Bytes) TlsError
  add_roots roots [] = ok roots
  add_roots roots (c ∷ cs) =
      let rest = add_roots (roots ++ (c ∷ [])) cs in
      if l.is_root roots c then rest else err add_root

  unfoldable pub client_auth : Option Str → Result (Option (List Bytes)) TlsError
  unfolding load_pem_certs add_roots
  client_auth none = ok none
  client_auth (some ca_path) = do
    cs ← load_pem_certs ca_path
    roots ← add_roots [] cs
    if l.builds_verifier roots then ok (some roots) else err client_verifier

  unfoldable pub with_single_cert :
      List Bytes → Bytes → Option (List Bytes) → Result Acceptor TlsError
  with_single_cert certs key client_roots =
      if l.fits certs key
      then ok (record { certs = certs; key = key; client_roots = client_roots })
      else err server_config

  unfoldable pub tls_acceptor : TlsConfig → Result Acceptor TlsError
  unfolding load_pem_certs load_key client_auth with_single_cert
  tls_acceptor cfg = do
    certs ← load_pem_certs cfg.cert_file
    key ← load_key cfg.key_file
    _ ← if l.versions then ok (tt {0}) else err protocol_versions
    client_roots ← client_auth cfg.client_ca_file
    with_single_cert certs key client_roots

  -- `peer_cn`, of the certificates that the connection presents.
  unfoldable pub peer_cn : Option (List Bytes) → Option Str
  peer_cn presented = and_then presented λ certs.
      and_then (get_elem? certs 0)
        λ der. and_then (l.common_names der) λ names. and_then (get_elem? names 0) λ cn. cn

  -- What `spawn_client` is given as the identity of a socket that a listener has accepted; `none` if
  -- the handshake fails, or nothing listens there.
  unfoldable pub accept : Option Acceptor → Socket → Option (Option Str)
  unfolding peer_cn
  accept tls plain = some none
  accept none (secured socket) = none
  accept (some acceptor) (secured socket) = elim (l.handshake acceptor socket) [
    | none ↦ none
    | some presented ↦ some (peer_cn presented)
  ]
