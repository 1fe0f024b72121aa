-- ===== src/Node/Tls/Identity.antt =====
-- When a certificate vouches for a client.
use entmoot.Common.{
  get_elem?, and_then-eq-some, ℕ, ◌≡◌, refl, ◌∙◌, ap, Bool, true, Option, none, some, List, [], ◌∷◌,
  ◌++◌, ok, err, >>=-eq-ok, Str, Bytes, append-nil, append_assoc, ◌⊎◌, inl, inr, Option-cases,
  Bool-cases, if◌then◌else◌, arith,
}
use entmoot.Config.{TlsConfig}
use entmoot.Node.Tls.{
  TlsLibrary, protocol_versions, add_root, client_verifier, server_config, Acceptor, load_pem_certs,
  load_key, add_roots, client_auth, tls_acceptor, with_single_cert, peer_cn, accept, Socket, plain,
  secured,
}

-- What rustls promises of a handshake that succeeds: a server without a verifier asks for no certificate,
-- and one with a verifier has the chain that is presented checked against its roots.
pub record IsHandshake (l : TlsLibrary) (verifies : List Bytes → List Bytes → Bool) : Type 0 where
  pub unasked :
      (a : Acceptor) (socket : ℕ) (presented : Option (List Bytes))
      → a.client_roots ≡ none
      → l.handshake a socket ≡ some presented
      → presented ≡ none
  pub verified :
      (a : Acceptor) (socket : ℕ) (roots chain : List Bytes)
      → a.client_roots ≡ some roots
      → l.handshake a socket ≡ some (some chain)
      → verifies roots chain ≡ true

-- The grounds on which a certificate's name is taken for an identity.
pub record Vouched (l : TlsLibrary) (verifies : List Bytes → List Bytes → Bool) (cfg : TlsConfig)
    (identity : Str) : Type 0 where
  pub ca_path : Str
  pub configured : cfg.client_ca_file ≡ some ca_path
  pub roots : List Bytes
  pub roots_of_file : load_pem_certs l ca_path ≡ ok roots
  pub chain : List Bytes
  pub chain_verified : verifies roots chain ≡ true
  pub leaf : Bytes
  pub leaf_first : get_elem? chain 0 ≡ some leaf
  pub names : List (Option Str)
  pub names_of_leaf : l.common_names leaf ≡ some names
  pub named : get_elem? names 0 ≡ some (some identity)

module _ (l : TlsLibrary) where
  add_roots-all : (roots cs all : List Bytes) → add_roots l roots cs ≡ ok all → all ≡ roots ++ cs
  unfolding add_roots
  add_roots-all roots [] all h = cc (append-nil roots)
  add_roots-all roots (c ∷ cs) all h = elim (Bool-cases (l.is_root roots c)) [
    | inl e ↦ add_roots-all (roots ++ (c ∷ [])) cs all (rw e at h) ∙ append_assoc roots (c ∷ []) cs
    | inr e ↦ let f : err add_root ≡ ok all = rw e at h in cc
  ]

  -- The roots of an acceptor are those of the configured file.
  client_auth-cases :
      (ca : Option Str) (r : Option (List Bytes))
      → client_auth l ca ≡ ok r
      → ((ca ≡ none) × (r ≡ none))
        ⊎ ((path : Str) × (cs : List Bytes) × (ca ≡ some path)
            × (load_pem_certs l path ≡ ok cs)
            × (r ≡ some cs))
  unfolding client_auth
  client_auth-cases none r h = inl (refl, cc)
  client_auth-cases (some path) r h =
      let (cs, p, q) = >>=-eq-ok (load_pem_certs l path) _ h in
      let (roots, s, t) = >>=-eq-ok (add_roots l [] cs) _ q in
      let same = add_roots-all [] cs roots s in
      elim (Bool-cases (l.builds_verifier roots)) [
        | inl e ↦
            let f : ok (some roots) ≡ ok r = rw e at t in inr (path, cs, refl, p, cc (f, same))
        | inr e ↦ let f : err client_verifier ≡ ok r = rw e at t in absurd (cc f)
      ]

  with_single_cert-client_roots :
      (certs : List Bytes) (key : Bytes) (r : Option (List Bytes)) (a : Acceptor)
      → with_single_cert l certs key r ≡ ok a
      → r ≡ a.client_roots
  unfolding with_single_cert
  with_single_cert-client_roots certs key r a h = elim (Bool-cases (l.fits certs key)) [
    | inl e ↦
        let f : ok (record { certs = certs; key = key; client_roots = r }) ≡ ok a = rw e at h in
        ground (arith, f)
    | inr e ↦ let f : err server_config ≡ ok a = rw e at h in absurd (cc f)
  ]

  tls_acceptor-client_auth :
      (cfg : TlsConfig) (a : Acceptor)
      → tls_acceptor l cfg ≡ ok a
      → client_auth l cfg.client_ca_file ≡ ok a.client_roots
  unfolding tls_acceptor
  tls_acceptor-client_auth cfg a h =
      let (certs, _, h1) = >>=-eq-ok (load_pem_certs l cfg.cert_file) _ h in
      let (key, _, h2) = >>=-eq-ok (load_key l cfg.key_file) _ h1 in
      let (u, _, h3) = >>=-eq-ok (if l.versions then ok (tt {0}) else err protocol_versions) _ h2 in
      let (r, p, h4) = >>=-eq-ok (client_auth l cfg.client_ca_file) _ h3 in
      p ∙ ap ok (with_single_cert-client_roots certs key r a h4)

  module _ (verifies : List Bytes → List Bytes → Bool) (rustls : IsHandshake l verifies) where
    presented-Vouched :
        (cfg : TlsConfig) (a : Acceptor) (socket : ℕ) (presented : Option (List Bytes))
        (identity : Str)
        → tls_acceptor l cfg ≡ ok a
        → l.handshake a socket ≡ some presented
        → peer_cn l presented ≡ some identity
        → Vouched l verifies cfg identity
    unfolding peer_cn
    presented-Vouched cfg a socket none identity h p n = absurd (cc n)
    presented-Vouched cfg a socket (some chain) identity h p n =
        let (leaf, first, n1) = and_then-eq-some (get_elem? chain 0) _ n in
        let (names, parsed, n2) = and_then-eq-some (l.common_names leaf) _ n1 in
        let (cn, at, text) = and_then-eq-some (get_elem? names 0) _ n2 in
        elim (client_auth-cases cfg.client_ca_file a.client_roots
          (tls_acceptor-client_auth cfg a h)) [
            | inl (c, r) ↦ absurd (cc (rustls.unasked a socket (some chain) r p))
            | inr (path, roots, c, f, r) ↦ record {
              ca_path = path;
              configured = c;
              roots = roots;
              roots_of_file = f;
              chain = chain;
              chain_verified = rustls.verified a socket roots chain r p;
              leaf = leaf;
              leaf_first = first;
              names = names;
              names_of_leaf = parsed;
              named = at ∙ ap some text;
            }
          ]

    -- A socket brings an identity only if it has come in over TLS, the configuration names a file of
    -- client CAs, and the client has presented a chain that is verified against the certificates of that
    -- file; the identity is then the first common name of the chain's first certificate.
    pub accept-Vouched :
        (cfg : TlsConfig) (a : Acceptor) (socket : Socket) (identity : Str)
        → tls_acceptor l cfg ≡ ok a
        → accept l (some a) socket ≡ some (some identity)
        → ((s : ℕ) × (socket ≡ secured s)) × Vouched l verifies cfg identity
    unfolding accept
    accept-Vouched cfg a plain identity h n = absurd (cc n)
    accept-Vouched cfg a (secured s) identity h n = elim (Option-cases (l.handshake a s)) [
      | inl e ↦ let f : none ≡ some (some identity) = rw (e, accept) at n in absurd (cc f)
      | inr (presented, e) ↦
          let f : some (peer_cn l presented) ≡ some (some identity) = rw (e, accept) at n in
          ((s, refl), presented-Vouched cfg a s presented identity h e (cc f))
    ]
