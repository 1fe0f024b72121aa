-- ===== src/Node/Tls/Runs.antt =====
-- A TLS listener with a file of client CAs, at a library that knows one authority.
use entmoot.Common.{ℕ, ◌≡◌, refl, Bool, true, Option, none, some, List, [], ◌∷◌, Str, Bytes, codes}
use entmoot.Config.{TlsConfig}
use entmoot.Node.Tls.{TlsLibrary, Acceptor, secured, tls_acceptor, accept, peer_cn}
use entmoot.Node.Tls.Identity.{IsHandshake, Vouched, accept-Vouched}

-- The certificate of a client is the byte 7 before its name; that of its authority is the byte 9.
abbrev name_of : Bytes → Option (List (Option Str))
name_of [] = none
name_of (b ∷ name) = some (some name ∷ [])

abbrev presented_to : Option (List Bytes) → Option (Option (List Bytes))
presented_to none = some none
presented_to (some roots) = some (some ((7 ∷ codes "ann") ∷ []))

abbrev library : TlsLibrary
library = record {
  open_ = λ path. some path;
  pem_certs = λ bytes. some ((9 ∷ []) ∷ []);
  pem_key = λ bytes. some (some bytes);
  versions = true;
  is_root = λ roots c. true;
  builds_verifier = λ roots. true;
  fits = λ certs key. true;
  common_names = name_of;
  handshake = λ a socket. presented_to a.client_roots;
}

abbrev verifies : List Bytes → List Bytes → Bool
verifies roots chain = true

acceptor_cases :
    (r : Option (List Bytes)) (presented : Option (List Bytes))
    → r ≡ none
    → presented_to r ≡ some presented
    → presented ≡ none
acceptor_cases none presented e h = cc
acceptor_cases (some roots) presented e h = absurd (cc e)

library-IsHandshake : IsHandshake library verifies
library-IsHandshake = record {
  unasked = λ a socket presented e h. acceptor_cases a.client_roots presented e h;
  verified = λ a socket roots chain e h. refl;
}

abbrev mutual_tls : TlsConfig
mutual_tls = record {
  listen = codes "0.0.0.0:8883";
  cert_file = codes "cert.pem";
  key_file = codes "key.pem";
  client_ca_file = some (codes "ca.pem");
}

abbrev acceptor : Acceptor
acceptor = record {
  certs = (9 ∷ []) ∷ [];
  key = codes "key.pem";
  client_roots = some ((9 ∷ []) ∷ []);
}

accept-Vouched_example :
    ((s : ℕ) × (secured 5 ≡ secured s)) × Vouched library verifies mutual_tls (codes "ann")
unfolding tls_acceptor accept peer_cn
accept-Vouched_example =
    accept-Vouched library verifies library-IsHandshake mutual_tls acceptor (secured 5)
      (codes "ann") refl refl
