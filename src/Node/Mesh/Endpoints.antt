-- ===== src/Node/Mesh/Endpoints.antt =====
-- The endpoints that the configuration of Zenoh holds, read back as JSON.
use entmoot.Common.{
  ℕ, ◌≡◌, refl, ap, ◌∙◌, false, Option, none, some, ok, >>=-eq-ok, ok_or-eq-ok, Str, codes, digits,
  All, or_else, str_eq,
}
use mathlib.Core.Option
use entmoot.Config.{NodeConfig}
use entmoot.Node.Mesh.{ZenohConfig, to_json_array, zenoh_config, set, set_mtu}
use entmoot.Node.Mesh.Json.{
  Json, text, number, flag, texts, Reads, peer, off, decimal, array, IsPlain,
  read_array-to_json_array,
}

abbrev pub batch_size : Str
batch_size = codes "transport/link/tx/batch_size"

-- The configuration holds under a key the value that the text inserted there last is read as.
pub record IsStore (z : ZenohConfig) (get : z.Config → Str → Option Json) : Type 0 where
  pub same :
      (zc zc' : z.Config) (key val : Str) (v : Json)
      → z.insert_json5 zc key val ≡ some zc'
      → Reads val v
      → get zc' key ≡ some v
  pub other :
      (zc zc' : z.Config) (key val j : Str)
      → z.insert_json5 zc key val ≡ some zc'
      → str_eq j key ≡ false
      → get zc' j ≡ get zc j

module _ (debug_wide : Str → Str) (z : ZenohConfig) (get : z.Config → Str → Option Json)
    (store : IsStore z get) where
  set-get :
      (zc zc' : z.Config) (key val : Str) (v : Json)
      → set debug_wide z zc key val ≡ ok zc'
      → Reads val v
      → (get zc' key ≡ some v) × ((j : Str) → str_eq j key ≡ false → get zc' j ≡ get zc j)
  unfolding set
  set-get zc zc' key val v h r =
      let e = ok_or-eq-ok (z.insert_json5 zc key val) key h in
      (store.same zc zc' key val v e r, λ j n. store.other zc zc' key val j e n)

  set_mtu-get :
      (zc zc' : z.Config) (mtu : Option ℕ)
      → set_mtu debug_wide z zc mtu ≡ ok zc'
      → (get zc' batch_size
          ≡ or_else (Option.map (λ n. number (digits 20 n)) mtu) (get zc batch_size))
        × ((j : Str) → str_eq j batch_size ≡ false → get zc' j ≡ get zc j)
  unfolding set_mtu
  set_mtu-get zc zc' none h = let e : zc ≡ zc' = cc in rw e (refl, λ j n. refl)
  set_mtu-get zc zc' (some mtu) h =
      set-get zc zc' batch_size (digits 20 mtu) (number (digits 20 mtu)) h (decimal mtu)

  -- The session that a node opens is a peer, does not look for others on its network, listens and
  -- connects on exactly the configured endpoints if these are printable ASCII, and has the configured
  -- batch size if there is one, and else that of Zenoh's own configuration. Zenoh takes every setting,
  -- keeps it until the same key is set again, and reads a text as JSON5 does.
  pub zenoh_config-endpoints :
      (cfg : NodeConfig) (zc : z.Config)
      → zenoh_config debug_wide z cfg ≡ ok zc
      → All IsPlain cfg.zenoh_listen
      → All IsPlain cfg.peers
      → (get zc (codes "mode") ≡ some (text (codes "peer")))
        × (get zc (codes "scouting/multicast/enabled") ≡ some (flag false))
        × (get zc (codes "listen/endpoints") ≡ some (texts cfg.zenoh_listen))
        × (get zc (codes "connect/endpoints") ≡ some (texts cfg.peers))
        × (get zc batch_size
            ≡ or_else
                (Option.map (λ n. number (digits 20 n)) cfg.zenoh_link_mtu)
                (get z.initial batch_size))
  unfolding zenoh_config str_eq
  zenoh_config-endpoints cfg zc h pl pc =
      let (c1, h1, r1) =
        >>=-eq-ok (set debug_wide z z.initial (codes "mode") (codes "\"peer\"")) _ h in
      let (c2, h2, r2) =
        >>=-eq-ok (set debug_wide z c1 (codes "scouting/multicast/enabled") (codes "false")) _ r1 in
      let (c3, h3, r3) =
        >>=-eq-ok
          (set debug_wide z c2 (codes "listen/endpoints")
            (to_json_array debug_wide cfg.zenoh_listen))
          _ r2 in
      let (c4, h4, h5) =
        >>=-eq-ok
          (set debug_wide z c3 (codes "connect/endpoints") (to_json_array debug_wide cfg.peers)) _
          r3 in
      let (g1, o1) = set-get z.initial c1 _ _ _ h1 peer in
      let (g2, o2) = set-get c1 c2 _ _ _ h2 off in
      let (g3, o3) =
        set-get c2 c3 _ _ _ h3 (array (read_array-to_json_array debug_wide cfg.zenoh_listen pl)) in
      let (g4, o4) =
        set-get c3 c4 _ _ _ h4 (array (read_array-to_json_array debug_wide cfg.peers pc)) in
      let (g5, o5) = set_mtu-get c4 zc cfg.zenoh_link_mtu h5 in
      (
        o5 (codes "mode") refl
            ∙ o4 (codes "mode") refl
            ∙ o3 (codes "mode") refl
            ∙ o2 (codes "mode") refl
            ∙ g1,
        o5 (codes "scouting/multicast/enabled") refl
            ∙ o4 (codes "scouting/multicast/enabled") refl
            ∙ o3 (codes "scouting/multicast/enabled") refl
            ∙ g2,
        o5 (codes "listen/endpoints") refl ∙ o4 (codes "listen/endpoints") refl ∙ g3,
        o5 (codes "connect/endpoints") refl ∙ g4,
        g5
            ∙ ap (or_else (Option.map (λ n. number (digits 20 n)) cfg.zenoh_link_mtu))
                (o4 batch_size refl ∙ o3 batch_size refl ∙ o2 batch_size refl ∙ o1 batch_size refl),
      )
