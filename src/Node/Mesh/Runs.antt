-- ===== src/Node/Mesh/Runs.antt =====
-- The configuration of Zenoh in a store of keys, for a node with two peers.
use entmoot.Common.{
  ℕ, zero, suc, ◌+◌, ◌/◌, ◌%◌, ◌<◌, ltb, Bool, true, Option, none, ap, Lacks, List, if◌then◌else◌,
  ◌≡◌, refl, false, some, [], ◌∷◌, Str, codes, digits, join, or_else, str_eq, str_eq_iff,
  str_eq_refl, Bool-cases, inl, inr, arith,
}
use mathlib.Core.Option
use entmoot.Common.Dict
use entmoot.Common.Dict.{Dict, get-insert}
use entmoot.Config.{NodeConfig, default_node_config}
use entmoot.Node.Mesh.{ZenohConfig, debug, debug_chars, to_json_array, set, set_mtu, zenoh_config}
use entmoot.Node.Mesh.Json.{
  Json, text, number, flag, texts, Reads, peer, off, decimal, array, read_array,
}
use entmoot.Common.{digits-Lacks, Lacks-append}
use entmoot.Node.Mesh.Endpoints.{IsStore, batch_size, zenoh_config-endpoints}

-- What this configuration makes of a text.
abbrev parsed : Option (List Str) → Str → Json
parsed (some items) val = texts items
parsed none val =
    if str_eq val (codes "false")
    then flag false
    else if str_eq val (codes "\"peer\"")
    then text (codes "peer")
    else number val

abbrev value_of : Str → Json
value_of val = parsed (read_array val) val

abbrev keys : ZenohConfig
keys = record {
  Config = Dict Json;
  initial = [];
  insert_json5 = λ zc key val. some (Dict.insert key (value_of val) zc);
}

-- A text without `[`, quote and `f`.
abbrev IsBare : Str → Type 0
IsBare s = Lacks b'[' s × Lacks b'"' s × Lacks b'f' s

digits-Lacks_high : (c fuel n : ℕ) → b'9' < c → Lacks c (digits fuel n)
unfolding digits
digits-Lacks_high c zero n h = tt
digits-Lacks_high c (suc fuel) n h =
    Lacks-append c (if ltb n 10 then [] else digits fuel (n / 10)) ((b'0' + n % 10) ∷ [])
      (shorter (digits fuel (n / 10)) (ltb n 10) (digits-Lacks_high c fuel (n / 10) h))
      (ground arith, tt)
  where
    shorter : (s : Str) (b : Bool) → Lacks c s → Lacks c (if b then [] else s)
    shorter s true p = tt
    shorter s false p = p

value_of_bare : (s : Str) → IsBare s → value_of s ≡ number s
unfolding read_array str_eq
value_of_bare [] h = refl
value_of_bare (b ∷ s) h = ground arith

value_of_read : (val : Str) (v : Json) → Reads val v → value_of val ≡ v
unfolding read_array str_eq
value_of_read _ _ peer = refl
value_of_read _ _ off = refl
value_of_read _ _ (decimal n) = value_of_bare (digits 20 n) (
  digits-Lacks_high b'[' 20 n (omega arith),
  digits-Lacks b'"' 20 n (omega arith),
  digits-Lacks_high b'f' 20 n (omega arith),
)
value_of_read val _ (array e) = rw e refl

other_key : (j k : Str) → str_eq j k ≡ false → str_eq k j ≡ false
other_key j k h = elim (Bool-cases (str_eq k j)) [
  | inl e ↦ cc ((str_eq_iff k j).0 e, h, str_eq_refl j)
  | inr e ↦ e
]

stored :
    (zc zc' : Dict Json) (key val : Str) (v : Json)
    → some (Dict.insert key (value_of val) zc) ≡ some zc'
    → Reads val v
    → Dict.get key zc' ≡ some v
stored zc zc' key val v e r =
    let same : Dict.insert key (value_of val) zc ≡ zc' = cc in
    rw (← same, get-insert key key (value_of val) zc, str_eq_refl key)
      (ap some (value_of_read val v r))

kept :
    (zc zc' : Dict Json) (key val j : Str)
    → some (Dict.insert key (value_of val) zc) ≡ some zc'
    → str_eq j key ≡ false
    → Dict.get j zc' ≡ Dict.get j zc
kept zc zc' key val j e n =
    let same : Dict.insert key (value_of val) zc ≡ zc' = cc in
    rw (← same, get-insert key j (value_of val) zc, other_key j key n)

keys-IsStore : IsStore keys (λ zc key. Dict.get key zc)
keys-IsStore = record {
  same = λ zc zc' key val v e r. stored zc zc' key val v e r;
  other = λ zc zc' key val j e n. kept zc zc' key val j e n;
}

abbrev two_peers : NodeConfig
two_peers = record default_node_config {
  peers = codes "tcp/10.0.0.2:7447" ∷ codes "tcp/\",\"x:1" ∷ [];
  zenoh_link_mtu = some 1400;
}

quoted :
    to_json_array (λ c. c) two_peers.peers ≡ codes "[\"tcp/10.0.0.2:7447\",\"tcp/\\\",\\\"x:1\"]"
unfolding to_json_array debug debug_chars join
quoted = refl

control :
    debug (λ c. c) (0 ∷ 0x1f ∷ 0xc3 ∷ 0xa9 ∷ 0x09 ∷ [])
    ≡ b'"' ∷ 0x5c ∷ b'0' ∷ 0x5c ∷ b'u' ∷ b'{' ∷ b'1' ∷ b'f' ∷ b'}' ∷ 0xc3 ∷ 0xa9 ∷ 0x5c ∷ b't'
      ∷ b'"' ∷ []
unfolding debug debug_chars
control = refl

abbrev opened : Dict Json
opened =
    (codes "mode", text (codes "peer"))
    ∷ (codes "scouting/multicast/enabled", flag false)
    ∷ (codes "listen/endpoints", texts two_peers.zenoh_listen)
    ∷ (codes "connect/endpoints", texts two_peers.peers)
    ∷ (batch_size, number (codes "1400"))
    ∷ []

zenoh_config-endpoints_example :
    (Dict.get (codes "mode") opened ≡ some (text (codes "peer")))
    × (Dict.get (codes "scouting/multicast/enabled") opened ≡ some (flag false))
    × (Dict.get (codes "listen/endpoints") opened ≡ some (texts two_peers.zenoh_listen))
    × (Dict.get (codes "connect/endpoints") opened ≡ some (texts two_peers.peers))
    × (Dict.get batch_size opened
        ≡ or_else
            (Option.map (λ n. number (digits 20 n)) two_peers.zenoh_link_mtu)
            (Dict.get batch_size keys.initial))
unfolding zenoh_config set set_mtu read_array to_json_array debug debug_chars join Dict.insert
    str_eq digits
zenoh_config-endpoints_example =
    zenoh_config-endpoints (λ c. c) keys (λ zc key. Dict.get key zc) keys-IsStore two_peers opened
      refl (omega arith) (omega arith)
