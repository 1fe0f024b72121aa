-- ===== src/Node/Mesh.antt =====
-- The configuration of the Zenoh session (`zenoh_config` and `to_json_array` of
-- crates/entmoot-node/src/lib.rs).
--
-- `zenoh::Config` is a parameter. So is what `{:?}` prints for a character beyond ASCII, which the
-- tables of Unicode decide.
pub mod Json
pub mod Endpoints
mod Runs
use entmoot.Common.{
  ℕ, zero, suc, ◌+◌, ◌-◌, ◌/◌, ◌%◌, Bool, Option, none, some, List, [], ◌∷◌, ◌++◌, map, Result, ok,
  err, ◌>>=◌, ok_or, Str, codes, digits, join, ltb, ◌==◌, ◌||◌, if◌then◌else◌,
}
use entmoot.Config.{NodeConfig}

pub record ZenohConfig : Type 1 where
  pub Config : Type 0
  -- `zenoh::Config::default()`
  pub initial : Config
  -- `insert_json5`, or none if it refuses.
  pub insert_json5 : Config → Str → Str → Option Config

abbrev hex_digit : ℕ → ℕ
hex_digit n = if ltb n 10 then b'0' + n else b'a' + (n - 10)

-- `{:x}` of a number below 256
abbrev short_hex : ℕ → Str
short_hex b = if ltb b 16 then hex_digit b ∷ [] else hex_digit (b / 16) ∷ hex_digit (b % 16) ∷ []

-- `{:?}` of an ASCII character within a text.
unfoldable pub debug_ascii : ℕ → Str
debug_ascii b =
    if b == 0
    then codes "\\0"
    else if b == 0x09
    then codes "\\t"
    else if b == 0x0a
    then codes "\\n"
    else if b == 0x0d
    then codes "\\r"
    else if b == b'"' || b == 0x5c
    then 0x5c ∷ b ∷ []
    else if ltb b 0x20 || b == 0x7f
    then codes "\\u{" ++ (short_hex b ++ codes "}")
    else b ∷ []

-- How many bytes follow the first of a character.
abbrev following : ℕ → ℕ
following b = if ltb b 0xe0 then 1 else if ltb b 0xf0 then 2 else 3

module _ (debug_wide : Str → Str) where
  -- The characters of a text, with `need` bytes to come of one whose first bytes are `char`.
  unfoldable pub debug_chars : ℕ → Str → Str → Str
  debug_chars need char [] = []
  debug_chars zero char (b ∷ s) =
      let narrow = debug_chars 0 [] s in
      let wide = debug_chars (following b) (b ∷ []) s in
      if ltb b 0x80 then debug_ascii b ++ narrow else wide
  debug_chars (suc need) char (b ∷ s) =
      let complete = debug_chars 0 [] s in
      let longer = debug_chars need (char ++ (b ∷ [])) s in
      if need == 0 then debug_wide (char ++ (b ∷ [])) ++ complete else longer

  -- `format!("{s:?}")`
  unfoldable pub debug : Str → Str
  unfolding debug_chars debug_ascii
  debug s = b'"' ∷ (debug_chars 0 [] s ++ (b'"' ∷ []))

  unfoldable pub to_json_array : List Str → Str
  unfolding debug
  to_json_array items = b'[' ∷ (join b',' (map debug items) ++ (b']' ∷ []))

  module _ (z : ZenohConfig) where
    -- The error names the key.
    unfoldable pub set : z.Config → Str → Str → Result z.Config Str
    set zc key val = ok_or (z.insert_json5 zc key val) key

    unfoldable pub set_mtu : z.Config → Option ℕ → Result z.Config Str
    unfolding set
    set_mtu zc none = ok zc
    set_mtu zc (some mtu) = set zc (codes "transport/link/tx/batch_size") (digits 20 mtu)

    unfoldable pub zenoh_config : NodeConfig → Result z.Config Str
    unfolding set set_mtu
    zenoh_config cfg = do
      zc ← set z.initial (codes "mode") (codes "\"peer\"")
      zc ← set zc (codes "scouting/multicast/enabled") (codes "false")
      zc ← set zc (codes "listen/endpoints") (to_json_array cfg.zenoh_listen)
      zc ← set zc (codes "connect/endpoints") (to_json_array cfg.peers)
      set_mtu zc cfg.zenoh_link_mtu
