-- ===== src/Session/Identifiers.antt =====
-- The packet identifiers that `next_pkid` hands out.
use entmoot.Common.{
  ℕ, zero, suc, ◌+◌, ◌-◌, ◌%◌, ◌^◌, ◌≤◌, ◌<◌, ◌≡◌, ◌∙◌, ◌≢◌, arith, ◌==◌, if◌then◌else◌,
}
use entmoot.Session.{SessionState, next_pkid}

-- The identifier that is handed out at a counter: the counter, but for 0.
abbrev current : ℕ → ℕ
current counter = if counter == 0 then 1 else counter

pub next_pkid_lem :
    (s : SessionState)
    → s.pkid < 2 ^ 16
    → ((next_pkid s).0 ≡ current s.pkid)
      × ((next_pkid s).1.pkid < 2 ^ 16)
      × (current (next_pkid s).1.pkid ≡ current s.pkid % 65535 + 1)
unfolding next_pkid
next_pkid_lem s h = ground arith

-- The identifier that the call number `n`, counted from 0, returns.
unfoldable pub nth_pkid : ℕ → SessionState → ℕ
nth_pkid zero s = (next_pkid s).0
nth_pkid (suc n) s = nth_pkid n (next_pkid s).1

wrap :
    (n c d : ℕ) → d ≡ c % 65535 + 1 → 0 < c → (d - 1 + n) % 65535 + 1 ≡ (c - 1 + suc n) % 65535 + 1
wrap n c d e h = omega arith

nth_pkid_lem :
    (n : ℕ) (s : SessionState)
    → s.pkid < 2 ^ 16
    → nth_pkid n s ≡ (current s.pkid - 1 + n) % 65535 + 1
unfolding nth_pkid
nth_pkid_lem zero s h = let (a, b, c) = next_pkid_lem s h in ground (arith, a, h)
nth_pkid_lem (suc n) s h =
    let (a, b, c) = next_pkid_lem s h in
    nth_pkid_lem n (next_pkid s).1 b
    ∙ wrap n (current s.pkid) (current (next_pkid s).1.pkid) c (ground arith)

-- From a counter of 16 bits, every identifier is a 16-bit number other than 0, and 65535 calls in a
-- row return 65535 different ones.
pub nth_pkid-distinct :
    (s : SessionState) (m n : ℕ)
    → s.pkid < 2 ^ 16
    → m < n
    → n < m + 65535
    → (1 ≤ nth_pkid m s) × (nth_pkid m s < 2 ^ 16) × (nth_pkid m s ≢ nth_pkid n s)
nth_pkid-distinct s m n h p q = omega (arith, nth_pkid_lem m s h, nth_pkid_lem n s h)
