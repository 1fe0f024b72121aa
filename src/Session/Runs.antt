-- ===== src/Session/Runs.antt =====
-- The identifiers of a concrete session.
use entmoot.Common.{◌≤◌, ◌<◌, ◌^◌, ◌≡◌, ◌≢◌, none, [], false, codes, arith, refl}
use entmoot.Session.{SessionState, new, next_pkid, pkid_loop}
use entmoot.Session.Identifiers.{nth_pkid, nth_pkid-distinct}

abbrev late : SessionState
late = record (new (codes "c") 10 none none none (record { files = []; writable = false })) {
  pkid = 65535;
}

around_the_wrap : (nth_pkid 0 late ≡ 65535) × (nth_pkid 1 late ≡ 1) × (nth_pkid 2 late ≡ 2)
unfolding next_pkid pkid_loop nth_pkid
around_the_wrap = (refl, refl, refl)

nth_pkid-distinct_example :
    (1 ≤ nth_pkid 0 late) × (nth_pkid 0 late < 2 ^ 16) × (nth_pkid 0 late ≢ nth_pkid 65534 late)
nth_pkid-distinct_example = nth_pkid-distinct late 0 65534 (omega arith) (omega arith) (omega arith)
