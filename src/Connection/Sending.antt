-- ===== src/Connection/Sending.antt =====
-- A send while the writer is open.
use entmoot.Common.{◌≡◌, ap, true, err, [], ◌∷◌, ◌++◌, if◌then◌else◌}
use entmoot.Mqtt.{Packet}
use entmoot.Connection.{Client, writer_closed, done, send}

pub send_open :
    (p : Packet) (c : Client)
    → c.writer_open ≡ true
    → send p c ≡ done (record c { sent = c.sent ++ (p ∷ []) })
unfolding send
send_open p c w =
    ap (λ t. if t then done (record c { sent = c.sent ++ (p ∷ []) }) else (err writer_closed, c)) w
