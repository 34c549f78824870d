-- ===== src/Delivery/Connections.antt =====
-- The connection counts of server/streamMultiplexer.ts.
use sync_resource.Shared.{
  ℕ, ◌+◌, ◌-◌, ◌≤◌, String, ◌≡◌, refl, true, false, some, arith, eq_iff, eq_refl, leb, or_default,
}
use sync_resource.Shared.JsMap.{JsMap, get, put, get-put, get-delete}
use sync_resource.Delivery.{increment_ip, decrement_ip}

-- The count that the code reads for an address.
abbrev pub connections_of : String → JsMap ℕ → ℕ
connections_of ip connections = or_default (get ip connections) 0

-- A stream that is let in and closed again leaves the count of every address as it was.
pub decrement_ip-increment_ip :
    (max_connections : ℕ) (connections : JsMap ℕ) (ip other : String)
    → (increment_ip max_connections connections ip).1 ≡ true
    → connections_of other (decrement_ip (increment_ip max_connections connections ip).0 ip)
      ≡ connections_of other connections
unfolding increment_ip decrement_ip
decrement_ip-increment_ip max_connections connections ip other admitted =
    let current = or_default (get ip connections) 0 in
    let added = put ip (current + 1) connections in
    let room : leb max_connections current ≡ false = ground arith in
    let counted : get ip added ≡ some (current + 1) =
      rw (get-put ip ip (current + 1) connections, eq_refl ip) refl in
    rw (room, counted)
      (ground (
        arith,
        get-put ip other (current + 1) connections,
        get-put ip other (current + 1 - 1) added,
        get-delete ip other added,
        eq_iff ip other,
      ))

-- Where an address has no more streams than the limit, it has no more of them after a stream of any
-- address asks to be let in, or is closed.
pub increment_ip-bounded :
    (max_connections : ℕ) (connections : JsMap ℕ) (ip other : String)
    → connections_of other connections ≤ max_connections
    → (connections_of other (increment_ip max_connections connections ip).0 ≤ max_connections)
      × (connections_of other (decrement_ip connections ip) ≤ max_connections)
unfolding increment_ip decrement_ip
increment_ip-bounded max_connections connections ip other h =
    let current = or_default (get ip connections) 0 in
    (
      ground (arith, get-put ip other (current + 1) connections),
      ground (
        arith,
        get-put ip other (current - 1) connections,
        get-delete ip other connections,
        eq_iff ip other,
      ),
    )
