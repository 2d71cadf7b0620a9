-- ===== src/Gate/Reports.antt =====
-- backend/internal/concurrency/gate.go: releasing twice, and what `Stats` reports.
use songguo.Prelude.{ℕ, ◌≡◌, refl, none, some, List, [], ◌∷◌, String, arith, length, eq_iff}
use songguo.Prelude.Map.{Map, lookup, insert, lookup-insert, get_or, IsUnique, lookup-is_missing}
use songguo.Gate.{
  Gate, Releaser, call_release, in_flight_of, queue_of, Occupancy, stats, stats_running,
  stats_waiting,
}

-- A release func that is called again gives nothing back.
pub call_release_twice :
    (g : Gate) (r : Releaser) → let (g', r') = call_release g r in call_release g' r' ≡ (g', r')
unfolding call_release
call_release_twice g r = ground arith

abbrev pub idle : Occupancy
idle = record { running = 0; waiting = 0 }

lookup-stats_running :
    (g : Gate) (c : String) (m : Map ℕ) (out : Map Occupancy)
    → IsUnique m
    → lookup c (stats_running g m out) ≡ elim (lookup c m) [
      | none ↦ lookup c out
      | some n ↦ some (record { running = n; waiting = length (queue_of g c) })
    ]
unfolding stats_running lookup
lookup-stats_running g c [] out u = refl
lookup-stats_running g c ((d, n) ∷ m) out u =
    let o : Occupancy = record { running = n; waiting = length (queue_of g d) } in
    ground (
      arith,
      eq_iff d c,
      lookup-is_missing d m u.0,
      lookup-insert d c o out,
      lookup-stats_running g c m (insert d o out) u.1,
    )

get_or-stats_waiting :
    (c : String) (m : Map (List ℕ)) (out : Map Occupancy)
    → IsUnique m
    → get_or c idle (stats_waiting m out) ≡ elim (lookup c out) [
      | none ↦ record { running = 0; waiting = length (get_or c [] m) }
      | some o ↦ o
    ]
unfolding stats_waiting get_or
get_or-stats_waiting c [] out u = ground arith
get_or-stats_waiting c ((d, q) ∷ m) out u =
    let o : Occupancy = record { running = 0; waiting = length q } in
    ground (
      arith,
      eq_iff d c,
      lookup-is_missing d m u.0,
      lookup-insert d c o out,
      get_or-stats_waiting c m (insert d o out) u.1,
      get_or-stats_waiting c m out u.1,
    )

-- For every credential `Stats` reports its requests in flight and its queued callers; a credential
-- that it leaves out has neither.
pub stats_lem :
    (g : Gate) (c : String)
    → IsUnique g.in_flight
    → IsUnique g.waiters
    → get_or c idle (stats g)
      ≡ record { running = in_flight_of g c; waiting = length (queue_of g c) }
unfolding stats in_flight_of queue_of get_or
stats_lem g c u w = ground (
  arith,
  get_or-stats_waiting c g.waiters (stats_running g g.in_flight []) w,
  lookup-stats_running g c g.in_flight [] u,
)
