-- ===== src/Server/Observe.antt =====
-- The observers of accepted commands in src/mavctl/daemon/server.py: one round of the loops of
-- `_observe_operation` and `_spawn_operation_watch`, and what follows the deadline. Between two
-- rounds other requests are served, so a round takes the registry as it finds it.
use mavctl.Prelude.{ℕ, Bool, true, false, not, Option, none, some, if◌then◌else◌}
use mavctl.Models.State.{VehicleState}
use mavctl.Models.Operation.{is_waiting}
use mavctl.Operations.Registry.{
  Operation, Registry, record_reached, record_link_lost, record_uncertain, record_timed_out,
}
use mavctl.Server.World.{Poll, Goal, meets}

-- How a round ends: the observer sleeps, or it is over.
pub data Round : Type 0 where
  sleeps over : Registry → Round
  key_error : Round

-- The registry behind a round.
unfoldable pub behind : Round → Option Registry
behind (sleeps r) = some r
behind (over r) = some r
behind key_error = none

abbrev written : Option (Registry × Bool) → Round
written none = key_error
written (some (r, _)) = over r

-- The `except` clause of an observer.
unfoldable pub fail_observation : Operation → Registry → Round
unfolding record_uncertain
fail_observation operation r =
    written
      (record_uncertain "operation_observation_failed" operation.operation_id operation.epoch r)

-- A write inside the `try`; a `KeyError` of it is caught too.
unfoldable pub write : Operation → Registry → Option (Registry × Bool) → Round
unfolding fail_observation
write operation r none = fail_observation operation r
write operation r (some (s, _)) = over s

-- What the goal decides on a live link.
unfoldable pub decide : Operation → Registry → Option Bool → Round
unfolding fail_observation write record_reached
decide operation r none = fail_observation operation r
decide operation r (some true) =
    write operation r (record_reached operation.operation_id operation.epoch r)
decide operation r (some false) = sleeps r

unfoldable pub lose_link : Operation → Registry → Round
unfolding write record_link_lost
lose_link operation r =
    write operation r (record_link_lost operation.operation_id operation.epoch r)

-- A round of either loop.
unfoldable pub poll_operation : Goal → Poll → ℕ → Registry → Round
unfolding fail_observation lose_link decide meets
poll_operation goal poll a r =
    if not (is_waiting (r.heap a).state) then over r else elim poll.link [
      | none ↦ fail_observation (r.heap a) r
      | some linked ↦
          if not linked.connected
          then lose_link (r.heap a) r
          else decide (r.heap a) r (meets goal poll)
    ]

-- The last reading of the link, and the deadline's note.
unfoldable pub expire : Operation → Registry → Option VehicleState → Round
unfolding fail_observation lose_link write record_timed_out
expire operation r none = fail_observation operation r
expire operation r (some linked) =
    if not linked.connected
    then lose_link operation r
    else write operation r (record_timed_out operation.operation_id operation.epoch r)

-- The goal after the deadline, on a live link.
unfoldable pub decide_last : Operation → Registry → Option VehicleState → Option Bool → Round
unfolding fail_observation write record_reached expire
decide_last operation r relink none = fail_observation operation r
decide_last operation r relink (some true) =
    write operation r (record_reached operation.operation_id operation.epoch r)
decide_last operation r relink (some false) = expire operation r relink

-- What `_observe_operation` does after the deadline. `relink` is the second reading of the link.
unfoldable pub end_observation : Goal → Poll → Option VehicleState → ℕ → Registry → Round
unfolding fail_observation expire decide_last meets
end_observation goal poll relink a r =
    if not (is_waiting (r.heap a).state) then over r else elim poll.link [
      | none ↦ fail_observation (r.heap a) r
      | some linked ↦
          if not linked.connected
          then expire (r.heap a) r relink
          else decide_last (r.heap a) r relink (meets goal poll)
    ]
