-- ===== src/Server/Sent.antt =====
-- What a request asks of the vehicle, and what it may do to it.
use mavctl.Prelude.{◌≡◌, true, false, some, upper}
use mavctl.Guards.Commands.{
  Command, arm, land, rtl, mission_clear, disarm, mode, takeoff, mission_upload, mission_start,
  GatesOpen,
}
use mavctl.Guards.Needs.{Needs}
use mavctl.Server.Interface.{VehicleAdapter, returned}
use mavctl.Server.Params.{RpcRequest, flag, read_altitude, read_mode, parse_mission}
use mavctl.Server.World.{DaemonServer}

module _ {V : Type 0} where
  -- The vehicle behind the verb of a command. A mission is started after the probe of its count.
  unfoldable pub effect : VehicleAdapter V → Command → V → V
  effect adapter arm v = (adapter.arm v).1
  effect adapter land v = (adapter.land v).1
  effect adapter rtl v = (adapter.rtl v).1
  effect adapter mission_clear v = (adapter.clear_mission v).1
  effect adapter (disarm force) v = (adapter.disarm force v).1
  effect adapter (mode name available) v = (adapter.set_mode name v).1
  effect adapter (takeoff altitude) v = (adapter.takeoff altitude v).1
  effect adapter (mission_upload mission) v = (adapter.upload_mission mission v).1
  effect adapter (mission_start count) v = (adapter.start_mission (adapter.get_mission_count v).1).1

  -- The request asks for the command, in its method and its parameters; the count of a mission is
  -- the one that the vehicle reports.
  abbrev pub Asked : DaemonServer V → RpcRequest → V → Command → Type 0
  Asked self q v arm = (q.method ≡ "arm") × (flag "force" q.params ≡ false)
  Asked self q v land = q.method ≡ "land"
  Asked self q v rtl = q.method ≡ "rtl"
  Asked self q v mission_clear = q.method ≡ "mission_clear"
  Asked self q v (disarm force) = (q.method ≡ "disarm") × (flag "force" q.params ≡ force)
  Asked self q v (mode name available) =
      (q.method ≡ "mode")
      × (upper (read_mode self.py q.params) ≡ name)
      × (self.adapter.mode_names v ≡ available)
  Asked self q v (takeoff altitude) =
      (q.method ≡ "takeoff") × (read_altitude self.py q.params ≡ some altitude)
  Asked self q v (mission_upload mission) =
      (q.method ≡ "mission_upload") × (parse_mission self.py q.params ≡ some mission)
  Asked self q v (mission_start count) =
      (q.method ≡ "mission_start") × ((self.adapter.get_mission_count v).0 ≡ returned count)

  -- The command is asked for, confirmed and no dry run, the heartbeat is fresh, and the vehicle is
  -- as the command needs it.
  pub record Sent (self : DaemonServer V) (q : RpcRequest) (v : V) (c : Command) : Type 0 where
    pub asked : Asked self q v c
    pub not_dry : flag "dry_run" q.params ≡ false
    pub gates : GatesOpen (self.adapter.get_state v) (flag "confirm" q.params) self.guard_config
    pub needs : Needs c (self.adapter.get_state v) self.guard_config

  -- The vehicle is left alone, or its mission is read on a live link, or the command is sent.
  pub data Effect (self : DaemonServer V) (q : RpcRequest) (v : V) : V → Type 0 where
    untouched : Effect self q v v
    downloads :
        q.method ≡ "mission_download"
        → (self.adapter.get_state v).connected ≡ true
        → Effect self q v (self.adapter.download_mission v).1
    counts :
        q.method ≡ "mission_start"
        → (self.adapter.get_state v).connected ≡ true
        → Effect self q v (self.adapter.get_mission_count v).1
    sends : (c : Command) → Sent self q v c → Effect self q v (effect self.adapter c v)
