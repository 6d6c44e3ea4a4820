-- ===== src/Raft/Snapshots.antt =====
-- internal/raft/snapshot.go: compaction on request, and the InstallSnapshot RPC on both sides.
use vault_fs.Base.{
  ℕ, ◌+◌, String, true, Option, none, some, List, [], Result, ok, err, ltb, leb, if◌then◌else◌, u64,
}
use vault_fs.GoMap.{lookup_or, insert}
use vault_fs.Raft.Types.{InstallSnapshotArgs, InstallSnapshotReply, Snapshot}
use vault_fs.Raft.Log.{LogError, term, set_snapshot}
use vault_fs.Raft.Node.{Node, is_leader, become_follower}

abbrev pub snapshot_at : Node → List ℕ → Result LogError ℕ → Node × Result LogError Snapshot
snapshot_at n contents (err e) = (n, err e)
snapshot_at n contents (ok t) = (
  record n { log = set_snapshot n.log n.last_applied t },
  ok (record { last_included_index = n.last_applied; last_included_term = t; contents = contents }),
)

unfoldable pub take_snapshot : Node → List ℕ → Node × Result LogError Snapshot
take_snapshot n contents = snapshot_at n contents (term n.log n.last_applied)

-- sendSnapshot up to the RPC; `none` if the node leads no more.
unfoldable pub prepare_snapshot : Node → Option InstallSnapshotArgs
prepare_snapshot n =
    if is_leader n.state
    then some (record {
      term = n.current_term;
      leader_id = n.id;
      last_included_index = n.log.snap_index;
      last_included_term = n.log.snap_term;
      contents = [];
      offset = 0;
      done = true;
    })
    else none

-- sendSnapshot from the arrival of the reply.
unfoldable pub handle_snapshot_reply :
    Node → String → InstallSnapshotArgs → InstallSnapshotReply → Node
unfolding become_follower
handle_snapshot_reply n peer args reply =
    if ltb n.current_term reply.term
    then become_follower n reply.term
    else if is_leader n.state
    then (let old = lookup_or 0 peer n.match_index in
        record n {
          match_index =
              if ltb old args.last_included_index
              then insert peer args.last_included_index n.match_index
              else n.match_index;
          next_index = insert peer (u64 (args.last_included_index + 1)) n.next_index;
        })
    else n

-- HandleInstallSnapshot behind the test of the term.
unfoldable pub install : Node → InstallSnapshotArgs → Node
install n args = if leb args.last_included_index n.log.snap_index then n else record n {
  log = set_snapshot n.log args.last_included_index args.last_included_term;
  commit_index =
      if ltb n.commit_index args.last_included_index
      then args.last_included_index
      else n.commit_index;
  last_applied =
      if ltb n.last_applied args.last_included_index
      then args.last_included_index
      else n.last_applied;
}

-- The node as HandleInstallSnapshot leaves it when it has taken the sender for the leader.
unfoldable pub acknowledge : Node → InstallSnapshotArgs → Node
unfolding become_follower
acknowledge n args =
    let n' = if ltb n.current_term args.term then become_follower n args.term else n in
    record n' { leader_id = args.leader_id; election_reset = true }

unfoldable pub handle_install_snapshot : Node → InstallSnapshotArgs → Node × InstallSnapshotReply
handle_install_snapshot n args =
    if ltb args.term n.current_term
    then (n, record { term = n.current_term })
    else (install (acknowledge n args) args, record { term = (acknowledge n args).current_term })
