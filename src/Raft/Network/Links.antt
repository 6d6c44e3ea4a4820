-- ===== src/Raft/Network/Links.antt =====
-- Which nodes reach which.
use vault_fs.Base.{
  String, Bool, not, ◌&&◌, ◌||◌, List, [], ◌∷◌, err, ◌≡◌, eq_iff, arith, if◌then◌else◌,
}
use vault_fs.Raft.Network.{
  InMemNetwork, partitioned, same_pair, blocked, unblock, partition, heal, reach,
}

-- The ordered pair is one way of the link between the two.
abbrev pub on_link : String → String → String → String → Bool
on_link a c from to = same_pair (a, c) from to || same_pair (c, a) from to

blocked-unblock :
    (ps : List (String × String)) (a c from to : String)
    → blocked (unblock ps a c) from to ≡ (not (same_pair (a, c) from to) && blocked ps from to)
unfolding blocked unblock
blocked-unblock [] a c from to = ground arith
blocked-unblock ((x, y) ∷ ps) a c from to = ground (
  arith,
  blocked-unblock ps a c from to,
  eq_iff x a,
  eq_iff y c,
  eq_iff x from,
  eq_iff y to,
  eq_iff a from,
  eq_iff c to,
)

-- Partition cuts the two nodes off from one another, in both directions, and no other pair; Heal,
-- whether or not behind a Partition, gives each of the two the other's handler again, if there is
-- one, and leaves what holds between all other pairs.
pub partition_heal_lem :
    (net : InMemNetwork) (a c from to : String)
    → (reach (partition net a c) from to
        ≡ (if on_link a c from to then err partitioned else reach net from to))
      × (reach (heal net a c) from to ≡ (
          if on_link a c from to
          then reach (record net { partitions = [] }) from to
          else reach net from to))
      × (reach (heal (partition net a c) a c) from to ≡ reach (heal net a c) from to)
unfolding reach partition heal blocked
partition_heal_lem net a c from to =
    let ps = net.partitions in
    let cut = (c, a) ∷ (a, c) ∷ ps in
    (
      ground arith,
      ground (arith, blocked-unblock (unblock ps a c) c a from to, blocked-unblock ps a c from to),
      ground (
        arith,
        blocked-unblock (unblock cut a c) c a from to,
        blocked-unblock cut a c from to,
        blocked-unblock (unblock ps a c) c a from to,
        blocked-unblock ps a c from to,
      ),
    )
