-- ===== src/Programs/Heartbeats.antt =====
-- cmd/chunkserver/main.go: one round of the heartbeat loop, which tells every master. A master that is
-- not reached stays as it is; each notes the time of its own clock.
use vault_fs.Base.{
  ℕ, suc, ◌-◌, ◌≤◌, String, Bool, true, false, List, [], ◌∷◌, Option, none, some, ◌≡◌, refl, str_eq,
  eq_refl, All, if◌then◌else◌,
}
use vault_fs.Chunk.Store.{Store, count_chunks}
use vault_fs.Metadata.Monitor.{Monitor, default_dead_timeout}
use vault_fs.Master.{NodeInfo, Server}
use vault_fs.Master.Reads.{heartbeat, node_status, heartbeat_lem}

module _ {Db : Type 0} (reached : ℕ → Bool) (clock : ℕ → ℕ) where
  -- The loop over the masters, from the i-th on.
  unfoldable pub tell_masters : ℕ → List (Server Db) → String → ℕ → List (Server Db)
  tell_masters i [] node_id count = []
  tell_masters i (s ∷ masters) node_id count =
      let told = if reached i then (heartbeat s (clock i) node_id count).0 else s in
      told ∷ tell_masters (suc i) masters node_id count

  -- A server that cannot list its directory has no count, and it tells nobody.
  unfoldable pub send_heartbeats : List (Server Db) → String → Option ℕ → List (Server Db)
  send_heartbeats masters node_id none = masters
  send_heartbeats masters node_id (some count) = tell_masters 0 masters node_id count

-- The master has a monitor with the default timeout.
abbrev pub Watches : {Db : Type 0} → Server Db → Type 0
Watches s = (m : Monitor) × (s.monitor ≡ some m) × (m.timeout ≡ default_dead_timeout)

-- The master lists the server as alive and with this many chunks.
abbrev pub Lists : {Db : Type 0} → ℕ → NodeInfo → ℕ → Server Db → Type 0
Lists later n count s =
    ((node_status s.chunk_counts s.monitor later n).alive ≡ true)
    × ((node_status s.chunk_counts s.monitor later n).chunk_count ≡ count)

module _ {Db : Type 0} (clock : ℕ → ℕ) (later : ℕ) (n : NodeInfo)
    (named : str_eq n.node_id "" ≡ false)
    (soon : (i : ℕ) → later - clock i ≤ default_dead_timeout) where
  tell-Lists :
      (i : ℕ) (masters : List (Server Db)) (count : ℕ)
      → All Watches masters
      → All (Lists later n count) (tell_masters (λ i. true) clock i masters n.node_id count)
  unfolding tell_masters
  tell-Lists i [] count w = tt
  tell-Lists i (s ∷ masters) count ((m, watched, limit), w) =
      let told : (heartbeat s (clock i) n.node_id count).1 ≡ none =
        unfold heartbeat in rw named refl in
      let seen =
        heartbeat_lem s m (clock i) later n.node_id count n watched told (rw limit (soon i)) in
      (
        (rw (seen, eq_refl n.node_id) refl, rw (seen, eq_refl n.node_id) refl),
        tell-Lists (suc i) masters count w,
      )

  -- When every master is reached and no clock is more than the timeout behind the later time, every
  -- master that watches lists the server as alive, with the number of chunks in its store.
  pub send_heartbeats_lem :
      (masters : List (Server Db)) (store : Store)
      → All Watches masters
      → All
          (Lists later n (count_chunks store))
          (send_heartbeats (λ i. true) clock masters n.node_id (some (count_chunks store)))
  unfolding send_heartbeats
  send_heartbeats_lem masters store w = tell-Lists 0 masters (count_chunks store) w
