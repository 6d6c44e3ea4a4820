-- ===== src/Chunkserver/Tests.antt =====
-- A write over a chain of two servers.
use vault_fs.Base.{ℕ, ◌≡◌, refl, String, List, [], ◌∷◌, arith, ok, eq_iff}
use vault_fs.GoMap.{lookup, insert, erase, contains}
use vault_fs.Chunk.Store.{write_chunk, begin_write, finish_write}
use vault_fs.Chunkserver.{Cluster, write_chain}
use vault_fs.Chunkserver.Chain.{IsIdle, IsClean, is_intact, AllHave, write_chain_lem}

abbrev digest : List ℕ → String
digest [] = "none"
digest (b ∷ bs) = "some"

abbrev cluster : Cluster
cluster =
    ("s1", record { files = []; writing = [] }) ∷ ("s2", record { files = []; writing = [] }) ∷ []

cluster-IsIdle : IsIdle cluster "some"
unfolding lookup contains
cluster-IsIdle node s h = ground (arith, eq_iff "s1" node, eq_iff "s2" node)

cluster-IsClean : IsClean digest cluster "some"
unfolding lookup contains is_intact
cluster-IsClean node s h c = ground (arith, eq_iff "s1" node, eq_iff "s2" node)

run_chain : (write_chain digest cluster "s1" "some" (5 ∷ []) ("s2" ∷ [])).1 ≡ ok "some"
unfolding write_chain write_chunk begin_write finish_write lookup insert erase contains
run_chain = refl

write_chain_lem_example :
    (◌≡◌ {A = String} "some" "some")
    × (digest (5 ∷ []) ≡ "some")
    × AllHave digest
        (write_chain digest cluster "s1" "some" (5 ∷ []) ("s2" ∷ [])).0
        "some"
        ("s1" ∷ "s2" ∷ [])
write_chain_lem_example =
    write_chain_lem digest cluster "s1" "some" (5 ∷ []) ("s2" ∷ []) "some" cluster-IsIdle
      cluster-IsClean run_chain
