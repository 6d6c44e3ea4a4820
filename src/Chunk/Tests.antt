-- ===== src/Chunk/Tests.antt =====
-- Runs of the chunk store and its collector, and the theorems at concrete inputs. The digest of the
-- runs tells only empty contents from others.
use vault_fs.Base.{
  ℕ, ◌-◌, ◌≤◌, true, ◌≡◌, ◌≢◌, refl, String, Bool, false, List, [], ◌∷◌, arith, eq_iff,
}
use mathlib.Core.Bool.{false≢true}
use vault_fs.GoMap.{IsMap, lookup, lookup_or, contains, insert, erase}
use vault_fs.Chunk.Store.{Store, valid, valid_names, list_chunks, delete_chunk}
use vault_fs.Chunk.Store.Access.{IsVerified}
use vault_fs.Chunk.Gc.{Gc, sweep_chunks, collect, collect_one, live_set, forget}
use vault_fs.Chunk.Gc.Timers.{SweepAt, run_sweeps, OrphanSince, collected_lem}

abbrev digest : List ℕ → String
digest [] = "none"
digest (b ∷ bs) = "some"

-- The chunk of the empty contents.
abbrev store : Store
store = record { files = ("none", []) ∷ []; writing = [] }

none≢some : ◌≢◌ {A = String} "none" "some"
none≢some e = false≢true ((eq_iff "none" "some").1 e)

store-IsVerified : IsVerified digest store
unfolding lookup
store-IsVerified id c h = ground (arith, eq_iff "none" id)

-- The file of the empty contents has a byte in it.
abbrev broken : Store
broken = record { files = ("none", 9 ∷ []) ∷ []; writing = [] }

abbrev orphan : String
orphan = "0123456789abcdef0123456789abcdef0123456789abcdef0123456789abcdef"

abbrev collector : Gc
collector = record { grace = 10; orphaned_at = (orphan, 5) ∷ [] }

abbrev full : Store
full = record { files = (orphan, 1 ∷ []) ∷ ("notes", 2 ∷ []) ∷ []; writing = [] }

abbrev unused : String → Bool
unused id = false

run_sweep : (sweep_chunks unused 15 collector full).1.files ≡ ("notes", 2 ∷ []) ∷ []
unfolding sweep_chunks collect collect_one live_set forget list_chunks valid_names valid
    delete_chunk lookup lookup_or contains insert erase
run_sweep = refl

full-IsMap : IsMap full.files
unfolding lookup
full-IsMap = (refl, (refl, tt))

-- The orphan is seen at 5 and goes at 15.
abbrev sweep_at : ℕ → SweepAt
sweep_at now = record { is_referenced = unused; now = now; store = full }

orphan_stored : contains orphan full.files ≡ true
unfolding contains lookup
orphan_stored = refl

orphan_collected :
    contains orphan (sweep_chunks unused 15 (run_sweeps 10 (sweep_at 5 ∷ [])) full).1.files ≡ false
unfolding run_sweeps sweep_chunks collect collect_one live_set forget list_chunks valid_names valid
    delete_chunk lookup lookup_or contains insert erase
orphan_collected = refl

collected_lem_example :
    (t : ℕ) × OrphanSince orphan t (sweep_at 15 ∷ sweep_at 5 ∷ []) × (10 ≤ 15 - t)
collected_lem_example =
    collected_lem 10 (sweep_at 15) (sweep_at 5 ∷ []) orphan (full-IsMap, (full-IsMap, tt))
      orphan_stored orphan_collected
