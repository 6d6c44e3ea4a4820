-- ===== src/Metadata/Version.antt =====
-- internal/metadata/version.go: the causal history of a chunk.
use vault_fs.Base.{String, Bool, []}
use vault_fs.Clock.Vector.{VectorClock, increment, merge, happens_before, concurrent, equal}

pub record ChunkVersion : Type 0 where
  pub chunk_id : String
  pub clock : VectorClock

unfoldable pub new_chunk_version : String → ChunkVersion
new_chunk_version chunk_id = record { chunk_id = chunk_id; clock = [] }

unfoldable pub write : ChunkVersion → String → ChunkVersion
write v node_id = record { chunk_id = v.chunk_id; clock = increment node_id v.clock }

unfoldable pub join : ChunkVersion → ChunkVersion → ChunkVersion
join v other = record { chunk_id = v.chunk_id; clock = merge v.clock other.clock }

abbrev pub precedes : ChunkVersion → ChunkVersion → Bool
precedes v other = happens_before v.clock other.clock

abbrev pub conflicts : ChunkVersion → ChunkVersion → Bool
conflicts v other = concurrent v.clock other.clock

abbrev pub agrees : ChunkVersion → ChunkVersion → Bool
agrees v other = equal v.clock other.clock
