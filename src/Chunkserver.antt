-- ===== src/Chunkserver.antt =====
-- internal/chunkserver/server.go: the chunk servers of a cluster, each with its store. A server is
-- named by its address; a call of one that the cluster does not have fails like a dial. No context is
-- cancelled, and metrics are left out.
pub mod Chain
mod Tests
use vault_fs.Base.{
  ℕ, String, Bool, true, false, not, none, some, List, [], ◌∷◌, Result, ok, err, if◌then◌else◌,
}
use vault_fs.GoMap.{Map, lookup, insert}
use vault_fs.Chunk.Store.{
  Store, StoreError, chunk_not_found, checksum_failed, out_of_range, verify, write_chunk,
  read_chunk, delete_chunk,
}

-- The gRPC codes of the handlers, and the crash of a server that panics.
pub data Failure : Type 0 where
  invalid_argument internal unavailable not_found data_loss panicked : Failure

abbrev pub Cluster : Type 0
Cluster = Map Store

-- What ReadChunk of the server makes of an error of the store.
abbrev pub read_failure : StoreError → Failure
read_failure chunk_not_found = not_found
read_failure out_of_range = panicked
read_failure _ = data_loss

-- What WriteChunk of the server makes of an error of the store.
abbrev pub write_failure : StoreError → Failure
write_failure out_of_range = panicked
write_failure _ = internal

module _ (hash : List ℕ → String) where
  -- WriteChunk at a server with the rest of the chain, each server of which forwards to the next. A
  -- server has stored the chunk before it forwards it.
  unfoldable pub write_chain :
      Cluster → String → String → List ℕ → List String → Cluster × Result Failure String
  write_chain cluster node chunk_id contents [] = elim (lookup node cluster) [
    | none ↦ (cluster, err unavailable)
    | some store ↦
        if not (verify hash chunk_id contents)
        then (cluster, err invalid_argument)
        else let (store', written) = write_chunk hash false store contents in
          elim written [
            | err e ↦ (insert node store' cluster, err (write_failure e))
            | ok id ↦ (insert node store' cluster, ok id)
          ]
  ]
  write_chain cluster node chunk_id contents (next ∷ downstream) = elim (lookup node cluster) [
    | none ↦ (cluster, err unavailable)
    | some store ↦
        if not (verify hash chunk_id contents)
        then (cluster, err invalid_argument)
        else let (store', written) = write_chunk hash false store contents in
          let stored = insert node store' cluster in
          let (forwarded, reply) = write_chain stored next chunk_id contents downstream in
          elim written [
            | err e ↦ (stored, err (write_failure e))
            | ok id ↦ elim reply [
              | err e ↦ (forwarded, err unavailable)
              | ok _ ↦ (forwarded, ok id)
            ]
          ]
  ]

  -- ReadChunk
  unfoldable pub serve_read : Store → String → Result Failure (List ℕ)
  serve_read store chunk_id = elim (read_chunk hash false store chunk_id) [
    | err e ↦ err (read_failure e)
    | ok contents ↦ ok contents
  ]

  -- ReplicateChunk: pull a chunk from the source and store it.
  unfoldable pub replicate_chunk :
      Cluster → String → String → String → Cluster × Result Failure String
  replicate_chunk cluster node source chunk_id = elim (lookup node cluster) [
    | none ↦ (cluster, err unavailable)
    | some store ↦ elim (lookup source cluster) [
      | none ↦ (cluster, err unavailable)
      | some from ↦ elim (serve_read from chunk_id) [
        | err _ ↦ (cluster, err unavailable)
        | ok contents ↦
            let (store', written) = write_chunk hash false store contents in
            elim written [
              | err e ↦ (insert node store' cluster, err (write_failure e))
              | ok id ↦ (insert node store' cluster, ok id)
            ]
      ]
    ]
  ]
