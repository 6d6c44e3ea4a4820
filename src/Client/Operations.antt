-- ===== src/Client/Operations.antt =====
-- pkg/client/client.go: the operations of the client, over an interface of the calls that it makes.
-- The cluster is one value that each call may change, like everything that happens around it. A
-- local file is the list of its bytes; reading and writing it does not fail.
mod Tests
pub mod Reading
pub mod Fallback
pub mod Durable
pub mod Writing
use vault_fs.Base.{
  ℕ, zero, suc, ◌+◌, String, Bool, true, false, not, List, [], ◌∷◌, ◌++◌, Option, none, some,
  Result, ok, err, Text, if◌then◌else◌, length, ◌==◌, leb, map,
}
use vault_fs.Master.{NodeInfo}
use vault_fs.Master.Requests.{FileReply}
use vault_fs.Master.Reads.{ChunkLocation, StatusReply}
use vault_fs.Client.File.{Chunk, default_chunk_size, split_chunks, verify_chunk}
use vault_fs.Client.Retry.{CallError, context_done, is_transient}

-- What the client calls. `connects` is the pool's connection to an address, `ended` the test of the
-- context, and `pause` a wait, which says whether the context ended in it.
pub record Network : Type 1 where
  pub World : Type 0
  pub ended : World → Bool
  pub pause : World → World × Bool
  pub connects : World → String → Bool
  pub open_for_write :
      World → String → Text → List String → World × Result CallError (List ChunkLocation)
  pub finalize_write : World → String → Text → List String → ℕ → World × Result CallError (Unit {0})
  pub open_for_read :
      World → String → Text → World × Result CallError (FileReply × List ChunkLocation)
  pub stat_path : World → String → Text → World × Result CallError FileReply
  pub list_path : World → String → Text → World × Result CallError (List FileReply)
  pub delete_path : World → String → Text → World × Result CallError (Unit {0})
  pub cluster_state : World → String → World × Result CallError StatusReply
  pub send_chunk :
      World → String → String → List ℕ → List String → World × Result CallError (Unit {0})
  pub fetch_chunk : World → String → String → World × Result CallError (List ℕ)

pub data ClientError : Type 0 where
  rpc_failed : CallError → ClientError
  cannot_connect no_master wrong_plan no_chunk_server missing_location no_replicas bad_checksum :
      ClientError

pub record Client : Type 0 where
  pub master_addrs : List String
  pub chunk_size : ℕ

-- A size below 1 is 0.
unfoldable pub new_client : List String → ℕ → Result ClientError Client
new_client addrs size =
    if length addrs == 0
    then err no_master
    else ok (record {
      master_addrs = addrs;
      chunk_size = if leb size 0 then default_chunk_size else size;
    })

-- The error of the last attempt, or the one for none.
abbrev pub last_or : ClientError → Option ClientError → ClientError
last_or e none = e
last_or e (some last) = last

-- The addresses of the nodes.
unfoldable pub addresses : List NodeInfo → List String
addresses [] = []
addresses (n ∷ nodes) = n.address ∷ addresses nodes

-- The loop over the chunks in Put that collects ids and the size.
unfoldable pub chunk_ids : List Chunk → List String
chunk_ids [] = []
chunk_ids (ch ∷ chunks) = ch.id ∷ chunk_ids chunks

unfoldable pub total_size : List Chunk → ℕ
total_size [] = 0
total_size (ch ∷ chunks) = length ch.contents + total_size chunks

-- The attempts behind the first one that the policy of the client allows.
abbrev pub retries : ℕ
retries = 3

module _ (n : Network) where
  -- retryPolicy.do with the policy of the client, four attempts: the number is that of the attempts
  -- behind the first one.
  unfoldable pub try_call :
      {A : Type 0}
      → ℕ
      → (n.World → n.World × Result CallError A)
      → n.World
      → n.World × Result CallError A
  try_call zero op w = op w
  try_call (suc more) op w =
      let (w', r) = op w in
      let (rested, over) = n.pause w' in
      let again = try_call more op rested in
      elim r [
        | ok a ↦ (w', ok a)
        | err e ↦
            if not (is_transient e)
            then (w', err e)
            else if over
            then (rested, err context_done)
            else again
      ]

  -- The loop of callMaster and callAdmin.
  unfoldable pub call_master :
      {A : Type 0}
      → List String
      → (String → n.World → n.World × Result CallError A)
      → Option ClientError
      → n.World
      → n.World × Result ClientError A
  unfolding try_call
  call_master [] fn last w = (w, err (last_or no_master last))
  call_master (addr ∷ addrs) fn last w = elim (n.ended w) [
    | true ↦ (w, err (rpc_failed context_done))
    | false ↦ elim (n.connects w addr) [
      | false ↦ call_master addrs fn (some cannot_connect) w
      | true ↦
          let (w', r) = try_call retries (fn addr) w in
          elim r [
            | ok a ↦ (w', ok a)
            | err e ↦ elim (is_transient e) [
              | false ↦ (w', err (rpc_failed e))
              | true ↦ call_master addrs fn (some (rpc_failed e)) w'
            ]
          ]
    ]
  ]

  -- What the retried call gives, in the client's errors.
  abbrev pub as_client :
      {A : Type 0} → n.World × Result CallError A → n.World × Result ClientError A
  as_client (w, ok a) = (w, ok a)
  as_client (w, err e) = (w, err (rpc_failed e))

  unfoldable pub write_chunk_to :
      List NodeInfo → Chunk → n.World → n.World × Result ClientError (Unit {0})
  unfolding addresses try_call
  write_chunk_to [] ch w = (w, err no_chunk_server)
  write_chunk_to (primary ∷ others) ch w =
      if n.connects w primary.address
      then as_client (
          try_call retries
            (λ v. n.send_chunk v primary.address ch.id ch.contents (addresses others)) w)
      else (w, err cannot_connect)

  -- The loop of Put over the chunks and their placements, of which there are as many.
  unfoldable pub write_chunks :
      List ChunkLocation → List Chunk → n.World → n.World × Result ClientError (Unit {0})
  unfolding write_chunk_to
  write_chunks [] chunks w = (w, ok tt)
  write_chunks (place ∷ plan) [] w = (w, ok tt)
  write_chunks (place ∷ plan) (ch ∷ chunks) w =
      let (w', r) = write_chunk_to place.nodes ch w in
      let rest = write_chunks plan chunks w' in elim r [ err e ↦ (w', err e) | ok _ ↦ rest ]

  module _ (hash : List ℕ → String) where
    -- Put, behind the plan of the master.
    unfoldable pub upload :
        Client
        → List Chunk
        → Text
        → List ChunkLocation
        → n.World
        → n.World × Result ClientError (Unit {0})
    unfolding write_chunks call_master chunk_ids total_size
    upload c chunks path plan w =
        if not (length plan == length chunks)
        then (w, err wrong_plan)
        else let (w', r) = write_chunks plan chunks w in
          elim r [
            | err e ↦ (w', err e)
            | ok _ ↦
                call_master c.master_addrs
                  (λ addr v. n.finalize_write v addr path (chunk_ids chunks) (total_size chunks))
                  none w'
          ]

    unfoldable pub put_file :
        Client → List ℕ → Text → n.World → n.World × Result ClientError (Unit {0})
    unfolding upload
    put_file c input path w =
        let chunks = split_chunks hash input c.chunk_size in
        let (w', r) =
          call_master c.master_addrs (λ addr v. n.open_for_write v addr path (chunk_ids chunks))
            none w in
        elim r [ err e ↦ (w', err e) | ok plan ↦ upload c chunks path plan w' ]

    -- The loop of readChunk over the replicas.
    unfoldable pub read_replicas :
        String
        → List NodeInfo
        → Option ClientError
        → n.World
        → n.World × Result ClientError (List ℕ)
    unfolding try_call
    read_replicas id [] last w = (w, err (last_or no_replicas last))
    read_replicas id (node ∷ nodes) last w = elim (n.connects w node.address) [
      | false ↦ read_replicas id nodes (some cannot_connect) w
      | true ↦
          let (w', r) = try_call retries (λ v. n.fetch_chunk v node.address id) w in
          elim r [
            | err e ↦ read_replicas id nodes (some (rpc_failed e)) w'
            | ok contents ↦ elim (verify_chunk hash id contents) [
              | false ↦ read_replicas id nodes (some bad_checksum) w'
              | true ↦ (w', ok contents)
            ]
          ]
    ]

    -- The loop of Get over the chunks. The bytes come with the error: they are in the local file.
    unfoldable pub read_chunks :
        List String → List ChunkLocation → List ℕ → n.World → n.World × List ℕ × Option ClientError
    unfolding read_replicas
    read_chunks [] locations out w = (w, out, none)
    read_chunks (id ∷ ids) [] out w = (w, out, some missing_location)
    read_chunks (id ∷ ids) (loc ∷ locations) out w =
        let (w', r) = read_replicas id loc.nodes none w in
        elim r [
          | err e ↦ (w', out, some e)
          | ok contents ↦ read_chunks ids locations (out ++ contents) w'
        ]

    unfoldable pub get_file : Client → Text → n.World → n.World × List ℕ × Option ClientError
    unfolding read_chunks call_master
    get_file c path w =
        let (w', r) = call_master c.master_addrs (λ addr v. n.open_for_read v addr path) none w in
        elim r [
          | err e ↦ (w', [], some e)
          | ok (file, locations) ↦ read_chunks file.chunk_ids locations [] w'
        ]

  unfoldable pub stat_remote : Client → Text → n.World → n.World × Result ClientError FileReply
  unfolding call_master
  stat_remote c path w = call_master c.master_addrs (λ addr v. n.stat_path v addr path) none w

  unfoldable pub list_remote :
      Client → Text → n.World → n.World × Result ClientError (List FileReply)
  unfolding call_master
  list_remote c path w = call_master c.master_addrs (λ addr v. n.list_path v addr path) none w

  unfoldable pub delete_remote : Client → Text → n.World → n.World × Result ClientError (Unit {0})
  unfolding call_master
  delete_remote c path w = call_master c.master_addrs (λ addr v. n.delete_path v addr path) none w

  unfoldable pub status_remote : Client → n.World → n.World × Result ClientError StatusReply
  unfolding call_master
  status_remote c w = call_master c.master_addrs (λ addr v. n.cluster_state v addr) none w
