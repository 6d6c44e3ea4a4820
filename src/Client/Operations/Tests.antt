-- ===== src/Client/Operations/Tests.antt =====
-- The client of a cluster with one master, a chunk server that gives back rubbish and a good one.
use vault_fs.Base.{
  ℕ, String, true, false, List, [], ◌∷◌, none, ok, err, inl, inr, ◌≡◌, refl, text_eq, chars, In,
  arith, str_eq, if◌then◌else◌, text_eq_iff, eq_iff,
}
use vault_fs.Master.Examples.{n1, n2}
use vault_fs.Master.Requests.{FileReply}
use vault_fs.Master.Reads.{ChunkLocation}
use vault_fs.Client.File.{split_chunks, split_from, verify_chunk}
use vault_fs.Client.Retry.{unavailable}
use vault_fs.Client.Operations.{
  Network, Client, chunk_ids, total_size, try_call, call_master, write_chunk_to, write_chunks,
  upload, put_file, read_replicas, read_chunks, get_file,
}
use vault_fs.Client.Operations.Reading.{NoCollision, get_file_lem}
use vault_fs.Client.Operations.Fallback.{Serves, read_replicas_lem}
use vault_fs.Client.Operations.Durable.{Durable, AllStored, put_file_lem}

abbrev digest : List ℕ → String
digest bytes = if text_eq bytes (1 ∷ 2 ∷ []) then "c1" else "other"

abbrev reply : FileReply
reply = record {
  path = chars "/f";
  is_dir = false;
  size = 2;
  chunk_ids = "c1" ∷ [];
  mode = 0;
  created_at_unix = none;
  updated_at_unix = none;
}

abbrev place : ChunkLocation
place = record { chunk_id = "c1"; nodes = n1 ∷ n2 ∷ [] }

-- The world is the list of the chunks that servers have stored.
abbrev net : Network
net = record {
  World = List (String × String);
  ended = λ w. false;
  pause = λ w. (w, false);
  connects = λ w addr. true;
  open_for_write = λ w addr path ids. (w, ok (place ∷ []));
  finalize_write = λ w addr path ids size. (w, ok tt);
  open_for_read = λ w addr path. (w, ok (reply, place ∷ []));
  stat_path = λ w addr path. (w, ok reply);
  list_path = λ w addr path. (w, ok (reply ∷ []));
  delete_path = λ w addr path. (w, ok tt);
  cluster_state = λ w addr. (w, err unavailable);
  send_chunk = λ w addr id contents rest. ((addr, id) ∷ w, ok tt);
  fetch_chunk = λ w addr id. (w, ok (if str_eq addr "a2" then 1 ∷ 2 ∷ [] else 0 ∷ []));
}

abbrev client : Client
client = record { master_addrs = "m" ∷ []; chunk_size = 4 }

abbrev Stored : List (String × String) → String → String → Type 0
Stored w at k = In (at, k) w

durable : Durable net Stored
durable = record {
  stores = λ v addr id contents rest e. inl refl;
  keeps_send = λ at k addr id contents rest v s. inr s;
  keeps_finalize = λ at k addr path ids size v s. s;
  keeps_pause = λ at k v s. s;
}

put_run : (put_file net digest client (1 ∷ 2 ∷ []) (chars "/f") []).1 ≡ ok tt
unfolding put_file upload call_master try_call write_chunks write_chunk_to split_chunks split_from
put_run = refl

put_example :
    (addr : String) × (v : List (String × String)) × In addr ("m" ∷ [])
    × AllStored net Stored (split_chunks digest (1 ∷ 2 ∷ []) 4) v
    × ((net.finalize_write v addr
          (chars "/f")
          (chunk_ids (split_chunks digest (1 ∷ 2 ∷ []) 4))
          (total_size (split_chunks digest (1 ∷ 2 ∷ []) 4))).1
        ≡ ok tt)
put_example = put_file_lem net Stored digest client (1 ∷ 2 ∷ []) (chars "/f") [] durable put_run

abbrev got : List ℕ
got = (get_file net digest client (chars "/f") []).1

get_run : get_file net digest client (chars "/f") [] ≡ ([], got, none)
unfolding get_file call_master try_call read_chunks read_replicas verify_chunk
get_run = refl

one_chunk :
    (addr : String) (v : List (String × String)) (file : FileReply) (locations : List ChunkLocation)
    → In addr ("m" ∷ [])
    → (net.open_for_read v addr (chars "/f")).1 ≡ ok (file, locations)
    → file.chunk_ids ≡ chunk_ids (split_chunks digest (1 ∷ 2 ∷ []) 4)
unfolding split_chunks split_from chunk_ids
one_chunk addr v file locations i e = ground arith

only_one : (other : List ℕ) → digest other ≡ "c1" → other ≡ 1 ∷ 2 ∷ []
only_one other e = ground (arith, text_eq_iff other (1 ∷ 2 ∷ []), eq_iff "other" "c1")

no_collision : NoCollision net digest (split_chunks digest (1 ∷ 2 ∷ []) 4)
unfolding split_chunks split_from
no_collision = (only_one, tt)

get_example : (get_file net digest client (chars "/f") []).1 ≡ 1 ∷ 2 ∷ []
get_example =
    get_file_lem net digest client 4 (chars "/f") (1 ∷ 2 ∷ []) got [] [] one_chunk no_collision
      get_run

serves : Serves net digest "c1" (1 ∷ 2 ∷ []) n2
serves = record { reached = λ v. refl; answers = λ v. refl }

fallback_example :
    (bytes : List ℕ) × ((read_replicas net digest "c1" (n1 ∷ n2 ∷ []) none []).1 ≡ ok bytes)
    × (digest bytes ≡ "c1")
fallback_example =
    read_replicas_lem net digest "c1" (1 ∷ 2 ∷ []) n2 (n1 ∷ n2 ∷ []) none [] (inr (inl refl)) serves
      refl
