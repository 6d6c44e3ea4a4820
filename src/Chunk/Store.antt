-- ===== src/Chunk/Store.antt =====
-- internal/chunk/hasher.go and store.go. The digest is an argument: nothing here depends on which
-- function it is. The directory is a map from the names of chunk files to their bytes; temporary
-- files are not in it, and the calls of package os succeed. A context is whether it is cancelled.
pub mod Access
use Prim.Native.Char.{code}
use Prim.Native.String
use vault_fs.Base.{
  ℕ, ◌<◌, String, Bool, true, false, not, ◌&&◌, ◌||◌, Option, none, some, List, [], ◌∷◌, Result, ok,
  err, ltb, leb, ◌==◌, if◌then◌else◌, length, str_eq,
}
use vault_fs.GoMap.{Map, lookup, insert, erase, contains}

-- The bytes of a name that is ASCII.
abbrev pub bytes_of : String → List ℕ
bytes_of String.[] = []
bytes_of (String.◌∷◌ c s) = code c ∷ bytes_of s

-- The loop of Valid: digits and the letters from a to f.
abbrev pub all_hex : List ℕ → Bool
all_hex [] = true
all_hex (c ∷ cs) =
    let rest = all_hex cs in
    if not (leb 48 c && leb c 57) && not (leb 97 c && leb c 102) then false else rest

unfoldable pub valid : String → Bool
valid id = if not (length (bytes_of id) == 64) then false else all_hex (bytes_of id)

-- `out_of_range` is the panic of `id[:fanoutLen]`.
pub data StoreError : Type 0 where
  cancelled chunk_not_found checksum_failed out_of_range : StoreError

pub record Store : Type 0 where
  pub files : Map (List ℕ)
  pub writing : Map Bool

abbrev pub new_store : Store
new_store = record { files = []; writing = [] }

-- path: the name stands for the file, but it must have two characters.
abbrev pub has_path : String → Bool
has_path id = leb 2 (length (bytes_of id))

abbrev pub verify : (List ℕ → String) → String → List ℕ → Bool
verify hash id contents = str_eq (hash contents) id

-- WriteChunk under the lock; `none` if another goroutine writes the chunk.
unfoldable pub begin_write : Store → String → Option Store
begin_write s id =
    if contains id s.writing then none else some (record s { writing = insert id true s.writing })

-- WriteChunk behind the lock.
unfoldable pub finish_write : Store → String → List ℕ → Store
finish_write s id contents =
    let s' = record s { writing = erase id s.writing } in
    if contains id s.files then s' else record s' { files = insert id contents s.files }

unfoldable pub write_chunk :
    (List ℕ → String) → Bool → Store → List ℕ → Store × Result StoreError String
write_chunk hash done s contents =
    let id = hash contents in
    if done
    then (s, err cancelled)
    else if not (has_path id)
    then (s, err out_of_range)
    else elim (begin_write s id) [
      | none ↦ (s, ok id)
      | some s' ↦ (finish_write s' id contents, ok id)
    ]

unfoldable pub read_chunk : (List ℕ → String) → Bool → Store → String → Result StoreError (List ℕ)
read_chunk hash done s id =
    if done
    then err cancelled
    else if not (has_path id)
    then err out_of_range
    else elim (lookup id s.files) [
      | none ↦ err chunk_not_found
      | some contents ↦ if verify hash id contents then ok contents else err checksum_failed
    ]

unfoldable pub delete_chunk : Bool → Store → String → Store × Option StoreError
delete_chunk done s id =
    if done
    then (s, some cancelled)
    else if not (has_path id)
    then (s, some out_of_range)
    else (record s { files = erase id s.files }, none)

abbrev pub has : Store → String → Bool
has s id = contains id s.files

-- The walk of ListChunks.
unfoldable pub valid_names : Map (List ℕ) → List String
valid_names [] = []
valid_names ((name, contents) ∷ files) =
    let rest = valid_names files in if valid name then name ∷ rest else rest

unfoldable pub list_chunks : Store → List String
unfolding valid_names
list_chunks s = valid_names s.files

abbrev pub count_chunks : Store → ℕ
count_chunks s = length (list_chunks s)
