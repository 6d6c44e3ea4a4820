-- ===== src/Raft/Log.antt =====
-- internal/raft/log.go: the in-memory log, whose entries up to `snap_index` are compacted. An
-- offset is computed behind a test that puts the index above `snap_index`, so `-` is exact.
pub mod Shape
pub mod Access
pub mod Splice
pub mod Merge
use vault_fs.Base.{
  ℕ, suc, ◌+◌, ◌-◌, ◌≡◌, Bool, true, false, ◌||◌, Option, none, some, List, [], ◌∷◌, ◌++◌, Result,
  ok, err, ltb, leb, ◌==◌, if◌then◌else◌, length, get_elem?, take, drop,
}
use vault_fs.Raft.Types.{Entry}

pub record RaftLog : Type 0 where
  pub entries : List Entry
  pub snap_index : ℕ
  pub snap_term : ℕ

pub data LogError : Type 0 where
  compacted index_not_found : LogError

unfoldable pub new_raft_log : RaftLog
new_raft_log = record { entries = []; snap_index = 0; snap_term = 0 }

-- l.entries[len(l.entries)-1]
unfoldable pub last_entry : List Entry → Option Entry
last_entry [] = none
last_entry (e ∷ []) = some e
last_entry (e ∷ f ∷ es) = last_entry (f ∷ es)

unfoldable pub last_index : RaftLog → ℕ
last_index l = elim (last_entry l.entries) [ none ↦ l.snap_index | some e ↦ e.index ]

unfoldable pub last_term : RaftLog → ℕ
last_term l = elim (last_entry l.entries) [ none ↦ l.snap_term | some e ↦ e.term ]

-- l.entries[offset].Term behind the bounds test
abbrev pub entry_term : Option Entry → Result LogError ℕ
entry_term none = err index_not_found
entry_term (some e) = ok e.term

unfoldable pub term : RaftLog → ℕ → Result LogError ℕ
term l index =
    if index == 0
    then ok 0
    else if index == l.snap_index
    then ok l.snap_term
    else if ltb index l.snap_index
    then err compacted
    else entry_term (get_elem? l.entries (index - l.snap_index - 1))

unfoldable pub append : RaftLog → List Entry → RaftLog
append l es = record l { entries = l.entries ++ es }

unfoldable pub truncate_after : RaftLog → ℕ → RaftLog
truncate_after l index =
    if leb index l.snap_index
    then record l { entries = [] }
    else let offset = index - l.snap_index - 1 in
      if ltb offset (length l.entries) then record l { entries = take offset l.entries } else l

unfoldable pub slice : RaftLog → ℕ → ℕ → List Entry
slice l from to =
    if leb to from || leb from l.snap_index || length l.entries == 0
    then []
    else let from_off = from - l.snap_index - 1 in
      let to_off = to - l.snap_index - 1 in
      if leb (length l.entries) from_off
      then []
      else let end = if ltb (length l.entries) to_off then length l.entries else to_off in
        take (end - from_off) (drop from_off l.entries)

unfoldable pub set_snapshot : RaftLog → ℕ → ℕ → RaftLog
set_snapshot l index snap_term =
    if leb index l.snap_index
    then l
    else let offset = index - l.snap_index in
      let remaining = if leb (length l.entries) offset then [] else drop offset l.entries in
      record { entries = remaining; snap_index = index; snap_term = snap_term }

unfoldable pub len : RaftLog → ℕ
len l = length l.entries

-- The loop of HandleAppendEntries over `args.Entries`: keep what matches, and from the first entry
-- that is missing or differs append the rest.
unfoldable pub append_new : RaftLog → List Entry → RaftLog
unfolding append truncate_after
append_new l [] = l
append_new l (e ∷ es) = elim (term l e.index) [
  | err _ ↦ append l (e ∷ es)
  | ok existing ↦
      let rest = append_new l es in
      if existing == e.term then rest else append (truncate_after l e.index) (e ∷ es)
]
